-- ===== src/Runtime/Lookup.antt =====
-- What `Model.objects.get` of Django's ORM answers.
use django_boundary.Runtime.Errors.{Exception}

pub data Lookup (A : Type 0) : Type 0 where
  found : A → Lookup A
  does_not_exist : Lookup A
  -- any other exception
  failed : Exception → Lookup A
