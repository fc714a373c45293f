-- ===== src/Migrations/Adopt/Outcome.antt =====
-- migrations_ops.py: what an adoption can come to once its tables have passed the validation.
use django_boundary.Prelude.{string_eq, nat_eq}
