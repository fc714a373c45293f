-- ===== src/Runtime/Errors.antt =====
-- exceptions.py, and the other exceptions that the code raises or catches. Texts are left out.
use django_boundary.Prelude.{String}

pub data Exception : Type 0 where
  tenant_not_set tenant_resolution tenant_inactive tenant_not_found : Exception
  region_not_configured admin_bypass_not_active rls_not_enforced adoption_refused : Exception
  database_error value_error type_error validation_error command_error : Exception
  -- raised by code that is not boundary's
  foreign : String → Exception
