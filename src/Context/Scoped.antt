-- ===== src/Context/Scoped.antt =====
-- context.py: the wrapper of `tenant_scoped`. `inspect.signature` binds the arguments: they come as a
-- dict by name, defaults applied, each a tenant instance or `None`.
use django_boundary.Prelude.{String, Option, none, some, if◌then◌else◌}
use django_boundary.Prelude.Dict.{Dict, lookup}
use django_boundary.Conf.{Settings, is_truthy, setting, tenant_fk_field}
use django_boundary.Runtime.{Tenant, raise, type_error, Action}
use django_boundary.Runtime.Database.{Database}
use django_boundary.Context.Tenant.{using_tenant}

module _ (cfg : Settings) (D : Database) {A : Type 0} where
  unfoldable tenant_scoped :
      Option String
      → (Dict (Option Tenant) → Action D.State A)
      → Dict (Option Tenant)
      → Action D.State A
  tenant_scoped tenant_arg func arguments w =
      let arg_name = if is_truthy tenant_arg then setting tenant_arg "" else tenant_fk_field cfg in
      elim (lookup arg_name arguments) [
        | none ↦ (raise type_error, w)
        | some tenant ↦ using_tenant cfg D tenant "default" (func arguments) w
      ]
