-- ===== src/Tests/ContextWitnesses.antt =====
-- The context, the bypass and the aliases on the samples.
use django_boundary.Conf.{
  wrap_atomic, set_db_session_var, admin_flag_var, regions, region_field, db_session_var,
}
use django_boundary.Context.Session.{is_postgresql}
use django_boundary.Prelude.Dict.{lookup}
use django_boundary.Prelude.{String, ◌≡◌, ◌⊎◌, ap, refl, some, string_eq}
use django_boundary.Runtime.{return, Action}
use django_boundary.Context.Aliases.{aliases_for}
use django_boundary.Context.Session.Writes.{session_variable}
use django_boundary.Context.Tenant.{set, using_tenant}
use django_boundary.Context.Tenant.Restore.{using_tenant-restored, using_tenant-enforces}
use django_boundary.Context.Bypass.{admin_bypass}
use django_boundary.Context.Bypass.Laws.{Refused, admin_bypass_outcome, admin_bypass-flag}
use django_boundary.Tests.InMemory.{Memory, memory, memory-IsPostgres, memory-Answers}
use django_boundary.Tests.{settings, acme, autocommit, in_transactions, world, under_brown}

-- A body that returns the session variable of an alias.
abbrev read_tenant : String → Action Memory String
read_tenant alias w = (return (session_variable settings memory w.db alias), w)

-- A body that returns the flag of the admin bypass.
abbrev read_flag : Action Memory String
read_flag w = (return (w.db.vars "default" "app.boundary_admin"), w)

-- The scope of `acme` reaches its region under autocommit.
using_tenant-enforces_example :
    (using_tenant settings memory (some acme) "default" (read_tenant "eu") (world autocommit)).0
    ≡ return "1"
unfolding wrap_atomic set_db_session_var is_postgresql aliases_for regions region_field lookup
    string_eq
using_tenant-enforces_example =
    using_tenant-enforces settings memory memory-IsPostgres memory-Answers refl "eu" refl refl acme
      "default" (read_tenant "eu") (world autocommit) "1" refl
      (λ v active in_block holds. ap return holds)

using_tenant-restored_example :
    session_variable settings memory
      (using_tenant settings memory
        (some acme)
        "default"
        (read_tenant "default")
        (under_brown in_transactions)).1.db
      "default"
    ≡ "2"
unfolding set_db_session_var db_session_var is_postgresql aliases_for regions region_field lookup
    string_eq set django_boundary.Context.Session.set_all
using_tenant-restored_example =
    using_tenant-restored settings memory memory-IsPostgres memory-Answers refl "default" refl
      (some acme) "default" (read_tenant "default") (under_brown in_transactions) (λ b h. refl) refl

admin_bypass_outcome_example :
    let r = (admin_bypass settings memory "default" read_flag (world autocommit)).0 in
    (r ≡ return "true") ⊎ Refused settings memory {A = String} r
unfolding is_postgresql admin_flag_var string_eq
admin_bypass_outcome_example =
    admin_bypass_outcome settings memory memory-IsPostgres "default" read_flag "true"
      (λ v flag. ap return flag) (world autocommit) refl

admin_bypass-flag_example :
    (admin_bypass settings memory "default" read_flag (world in_transactions)).1.db.vars "default"
      "app.boundary_admin"
    ≡ ""
unfolding is_postgresql admin_flag_var lookup string_eq
admin_bypass-flag_example =
    admin_bypass-flag settings memory memory-IsPostgres memory-Answers "default" read_flag
      (λ v deep in_block flag. (in_block, flag)) (world in_transactions) refl refl
