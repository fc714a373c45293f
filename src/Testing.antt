-- ===== src/Testing.antt =====
-- testing.py: tenants for tests, and the proof that row-level security is enforced for a connection.
use django_boundary.Prelude.{
  ℕ, zero, suc, ◌+◌, ◌≤◌, String, ◌<>◌, ◌≡◌, ◌≢◌, ◌↔◌, ◌⊎◌, inl, inr, refl, sym, ap, ◌∙◌, Bool,
  true, false, not, ◌&&◌, ◌||◌, Option, none, some, List, [], ◌∷◌, ◌++◌, map, arith, ◌==◌,
  string_eq, nat_eq, if◌then◌else◌, Bool-cases, Option-cases, leb, contains, length, Distinct,
  Among, Among-append,
}
pub mod Enforced
pub mod Agrees
use Prim.Native.String.{[], ◌∷◌}
use django_boundary.Prelude.Dict.{Dict, lookup, update}
use django_boundary.Conf.{Settings, setting, is_truthy}
use django_boundary.Runtime.{
  Tenant, Exception, Result, return, raise, foreign, rls_not_enforced, World, Action, and_then,
  ◌>>=◌,
}
use django_boundary.Runtime.Database.{Database}
use django_boundary.Context.Tenant.{using_tenant}
use django_boundary.Adoption.{AppModel, Project, get_tenant_model}
use django_boundary.Checks.{expected_adopted_tables}
use django_boundary.Checks.Catalogue.{
  Catalogue, Deployment, project_of, column_bearing, unseen_tables,
}

-- `s[:n]`
unfoldable take : ℕ → String → String
take zero s = []
take (suc n) [] = []
take (suc n) (x ∷ s) = x ∷ take n s

-- `tenant_factory`, with the digits of two calls of `uuid.uuid4()` and `objects.create` of the model
unfoldable factory_defaults : (hex_of_name hex_of_slug : String) → Dict String
factory_defaults hex_of_name hex_of_slug =
    ("name", "Test Tenant " <> take 6 hex_of_name) ∷ ("slug", "test-" <> take 8 hex_of_slug) ∷ []

unfoldable tenant_factory :
    {Db : Type 0}
    → Project
    → (create : AppModel → Dict String → Action Db Tenant)
    → (hex_of_name hex_of_slug : String) (kwargs : Dict String) → Action Db Tenant
unfolding factory_defaults
tenant_factory project create hex_of_name hex_of_slug kwargs =
    and_then (get_tenant_model project)
      (λ model. create model (update (factory_defaults hex_of_name hex_of_slug) kwargs))

-- What a test did, which the runner keeps.
abbrev keep_outcome : {Db : Type 0} → Action Db Unit → Action Db (Result Unit)
keep_outcome body w = let (outcome, w') = body w in (return outcome, w')

module _ (cfg : Settings) (D : Database) where
  -- `with set_tenant(tenant): body`
  unfoldable set_tenant : {A : Type 0} → Tenant → (Tenant → Action D.State A) → Action D.State A
  set_tenant tenant body = using_tenant cfg D (some tenant) "default" (body tenant)

  -- `call_view`: `request` is what `RequestFactory` makes, and `view` is `view_cls.as_view()` with the
  -- URL's arguments.
  unfoldable call_view :
      {Request Response : Type 0}
      → Request
      → (view : Request → Action D.State Response) → Tenant
      → Action D.State Response
  call_view request view tenant = using_tenant cfg D (some tenant) "default" (view request)

  -- A test method of `TenantTestMixin` between `setUp` and `tearDown`. The scope is left without an
  -- exception whatever the test did.
  unfoldable run_test :
      (make_tenant : Action D.State Tenant)
      → (test : Tenant → Action D.State Unit) → Action D.State (Result Unit)
  run_test make_tenant test w =
      (do
        tenant ← make_tenant
        using_tenant cfg D (some tenant) "default" (keep_outcome (test tenant)))
        w

-- The loop over tables of `assert_rls_enforced`: `none` where it returned because a table is enforced,
-- else whether a table was checked.
unfoldable pub assert_tables :
    Catalogue → (checked_any_table : Bool) → List String → Result (Option Bool)
assert_tables c checked_any_table [] = return (some checked_any_table)
assert_tables c checked_any_table (table ∷ tables) =
    let skipped = assert_tables c checked_any_table tables in
    let rest = assert_tables c true tables in
    elim (c.row_security table) [
      | raise e ↦ raise e
      | return none ↦ skipped
      | return (some (enabled, forced)) ↦ if enabled && forced then return none else rest
    ]

-- After the loop
abbrev verdict : Option Bool → Result Unit
verdict none = return tt
verdict (some checked_any_table) = if checked_any_table then raise rls_not_enforced else return tt

module _ (d : Deployment) where
  -- The generator `_rls_probe_targets` asks for the adopted tables only where the loop has gone through
  -- the others.
  unfoldable pub assert_targets : Catalogue → Result Unit
  unfolding assert_tables
  assert_targets c =
      let seen = column_bearing d.registry d.models in
      elim (assert_tables c false seen) [
        | raise e ↦ raise e
        | return none ↦ return tt
        | return (some checked_any_table) ↦ elim (expected_adopted_tables (project_of d)) [
          | raise e ↦ raise e
          | return tables ↦ elim (assert_tables c checked_any_table (unseen_tables seen tables)) [
            | raise e ↦ raise e
            | return left ↦ verdict left
          ]
        ]
      ]

  -- `assert_rls_enforced`: `vendor` is that of the alias, and `connect` is `psycopg.connect`, with what
  -- the queries on that connection answer.
  unfoldable pub assert_rls_enforced :
      (vendor : String) → (connect : Result Catalogue) → Result Unit
  unfolding assert_targets
  assert_rls_enforced vendor connect =
      if not (vendor == "postgresql") then return tt else elim connect [
        | raise e ↦ raise e
        | return c ↦ elim c.role [
          | raise e ↦ raise e
          | return none ↦ assert_targets c
          | return (some (super, bypass)) ↦
              if super || bypass then raise rls_not_enforced else assert_targets c
        ]
      ]

  -- `pytest.exit` raises `Exit`.
  abbrev exit_run : Result Unit → Result Unit
  exit_run (raise rls_not_enforced) = raise (foreign "Exit")
  exit_run r = r

  unfoldable rls_enforced : (vendor : String) → (connect : Result Catalogue) → Result Unit
  unfolding assert_rls_enforced
  rls_enforced vendor connect = exit_run (assert_rls_enforced vendor connect)

-- The statements of `provision_rls_test_role`
pub data RoleStatement : Type 0 where
  create_role : (role password : String) → RoleStatement
  grant_connect : (database role : String) → RoleStatement
  grant_usage : (role : String) → RoleStatement

pub record ConnectionParams : Type 0 where
  pub host : Option String
  pub port : Option ℕ
  pub dbname : String
  pub user : String
  pub password : String

-- A server: a connection, which may fail, whether a role is there, and a statement run on the
-- connection, which commits it
pub record Server : Type 1 where
  pub State : Type 0
  pub connect : ConnectionParams → Result Unit
  pub role_exists : String → State → Bool
  pub run : RoleStatement → State → Result Unit × State

module _ (V : Server) where
  abbrev run_all_statements : List RoleStatement → V.State → Result Unit × V.State
  run_all_statements [] s = (return tt, s)
  run_all_statements (statement ∷ statements) s =
      let (done, s') = V.run statement s in
      let rest = run_all_statements statements s' in
      elim done [ raise e ↦ (raise e, s') | return _ ↦ rest ]

  abbrev role_statements : (exists : Bool) (role password database : String) → List RoleStatement
  role_statements exists role password database =
      (if exists then [] else create_role role password ∷ [])
      ++ grant_connect database role ∷ grant_usage role ∷ []

  -- `none` is the empty dict of a backend that is not PostgreSQL.
  unfoldable provision_rls_test_role :
      (vendor : String) (bootstrap : ConnectionParams) (role password : String)
      (database : Option String)
      → V.State
      → Result (Option ConnectionParams) × V.State
  provision_rls_test_role vendor bootstrap role password database s =
      if not (vendor == "postgresql")
      then (return none, s)
      else (let dbname = (if is_truthy database then setting database "" else bootstrap.dbname) in
          let (done, s') =
            run_all_statements (role_statements (V.role_exists role s) role password dbname) s in
          elim (V.connect bootstrap) [
            | raise e ↦ (raise e, s)
            | return _ ↦ elim done [
              | raise e ↦ (raise e, s')
              | return _ ↦ (
                return (
                    some (record {
                      host = some (setting bootstrap.host "localhost");
                      port = some (setting bootstrap.port 5432);
                      dbname = dbname;
                      user = role;
                      password = password;
                    })),
                s',
              )
            ]
          ])
