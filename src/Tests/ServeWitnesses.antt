-- ===== src/Tests/ServeWitnesses.antt =====
-- The middleware, the tasks, the router and boundary_run_all on the samples.
use django_boundary.Prelude.{
  arith, String, ◌≡◌, ap, refl, true, none, some, List, [], ◌∷◌, contains, string_eq, if◌then◌else◌,
  ◌==◌, false,
}
use django_boundary.Conf.{wrap_atomic, set_db_session_var}
use django_boundary.Runtime.{Tenant, foreign, return, raise, Action}
use django_boundary.Runtime.Lookup.{Lookup, found, does_not_exist}
use django_boundary.Runtime.Requests.{Request, Resolver}
use django_boundary.Context.Session.{is_postgresql}
use django_boundary.Context.Session.Writes.{session_variable}
use django_boundary.Context.Aliases.{aliases_for}
use django_boundary.Middleware.{Response, view_response, forbidden, resolve_tenant, call}
use django_boundary.Middleware.Gate.{call_refuses, call-enforces, call-local}
use django_boundary.Tasks.{dispatch_headers, run_task}
use django_boundary.Tasks.RoundTrip.{run_task-dispatch_headers}
use django_boundary.Routing.{route}
use django_boundary.Routing.Agreement.{route-mem-aliases_for}
use django_boundary.Commands.{Tenants}
use django_boundary.Commands.RunAll.{
  Line, Services, RunAllOptions, Written, run_all, run_all-Written,
}
use django_boundary.Commands.Runs.{Answered}
use django_boundary.Tests.InMemory.{Memory, memory, memory-IsPostgres, memory-Answers}
use django_boundary.Tests.{settings, acme, brown, autocommit, world, under_brown, request}

-- Resolvers that find a tenant, find none, and raise.
abbrev finds : Tenant → Resolver Memory
finds t = ("app.finds", λ req w. (return (some t), w))

-- Views that answer the session variable of an alias.
abbrev view_tenant : String → Request → Action Memory Response
view_tenant alias req w = (return (view_response (session_variable settings memory w.db alias)), w)

abbrev view_nothing : Request → Action Memory Response
view_nothing req w = (return (view_response ""), w)

abbrev ViewAnswers : Resolver Memory → Response → Type 0
ViewAnswers resolver response =
    (call settings memory (view_tenant "default") (resolver ∷ []) request (world autocommit)).0
    ≡ return response

call-enforces_example : ViewAnswers (finds acme) (view_response "1")
unfolding resolve_tenant wrap_atomic set_db_session_var is_postgresql string_eq
call-enforces_example =
    call-enforces settings memory memory-IsPostgres memory-Answers (finds acme ∷ []) request
      (world autocommit) acme "app.finds" refl refl (view_tenant "default") (view_response "1") refl
      refl refl (λ req v active in_block holds. ap (λ s. return (view_response s)) holds)

call_refuses_example :
    let (answer, after) =
      call settings memory (view_tenant "default") (finds brown ∷ []) request (world autocommit) in
    (answer ≡ return forbidden)
    × (call settings memory view_nothing (finds brown ∷ []) request (world autocommit)
        ≡ (answer, after))
    × (after.current_tenant ≡ none)
    × (after.db ≡ autocommit)
unfolding resolve_tenant
call_refuses_example =
    call_refuses settings memory (finds brown ∷ []) request (world autocommit)
      (view_tenant "default") view_nothing refl

-- The region of `acme` sees no tenant.
call-local_example :
    (call settings memory (view_tenant "eu") (finds acme ∷ []) request (world autocommit)).0
    ≡ return (view_response "")
unfolding resolve_tenant
call-local_example =
    call-local settings memory memory-IsPostgres memory-Answers (finds acme ∷ []) request
      (world autocommit) acme "app.finds" refl refl (view_tenant "eu") (view_response "") "eu"
      (λ h. cc) refl (λ req v active holds. ap (λ s. return (view_response s)) holds)

abbrev get_pk : String → Lookup Tenant
get_pk pk = if pk == "1" then found acme else if pk == "2" then found brown else does_not_exist

-- A task that returns the session variable.
abbrev task : Action Memory String
task w = (return (session_variable settings memory w.db "default"), w)

run_task-dispatch_headers_example :
    (run_task settings memory get_pk
      (some (dispatch_headers settings none (under_brown autocommit)))
      task
      (world autocommit)).0
    ≡ return "2"
unfolding wrap_atomic set_db_session_var is_postgresql string_eq
run_task-dispatch_headers_example =
    run_task-dispatch_headers settings memory memory-IsPostgres memory-Answers refl refl refl get_pk
      brown (under_brown autocommit) none task "2" (world autocommit) refl (λ h. cc) refl
      (λ v active in_block holds. ap return holds)

route-mem-aliases_for_example :
    contains
      (aliases_for settings (some brown) "eu")
      (route settings true (under_brown autocommit)).0
    ≡ true
route-mem-aliases_for_example =
    route-mem-aliases_for settings "eu" true (under_brown autocommit) refl

abbrev eu : String
eu = "eu"

abbrev tenants : Tenants
tenants = record { get_pk = get_pk; get_slug = λ slug. does_not_exist }

abbrev command : Action Memory Unit
command w = (raise (foreign "CommandError"), w)

tenants-Answered : Answered settings memory tenants ("1" ∷ "9" ∷ "2" ∷ [])
unfolding string_eq
tenants-Answered =
    ((λ e h. ground (arith, h)), ((λ e h. ground (arith, h)), ((λ e h. ground (arith, h)), tt)))

abbrev kept : (exclude pks : List String) → List String
kept exclude [] = []
kept exclude (pk ∷ pks) =
    let rest = kept exclude pks in if contains exclude pk then rest else pk ∷ rest

abbrev services : Services Memory
services = record {
  active_pks = λ region exclude. kept exclude ("1" ∷ "3" ∷ "9" ∷ "2" ∷ []);
  starmap = λ f pks workers w. (return [], w);
  dumps = λ outcome. outcome.0;
  str = λ e. "failed";
}

abbrev options : RunAllOptions
options = record { parallel = 1; region = some "eu"; exclude = "3" ∷ []; json_output = false }

run_all-Written_example :
    (lines : List Line) × ((run_all settings memory tenants services options command
        (world autocommit)).0
      ≡ return lines)
    × Written settings memory tenants services options ("1" ∷ "9" ∷ "2" ∷ []) lines
    × ((run_all settings memory tenants services options command
          (world autocommit)).1.current_tenant
        ≡ none)
unfolding string_eq
run_all-Written_example =
    run_all-Written settings memory tenants services options command (world autocommit) refl
      tenants-Answered
