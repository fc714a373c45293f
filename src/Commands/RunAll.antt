-- ===== src/Commands/RunAll.antt =====
-- management/commands/boundary_run_all.py: the command, its selection of tenants and its output.
use django_boundary.Prelude.{
  refl, ap, arith, ℕ, String, ◌<>◌, Bool, true, false, Option, none, some, List, [], ◌∷◌, map,
  if◌then◌else◌, leb, string_eq, nat_eq, ◌≡◌, ◌↔◌,
}
use django_boundary.Conf.{setting, Settings, region_field, is_truthy}
use django_boundary.Commands.Runs.{IsReport, Answered, name_of, run_sequential-IsReport}
use django_boundary.Context.Tenant.{using_tenant}
use django_boundary.Runtime.{get_attribute, Exception, return, raise, World, Action, ◌>>=◌}
use django_boundary.Runtime.Lookup.{found, does_not_exist, failed}
use django_boundary.Runtime.Database.{Database}
use django_boundary.Commands.{
  status_of, Tenants, Outcome, ok, not_found, error, run_sequential, Status,
}

-- The command line; a number of workers below 0 does what 0 does.
pub record RunAllOptions : Type 0 where
  pub parallel : ℕ
  pub region : Option String
  pub exclude : List String
  pub json_output : Bool

-- What is written, and where
pub data Line : Type 0 where
  stdout stderr : String → Line

-- The primary keys of the active tenants, of the region under its field if one is given, without the
-- excluded keys: Django's query. The `starmap` of a process pool. `json.dumps` of a result, and
-- `str` of an exception.
pub record Services (S : Type 0) : Type 0 where
  pub active_pks : (region : Option (String × String)) (exclude : List String) → List String
  pub starmap : (String → Action S Outcome) → List String → (workers : ℕ) → Action S (List Outcome)
  pub dumps : Outcome → String
  pub str : Exception → String

module _ {S : Type 0} (services : Services S) where
  -- What is written of a result
  abbrev pub line_of : (json_output : Bool) → Outcome → Line
  line_of true outcome = stdout (services.dumps outcome)
  line_of false (tenant, ok) = stdout ("[OK] " <> tenant)
  line_of false (tenant, not_found) = stderr ("[FAIL] " <> tenant <> ": not found")
  line_of false (tenant, error e) = stderr ("[FAIL] " <> tenant <> ": " <> services.str e)

module _ (cfg : Settings) (D : Database) (tenants : Tenants) (services : Services D.State) where
  abbrev pub tenant_pks : RunAllOptions → List String
  tenant_pks options = elim options.region [
    | none ↦ services.active_pks none options.exclude
    | some region ↦
        services.active_pks
          (if is_truthy (some region) then some (region_field cfg, region) else none)
          options.exclude
  ]

  -- `_run_for_tenant`, in a process of the pool
  pub run_for_tenant : Action D.State Unit → String → Action D.State Outcome
  run_for_tenant call_command tenant_pk w = elim (tenants.get_pk tenant_pk) [
    | does_not_exist ↦ (return (tenant_pk, not_found), w)
    | failed e ↦ (raise e, w)
    | found tenant ↦
        let (result, w') = using_tenant cfg D (some tenant) "default" call_command w in
        (return (setting (get_attribute "slug" tenant) tenant_pk, status_of result), w')
  ]

  abbrev results : RunAllOptions → Action D.State Unit → List String → Action D.State (List Outcome)
  results options call_command pks w =
      if leb 2 options.parallel
      then services.starmap (run_for_tenant call_command) pks options.parallel w
      else run_sequential cfg D tenants call_command pks w

  -- `handle` of boundary_run_all
  unfoldable pub run_all : RunAllOptions → Action D.State Unit → Action D.State (List Line)
  run_all options call_command w = elim (tenant_pks options) [
    | [] ↦ (return (stdout "No tenants to process." ∷ []), w)
    | pk ∷ pks ↦
        (do
          outcomes ← results options call_command (pk ∷ pks)
          λ w'. (return (map (line_of services options.json_output) outcomes), w'))
          w
  ]

  -- The line of a key: under the name of its tenant, "not found" where the key has none and nowhere
  -- else.
  abbrev pub IsLine : (json_output : Bool) → String → Line → Type 0
  IsLine json_output pk line =
      (status : Status) × (line
        ≡ line_of services json_output (name_of (tenants.get_pk pk) pk, status))
      × ((tenants.get_pk pk ≡ does_not_exist) ↔ (status ≡ not_found))

  abbrev pub AreLines : (json_output : Bool) → List String → List Line → Type 0
  AreLines json_output [] [] = Unit
  AreLines json_output (pk ∷ pks) (line ∷ lines) =
      IsLine json_output pk line × AreLines json_output pks lines
  AreLines json_output _ _ = ⊥

  lines-AreLines :
      (json_output : Bool) (pks : List String) (outcomes : List Outcome)
      → IsReport cfg D tenants pks outcomes
      → AreLines json_output pks (map (line_of services json_output) outcomes)
  lines-AreLines json_output [] [] report = tt
  lines-AreLines json_output [] (outcome ∷ outcomes) report = absurd report
  lines-AreLines json_output (pk ∷ pks) [] report = absurd report
  lines-AreLines json_output (pk ∷ pks) ((name, status) ∷ outcomes) (named, found_iff, report) = (
    (status, ap (λ n. line_of services json_output (n, status)) named, found_iff),
    lines-AreLines json_output pks outcomes report,
  )

  abbrev pub Written : RunAllOptions → List String → List Line → Type 0
  Written options [] lines = lines ≡ stdout "No tenants to process." ∷ []
  Written options (pk ∷ pks) lines = AreLines options.json_output (pk ∷ pks) lines

  run_all-Written_at :
      (options : RunAllOptions) (call_command : Action D.State Unit) (w : World D.State)
      (pks : List String)
      → tenant_pks options ≡ pks
      → leb options.parallel 1 ≡ true
      → Answered cfg D tenants pks
      → (lines : List Line) × ((run_all options call_command w).0 ≡ return lines)
        × Written options pks lines
        × ((run_all options call_command w).1.current_tenant ≡ w.current_tenant)
  unfolding run_all
  run_all-Written_at options call_command w [] selected one answers = (
    stdout "No tenants to process." ∷ [],
    rw (run_all, selected) refl,
    refl,
    rw (run_all, selected) refl,
  )
  run_all-Written_at options call_command w (pk ∷ pks) selected one answers =
      let (outcomes, returned, report, kept) =
        run_sequential-IsReport cfg D tenants call_command (pk ∷ pks) w answers in
      let alone : leb 2 options.parallel ≡ false = ground arith in
      (
        map (line_of services options.json_output) outcomes,
        rw (run_all, selected, alone, returned) refl,
        lines-AreLines options.json_output (pk ∷ pks) outcomes report,
        rw (run_all, selected, alone, returned) kept,
      )

  -- Without workers, and where the lookup of each selected key answers, boundary_run_all writes "No
  -- tenants to process." if no key is selected; otherwise one line for each, in order, under the
  -- slug of its tenant or, where it has none, the key, with the status "not found" exactly where the
  -- key has no tenant, whatever the command raises. The tenant that was active before is active
  -- after.
  pub run_all-Written :
      (options : RunAllOptions) (call_command : Action D.State Unit) (w : World D.State)
      → leb options.parallel 1 ≡ true
      → Answered cfg D tenants (tenant_pks options)
      → (lines : List Line) × ((run_all options call_command w).0 ≡ return lines)
        × Written options (tenant_pks options) lines
        × ((run_all options call_command w).1.current_tenant ≡ w.current_tenant)
  run_all-Written options call_command w =
      run_all-Written_at options call_command w (tenant_pks options) refl
