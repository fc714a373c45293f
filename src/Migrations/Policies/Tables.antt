-- ===== src/Migrations/Policies/Tables.antt =====
-- migrations_ops.py: the tables under the statements of the operations on policies.
use django_boundary.Prelude.{
  String, ◌≡◌, inl, inr, refl, sym, ap, ◌∙◌, true, false, none, List, [], ◌∷◌, ◌++◌, arith, ◌==◌,
  string_eq, nat_eq, if◌then◌else◌, Bool-cases,
}
use mathlib.Core.Path.{ap₂}
use django_boundary.Prelude.Dict.{lookup, erase, erase_absent, erase-append}
use django_boundary.Conf.{Settings, admin_flag_var}
use django_boundary.Migrations.{Editor, Statement, Table, isolates, bypasses, Policy}
use django_boundary.Migrations.Schema.{after_all}
use django_boundary.Migrations.Policies.{
  drop_tenant_policies, create_tenant_policies, create_tenant_id_helper, enabling, creating,
  disabling,
}
use mathlib.Core.List.{append-nil, append_assoc}

-- A table with row-level security on and forced, and the two policies after those that it has.
abbrev pub secured : Settings → (tenant_column : String) → Table → Table
secured cfg tenant_column t = record t {
  rls = true;
  forced = true;
  policies =
      t.policies
      ++ ("boundary_tenant_isolation", isolates tenant_column)
        ∷ ("boundary_admin_bypass", bypasses (admin_flag_var cfg))
        ∷ [];
}

abbrev without_policies : List (String × Policy) → List (String × Policy)
without_policies policies =
    erase "boundary_admin_bypass" (erase "boundary_tenant_isolation" policies)

module _ (E : Editor) (cfg : Settings) (table tenant_column pg_type : String) where
  abbrev pub making : List Statement
  making = enabling E table ++ creating E cfg table tenant_column pg_type

  abbrev pub unmaking : List Statement
  unmaking = drop_tenant_policies table ++ disabling E table

  pub after_all-making :
      (t : String) (old : Table)
      → after_all E.current_tenant making t old
        ≡ (if t == table then secured cfg tenant_column old else old)
  unfolding create_tenant_policies create_tenant_id_helper
  after_all-making t old = elim (Bool-cases (t == table)) [
    | inl own ↦ rw own (
        ap (λ ps. record old { rls = true; forced = true; policies = ps })
          (append_assoc old.policies (("boundary_tenant_isolation", isolates tenant_column) ∷ [])
            (("boundary_admin_bypass", bypasses (admin_flag_var cfg)) ∷ [])))
    | inr other ↦ rw other refl
  ]

  after_all-unmaking :
      (t : String) (old : Table)
      → after_all E.current_tenant unmaking t old ≡ (
          if t == table
          then record old {
            rls = false;
            forced = false;
            policies = without_policies (without_policies old.policies);
          }
          else old)
  after_all-unmaking t old = elim (Bool-cases (t == table)) [
    | inl own ↦ rw own refl
    | inr other ↦ rw other refl
  ]

without_policies-append :
    (ps more : List (String × Policy))
    → without_policies (ps ++ more) ≡ without_policies ps ++ without_policies more
without_policies-append ps more =
    ap (erase "boundary_admin_bypass") (erase-append "boundary_tenant_isolation" ps more)
    ∙ erase-append "boundary_admin_bypass" (erase "boundary_tenant_isolation" ps)
        (erase "boundary_tenant_isolation" more)

without_policies-none :
    (ps : List (String × Policy))
    → lookup "boundary_tenant_isolation" ps ≡ none
    → lookup "boundary_admin_bypass" ps ≡ none
    → without_policies ps ≡ ps
without_policies-none ps no_isolation no_bypass =
    ap (erase "boundary_admin_bypass") (erase_absent "boundary_tenant_isolation" ps no_isolation)
    ∙ erase_absent "boundary_admin_bypass" ps no_bypass

without_policies-two :
    (tenant_column admin_flag : String)
    → without_policies (
        ("boundary_tenant_isolation", isolates tenant_column)
        ∷ ("boundary_admin_bypass", bypasses admin_flag)
        ∷ [])
      ≡ []
unfolding erase string_eq
without_policies-two tenant_column admin_flag = refl

-- The policies that a table had before are those that it has when the two that were added are dropped.
without_policies-added :
    (ps : List (String × Policy)) (tenant_column admin_flag : String)
    → lookup "boundary_tenant_isolation" ps ≡ none
    → lookup "boundary_admin_bypass" ps ≡ none
    → without_policies (
        without_policies (
          ps
          ++ ("boundary_tenant_isolation", isolates tenant_column)
            ∷ ("boundary_admin_bypass", bypasses admin_flag)
            ∷ []))
      ≡ ps
without_policies-added ps tenant_column admin_flag no_isolation no_bypass =
    let kept = without_policies-none ps no_isolation no_bypass in
    ap without_policies (
      without_policies-append ps _
      ∙ ap₂ (λ a b. a ++ b) kept (without_policies-two tenant_column admin_flag)
      ∙ append-nil ps)
    ∙ kept

pub after_all-restored :
    (E : Editor) (cfg : Settings) (table tenant_column pg_type : String) (tables : String → Table)
    → (tables table).rls ≡ false
    → (tables table).forced ≡ false
    → lookup "boundary_tenant_isolation" (tables table).policies ≡ none
    → lookup "boundary_admin_bypass" (tables table).policies ≡ none
    → (t : String)
    → after_all E.current_tenant
        (unmaking E cfg table tenant_column pg_type)
        t
        (after_all E.current_tenant (making E cfg table tenant_column pg_type) t (tables t))
      ≡ tables t
after_all-restored E cfg table tenant_column pg_type tables no_rls no_force no_isolation no_bypass
      t =
    rw (after_all-making E cfg table tenant_column pg_type t (tables t)) (
      after_all-unmaking E cfg table tenant_column pg_type t _ ∙ elim (Bool-cases (t == table)) [
        | inl own ↦
            let same : t ≡ table = ground arith in
            let rls_off = ap (λ u. (tables u).rls) same ∙ no_rls in
            let force_off = ap (λ u. (tables u).forced) same ∙ no_force in
            let kept =
              without_policies-added (tables t).policies tenant_column (admin_flag_var cfg)
                (ap (λ u. lookup "boundary_tenant_isolation" (tables u).policies) same
                  ∙ no_isolation)
                (ap (λ u. lookup "boundary_admin_bypass" (tables u).policies) same ∙ no_bypass) in
            rw own (λ i. record (tables t) {
              rls = sym rls_off i;
              forced = sym force_off i;
              policies = kept i;
            })
        | inr other ↦ rw other refl
      ])
