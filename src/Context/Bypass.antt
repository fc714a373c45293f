-- ===== src/Context/Bypass.antt =====
-- context.py: `admin_bypass`.
pub mod Laws
use django_boundary.Prelude.{
  ℕ, ◌+◌, String, Bool, true, false, not, Option, none, some, List, [], ◌∷◌, ◌++◌, ◌==◌, string_eq,
  ltb, if◌then◌else◌,
}
use django_boundary.Prelude.Dict.{Dict, lookup, insert}
use django_boundary.Conf.{Settings, setting, admin_flag_var}
use django_boundary.Runtime.{
  Result, return, raise, admin_bypass_not_active, database_error, admin_bypass_activated, World,
  send, Action,
}
use django_boundary.Runtime.Database.{Database}
use django_boundary.Context.Session.{is_postgresql, ensure_atomic}

-- `dict(_admin_bypass_depth.get() or {})`
abbrev pub depth_map : {Db : Type 0} → World Db → Dict ℕ
depth_map w = setting w.admin_bypass_depth []

-- `depth_map.get(using, 0)`
abbrev pub depth : {Db : Type 0} → World Db → String → ℕ
depth w using = setting (lookup using (depth_map w)) 0

module _ (cfg : Settings) (D : Database) {A : Type 0} where
  -- The inner `try`: the block, and the clearing of the flag, whose failure is logged.
  opened : (already_active : Bool) (using : String) → Action D.State A → Action D.State A
  opened already_active using body w =
      let (result, w') = body w in
      if already_active
      then (result, w')
      else (result, record w' { db = (D.set_config using (admin_flag_var cfg) "" w'.db).1 })

  -- What runs inside `_ensure_atomic`: the flag is set and read back, and the signal is sent.
  activated : (already_active : Bool) (using : String) → Action D.State A → Action D.State A
  unfolding opened
  activated already_active using body w =
      let flag_var = admin_flag_var cfg in
      let (done, s) = D.set_config using flag_var "true" w.db in
      let (active, s') = D.current_setting using flag_var s in
      if not done then (raise database_error, record w { db = s }) else elim active [
        | none ↦ (raise database_error, record w { db = s' })
        | some value ↦
            if value == "true"
            then opened already_active using body
                (send (admin_bypass_activated flag_var using) (record w { db = s' }))
            else (raise admin_bypass_not_active, record w { db = s' })
      ]

  -- `with admin_bypass(using=using): body`
  pub admin_bypass : String → Action D.State A → Action D.State A
  unfolding activated
  admin_bypass using body w =
      if not (is_postgresql cfg D using)
      then body (send (admin_bypass_activated (admin_flag_var cfg) using) w)
      else (let already_active = ltb 0 (depth w using) in
          let entered = insert using (depth w using + 1) (depth_map w) in
          let (result, w') =
            ensure_atomic cfg D using (activated already_active using body)
              (record w { admin_bypass_depth = some entered }) in
          (result, record w' { admin_bypass_depth = w.admin_bypass_depth }))
