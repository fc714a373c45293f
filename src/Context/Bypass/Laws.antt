-- ===== src/Context/Bypass/Laws.antt =====
-- The admin bypass: when the block runs, and when the flag is cleared.
use django_boundary.Prelude.{
  ◌+◌, ◌<◌, String, ◌≡◌, ◌⊎◌, Bool, true, some, arith, string_eq, ltb, if◌then◌else◌,
}
use django_boundary.Prelude.Dict.{insert, lookup-insert}
use django_boundary.Conf.{Settings, admin_flag_var}
use django_boundary.Runtime.{
  Result, return, raise, admin_bypass_not_active, admin_bypass_activated, database_error, World,
  send, Action,
}
use django_boundary.Runtime.Database.{Database, IsPostgres, Answers}
use django_boundary.Context.Session.{is_postgresql, ensure_atomic}
use django_boundary.Context.Bypass.{depth_map, depth, activated, admin_bypass}

module _ (cfg : Settings) (D : Database) {A : Type 0} where
  -- On a PostgreSQL alias, however the block of `admin_bypass` ends, the nesting depths are
  -- afterwards what they were before.
  admin_bypass-depth :
      (using : String) (body : Action D.State A) (w : World D.State)
      → is_postgresql cfg D using ≡ true
      → (admin_bypass cfg D using body w).1.admin_bypass_depth ≡ w.admin_bypass_depth
  unfolding admin_bypass
  admin_bypass-depth using body w h = ground arith

  abbrev pub Refused : Result A → Type 0
  Refused r = (r ≡ raise database_error) ⊎ (r ≡ raise admin_bypass_not_active)

  -- The block of a bypass runs only once the flag was read back as set.
  module _ (P : IsPostgres D) (using : String) (body : Action D.State A) (x : A)
      (runs : (v : World D.State)
        → D.visible v.db using (admin_flag_var cfg) ≡ "true"
        → (body v).0 ≡ return x) where
    activated_outcome :
        (already_active : Bool) (w : World D.State)
        → let r = (activated cfg D already_active using body w).0 in (r ≡ return x) ⊎ Refused r
    unfolding activated
    activated_outcome already_active w =
        let s = (D.set_config using (admin_flag_var cfg) "true" w.db).1 in
        let s' = (D.current_setting using (admin_flag_var cfg) s).1 in
        ground (
          arith,
          P.current_setting_reads using (admin_flag_var cfg) "true" s,
          P.current_setting_keeps using (admin_flag_var cfg) s,
          runs (send (admin_bypass_activated (admin_flag_var cfg) using) (record w { db = s' })),
        )

    atomic_outcome :
        (already_active : Bool) (w : World D.State)
        → let r = (ensure_atomic cfg D using (activated cfg D already_active using body) w).0 in
          (r ≡ return x) ⊎ Refused r
    unfolding ensure_atomic
    atomic_outcome already_active w =
        let s = (D.enter_atomic using w.db).1 in
        ground (
          arith,
          activated_outcome already_active w,
          activated_outcome already_active (record w { db = s }),
        )

    -- On a PostgreSQL alias the block of `admin_bypass` runs only where the flag reads as set:
    -- whatever the block returns because the flag is "true" the whole call returns, or it raises a
    -- database error or `AdminBypassNotActiveError`.
    pub admin_bypass_outcome :
        (w : World D.State)
        → is_postgresql cfg D using ≡ true
        → let r = (admin_bypass cfg D using body w).0 in (r ≡ return x) ⊎ Refused r
    unfolding admin_bypass
    admin_bypass_outcome w postgres =
        let already_active = ltb 0 (depth w using) in
        let entered = insert using (depth w using + 1) (depth_map w) in
        ground
          (arith, atomic_outcome already_active (record w { admin_bypass_depth = some entered }))

-- In a transaction that answers, with a block that keeps the flag and the transaction.
module _ (cfg : Settings) (D : Database) (P : IsPostgres D) (up : Answers D) {A : Type 0}
    (using : String) (body : Action D.State A)
    (keeps : (v : World D.State)
      → 0 < depth v using
      → D.in_atomic_block v.db using ≡ true
      → D.visible v.db using (admin_flag_var cfg) ≡ "true"
      → (D.in_atomic_block (body v).1.db using ≡ true)
        × (D.visible (body v).1.db using (admin_flag_var cfg) ≡ "true")) where
  activated_flag :
      (already_active : Bool) (w : World D.State)
      → 0 < depth w using
      → D.in_atomic_block w.db using ≡ true
      → D.visible (activated cfg D already_active using body w).1.db using (admin_flag_var cfg)
        ≡ (if already_active then "true" else "")
  unfolding activated
  activated_flag already_active w deep in_block =
      let flag = admin_flag_var cfg in
      let s = (D.set_config using flag "true" w.db).1 in
      let v =
        send (admin_bypass_activated flag using)
          (record w { db = (D.current_setting using flag s).1 }) in
      ground (
        arith,
        up.writes using flag "true" w.db,
        up.reads using flag s,
        P.set_config_reads using flag "true" w.db in_block,
        P.set_config_atomic using flag "true" w.db using,
        P.current_setting_keeps using flag s,
        keeps v deep,
        up.writes using flag "" (body v).1.db,
        P.set_config_reads using flag "" (body v).1.db,
      )

  -- After `admin_bypass` on a PostgreSQL alias in a transaction, with a database that answers and a
  -- block that, inside a bypass, keeps the flag and the transaction, the flag is set exactly if the
  -- call was nested in another on that alias, and is empty otherwise.
  pub admin_bypass-flag :
      (w : World D.State)
      → is_postgresql cfg D using ≡ true
      → D.in_atomic_block w.db using ≡ true
      → D.visible (admin_bypass cfg D using body w).1.db using (admin_flag_var cfg)
        ≡ (if ltb 0 (depth w using) then "true" else "")
  unfolding admin_bypass ensure_atomic is_postgresql
  admin_bypass-flag w postgres in_block =
      let already_active = ltb 0 (depth w using) in
      let entered = insert using (depth w using + 1) (depth_map w) in
      ground (
        arith,
        activated_flag already_active (record w { admin_bypass_depth = some entered }),
        lookup-insert using using (depth w using + 1) (depth_map w),
      )
