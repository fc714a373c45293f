-- ===== src/Context/Session.antt =====
-- context.py: `_is_postgresql`, `_ensure_atomic`, `_set_db_session`, `_clear_db_session`, and the
-- loops over aliases in `TenantContext.set`, `clear` and `using`. Debug and warning lines of the
-- log are left out.
pub mod Writes
pub mod Transactions
use django_boundary.Prelude.{
  String, Bool, true, false, not, Option, none, some, List, [], ◌∷◌, ◌==◌, string_eq, if◌then◌else◌,
}
use django_boundary.Conf.{Settings, wrap_atomic, set_db_session_var, db_session_var}
use django_boundary.Runtime.{Result, return, raise, database_error, World, Action}
use django_boundary.Runtime.Database.{Database}

module _ (cfg : Settings) (D : Database) where
  unfoldable pub is_postgresql : String → Bool
  is_postgresql using = elim (D.vendor using) [
    | none ↦ false
    | some vendor ↦ vendor == "postgresql"
  ]

  -- The guards that `_set_db_session` and `_clear_db_session` share, and their statement. The
  -- second is the first with an empty text.
  pub write_db_session : String → String → D.State → Bool × D.State
  unfolding is_postgresql
  write_db_session value using s =
      if not (set_db_session_var cfg)
      then (true, s)
      else if not (is_postgresql using)
      then (true, s)
      else if D.is_open s using
      then D.set_config using (db_session_var cfg) value s
      else (true, s)

  set_db_session : String → String → D.State → Bool × D.State
  unfolding write_db_session
  set_db_session tenant_id using s = write_db_session tenant_id using s

  clear_db_session : String → D.State → Bool × D.State
  unfolding write_db_session
  clear_db_session using s = write_db_session "" using s

  -- The loop of `set`: the first statement that raises ends it.
  unfoldable pub set_all : String → List String → D.State → Bool × D.State
  unfolding set_db_session
  set_all tenant_id [] s = (true, s)
  set_all tenant_id (alias ∷ aliases) s =
      let (done, s') = set_db_session tenant_id alias s in
      let rest = set_all tenant_id aliases s' in if done then rest else (false, s')

  -- The loops of `clear` and `using`: a statement that raises is logged, and the loop goes on.
  pub clear_each : List String → D.State → D.State
  unfolding clear_db_session
  clear_each [] s = s
  clear_each (alias ∷ aliases) s = clear_each aliases (clear_db_session alias s).1

  pub restore_each : String → List String → D.State → D.State
  unfolding set_db_session
  restore_each tenant_id [] s = s
  restore_each tenant_id (alias ∷ aliases) s =
      restore_each tenant_id aliases (set_db_session tenant_id alias s).1

  module _ {A : Type 0} where
    -- `with transaction.atomic(using=using): body`. An exit that fails raises in place of the result.
    abbrev leave_atomic : String → Result A → World D.State → Result A × World D.State
    leave_atomic using (return a) w =
        let (left, s) = D.exit_atomic using true w.db in
        (if left then return a else raise database_error, record w { db = s })
    leave_atomic using (raise e) w =
        let (left, s) = D.exit_atomic using false w.db in
        (if left then raise e else raise database_error, record w { db = s })

    atomic : String → Action D.State A → Action D.State A
    atomic using body w =
        let (entered, s) = D.enter_atomic using w.db in
        if entered
        then (let (result, w') = body (record w { db = s }) in leave_atomic using result w')
        else (raise database_error, record w { db = s })

    -- `with _ensure_atomic(using): body`
    unfoldable pub ensure_atomic : String → Action D.State A → Action D.State A
    unfolding atomic
    ensure_atomic using body w = elim (D.vendor using) [
      | none ↦ body w
      | some _ ↦
          if not (wrap_atomic cfg)
          then body w
          else if D.in_atomic_block w.db using
          then body w
          else atomic using body w
    ]

    -- The `ExitStack` of `using`: contexts are entered in order and left in reverse.
    pub ensure_atomic_all : List String → Action D.State A → Action D.State A
    unfolding ensure_atomic
    ensure_atomic_all [] body w = body w
    ensure_atomic_all (alias ∷ aliases) body w =
        ensure_atomic alias (ensure_atomic_all aliases body) w
