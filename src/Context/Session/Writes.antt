-- ===== src/Context/Session/Writes.antt =====
-- What the loops of `_set_db_session` and `_clear_db_session` leave in the session variables.
use django_boundary.Prelude.{
  String, ◌≡◌, refl, ◌∙◌, true, false, List, [], ◌∷◌, arith, ◌==◌, string_eq, contains,
  if◌then◌else◌,
}
use django_boundary.Conf.{Settings, set_db_session_var, db_session_var}
use django_boundary.Runtime.Database.{Database, IsPostgres, Answers}
use django_boundary.Context.Session.{
  is_postgresql, write_db_session, set_all, clear_each, restore_each,
}

-- The tenant's session variable on an alias, as a policy reads it.
abbrev pub session_variable : Settings → (D : Database) → D.State → String → String
session_variable cfg D s alias = D.visible s alias (db_session_var cfg)

module _ (cfg : Settings) (D : Database) where
  -- The loops that ignore failures, for any value.
  write_each : String → List String → D.State → D.State
  write_each value [] s = s
  write_each value (alias ∷ aliases) s =
      write_each value aliases (write_db_session cfg D value alias s).1

  clear_each-eq :
      (aliases : List String) (s : D.State) → clear_each cfg D aliases s ≡ write_each "" aliases s
  unfolding clear_each write_each
  clear_each-eq [] s = refl
  clear_each-eq (alias ∷ aliases) s = clear_each-eq aliases _

  restore_each-eq :
      (id : String) (aliases : List String) (s : D.State)
      → restore_each cfg D id aliases s ≡ write_each id aliases s
  unfolding restore_each write_each
  restore_each-eq id [] s = refl
  restore_each-eq id (alias ∷ aliases) s = restore_each-eq id aliases _

module _ (cfg : Settings) (D : Database) (up : Answers D) where
  write_db_session-done :
      (value using : String) (s : D.State) → (write_db_session cfg D value using s).0 ≡ true
  unfolding write_db_session
  write_db_session-done value using s = ground (arith, up.writes using (db_session_var cfg) value s)

  set_all-eq :
      (id : String) (aliases : List String) (s : D.State)
      → set_all cfg D id aliases s ≡ (true, write_each cfg D id aliases s)
  unfolding set_all write_each
  set_all-eq id [] s = refl
  set_all-eq id (alias ∷ aliases) s = ground (
    arith,
    write_db_session-done id alias s,
    set_all-eq id aliases (write_db_session cfg D id alias s).1,
  )

  pub set_all-done :
      (id : String) (aliases : List String) (s : D.State) → (set_all cfg D id aliases s).0 ≡ true
  set_all-done id aliases s = ground (arith, set_all-eq id aliases s)

-- An alias on which the session variable is in use.
module _ (cfg : Settings) (D : Database) (P : IsPostgres D) (up : Answers D)
    (enabled : set_db_session_var cfg ≡ true) (a : String)
    (postgres : is_postgresql cfg D a ≡ true) where
  write_db_session-atomic :
      (value using : String) (s : D.State)
      → D.in_atomic_block (write_db_session cfg D value using s).1 a ≡ D.in_atomic_block s a
  unfolding write_db_session
  write_db_session-atomic value using s =
      ground (arith, P.set_config_atomic using (db_session_var cfg) value s a)

  write_db_session-visible :
      (value using : String) (s : D.State)
      → D.in_atomic_block s a ≡ true
      → session_variable cfg D (write_db_session cfg D value using s).1 a
        ≡ (if a == using then value else session_variable cfg D s a)
  unfolding write_db_session
  write_db_session-visible value using s h = ground (
    arith,
    P.atomic_open s a,
    P.set_config_reads a (db_session_var cfg) value s h,
    P.set_config_other using (db_session_var cfg) value s a (db_session_var cfg),
    up.writes a (db_session_var cfg) value s,
  )

  write_each-atomic :
      (value : String) (aliases : List String) (s : D.State)
      → D.in_atomic_block (write_each cfg D value aliases s) a ≡ D.in_atomic_block s a
  unfolding write_each
  write_each-atomic value [] s = refl
  write_each-atomic value (alias ∷ aliases) s =
      write_each-atomic value aliases (write_db_session cfg D value alias s).1
      ∙ write_db_session-atomic value alias s

  write_each-visible :
      (value : String) (aliases : List String) (s : D.State)
      → D.in_atomic_block s a ≡ true
      → session_variable cfg D (write_each cfg D value aliases s) a
        ≡ (if contains aliases a then value else session_variable cfg D s a)
  unfolding write_each
  write_each-visible value [] s h = refl
  write_each-visible value (alias ∷ aliases) s h = ground (
    arith,
    write_db_session-atomic value alias s,
    write_db_session-visible value alias s h,
    write_each-visible value aliases (write_db_session cfg D value alias s).1,
  )

  -- The loop of `set` writes on every alias, and returns.
  pub set_all-visible :
      (id : String) (aliases : List String) (s : D.State)
      → D.in_atomic_block s a ≡ true
      → ((set_all cfg D id aliases s).0 ≡ true)
        × (D.in_atomic_block (set_all cfg D id aliases s).1 a ≡ true)
        × (session_variable cfg D (set_all cfg D id aliases s).1 a
            ≡ (if contains aliases a then id else session_variable cfg D s a))
  set_all-visible id aliases s h = ground (
    arith,
    set_all-eq cfg D up id aliases s,
    write_each-atomic id aliases s,
    write_each-visible id aliases s h,
  )

  pub clear_each-visible :
      (aliases : List String) (s : D.State)
      → D.in_atomic_block s a ≡ true
      → (D.in_atomic_block (clear_each cfg D aliases s) a ≡ true)
        × (session_variable cfg D (clear_each cfg D aliases s) a
            ≡ (if contains aliases a then "" else session_variable cfg D s a))
  clear_each-visible aliases s h = ground (
    arith,
    clear_each-eq cfg D aliases s,
    write_each-atomic "" aliases s,
    write_each-visible "" aliases s h,
  )

  pub restore_each-visible :
      (id : String) (aliases : List String) (s : D.State)
      → D.in_atomic_block s a ≡ true
      → session_variable cfg D (restore_each cfg D id aliases s) a
        ≡ (if contains aliases a then id else session_variable cfg D s a)
  restore_each-visible id aliases s h =
      ground (arith, restore_each-eq cfg D id aliases s, write_each-visible id aliases s h)

-- Outside a transaction nothing that the loop of `set` writes stays.
module _ (cfg : Settings) (D : Database) (P : IsPostgres D) (up : Answers D) (a : String) where
  write_db_session-local :
      (value using : String) (s : D.State)
      → D.in_atomic_block s a ≡ false
      → (D.in_atomic_block (write_db_session cfg D value using s).1 a ≡ false)
        × (session_variable cfg D (write_db_session cfg D value using s).1 a
            ≡ session_variable cfg D s a)
  unfolding write_db_session
  write_db_session-local value using s h = ground (
    arith,
    string_eq.dec a using,
    P.set_config_atomic using (db_session_var cfg) value s a,
    P.set_config_local a (db_session_var cfg) value s a (db_session_var cfg) h,
    P.set_config_other using (db_session_var cfg) value s a (db_session_var cfg),
  )

  pub set_all-local :
      (id : String) (aliases : List String) (s : D.State)
      → D.in_atomic_block s a ≡ false
      → session_variable cfg D (set_all cfg D id aliases s).1 a ≡ session_variable cfg D s a
  unfolding set_all
  set_all-local id [] s h = refl
  set_all-local id (alias ∷ aliases) s h = ground (
    arith,
    write_db_session-local id alias s h,
    set_all-local id aliases (write_db_session cfg D id alias s).1,
  )
