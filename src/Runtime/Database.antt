-- ===== src/Runtime/Database.antt =====
-- The database connections, which are Django's and PostgreSQL's: an interface over an unknown
-- state. In each pair the Boolean says whether the call returned (`true`) or raised.
use django_boundary.Prelude.{String, ◌≡◌, ◌≢◌, ◌⊎◌, Bool, true, false, Option, some}

pub record Database : Type 1 where
  pub State : Type 0
  -- `connections[alias].vendor`; `none` is `ConnectionDoesNotExist`
  pub vendor : String → Option String
  -- `connections[alias].connection is not None`
  pub is_open : State → String → Bool
  pub in_atomic_block : State → String → Bool
  -- `SELECT set_config(variable, value, true)` on an alias
  pub set_config : (alias variable value : String) → State → Bool × State
  -- `SELECT current_setting(variable, true)`; `none`: it raised
  pub current_setting : (alias variable : String) → State → Option String × State
  -- `transaction.atomic(using=alias)`: `__enter__`, and `__exit__` after a body that returned or raised
  pub enter_atomic : (alias : String) → State → Bool × State
  pub exit_atomic : (alias : String) (returned : Bool) → State → Bool × State
  -- what the next statement on the alias would read in a session variable
  pub visible : State → (alias variable : String) → String

-- PostgreSQL's documented behaviour of transaction-local settings, and Django's of connections.
pub record IsPostgres (D : Database) : Type 0 where
  -- inside a transaction a setting that was written can be read
  pub set_config_reads :
      (alias variable value : String) (s : D.State)
      → D.in_atomic_block s alias ≡ true
      → (D.set_config alias variable value s).0 ≡ true
      → D.visible (D.set_config alias variable value s).1 alias variable ≡ value
  -- writing touches one variable of one connection
  pub set_config_other :
      (alias variable value : String) (s : D.State) (alias' variable' : String)
      → (alias' ≢ alias) ⊎ (variable' ≢ variable)
      → D.visible (D.set_config alias variable value s).1 alias' variable'
        ≡ D.visible s alias' variable'
  -- outside a transaction the setting ends with its own statement
  pub set_config_local :
      (alias variable value : String) (s : D.State) (alias' variable' : String)
      → D.in_atomic_block s alias ≡ false
      → D.visible (D.set_config alias variable value s).1 alias' variable'
        ≡ D.visible s alias' variable'
  -- writing begins and ends no transaction
  pub set_config_atomic :
      (alias variable value : String) (s : D.State) (alias' : String)
      → D.in_atomic_block (D.set_config alias variable value s).1 alias'
        ≡ D.in_atomic_block s alias'
  -- `current_setting` returns what is visible, and changes nothing
  pub current_setting_reads :
      (alias variable value : String) (s : D.State)
      → (D.current_setting alias variable s).0 ≡ some value
      → D.visible s alias variable ≡ value
  pub current_setting_keeps :
      (alias variable : String) (s : D.State) → (D.current_setting alias variable s).1 ≡ s
  -- a connection that is in a transaction is open
  pub atomic_open :
      (s : D.State) (alias : String) → D.in_atomic_block s alias ≡ true → D.is_open s alias ≡ true
  -- `atomic` begins a transaction and ends none
  pub enter_atomic_begins :
      (alias : String) (s : D.State)
      → (D.enter_atomic alias s).0 ≡ true
      → D.in_atomic_block (D.enter_atomic alias s).1 alias ≡ true
  pub enter_atomic_keeps :
      (alias : String) (s : D.State) (alias' : String)
      → D.in_atomic_block s alias' ≡ true
      → D.in_atomic_block (D.enter_atomic alias s).1 alias' ≡ true
  -- and leaves the other connections alone
  pub enter_atomic_other :
      (alias : String) (s : D.State) (alias' : String)
      → alias' ≢ alias
      → D.in_atomic_block (D.enter_atomic alias s).1 alias' ≡ D.in_atomic_block s alias'
  pub enter_atomic_visible :
      (alias : String) (s : D.State) (alias' variable' : String)
      → alias' ≢ alias
      → D.visible (D.enter_atomic alias s).1 alias' variable' ≡ D.visible s alias' variable'

-- The database is there: nothing that boundary itself asks of it raises.
pub record Answers (D : Database) : Type 0 where
  pub writes :
      (alias variable value : String) (s : D.State) → (D.set_config alias variable value s).0 ≡ true
  pub enters : (alias : String) (s : D.State) → (D.enter_atomic alias s).0 ≡ true
  pub exits :
      (alias : String) (returned : Bool) (s : D.State) → (D.exit_atomic alias returned s).0 ≡ true
  pub reads :
      (alias variable : String) (s : D.State)
      → (D.current_setting alias variable s).0 ≡ some (D.visible s alias variable)
