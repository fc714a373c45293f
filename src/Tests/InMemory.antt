-- ===== src/Tests/InMemory.antt =====
-- A database in memory, on which the interface of the connections can hold.
use django_boundary.Prelude.{
  String, ◌≡◌, ◌≢◌, refl, Bool, true, false, ◌||◌, ◌&&◌, Option, none, some, arith, ◌==◌, string_eq,
  if◌then◌else◌, ◌⊎◌, inl, inr,
}
use django_boundary.Runtime.Database.{Database, IsPostgres, Answers}

-- Which connections are open, which are in a transaction, and the session variables.
pub record Memory : Type 0 where
  pub opened : String → Bool
  pub blocks : String → Bool
  pub vars : String → String → String

abbrev assign : String → String → String → (String → String → String) → String → String → String
assign alias variable value vars a v = if a == alias && v == variable then value else vars a v

abbrev write : String → String → String → Memory → Memory
write alias variable value s =
    if s.blocks alias then record s { vars = assign alias variable value s.vars } else s

-- `default` and `eu` are PostgreSQL, `lite` is not, and there is no `nowhere`.
abbrev vendor_of : String → Option String
vendor_of alias =
    if alias == "nowhere"
    then none
    else if alias == "lite"
    then some "sqlite"
    else some "postgresql"

abbrev pub memory : Database
memory = record {
  State = Memory;
  vendor = vendor_of;
  is_open = λ s a. s.opened a || s.blocks a;
  in_atomic_block = λ s a. s.blocks a;
  set_config = λ alias variable value s. (true, write alias variable value s);
  current_setting = λ alias variable s. (some (s.vars alias variable), s);
  enter_atomic =
      λ alias s. (true, record s { blocks = λ a. if a == alias then true else s.blocks a });
  exit_atomic = λ alias returned s. (
    true,
    record s {
      blocks = λ a. if a == alias then false else s.blocks a;
      vars = λ a v. if a == alias then "" else s.vars a v;
    },
  );
  visible = λ s a v. s.vars a v;
}

write_other :
    (alias variable value : String) (s : Memory) (alias' variable' : String)
    → (alias' ≢ alias) ⊎ (variable' ≢ variable)
    → (write alias variable value s).vars alias' variable' ≡ s.vars alias' variable'
write_other alias variable value s alias' variable' (inl other) = ground arith
write_other alias variable value s alias' variable' (inr other) = ground arith

pub memory-IsPostgres : IsPostgres memory
memory-IsPostgres = record {
  set_config_reads = λ alias variable value s in_block done. ground arith;
  set_config_other = write_other;
  set_config_local = λ alias variable value s alias' variable' outside. ground arith;
  set_config_atomic = λ alias variable value s alias'. ground arith;
  current_setting_reads = λ alias variable value s read. ground arith;
  current_setting_keeps = λ alias variable s. refl;
  atomic_open = λ s alias in_block. ground arith;
  enter_atomic_begins = λ alias s entered. ground arith;
  enter_atomic_keeps = λ alias s alias' in_block. ground arith;
  enter_atomic_other = λ alias s alias' other. ground arith;
  enter_atomic_visible = λ alias s alias' variable' other. refl;
}

pub memory-Answers : Answers memory
memory-Answers = record {
  writes = λ alias variable value s. refl;
  enters = λ alias s. refl;
  exits = λ alias returned s. refl;
  reads = λ alias variable s. refl;
}
