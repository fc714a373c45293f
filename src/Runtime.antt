-- ===== src/Runtime.antt =====
-- What the components share at run time: tenants, the signals, the
-- process state, and methods that change it and may raise.
pub mod Errors
pub mod Lookup
pub mod Database
pub mod Requests
pub use Errors.*
use django_boundary.Prelude.{◌≡◌, ◌⊎◌, inl, inr, refl, ℕ, String, Bool, Option, List, [], ◌∷◌, ◌++◌}
use django_boundary.Prelude.Dict.{Dict, lookup}

-- A tenant instance: `str(tenant.pk)`, and its other attributes by name. `is_active` is `none` on a
-- model that has no such field.
pub record Tenant : Type 0 where
  pub pk : String
  pub attributes : Dict String
  pub is_active : Option Bool

-- `getattr(tenant, name, None)`
abbrev pub get_attribute : String → Tenant → Option String
get_attribute name tenant = lookup name tenant.attributes

pub data Result (A : Type 0) : Type 0 where
  return : A → Result A
  raise : Exception → Result A

pub Result-cases :
    {A : Type 0} (r : Result A) → ((a : A) × (r ≡ return a)) ⊎ ((e : Exception) × (r ≡ raise e))
Result-cases (return a) = inl (a, refl)
Result-cases (raise e) = inr (e, refl)

-- signals.py
pub data Signal : Type 0 where
  tenant_resolution_failed : Signal
  tenant_resolved : Tenant → Signal
  strict_mode_violation : Signal
  admin_bypass_activated : (flag_var using : String) → Signal

-- The context variables, the warn-once set of routing.py, the
-- resolver cache, the state of the databases, and the
-- signals that were sent.
pub record World (Db : Type 0) : Type 0 where
  pub current_tenant : Option Tenant
  pub admin_bypass_depth : Option (Dict ℕ)
  pub region_override : Option String
  pub warned_unmatched_regions : List (String × Option String)
  -- the warnings "Tenant region not in BOUNDARY_REGIONS" that were logged
  pub region_warnings : List (String × Option String)
  -- the resolver cache, and the clock `time.monotonic()`
  pub cache : Dict (Tenant × ℕ)
  pub now : ℕ
  pub db : Db
  pub signals : List Signal

abbrev pub send : {Db : Type 0} → Signal → World Db → World Db
send signal w = record w { signals = w.signals ++ signal ∷ [] }

-- What was written before an exception stays written.
abbrev pub Action : Type 0 → Type 0 → Type 0
Action Db A = World Db → Result A × World Db

module _ {Db A B : Type 0} where
  abbrev pub and_then : Result A → (A → Action Db B) → Action Db B
  and_then (return a) f w = f a w
  and_then (raise e) f w = (raise e, w)

  infixl 5 ◌>>=◌
  abbrev pub ◌>>=◌ : Action Db A → (A → Action Db B) → Action Db B
  ◌>>=◌ m f w = let (r, w') = m w in and_then r f w'

-- A token of a context variable holds the value that the variable had before `set`.
abbrev pub Token : Type 0 → Type 0
Token A = Option A
