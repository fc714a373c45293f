-- ===== src/Context/Aliases/Laws.antt =====
-- The aliases of a tenant, as a set.
use django_boundary.Prelude.{
  String, ◌≡◌, refl, Bool, true, false, ◌||◌, Option, none, some, List, [], ◌∷◌, ◌++◌, arith, ◌==◌,
  string_eq, contains, Distinct, contains-append, Distinct-snoc,
}
use django_boundary.Conf.{Settings}
use django_boundary.Runtime.{Tenant}
use django_boundary.Context.Aliases.{regional_alias, target_aliases, add_aliases, aliases_for}

contains-add_aliases :
    (base : String) (aliases rest : List String) (a : String)
    → contains aliases base ≡ true
    → contains (add_aliases base aliases rest) a ≡ (contains aliases a || contains rest a)
unfolding add_aliases
contains-add_aliases base aliases [] a h = ground arith
contains-add_aliases base aliases (x ∷ rest) a h = ground (
  arith,
  contains-add_aliases base aliases rest a,
  contains-add_aliases base (aliases ++ x ∷ []) rest a,
  contains-append aliases (x ∷ []) a,
  contains-append aliases (x ∷ []) base,
)

add_aliases-Distinct :
    (base : String) (aliases rest : List String)
    → Distinct aliases
    → Distinct (add_aliases base aliases rest)
unfolding add_aliases
add_aliases-Distinct base aliases [] h = h
add_aliases-Distinct base aliases (x ∷ rest) h = ground (
  arith,
  add_aliases-Distinct base aliases rest h,
  add_aliases-Distinct base (aliases ++ x ∷ []) rest,
  Distinct-snoc aliases x h,
)

-- The alias that a caller is told of when no region applies is its own; else one more.
abbrev is_some_of : Option String → String → Bool
is_some_of none a = false
is_some_of (some r) a = a == r

contains-target_aliases :
    (cfg : Settings) (tenant : Option Tenant) (a : String)
    → contains (target_aliases cfg tenant) a
      ≡ (a == "default" || is_some_of (regional_alias cfg tenant) a)
unfolding target_aliases
contains-target_aliases cfg tenant a = ground arith

-- The session variable of a tenant is written on the caller's alias, on `default` and on the
-- tenant's regional alias, and on no other.
pub contains-aliases_for :
    (cfg : Settings) (tenant : Option Tenant) (base a : String)
    → contains (aliases_for cfg tenant base) a
      ≡ (a == base || (a == "default" || is_some_of (regional_alias cfg tenant) a))
unfolding aliases_for
contains-aliases_for cfg tenant base a = ground (
  arith,
  contains-add_aliases base (base ∷ []) (target_aliases cfg tenant) a,
  contains-target_aliases cfg tenant a,
)

-- No alias stands twice among those on which a session variable is written.
aliases_for-Distinct :
    (cfg : Settings) (tenant : Option Tenant) (base : String)
    → Distinct (aliases_for cfg tenant base)
unfolding aliases_for
aliases_for-Distinct cfg tenant base =
    add_aliases-Distinct base (base ∷ []) (target_aliases cfg tenant) (refl, tt)
