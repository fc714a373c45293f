-- ===== src/Context/Aliases.antt =====
-- context.py: `_regional_alias`, `_target_aliases`, `TenantContext._aliases_for`.
pub mod Laws
use django_boundary.Prelude.{
  String, Bool, true, false, not, ◌&&◌, ◌||◌, Option, none, some, List, [], ◌∷◌, ◌++◌, ◌==◌,
  string_eq, contains, if◌then◌else◌,
}
use django_boundary.Conf.{Settings, regions, region_field}
use django_boundary.Runtime.{Tenant, get_attribute}

-- `not xs`
abbrev pub is_empty {ℓ} : {A : Type ℓ} → List A → Bool
is_empty [] = true
is_empty (_ ∷ _) = false

-- The test at the end of `_regional_alias`, on the value of the region field.
abbrev regional : List String → Option String → Option String
regional configured none = none
regional configured (some region) =
    if region == "" || not (contains configured region) || region == "default"
    then none
    else some region

unfoldable pub regional_alias : Settings → Option Tenant → Option String
regional_alias cfg none = none
regional_alias cfg (some tenant) =
    if is_empty (regions cfg)
    then none
    else regional (regions cfg) (get_attribute (region_field cfg) tenant)

abbrev append_missing : List String → Option String → List String
append_missing aliases none = aliases
append_missing aliases (some alias) =
    if contains aliases alias then aliases else aliases ++ alias ∷ []

pub target_aliases : Settings → Option Tenant → List String
unfolding regional_alias
target_aliases cfg tenant = append_missing ("default" ∷ []) (regional_alias cfg tenant)

-- The loop of `_aliases_for`.
add_aliases : String → List String → List String → List String
add_aliases base aliases [] = aliases
add_aliases base aliases (alias ∷ rest) =
    add_aliases base
      (if not (alias == base) && not (contains aliases alias)
        then aliases ++ alias ∷ []
        else aliases)
      rest

unfoldable pub aliases_for : Settings → Option Tenant → String → List String
unfolding add_aliases target_aliases
aliases_for cfg tenant base = add_aliases base (base ∷ []) (target_aliases cfg tenant)
