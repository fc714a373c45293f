-- ===== src/Resolvers/Host.antt =====
-- resolvers.py: `_slug_for_configured_parent`, and how `SubdomainResolver` reads the host.
pub mod Labels
use django_boundary.Prelude.{
  ℕ, ◌+◌, String, Bool, true, false, not, ◌&&◌, Option, none, some, List, [], ◌∷◌, ◌==◌, string_eq,
  nat_eq, ltb, length, all, if◌then◌else◌,
}
use django_boundary.Prelude.Text.{split, before, rstrip, lower}

abbrev pub dot : ℕ
dot = b'.'

-- `xs == ys` on lists of texts
abbrev pub same_labels : List String → List String → Bool
same_labels [] [] = true
same_labels (x ∷ xs) (y ∷ ys) = x == y && same_labels xs ys
same_labels _ _ = false

-- `host_labels[0]` and `host_labels[1:]`, against the labels of one parent.
abbrev label_above : List String → List String → Option String
label_above [] parent_labels = none
label_above (label ∷ rest) parent_labels =
    if (length rest + 1 == length parent_labels + 1) && same_labels rest parent_labels
    then some label
    else none

abbrev first_some : Option String → Option String → Option String
first_some none o = o
first_some (some a) o = some a

unfoldable pub slug_for_configured_parent : String → List String → Option String
slug_for_configured_parent host [] = none
slug_for_configured_parent host (parent ∷ parents) =
    let rest = slug_for_configured_parent host parents in
    first_some (label_above (split dot host) (split dot (lower parent))) rest

abbrev is_label : String → Bool
is_label label = not (label == "")

-- `labels[0]` of a host of three labels or more
abbrev first_of_three : List String → Option String
first_of_three [] = none
first_of_three (label ∷ rest) = if ltb (length rest + 1) 3 then none else some label

-- The slug that `SubdomainResolver.resolve` looks up, from the result of `get_host`.
unfoldable pub slug_of_host : Option (List String) → String → Option String
unfolding slug_for_configured_parent
slug_of_host parent_domains raw =
    let host = lower (rstrip dot (before b':' raw)) in
    let labels = split dot host in
    if not (all is_label labels) then none else elim parent_domains [
      | none ↦ first_of_three labels
      | some parents ↦ slug_for_configured_parent host parents
    ]
