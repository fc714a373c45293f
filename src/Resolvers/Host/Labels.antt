-- ===== src/Resolvers/Host/Labels.antt =====
-- Hosts as lists of labels, and the label-boundary match of `_slug_for_configured_parent`.
use Prim.Native.Char.{Char}
use Prim.Native.String.{[], ◌∷◌}
use text.Mathlib.TextEquality.{Char-path}
use text.Mathlib.TextLemmas.{nil-append, cons-append}
use mathlib.Core.Path.{ap₂, subst}
use django_boundary.Prelude.{
  Option-cases, ◌⊎◌, ◌↔◌, inl, inr, Bool-cases, String, ◌<>◌, ◌≡◌, ◌≢◌, refl, sym, ap, ◌∙◌, Bool,
  true, false, ◌||◌, some, List, [], ◌∷◌, arith, string_eq, nat_eq,
}
use django_boundary.Prelude.Text.{is_char, push, split, lower}
use django_boundary.Resolvers.Host.{dot, same_labels, label_above, slug_for_configured_parent}

abbrev dot_char : Char
dot_char = "."

-- Whether a text has a dot.
abbrev has_dot : String → Bool
has_dot [] = false
has_dot (x ∷ s) = is_char dot x || has_dot s

join : List String → String
join [] = []
join (part ∷ []) = part
join (part ∷ next ∷ parts) = part <> (dot_char ∷ join (next ∷ parts))

or_false : (a b : Bool) → (a || b) ≡ false → (a ≡ false) × (b ≡ false)
or_false a b h = ground arith

push_nonempty : (x : Char) (parts : List String) → push x parts ≢ []
push_nonempty x [] = λ e. cc
push_nonempty x (part ∷ parts) = λ e. cc

split_nonempty : (s : String) → split dot s ≢ []
unfolding split
split_nonempty [] = λ e. cc
split_nonempty (x ∷ s) = ground (arith, push_nonempty x (split dot s))

join-nil-cons : (parts : List String) → parts ≢ [] → join ([] ∷ parts) ≡ dot_char ∷ join parts
unfolding join
join-nil-cons [] h = absurd (h refl)
join-nil-cons (part ∷ parts) h = nil-append _

join-push : (x : Char) (parts : List String) → parts ≢ [] → join (push x parts) ≡ x ∷ join parts
unfolding join
join-push x [] h = absurd (h refl)
join-push x (part ∷ []) h = refl
join-push x (part ∷ next ∷ parts) h = cons-append x part _

char-eq-dot : (x : Char) → is_char dot x ≡ true → x ≡ dot_char
char-eq-dot x h = Char-path x dot_char (ground arith)

is_char-dot : is_char dot dot_char ≡ true
unfolding nat_eq
is_char-dot = refl

join-split : (s : String) → join (split dot s) ≡ s
unfolding split
join-split [] = unfold join in refl
join-split (x ∷ s) = elim (Bool-cases (is_char dot x)) [
  | inl e ↦ rw e (
      join-nil-cons (split dot s) (split_nonempty s)
      ∙ ap₂ (λ c u. c ∷ u) (sym (char-eq-dot x e)) (join-split s))
  | inr e ↦ rw e (join-push x (split dot s) (split_nonempty s) ∙ ap (λ u. x ∷ u) (join-split s))
]

split_injective : (s t : String) → split dot s ≡ split dot t → s ≡ t
split_injective s t h = sym (join-split s) ∙ ap join h ∙ join-split t

split-dot : (x : Char) (s : String) → is_char dot x ≡ true → split dot (x ∷ s) ≡ [] ∷ split dot s
unfolding split
split-dot x s h = rw h

split-other :
    (x : Char) (s : String) → is_char dot x ≡ false → split dot (x ∷ s) ≡ push x (split dot s)
unfolding split
split-other x s h = rw h

split-append :
    (s t : String) → has_dot s ≡ false → split dot (s <> (dot_char ∷ t)) ≡ s ∷ split dot t
split-append [] t h = rw nil-append (split-dot dot_char t is_char-dot)
split-append (x ∷ s) t h =
    let (here, rest) = or_false (is_char dot x) (has_dot s) h in
    rw cons-append (split-other x (s <> (dot_char ∷ t)) here ∙ ap (push x) (split-append s t rest))

abbrev HeadDotless : List String → Type 0
HeadDotless [] = Unit
HeadDotless (label ∷ labels) = has_dot label ≡ false

push-HeadDotless :
    (x : Char) (parts : List String)
    → is_char dot x ≡ false
    → HeadDotless parts
    → HeadDotless (push x parts)
push-HeadDotless x [] h t = rw h
push-HeadDotless x (part ∷ parts) h t = rw h t

split-HeadDotless : (s : String) → HeadDotless (split dot s)
unfolding split
split-HeadDotless [] = refl
split-HeadDotless (x ∷ s) = elim (Bool-cases (is_char dot x)) [
  | inl e ↦ rw e refl
  | inr e ↦ rw e (push-HeadDotless x (split dot s) e (split-HeadDotless s))
]

same_labels-eq : (xs ys : List String) → same_labels xs ys ≡ true → xs ≡ ys
same_labels-eq [] [] h = refl
same_labels-eq (x ∷ xs) (y ∷ ys) h = ground (arith, same_labels-eq xs ys)
same_labels-eq [] (y ∷ ys) h = cc
same_labels-eq (x ∷ xs) [] h = cc

same_labels_self : (xs : List String) → same_labels xs xs ≡ true
same_labels_self [] = refl
same_labels_self (x ∷ xs) = ground (arith, same_labels_self xs)

label_above-eq :
    (labels parent_labels : List String) (slug : String)
    → label_above labels parent_labels ≡ some slug
    → labels ≡ slug ∷ parent_labels
label_above-eq [] parent_labels slug h = cc
label_above-eq (label ∷ rest) parent_labels slug h =
    ground (arith, same_labels-eq rest parent_labels)

-- The host is the slug, a dot and the parent domain, and the slug has no dot: the parent stands at the
-- boundary of a label, one label down.
abbrev IsUnder : (parent host slug : String) → Type 0
IsUnder parent host slug = (host ≡ slug <> (dot_char ∷ lower parent)) × (has_dot slug ≡ false)

IsUnder-split :
    (parent host slug : String)
    → IsUnder parent host slug
    → split dot host ≡ slug ∷ split dot (lower parent)
IsUnder-split parent host slug (e, dotless) =
    ap (split dot) e ∙ split-append slug (lower parent) dotless

split-IsUnder :
    (parent host slug : String)
    → split dot host ≡ slug ∷ split dot (lower parent)
    → IsUnder parent host slug
split-IsUnder parent host slug h =
    let dotless : has_dot slug ≡ false = subst HeadDotless h (split-HeadDotless host) in
    (split_injective host _ (h ∙ sym (split-append slug (lower parent) dotless)), dotless)

IsUnder-label_above :
    (parent host slug : String)
    → IsUnder parent host slug
    → label_above (split dot host) (split dot (lower parent)) ≡ some slug
IsUnder-label_above parent host slug h =
    rw (IsUnder-split parent host slug h)
      (ground (arith, same_labels_self (split dot (lower parent))))

-- So for one of several parent domains.
abbrev pub IsUnderAny : (parents : List String) (host slug : String) → Type 0
IsUnderAny [] host slug = ⊥
IsUnderAny (parent ∷ parents) host slug = IsUnder parent host slug ⊎ IsUnderAny parents host slug

IsUnderAny-first :
    (parents : List String) (host slug label : String) (labels : List String)
    → split dot host ≡ label ∷ labels
    → IsUnderAny parents host slug
    → label ≡ slug
IsUnderAny-first [] host slug label labels e h = elim h [ ]
IsUnderAny-first (parent ∷ parents) host slug label labels e (inl h) =
    cc (IsUnder-split parent host slug h)
IsUnderAny-first (parent ∷ parents) host slug label labels e (inr h) =
    IsUnderAny-first parents host slug label labels e h

slug_for_configured_parent-IsUnderAny :
    (parents : List String) (host slug : String)
    → slug_for_configured_parent host parents ≡ some slug
    → IsUnderAny parents host slug
unfolding slug_for_configured_parent
slug_for_configured_parent-IsUnderAny [] host slug h = cc
slug_for_configured_parent-IsUnderAny (parent ∷ parents) host slug h =
    let here = label_above (split dot host) (split dot (lower parent)) in
    elim (Option-cases here) [
      | inl n ↦ inr (slug_for_configured_parent-IsUnderAny parents host slug (ground arith))
      | inr (label, e) ↦
          let same : label ≡ slug = ground arith in
          inl (
            split-IsUnder parent host slug
              (label_above-eq (split dot host) (split dot (lower parent)) slug (e ∙ ap some same)))
    ]

IsUnderAny-slug_for_configured_parent :
    (parents : List String) (host slug : String)
    → IsUnderAny parents host slug
    → slug_for_configured_parent host parents ≡ some slug
unfolding slug_for_configured_parent
IsUnderAny-slug_for_configured_parent [] host slug h = elim h [ ]
IsUnderAny-slug_for_configured_parent (parent ∷ parents) host slug (inl h) =
    rw (IsUnder-label_above parent host slug h) refl
IsUnderAny-slug_for_configured_parent (parent ∷ parents) host slug (inr h) =
    let here = label_above (split dot host) (split dot (lower parent)) in
    elim (Option-cases here) [
      | inl n ↦ rw n (IsUnderAny-slug_for_configured_parent parents host slug h)
      | inr (label, e) ↦
          let first = label_above-eq (split dot host) (split dot (lower parent)) label e in
          rw e
            (ap some (IsUnderAny-first parents host slug label (split dot (lower parent)) first h))
    ]

-- A host gives a slug exactly if it is that slug, which has no dot, then a dot, then one of the
-- parent domains in lower case.
pub slug_for_configured_parent_iff :
    (parents : List String) (host slug : String)
    → (slug_for_configured_parent host parents ≡ some slug) ↔ IsUnderAny parents host slug
slug_for_configured_parent_iff parents host slug = (
  slug_for_configured_parent-IsUnderAny parents host slug,
  IsUnderAny-slug_for_configured_parent parents host slug,
)
