-- ===== src/Prelude/Text.antt =====
-- Python's text methods that the code uses, on texts of ASCII characters.
use Prim.Native.Char.{Char, code}
use Prim.Native.String.{String, [], ◌∷◌, ◌++◌, char_at}
use Prim.Native.Nat.{ℕ, zero, suc, ◌-◌}
use mathlib.Core.List.{List, [], ◌∷◌}
use mathlib.Core.Bool.{Bool, ◌&&◌, ◌||◌}
use django_boundary.Prelude.Equality.{◌==◌, nat_eq, string_eq, leb, if◌then◌else◌}

abbrev pub is_char : ℕ → Char → Bool
is_char c x = code x == c

abbrev pub push : Char → List String → List String
push x [] = (x ∷ []) ∷ []
push x (part ∷ parts) = (x ∷ part) ∷ parts

-- `s.split(c)` for a single character
unfoldable pub split : ℕ → String → List String
split c [] = [] ∷ []
split c (x ∷ s) = let rest = split c s in if is_char c x then [] ∷ rest else push x rest

-- `s.split(c)[0]`
unfoldable pub before : ℕ → String → String
before c [] = []
before c (x ∷ s) = let rest = before c s in if is_char c x then [] else x ∷ rest

-- What stands after the first `c`; nothing where there is none.
unfoldable pub after : ℕ → String → String
after c [] = []
after c (x ∷ s) = let rest = after c s in if is_char c x then s else rest

abbrev trim : ℕ → Char → String → String
trim c x [] = if is_char c x then [] else x ∷ []
trim c x (y ∷ s) = x ∷ (y ∷ s)

-- `s.rstrip(c)` for a single character
unfoldable pub rstrip : ℕ → String → String
rstrip c [] = []
rstrip c (x ∷ s) = trim c x (rstrip c s)

lower_char : Char → Char
lower_char x =
    if leb b'A' (code x) && leb (code x) b'Z'
    then char_at "abcdefghijklmnopqrstuvwxyz" (code x - b'A')
    else x

upper_char : Char → Char
upper_char x =
    if leb b'a' (code x) && leb (code x) b'z'
    then char_at "ABCDEFGHIJKLMNOPQRSTUVWXYZ" (code x - b'a')
    else x

unfoldable pub lower : String → String
unfolding lower_char
lower [] = []
lower (x ∷ s) = lower_char x ∷ lower s

unfoldable pub upper : String → String
unfolding upper_char
upper [] = []
upper (x ∷ s) = upper_char x ∷ upper s

-- `s.replace(c, t)` for a single character
unfoldable pub replace : ℕ → String → String → String
replace c t [] = []
replace c t (x ∷ s) = (if is_char c x then t else x ∷ []) ++ replace c t s

-- `s[n:]`
unfoldable pub drop : ℕ → String → String
drop zero s = s
drop (suc n) [] = []
drop (suc n) (x ∷ s) = drop n s

-- `s * n`
unfoldable pub repeat : String → ℕ → String
repeat s zero = []
repeat s (suc n) = s ++ repeat s n

-- `len(s)`
unfoldable pub len : String → ℕ
len [] = 0
len (x ∷ s) = suc (len s)

-- The white space of ASCII: tab to carriage return, the four separators, and the blank.
abbrev is_space : Char → Bool
is_space x = (leb 9 (code x) && leb (code x) 13) || (leb 28 (code x) && leb (code x) 32)

unfoldable strip_left : String → String
strip_left [] = []
strip_left (x ∷ s) = let rest = strip_left s in if is_space x then rest else x ∷ s

abbrev keep_inner : Char → String → String
keep_inner x [] = if is_space x then [] else x ∷ []
keep_inner x (y ∷ s) = x ∷ (y ∷ s)

unfoldable strip_right : String → String
strip_right [] = []
strip_right (x ∷ s) = keep_inner x (strip_right s)

-- `s.strip()`
unfoldable pub strip : String → String
unfolding strip_left strip_right
strip s = strip_right (strip_left s)

-- `", ".join(f'"{column}"' for column in columns)` and the like: each text within quotes, with a
-- separator between
unfoldable pub join_quoted : List String → String
join_quoted [] = ""
join_quoted (x ∷ []) = "\"" ++ x ++ "\""
join_quoted (x ∷ y ∷ xs) = "\"" ++ x ++ "\", " ++ join_quoted (y ∷ xs)

-- `s.removesuffix(suffix)`
unfoldable pub removesuffix : String → String → String
removesuffix suffix [] = []
removesuffix suffix (x ∷ s) =
    let rest = removesuffix suffix s in if x ∷ s == suffix then [] else x ∷ rest
