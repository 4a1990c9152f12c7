-- ===== src/Base/Text.antt =====
-- Python's text methods that the program uses: strip, split, rsplit, lower, startswith.
-- A text is walked by its constructors, and a character is tested by its code point.
pub mod Laws
use Prim.Native.String.{String, [], ◌∷◌, ◌++◌}
use Prim.Native.Char.{Char, code}
use Prim.Native.Nat.{ℕ, zero, suc}
use mathlib.Core.Bool.{Bool, true, false, ◌&&◌, ◌||◌}
use mathlib.Core.List.{List, [], ◌∷◌}
use mathlib.Core.Option.{Option, none, some}
use flow_first.Base.Tests.{leb, eqb, if◌then◌else◌}

-- str.isspace, the characters that `strip` removes
unfoldable pub is_space : ℕ → Bool
is_space c =
    leb 9 c && leb c 13
    || leb 28 c && leb c 32
    || eqb c 0x85
    || eqb c 0xa0
    || eqb c 0x1680
    || leb 0x2000 c && leb c 0x200a
    || eqb c 0x2028
    || eqb c 0x2029
    || eqb c 0x202f
    || eqb c 0x205f
    || eqb c 0x3000

unfoldable pub is_empty : String → Bool
is_empty [] = true
is_empty (c ∷ s) = false

unfoldable pub lstrip : String → String
unfolding is_space
lstrip [] = []
lstrip (c ∷ s) = let rest = lstrip s in if is_space (code c) then rest else c ∷ s

unfoldable pub rstrip : String → String
unfolding is_space is_empty
rstrip [] = []
rstrip (c ∷ s) = let rest = rstrip s in if is_empty rest && is_space (code c) then [] else c ∷ rest

-- s.strip()
unfoldable pub strip : String → String
unfolding lstrip rstrip
strip s = rstrip (lstrip s)

-- the first part gets one more character at its front
abbrev pub cons_head : Char → List String → List String
cons_head c [] = (c ∷ []) ∷ []
cons_head c (s ∷ parts) = (c ∷ s) ∷ parts

-- s.split(sep), for a separator of one character
unfoldable pub split : ℕ → String → List String
split sep [] = [] ∷ []
split sep (c ∷ s) =
    let parts = split sep s in if eqb (code c) sep then [] ∷ parts else cons_head c parts

-- sep in s
unfoldable pub has_char : ℕ → String → Bool
has_char sep [] = false
has_char sep (c ∷ s) = eqb (code c) sep || has_char sep s

-- s.split(sep, 1) on a text that holds `sep`: what stands before the first and after it
unfoldable pub split_first : ℕ → String → Option (String × String)
split_first sep [] = none
split_first sep (c ∷ s) =
    if eqb (code c) sep
    then some ([], s)
    else elim (split_first sep s) [ none ↦ none | some (a, b) ↦ some (c ∷ a, b) ]

-- s.rsplit(sep, 1) on a text that holds `sep`: what stands before the last and after it
unfoldable pub split_last : ℕ → String → Option (String × String)
split_last sep [] = none
split_last sep (c ∷ s) = elim (split_last sep s) [
  | some (a, b) ↦ some (c ∷ a, b)
  | none ↦ if eqb (code c) sep then some ([], s) else none
]

-- s.startswith(prefix), with what stands after it
unfoldable pub after_prefix : String → String → Option String
after_prefix [] s = some s
after_prefix (p ∷ ps) [] = none
after_prefix (p ∷ ps) (c ∷ s) = if eqb (code p) (code c) then after_prefix ps s else none

-- an f-string, by its pieces
unfoldable pub concat : List String → String
concat [] = []
concat (s ∷ rest) = s ++ concat rest

-- the character of `to` at the place at which `from` has `c`
abbrev translate : String → String → Char → Char
translate [] to c = c
translate (d ∷ from) [] c = c
translate (d ∷ from) (e ∷ to) c =
    let other = translate from to c in if eqb (code d) (code c) then e else other

-- str.lower and str.upper, on the letters of ASCII
unfoldable pub lower : String → String
lower [] = []
lower (c ∷ s) = translate "ABCDEFGHIJKLMNOPQRSTUVWXYZ" "abcdefghijklmnopqrstuvwxyz" c ∷ lower s

unfoldable pub upper : String → String
upper [] = []
upper (c ∷ s) = translate "abcdefghijklmnopqrstuvwxyz" "ABCDEFGHIJKLMNOPQRSTUVWXYZ" c ∷ upper s

-- s[:n]
unfoldable pub take_text : ℕ → String → String
take_text zero s = []
take_text (suc n) [] = []
take_text (suc n) (c ∷ s) = c ∷ take_text n s

-- all(p(c) for c in s), on code points
unfoldable pub all_chars : (ℕ → Bool) → String → Bool
all_chars p [] = true
all_chars p (c ∷ s) = p (code c) && all_chars p s

-- s.rstrip(sep), for a text of one character
unfoldable pub rstrip_char : ℕ → String → String
unfolding is_empty
rstrip_char sep [] = []
rstrip_char sep (c ∷ s) =
    let rest = rstrip_char sep s in if is_empty rest && eqb (code c) sep then [] else c ∷ rest

-- s[n:]
unfoldable pub drop_text : ℕ → String → String
drop_text zero s = s
drop_text (suc n) [] = []
drop_text (suc n) (c ∷ s) = drop_text n s
