-- ===== src/Authz/Glob.antt =====
-- `fnmatch.fnmatchcase` of the standard library, which src/application/authz.py matches resources with:
-- `*`, `?` and `[seq]`, a leading `!` in a sequence for its complement, and all else literal.
pub mod Plain
use Prim.Native.String.{[], ◌∷◌}
use mathlib.Core.List.{List, [], ◌∷◌}
use flow_first.Base.{
  ℕ, zero, suc, code, String, Bool, false, not, ◌&&◌, Option, none, some, eqb, leb, any, true, ◌||◌,
  if◌then◌else◌,
}
use flow_first.Base.Text.{is_empty, split_first}

-- A sequence is a list of ranges of codes, both ends included.
pub data Token : Type 0 where
  star any_one : Token
  literal : ℕ → Token
  one_of none_of : List (ℕ × ℕ) → Token

-- The items of a sequence: `a-b` is a range, and a dash at either end is itself.
unfoldable pub ranges : String → List (ℕ × ℕ)
ranges [] = []
ranges (a ∷ []) = (code a, code a) ∷ []
ranges (a ∷ b ∷ []) = (code a, code a) ∷ (code b, code b) ∷ []
ranges (a ∷ d ∷ b ∷ s) = elim (eqb (code d) b'-') [
  | Bool.true ↦ (code a, code b) ∷ ranges s
  | Bool.false ↦ (code a, code a) ∷ ranges (d ∷ b ∷ s)
]

-- What stands before the closing bracket, which is not the first character, and what stands after.
unfoldable pub closing : String → Option (String × String)
unfolding split_first
closing [] = none
closing (c ∷ s) = elim (split_first b']' s) [
  | some (before, rest) ↦
      if eqb (code c) b']' then some (c ∷ before, rest) else split_first b']' (c ∷ s)
  | none ↦ if eqb (code c) b']' then none else split_first b']' (c ∷ s)
]

abbrev one_of_text : String × String → Token × String
one_of_text (stuff, rest) = (one_of (ranges stuff), rest)

abbrev none_of_text : String × String → Token × String
none_of_text (stuff, rest) = (none_of (ranges stuff), rest)

abbrev map_option :
    (String × String → Token × String) → Option (String × String) → Option (Token × String)
map_option f none = none
map_option f (some p) = some (f p)

-- the text behind a `[`
unfoldable pub sequence : String → Option (Token × String)
unfolding closing ranges
sequence [] = none
sequence (c ∷ s) =
    if eqb (code c) b'!'
    then map_option none_of_text (closing s)
    else map_option one_of_text (closing (c ∷ s))

-- The pattern's tokens. The fuel is spent one for a token, so the pattern's length is enough.
unfoldable pub tokens : ℕ → String → List Token
unfolding sequence
tokens zero pat = []
tokens (suc fuel) [] = []
tokens (suc fuel) (c ∷ pat) = elim (eqb (code c) b'*') [
  | Bool.true ↦ star ∷ tokens fuel pat
  | Bool.false ↦ elim (eqb (code c) b'?') [
    | Bool.true ↦ any_one ∷ tokens fuel pat
    | Bool.false ↦ elim (eqb (code c) b'[') [
      | Bool.false ↦ literal (code c) ∷ tokens fuel pat
      | Bool.true ↦ elim (sequence pat) [
        | none ↦ literal (code c) ∷ tokens fuel pat
        | some (token, rest) ↦ token ∷ tokens fuel rest
      ]
    ]
  ]
]

abbrev pub size : String → ℕ
size [] = 0
size (c ∷ s) = suc (size s)

-- `*`: some end of the text matches the rest of the pattern
unfoldable pub some_suffix : (String → Bool) → String → Bool
some_suffix p [] = p []
some_suffix p (c ∷ s) = p (c ∷ s) || some_suffix p s

abbrev within : ℕ → ℕ × ℕ → Bool
within c (lo, hi) = leb lo c && leb c hi

-- one token that stands for one character
abbrev accepts : Token → ℕ → Bool
accepts star c = false
accepts any_one c = true
accepts (literal d) c = eqb d c
accepts (one_of rs) c = any (within c) rs
accepts (none_of rs) c = not (any (within c) rs)

unfoldable pub match_tokens : List Token → String → Bool
unfolding some_suffix is_empty any
match_tokens [] s = is_empty s
match_tokens (star ∷ ts) s = some_suffix (match_tokens ts) s
match_tokens (t ∷ ts) [] = false
match_tokens (t ∷ ts) (c ∷ s) = accepts t (code c) && match_tokens ts s

-- fnmatch.fnmatchcase(name, pat)
unfoldable pub fnmatchcase : String → String → Bool
unfolding tokens match_tokens
fnmatchcase name pat = match_tokens (tokens (size pat) pat) name
