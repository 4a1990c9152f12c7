-- ===== src/Base/Text/Laws.antt =====
-- Laws of splitting: a text with no separator is one part, and joined parts come apart again.
use Prim.Native.String.{String, [], ◌∷◌, ◌++◌}
use Prim.Native.Nat.{ℕ, suc, ◌+◌}
use Prim.Native.Char.{Char, code}
use mathlib.Core.Bool.{true, false}
use mathlib.Core.List.{[], ◌∷◌}
use mathlib.Core.Option.{none, some}
use mathlib.Core.Path.{◌≡◌, refl, ap}
use mathlib.Core.Logic.{inl, inr}
use native.Mathlib.Omega.{arith}
use text.Mathlib.Text.{◌==◌}
use text.Mathlib.TextEquality.{eq_iff}
use text.Mathlib.TextLemmas.{nil-append, cons-append, append-nil}
use flow_first.Base.Tests.{eqb, Bool-cases}
use flow_first.Base.Text.{split, has_char, split_last, concat, is_empty}

pub split-no_separator : (sep : ℕ) (s : String) → has_char sep s ≡ false → split sep s ≡ s ∷ []
unfolding split has_char
split-no_separator sep [] h = refl
split-no_separator sep (c ∷ s) h = ground (arith, split-no_separator sep s)

-- The first part ends at the first separator.
pub split-append :
    (sep : ℕ) (a : String) (c : Char) (b : String)
    → has_char sep a ≡ false
    → eqb (code c) sep ≡ true
    → split sep (a ++ (c ∷ b)) ≡ a ∷ split sep b
unfolding split has_char
split-append sep [] c b h e = rw nil-append (ground arith)
split-append sep (d ∷ a) c b h e = rw cons-append (ground (arith, split-append sep a c b))

pub split_last-none : (sep : ℕ) (s : String) → has_char sep s ≡ false → split_last sep s ≡ none
unfolding split_last has_char
split_last-none sep [] h = refl
split_last-none sep (c ∷ s) h = ground (arith, split_last-none sep s)

-- The last part starts behind the last separator.
pub split_last-append :
    (sep : ℕ) (a : String) (c : Char) (b : String)
    → has_char sep b ≡ false
    → eqb (code c) sep ≡ true
    → split_last sep (a ++ (c ∷ b)) ≡ some (a, b)
unfolding split_last
split_last-append sep [] c b h e = rw nil-append (ground (arith, split_last-none sep b h))
split_last-append sep (d ∷ a) c b h e =
    rw cons-append (ground (arith, split_last-append sep a c b h e))

abbrev dot : Char
dot = "."

concat-dot : (a b : String) → concat (a ∷ "." ∷ b ∷ []) ≡ a ++ (dot ∷ b)
unfolding concat
concat-dot a b = rw (append-nil, cons-append dot [] b, nil-append)

is_empty-append_cons : (a : String) (c : Char) (b : String) → is_empty (a ++ (c ∷ b)) ≡ false
unfolding is_empty
is_empty-append_cons [] c b = rw nil-append
is_empty-append_cons (d ∷ a) c b = rw cons-append

pub is_empty-concat_dot : (a b : String) → is_empty (concat (a ∷ "." ∷ b ∷ [])) ≡ false
is_empty-concat_dot a b = rw (concat-dot a b) (is_empty-append_cons a dot b)

pub split-concat_dot :
    (a b : String)
    → has_char b'.' a ≡ false
    → has_char b'.' b ≡ false
    → split b'.' (concat (a ∷ "." ∷ b ∷ [])) ≡ a ∷ b ∷ []
split-concat_dot a b h k =
    rw (concat-dot a b, split-append b'.' a dot b h refl, split-no_separator b'.' b k)

abbrev colon : Char
colon = ":"

concat-colon : (a b : String) → concat (a ∷ ":" ∷ b ∷ []) ≡ a ++ (colon ∷ b)
unfolding concat
concat-colon a b = rw (append-nil, cons-append colon [] b, nil-append)

pub split_last-concat_colon :
    (a b : String)
    → has_char b':' b ≡ false
    → split_last b':' (concat (a ∷ ":" ∷ b ∷ [])) ≡ some (a, b)
split_last-concat_colon a b h = rw (concat-colon a b, split_last-append b':' a colon b h refl)

abbrev text_size : String → ℕ
text_size [] = 0
text_size (c ∷ s) = suc (text_size s)

text_size-append : (s t : String) → text_size (s ++ t) ≡ text_size s + text_size t
text_size-append [] t = rw nil-append (omega arith)
text_size-append (c ∷ s) t = rw cons-append (omega (arith, text_size-append s t))

-- A text differs from itself with a prefix.
pub distinct-prefixed :
    (c : Char) (prefix s : String) → (s == concat ((c ∷ prefix) ∷ s ∷ [])) ≡ false
unfolding concat
distinct-prefixed c prefix s = elim (Bool-cases (s == concat ((c ∷ prefix) ∷ s ∷ []))) [
  | inr other ↦ other
  | inl same ↦ absurd (longer (ap text_size ((eq_iff s _).0 same)))
]
  where
    longer : text_size s ≡ text_size ((c ∷ prefix) ++ (s ++ [])) → ⊥
    longer h = ground (arith, h, text_size-append (c ∷ prefix) (s ++ []), text_size-append s [])
