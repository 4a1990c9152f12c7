-- ===== src/Authz/Glob/Plain.antt =====
-- Patterns with no special character match themselves alone; `prefix*` matches what begins so.
use Prim.Native.String.{[], ◌∷◌}
use mathlib.Core.List.{[], ◌∷◌}
use text.Mathlib.TextEquality.{Char-path}
use flow_first.Base.{ℕ, code, String, Bool, true, not, ◌&&◌, eqb, ◌≡◌, refl, ◌||◌, arith}
use mathlib.Core.Path.{ap₂}
use flow_first.Authz.Glob.{tokens, size, match_tokens, fnmatchcase}

is_special : ℕ → Bool
is_special c = eqb c b'*' || eqb c b'?' || eqb c b'['

unfoldable pub is_plain : String → Bool
unfolding is_special
is_plain [] = true
is_plain (c ∷ s) = not (is_special (code c)) && is_plain s

match_plain-eq :
    (pat name : String)
    → is_plain pat ≡ true
    → match_tokens (tokens (size pat) pat) name ≡ true
    → name ≡ pat
unfolding is_plain tokens match_tokens
match_plain-eq [] [] p h = refl
match_plain-eq [] (c ∷ name) p h = cc
match_plain-eq (d ∷ pat) [] p h = ground arith
match_plain-eq (d ∷ pat) (c ∷ name) p h =
    ap₂ ◌∷◌ (Char-path c d (ground arith)) (match_plain-eq pat name (ground arith) (ground arith))

match_plain_self :
    (pat : String) → is_plain pat ≡ true → match_tokens (tokens (size pat) pat) pat ≡ true
unfolding is_plain tokens match_tokens
match_plain_self [] p = refl
match_plain_self (d ∷ pat) p = ground (arith, match_plain_self pat)

pub fnmatchcase-eq :
    (name pat : String) → is_plain pat ≡ true → fnmatchcase name pat ≡ true → name ≡ pat
unfolding fnmatchcase
fnmatchcase-eq name pat p h = match_plain-eq pat name p h

pub fnmatchcase_self : (pat : String) → is_plain pat ≡ true → fnmatchcase pat pat ≡ true
unfolding fnmatchcase
fnmatchcase_self pat p = match_plain_self pat p
