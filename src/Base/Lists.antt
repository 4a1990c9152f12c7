-- ===== src/Base/Lists.antt =====
-- Lists measured by native numbers, and Python's `any`, `all` and comprehension filters on them.
use Prim.Native.Nat.{ℕ, suc, ◌+◌}
use mathlib.Core.Path.{◌≡◌, refl, sym}
use mathlib.Core.Logic.{◌⊎◌, inl, inr}
use mathlib.Core.Bool.{Bool, true, false, ◌&&◌, ◌||◌, false≢true}
use mathlib.Core.List.{List, [], ◌∷◌, ◌++◌}
use native.Mathlib.Omega.{arith}
use Prim.Native.String.{String}
use text.Mathlib.Text.{◌==◌}
use text.Mathlib.TextEquality.{eq_iff}
use flow_first.Base.Tests.{if◌then◌else◌, Bool-cases}

-- A member, as a value that can be taken apart.
pub data Member {ℓ} {A : Type ℓ} (a : A) : List A → Type ℓ where
  here : {x : A} {xs : List A} → a ≡ x → Member a (x ∷ xs)
  later : {x : A} {xs : List A} → Member a xs → Member a (x ∷ xs)

module _ {ℓ} {A : Type ℓ} where
  abbrev pub length : List A → ℕ
  length [] = 0
  length (x ∷ xs) = suc (length xs)

  pub length-append : (xs ys : List A) → length (xs ++ ys) ≡ length xs + length ys
  length-append [] ys = omega arith
  length-append (x ∷ xs) ys = omega (arith, length-append xs ys)

  -- any(p(x) for x in xs)
  unfoldable pub any : (A → Bool) → List A → Bool
  any p [] = false
  any p (x ∷ xs) = p x || any p xs

  unfoldable pub all : (A → Bool) → List A → Bool
  all p [] = true
  all p (x ∷ xs) = p x && all p xs

  -- [x for x in xs if p(x)]
  unfoldable pub keep : (A → Bool) → List A → List A
  keep p [] = []
  keep p (x ∷ xs) = let rest = keep p xs in if p x then x ∷ rest else rest

  pub any-Member :
      (p : A → Bool) (xs : List A) → any p xs ≡ true → (x : A) × Member x xs × (p x ≡ true)
  unfolding any
  any-Member p [] h = absurd (false≢true h)
  any-Member p (x ∷ xs) h = elim (Bool-cases (p x)) [
    | inl yes_x ↦ (x, here refl, yes_x)
    | inr no_x ↦ let (y, m, py) = any-Member p xs (ground arith) in (y, later m, py)
  ]

  pub Member-any : (p : A → Bool) (a : A) (xs : List A) → Member a xs → p a ≡ true → any p xs ≡ true
  unfolding any
  Member-any p a [] m h = elim m [ ]
  Member-any p a (x ∷ xs) (here e) h = rw (← e, h)
  Member-any p a (x ∷ xs) (later m) h = ground (arith, Member-any p a xs m h)

  pub keep-Member :
      (p : A → Bool) (a : A) (xs : List A) → Member a xs → p a ≡ true → Member a (keep p xs)
  unfolding keep
  keep-Member p a [] m h = elim m [ ]
  keep-Member p a (x ∷ xs) (here e) h = rw (← e, h) (here refl)
  keep-Member p a (x ∷ xs) (later m) h = elim (Bool-cases (p x)) [
    | inl kept ↦ rw kept (later (keep-Member p a xs m h))
    | inr left ↦ rw left (keep-Member p a xs m h)
  ]

  Member-if :
      (b : Bool) (a x : A) (ys : List A)
      → Member a (if b then x ∷ ys else ys)
      → ((a ≡ x) × (b ≡ true)) ⊎ Member a ys
  Member-if true a x ys (here h) = inl (h, refl)
  Member-if true a x ys (later m) = inr m
  Member-if false a x ys m = inr m

  pub Member-keep :
      (p : A → Bool) (a : A) (xs : List A) → Member a (keep p xs) → Member a xs × (p a ≡ true)
  unfolding keep
  Member-keep p a [] m = elim m [ ]
  Member-keep p a (x ∷ xs) m = elim (Member-if (p x) a x (keep p xs) m) [
    | inl e ↦ (here e.0, rw (e.0, e.1))
    | inr n ↦ let (o, h) = Member-keep p a xs n in (later o, h)
  ]

  pub any-append : (p : A → Bool) (xs ys : List A) → any p (xs ++ ys) ≡ any p xs || any p ys
  unfolding any
  any-append p [] ys = refl
  any-append p (x ∷ xs) ys = ground (arith, any-append p xs ys)

  -- Filtering first and testing after is one test of both.
  pub any-keep : (p q : A → Bool) (xs : List A) → any p (keep q xs) ≡ any (λ x. q x && p x) xs
  unfolding any keep
  any-keep p q [] = refl
  any-keep p q (x ∷ xs) = ground (arith, any-keep p q xs)

-- `s in xs` on a collection of texts
unfoldable pub contains : List String → String → Bool
contains [] s = false
contains (x ∷ xs) s = x == s || contains xs s

pub contains-Member : (xs : List String) (s : String) → contains xs s ≡ true → Member s xs
unfolding contains
contains-Member [] s h = absurd (false≢true h)
contains-Member (x ∷ xs) s h = elim (Bool-cases (x == s)) [
  | inl e ↦ here (sym ((eq_iff x s).0 e))
  | inr ne ↦ later (contains-Member xs s (ground arith))
]

pub Member-contains : (xs : List String) (s : String) → Member s xs → contains xs s ≡ true
unfolding contains
Member-contains [] s m = elim m [ ]
Member-contains (x ∷ xs) s (here e) = rw ((eq_iff x s).1 (sym e))
Member-contains (x ∷ xs) s (later m) = ground (arith, Member-contains xs s m)

-- What holds of all texts of a list holds of each.
pub all-contains :
    (p : String → Bool) (xs : List String) (s : String)
    → all p xs ≡ true
    → contains xs s ≡ true
    → p s ≡ true
unfolding all contains
all-contains p [] s h m = absurd (false≢true m)
all-contains p (x ∷ xs) s h m = elim (Bool-cases (x == s)) [
  | inl e ↦ rw (← (eq_iff x s).0 e) (ground arith)
  | inr ne ↦ all-contains p xs s (ground arith) (ground arith)
]
