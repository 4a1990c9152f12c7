-- ===== src/Base/Dict.antt =====
-- Python's `dict` with keys of one type: entries in insertion order, and a write to a present key
-- keeps its place. Iteration is over `entries`.
use mathlib.Core.List.{List, [], ◌∷◌}
use mathlib.Core.Bool.{Bool, true, false}
use mathlib.Core.Option.{Option, none, some}
use mathlib.Core.Path.{◌≡◌, refl}
use native.Mathlib.Omega.{arith}
use Prim.Native.String.{String}
use text.Mathlib.Text.{◌==◌}
use text.Mathlib.TextEquality.{eq_iff}
use flow_first.Base.Tests.{if◌then◌else◌}
use flow_first.Base.Lists.{contains}

abbrev pub Dict {ℓ} : Type ℓ → Type ℓ
Dict V = List (String × V)

module _ {ℓ} {V : Type ℓ} where
  -- d.get(k)
  unfoldable pub get : Dict V → String → Option V
  get [] k = none
  get ((j, v) ∷ d) k = if j == k then some v else get d k

  -- d.get(k, default)
  abbrev pub get_or : Dict V → String → V → V
  get_or d k default = elim (get d k) [ none ↦ default | some v ↦ v ]

  -- d[k] = v
  unfoldable pub put : Dict V → String → V → Dict V
  put [] k v = (k, v) ∷ []
  put ((j, w) ∷ d) k v = if j == k then (j, v) ∷ d else (j, w) ∷ put d k v

  pub get-put :
      (d : Dict V) (k j : String) (v : V) → get (put d k v) j ≡ (if k == j then some v else get d j)
  unfolding get put
  get-put [] k j v = refl
  get-put ((i, w) ∷ d) k j v = ground (arith, eq_iff k j, eq_iff i k, eq_iff i j, get-put d k j v)

  -- d.pop(k, None)
  unfoldable pub pop : Dict V → String → Dict V
  pop [] k = []
  pop ((j, v) ∷ d) k = let rest = pop d k in if j == k then rest else (j, v) ∷ rest

  pub get-pop : (d : Dict V) (k j : String) → get (pop d k) j ≡ (if k == j then none else get d j)
  unfolding get pop
  get-pop [] k j = ground arith
  get-pop ((i, w) ∷ d) k j = ground (arith, eq_iff k j, eq_iff i k, eq_iff i j, get-pop d k j)

  -- list(d.keys())
  unfoldable pub keys : Dict V → List String
  keys [] = []
  keys ((k, v) ∷ d) = k ∷ keys d

  abbrev pub is_some : Option V → Bool
  is_some none = false
  is_some (some a) = true

  pub contains-keys : (d : Dict V) (k : String) → contains (keys d) k ≡ is_some (get d k)
  unfolding contains keys get
  contains-keys [] k = refl
  contains-keys ((j, v) ∷ d) k = ground (arith, contains-keys d k)
