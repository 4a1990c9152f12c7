-- ===== src/World/Frames.antt =====
-- What a handler leaves alone: a part of the World that no statement of an action writes.
use flow_first.Base.{Bool, true, false, List, [], ◌∷◌, ◌≡◌, refl, ◌∙◌}
use flow_first.Base.Result.{Exception, Result, ok, raise}
use flow_first.World.{World, Action, lift, ◌>>=◌, call_with, call}

module _ {P : Type 0} (part : World → P) where
  abbrev pub Keeps : {A : Type 0} → Action A → Type 0
  Keeps m = (w : World) → part (m w).1 ≡ part w

  after-Keeps :
      {A B : Type 0} (r : Result A) (rest : A → Action B) (v : World)
      → ((a : A) → Keeps (rest a))
      → part ((lift r >>= rest) v).1 ≡ part v
  after-Keeps (ok a) rest v kept = kept a v
  after-Keeps (raise e) rest v kept = refl

  pub lift-Keeps :
      {A B : Type 0} (r : Result A) (rest : A → Action B)
      → ((a : A) → Keeps (rest a))
      → Keeps (lift r >>= rest)
  lift-Keeps r rest kept w = after-Keeps r rest w kept

  pub bind-Keeps :
      {A B : Type 0} (m : Action A) (rest : A → Action B)
      → Keeps m
      → ((a : A) → Keeps (rest a))
      → Keeps (m >>= rest)
  bind-Keeps m rest first kept w = after-Keeps (m w).0 rest (m w).1 kept ∙ first w

  -- a call whose effect leaves the part alone, as the use of a fault does
  pub call-Keeps :
      (e : Exception) (effect : World → World)
      → ((w : World) (fs : List Bool) → part (record w { faults = fs }) ≡ part w)
      → ((w : World) → part (effect w) ≡ part w)
      → Keeps (call e effect)
  call-Keeps e effect blind kept w = by_faults w.faults
    where
      by_faults : (fs : List Bool) → part (call_with fs e effect w).1 ≡ part w
      by_faults [] = kept w
      by_faults (true ∷ fs) = blind w fs
      by_faults (false ∷ fs) = kept (record w { faults = fs }) ∙ blind w fs
