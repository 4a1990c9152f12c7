-- ===== src/Relay/Guarded.antt =====
-- What a handler that validates first does with its delivery, whatever calls fail.
use flow_first.Base.{String, Bool, true, false, Option, ◌≡◌, refl, ◌⊎◌, inl, inr, arith}
use flow_first.Base.Result.{Result, ok, raise}
use flow_first.Json.{Json, Fields}
use flow_first.World.{◌>>=◌, lift, World, Action, try_except}
use flow_first.Relay.{load_object, forward, reject, pass_on, guarded}
use flow_first.Relay.Outcome.{Dropped, Passed, reject-Dropped, forward-Passed}

pub reject_twice-Dropped :
    (failed : String) (w : World) → Dropped w (try_except (reject failed) (reject failed) w).1
unfolding reject
reject_twice-Dropped failed w = ground arith

-- the message decodes to one that is valid and has the change `d`
abbrev pub Admitted :
    (Fields → Result Bool) → (Fields → Result Fields) → Result Fields → Fields → Type 0
Admitted is_valid transform loaded d =
    (msg : Fields) × (loaded ≡ ok msg) × (is_valid msg ≡ ok true) × (transform msg ≡ ok d)

module _ (is_valid : Fields → Result Bool) (transform : Fields → Result Fields)
    (queue processed failed : String) where
  attempt : Action (Unit {0}) → Action (Unit {0})
  attempt try = try_except try (reject failed)

  sent_cases :
      (t : Result Fields) (w : World)
      → Dropped w (attempt (lift t >>= forward queue processed) w).1
        ⊎ ((d : Fields) × (t ≡ ok d)
            × Passed queue d w (attempt (lift t >>= forward queue processed) w).1)
  unfolding attempt
  sent_cases (raise e) w = inl (reject-Dropped failed w)
  sent_cases (ok d) w = elim (forward-Passed queue processed failed d w) [
    | inl dropped ↦ inl dropped
    | inr passed ↦ inr (d, refl, passed)
  ]

  validated : Fields → Result Bool → Action (Unit {0})
  validated msg r = lift r >>= pass_on transform queue processed failed msg

  validated_cases :
      (msg : Fields) (r : Result Bool) (w : World)
      → Dropped w (attempt (validated msg r) w).1
        ⊎ ((d : Fields) × (r ≡ ok true)
            × (transform msg ≡ ok d)
            × Passed queue d w (attempt (validated msg r) w).1)
  unfolding attempt validated
  validated_cases msg (raise e) w = inl (reject-Dropped failed w)
  validated_cases msg (ok false) w = inl (reject_twice-Dropped failed w)
  validated_cases msg (ok true) w = elim (sent_cases (transform msg) w) [
    | inl dropped ↦ inl dropped
    | inr (d, changed, passed) ↦ inr (d, refl, changed, passed)
  ]

  loaded_cases :
      (r : Result Fields) (w : World)
      → Dropped w (attempt (lift r >>= λ msg. validated msg (is_valid msg)) w).1
        ⊎ ((d : Fields) × Admitted is_valid transform r d
            × Passed queue d w (attempt (lift r >>= λ msg. validated msg (is_valid msg)) w).1)
  unfolding attempt
  loaded_cases (raise e) w = inl (reject-Dropped failed w)
  loaded_cases (ok msg) w = elim (validated_cases msg (is_valid msg) w) [
    | inl dropped ↦ inl dropped
    | inr (d, valid, changed, passed) ↦ inr (d, (msg, refl, valid, changed), passed)
  ]

  abbrev pub Guarded : Option Json → World → World → Type 0
  Guarded body w w' =
      Dropped w w'
      ⊎ ((d : Fields) × Admitted is_valid transform (load_object body) d × Passed queue d w w')

  -- Whatever calls fail, nothing is published and the delivery is not acknowledged; or the message was
  -- valid, and its change is published once, to the handler's queue.
  pub guarded_cases :
      (body : Option Json) (w : World)
      → Guarded body w (guarded is_valid transform queue processed failed body w).1
  unfolding guarded attempt validated
  guarded_cases body w = loaded_cases (load_object body) w
