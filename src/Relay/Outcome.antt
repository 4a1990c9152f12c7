-- ===== src/Relay/Outcome.antt =====
-- What a handler of the shared shape does with its delivery, whatever calls fail.
use flow_first.Base.{String, Option, List, [], ◌∷◌, ◌++◌, ◌≡◌, refl, ◌⊎◌, inl, inr, arith, ◌+◌}
use flow_first.Base.Dict.{put, get_or}
use flow_first.Base.Result.{Result, ok, raise}
use flow_first.Json.{Json, Fields}
use flow_first.World.{◌>>=◌, lift, World, Settlement, acked, nacked, Action, try_except}
use flow_first.Relay.{forward, reject, changed, relay}

-- what the handler does once it has the message or the exception
send : String → String → String → Result Fields → Action (Unit {0})
send queue processed failed (raise e) = reject failed
send queue processed failed (ok d) = try_except (forward queue processed d) (reject failed)

send-changed :
    (queue processed failed : String) (r : Result Fields) (w : World)
    → try_except (lift r >>= forward queue processed) (reject failed) w
      ≡ send queue processed failed r w
unfolding send
send-changed queue processed failed (ok d) w = refl
send-changed queue processed failed (raise e) w = refl

abbrev pub Settled : List Settlement → World → World → Type 0
Settled now w w' = w'.settled ≡ w.settled ++ now

-- not published, and dead-lettered or left to the broker
abbrev pub Dropped : World → World → Type 0
Dropped w w' =
    (w'.published ≡ w.published) × (Settled (nacked ∷ []) w w' ⊎ (w'.settled ≡ w.settled))

-- published once, and settled at most once
abbrev pub Passed : String → Fields → World → World → Type 0
Passed queue d w w' =
    (w'.published ≡ w.published ++ (queue, Json.obj d) ∷ [])
    × (Settled (acked ∷ []) w w' ⊎ Settled (nacked ∷ []) w w' ⊎ (w'.settled ≡ w.settled))

pub reject-Dropped : (failed : String) (w : World) → Dropped w (reject failed w).1
unfolding reject
reject-Dropped failed w = ground arith

pub forward-Passed :
    (queue processed failed : String) (d : Fields) (w : World)
    → Dropped w (try_except (forward queue processed d) (reject failed) w).1
      ⊎ Passed queue d w (try_except (forward queue processed d) (reject failed) w).1
unfolding forward reject
forward-Passed queue processed failed d w = ground arith

send_cases :
    (queue processed failed : String) (r : Result Fields) (w : World)
    → Dropped w (send queue processed failed r w).1
      ⊎ ((d : Fields) × (r ≡ ok d) × Passed queue d w (send queue processed failed r w).1)
unfolding send
send_cases queue processed failed (raise e) w = inl (reject-Dropped failed w)
send_cases queue processed failed (ok d) w = elim (forward-Passed queue processed failed d w) [
  | inl dropped ↦ inl dropped
  | inr passed ↦ inr (d, refl, passed)
]

module _ (transform : Fields → Result Fields) (queue processed failed : String)
    (body : Option Json) where
  abbrev pub Relayed : World → World → Type 0
  Relayed w w' =
      Dropped w w' ⊎ ((d : Fields) × (changed transform body ≡ ok d) × Passed queue d w w')

  -- Whatever calls fail, a delivery ends in one of two ways. Nothing is published, and it is rejected or
  -- left to the broker, never acknowledged; or the handler's change of the message is published, once,
  -- to the handler's queue, and the delivery is settled at most once.
  pub relay_cases : (w : World) → Relayed w (relay transform queue processed failed body w).1
  unfolding relay
  relay_cases w =
      rw (send-changed queue processed failed (changed transform body) w)
        (send_cases queue processed failed (changed transform body) w)

  abbrev pub calm_end : World → Result Fields → Result (Unit {0}) × World
  calm_end w r = elim r [
    | ok d ↦ (
      ok tt,
      record w {
        published = w.published ++ (queue, Json.obj d) ∷ [];
        counters = put w.counters processed (get_or w.counters processed 0 + 1);
        settled = w.settled ++ acked ∷ [];
      },
    )
    | raise e ↦ (
      ok tt,
      record w {
        counters = put w.counters failed (get_or w.counters failed 0 + 1);
        settled = w.settled ++ nacked ∷ [];
      },
    )
  ]

  -- If no call fails, a message that can be changed is published and acknowledged, one that cannot is
  -- rejected, and in each case one counter goes up by one and nothing else changes.
  pub relay_total :
      (w : World)
      → w.faults ≡ []
      → relay transform queue processed failed body w ≡ calm_end w (changed transform body)
  unfolding relay forward reject
  relay_total w h = ground arith
