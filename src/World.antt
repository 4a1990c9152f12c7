-- ===== src/World.antt =====
-- What the processes share with the outside, as one consumer sees it: the broker's queues and the
-- settlement of the delivery in hand, the counters of src/gt/gt.py, the dedup znodes, the tables and the
-- object store. Any call that leaves the process may raise: `faults` says which of the coming ones do.
pub mod Frames
use flow_first.Base.{ℕ, ◌+◌, String, Bool, true, false, List, [], ◌∷◌, ◌++◌}
use flow_first.Base.Dict.{Dict, get_or, put}
use flow_first.Base.Result.{Exception, Result, ok, raise}
use flow_first.Json.{Json, Fields}

-- basic_ack, and basic_nack with requeue=False, by which the broker dead-letters the message
pub data Settlement : Type 0 where
  acked nacked : Settlement

pub record World : Type 0 where
  -- true: the next call raises; past the end, calls succeed
  pub faults : List Bool
  pub published : List (String × Json)
  pub settled : List Settlement
  pub counters : Dict ℕ
  -- the children of /flowfirst/dedup
  pub dedup : List String
  -- the rows written to processed_messages, in order
  pub inserted : List Fields
  -- the rows written to the table devices, and the identifiers that were decommissioned, in order
  pub device_writes : List Fields
  pub decommissioned : List Json
  -- the texts of the znodes under /flowfirst/config
  pub config : Dict String
  pub objects : List (String × Fields)
  pub notices : List (String × Fields)

-- A statement that may raise leaves the writes that it made.
abbrev pub Action : Type 0 → Type 0
Action A = World → Result A × World

module _ {A : Type 0} where
  abbrev pub give : A → Action A
  give a w = (ok a, w)

  abbrev pub lift : Result A → Action A
  lift r w = (r, w)

  abbrev pub fail : Exception → Action A
  fail e w = (raise e, w)

  -- try: body; except Exception: handler
  abbrev pub try_except : Action A → Action A → Action A
  try_except body handler w =
      let (r, w') = body w in elim r [ ok a ↦ (ok a, w') | raise e ↦ handler w' ]

module _ {A B : Type 0} where
  infixl 10 ◌>>=◌ ◌>>◌
  abbrev pub ◌>>=◌ : Action A → (A → Action B) → Action B
  ◌>>=◌ m rest w = let (r, w') = m w in elim r [ ok a ↦ rest a w' | raise e ↦ (raise e, w') ]

  abbrev pub ◌>>◌ : Action A → Action B → Action B
  m >> rest = m >>= λ _. rest

-- one call to a server: it raises if its fault says so
abbrev pub call_with : List Bool → Exception → (World → World) → Action (Unit {0})
call_with [] e effect w = (ok tt, effect w)
call_with (true ∷ rest) e effect w = (raise e, record w { faults = rest })
call_with (false ∷ rest) e effect w = (ok tt, effect (record w { faults = rest }))

abbrev pub call : Exception → (World → World) → Action (Unit {0})
call e effect w = call_with w.faults e effect w

-- ch.basic_publish(mandatory=True) with publisher confirms: it raises unless the broker took the message
-- and its confirm arrived. The second call is the wait for the confirm, which may fail with the message taken.
unfoldable pub basic_publish : String → Fields → Action (Unit {0})
basic_publish routing_key body =
    call Exception.broker_error
      (λ w. record w { published = w.published ++ (routing_key, Json.obj body) ∷ [] })
    >> call Exception.broker_error (λ w. w)

unfoldable pub basic_ack : Action (Unit {0})
basic_ack =
    call Exception.broker_error λ w. record w { settled = w.settled ++ Settlement.acked ∷ [] }

unfoldable pub basic_nack : Action (Unit {0})
basic_nack =
    call Exception.broker_error λ w. record w { settled = w.settled ++ Settlement.nacked ∷ [] }

-- gt.metrics_counter[key] += 1
unfoldable pub count_event : String → Action (Unit {0})
count_event key w =
    (ok tt, record w { counters = put w.counters key (get_or w.counters key 0 + 1) })
