-- ===== src/Gateway/Published.antt =====
-- What a caller of the gateway's publications learns from their result.
use flow_first.Base.{
  ℕ, String, Bool, true, false, Option, some, [], ◌∷◌, ◌++◌, ◌≡◌, refl, ◌⊎◌, inl, inr, arith,
  if◌then◌else◌,
}
use flow_first.Base.Int.{ℤ, pos}
use flow_first.Base.Result.{Exception, Result, ok, raise, broker_error, value_error}
use flow_first.Json.{Json, Fields, nil, cons, get_field, is_truthy}
use flow_first.World.{World, Action, lift, fail, ◌>>=◌}
use flow_first.Env.{Env, int_setting}
use flow_first.Queues.{
  queue_flow1_p1_to_p2, queue_flow2_p1_to_p2, queue_flow3_p1_to_p5, queue_flow4_p1_to_p2,
  queue_flow5_p1_to_p2, queue_flow6_p1_to_p2, queue_flow7_p1_to_p2,
}
use flow_first.Gateway.Publish.{
  send, publish_flow1_message, publish_flow2_message, publish_flow3_message, publish_flow4_message,
  publish_flow5_message, publish_flow6_message, publish_flow7_message, flow1_payload, flow2_payload,
  flow3_payload, flow4_payload, flow5_payload, flow6_payload, flow7_payload, default_value, item_of,
}

-- a call of one of the functions, with its arguments
pub data Request : Type 0 where
  telemetry : Option ℤ → Json → Option ℤ → Request
  metric : Option ℤ → Json → Option String → Request
  remote : Option ℤ → Json → Option String → Request
  create : Json → Json → Json → Json → Json → Json → Request
  query : Json → Request
  update : Json → Json → Request
  delete : Json → Request

abbrev pub flow_of : Request → ℕ
flow_of (Request.telemetry item text counter) = 1
flow_of (Request.metric item text value) = 2
flow_of (Request.remote item text value) = 3
flow_of (Request.create name kind location firmware tags team) = 4
flow_of (Request.query filters) = 5
flow_of (Request.update id updates) = 6
flow_of (Request.delete id) = 7

abbrev pub queue_of : Request → String
queue_of (Request.telemetry item text counter) = queue_flow1_p1_to_p2
queue_of (Request.metric item text value) = queue_flow2_p1_to_p2
queue_of (Request.remote item text value) = queue_flow3_p1_to_p5
queue_of (Request.create name kind location firmware tags team) = queue_flow4_p1_to_p2
queue_of (Request.query filters) = queue_flow5_p1_to_p2
queue_of (Request.update id updates) = queue_flow6_p1_to_p2
queue_of (Request.delete id) = queue_flow7_p1_to_p2

module _ (env : Env) (uuid : ℕ → String) where
  unfoldable pub publish : Request → Action Fields
  unfolding publish_flow1_message publish_flow2_message publish_flow3_message publish_flow4_message
      publish_flow5_message publish_flow6_message publish_flow7_message
  publish (Request.telemetry item text counter) = publish_flow1_message env uuid item text counter
  publish (Request.metric item text value) = publish_flow2_message env uuid item text value
  publish (Request.remote item text value) = publish_flow3_message env uuid item text value
  publish (Request.create name kind location firmware tags team) =
      publish_flow4_message env uuid name kind location firmware tags team
  publish (Request.query filters) = publish_flow5_message env uuid filters
  publish (Request.update id updates) = publish_flow6_message env uuid id updates
  publish (Request.delete id) = publish_flow7_message env uuid id

  -- the payload has the flow's number and a history of one entry
  abbrev pub Opened : ℕ → Fields → Type 0
  Opened flow payload =
      (entry : Json) × (get_field payload "flow" ≡ some (Json.int (pos flow)))
      × (get_field payload "history" ≡ some (Json.arr (cons entry nil)))

  -- the payload was published to the queue, once
  abbrev pub Sent : ℕ → String → Fields → World → World → Type 0
  Sent flow queue payload w w' =
      (w'.published ≡ w.published ++ (queue, Json.obj payload) ∷ []) × Opened flow payload

  -- An exception, with nothing published; or the broker's, with a payload that was published; or the
  -- payload, published.
  abbrev pub Answered : ℕ → String → World → Result Fields × World → Type 0
  Answered flow queue w out =
      ((e : Exception) × (out.0 ≡ raise e) × (out.1.published ≡ w.published))
      ⊎ ((payload : Fields) × (out.0 ≡ raise broker_error) × Sent flow queue payload w out.1)
      ⊎ ((payload : Fields) × (out.0 ≡ ok payload) × Sent flow queue payload w out.1)

  abbrev Appended : String → Fields → World → World → Type 0
  Appended queue payload w w' = w'.published ≡ w.published ++ (queue, Json.obj payload) ∷ []

  send_cases :
      (queue event : String) (payload : Fields) (w : World)
      → ((send env uuid queue event payload w).0 ≡ raise broker_error)
          × ((send env uuid queue event payload w).1.published ≡ w.published)
        ⊎ (((send env uuid queue event payload w).0 ≡ raise broker_error)
            × Appended queue payload w (send env uuid queue event payload w).1)
        ⊎ (((send env uuid queue event payload w).0 ≡ ok payload)
            × Appended queue payload w (send env uuid queue event payload w).1)
  unfolding send
  send_cases queue event payload w = ground arith

  send-Answered :
      (flow : ℕ) (queue event : String) (payload : Fields) (w : World)
      → Opened flow payload
      → Answered flow queue w (send env uuid queue event payload w)
  send-Answered flow queue event payload w opened = elim (send_cases queue event payload w) [
    | inl (failed, same) ↦ inl (broker_error, failed, same)
    | inr (inl (failed, more)) ↦ inr (inl (payload, failed, (more, opened)))
    | inr (inr (returned, more)) ↦ inr (inr (payload, returned, (more, opened)))
  ]

  lifted-Answered :
      {A : Type 0} (flow : ℕ) (queue : String) (r : Result A) (rest : A → Action Fields) (w : World)
      → ((a : A) → Answered flow queue w (rest a w))
      → Answered flow queue w ((lift r >>= rest) w)
  lifted-Answered flow queue (ok a) rest w step = step a
  lifted-Answered flow queue (raise e) rest w step = inl (e, refl, refl)

  checked-Answered :
      (flow : ℕ) (queue : String) (good : Bool) (m : Action Fields) (w : World)
      → Answered flow queue w (m w)
      → Answered flow queue w ((if good then m else fail value_error) w)
  checked-Answered flow queue true m w answered = answered
  checked-Answered flow queue false m w answered = inl (value_error, refl, refl)

  -- Whatever the arguments, whatever the configuration holds and whatever calls fail, the confirm of the
  -- broker included: at most one message is published, to the queue of its flow, with the flow's number and
  -- a history of one entry. A payload that is returned is the one that was published, and any exception but
  -- the broker's means that nothing was.
  pub publish-Answered :
      (request : Request) (w : World)
      → Answered (flow_of request) (queue_of request) w (publish request w)
  unfolding publish publish_flow1_message publish_flow2_message publish_flow3_message
      publish_flow4_message publish_flow5_message publish_flow6_message publish_flow7_message
      flow1_payload flow2_payload flow3_payload flow4_payload flow5_payload flow6_payload
      flow7_payload get_field
  publish-Answered (Request.telemetry item text counter) w =
      lifted-Answered 1 queue_flow1_p1_to_p2 (int_setting env "flow1_counter_step" (pos 10))
        (λ step.
          send env uuid queue_flow1_p1_to_p2 "flow1_published"
            (flow1_payload env uuid item text counter step))
        w
        λ step.
          send-Answered 1 queue_flow1_p1_to_p2 "flow1_published"
            (flow1_payload env uuid item text counter step) w (_, refl, refl)
  publish-Answered (Request.metric item text value) w =
      lifted-Answered 2 queue_flow2_p1_to_p2
        (default_value env uuid "25.0" 10 "1.5" (item_of env uuid item) value)
        (λ v.
          send env uuid queue_flow2_p1_to_p2 "flow2_published" (flow2_payload env uuid item text v))
        w
        λ v.
          send-Answered 2 queue_flow2_p1_to_p2 "flow2_published"
            (flow2_payload env uuid item text v) w (_, refl, refl)
  publish-Answered (Request.remote item text value) w =
      lifted-Answered 3 queue_flow3_p1_to_p5
        (default_value env uuid "45.0" 15 "2.2" (item_of env uuid item) value)
        (λ v.
          send env uuid queue_flow3_p1_to_p5 "flow3_published" (flow3_payload env uuid item text v))
        w
        λ v.
          send-Answered 3 queue_flow3_p1_to_p5 "flow3_published"
            (flow3_payload env uuid item text v) w (_, refl, refl)
  publish-Answered (Request.create name kind location firmware tags team) w =
      send-Answered 4 queue_flow4_p1_to_p2 "flow4_published"
        (flow4_payload env uuid name kind location firmware tags team) w (_, refl, refl)
  publish-Answered (Request.query filters) w =
      send-Answered 5 queue_flow5_p1_to_p2 "flow5_published" (flow5_payload env uuid filters) w
        (_, refl, refl)
  publish-Answered (Request.update id updates) w =
      checked-Answered 6 queue_flow6_p1_to_p2 (is_truthy id)
        (send env uuid queue_flow6_p1_to_p2 "flow6_published" (flow6_payload env uuid id updates)) w
        (send-Answered 6 queue_flow6_p1_to_p2 "flow6_published" (flow6_payload env uuid id updates)
          w (_, refl, refl))
  publish-Answered (Request.delete id) w =
      checked-Answered 7 queue_flow7_p1_to_p2 (is_truthy id)
        (send env uuid queue_flow7_p1_to_p2 "flow7_published" (flow7_payload env uuid id)) w
        (send-Answered 7 queue_flow7_p1_to_p2 "flow7_published" (flow7_payload env uuid id) w
          (_, refl, refl))
