-- ===== src/Forwarder/Routes.antt =====
-- Where the consumers of src/application/process3.py publish.
use flow_first.Base.{String, true, [], ◌∷◌, ◌++◌, ◌≡◌, refl, inl, inr, contains}
use flow_first.Json.{Json, Fields}
use flow_first.World.{World}
use flow_first.Env.{Env}
use flow_first.Queues.{
  all_queues, queue_flow1_p3_to_p4, queue_flow2_p3_reflected, queue_flow4_p3_to_p4,
  queue_flow5_p3_to_p4, queue_flow6_p3_to_p4, queue_flow6_p3_to_p5, queue_flow7_p3_to_p4,
}
use flow_first.Relay.Routes.{
  PublishesTo, Routes, AllRoute, relay-Routes, guarded-Routes, same-PublishesTo, more-PublishesTo,
}
use flow_first.Forwarder.Validation.{valid_flow4, valid_flow5, valid_flow7}
use flow_first.Forwarder.Dual.{Fanned, handle_flow6_message_cases}
use flow_first.Forwarder.{
  change_flow1, change_flow2, change_flow4, change_flow5, change_flow7, handle_flow1_message,
  handle_flow2_message, handle_flow4_message, handle_flow5_message, handle_flow6_message,
  handle_flow7_message,
}
use flow_first.Forwarder.Consume.{consumers}

module _ (P : String → Type 0) where
  publish_both-PublishesTo :
      (d : Fields) (w w' : World)
      → P queue_flow6_p3_to_p4
      → P queue_flow6_p3_to_p5
      → Fanned d w w'
      → PublishesTo P w
      → PublishesTo P w'
  publish_both-PublishesTo d w w' h4 h5 (inl once) p =
      more-PublishesTo P queue_flow6_p3_to_p4 (Json.obj d) w w' h4 once p
  publish_both-PublishesTo d w w' h4 h5 (inr both) p =
      more-PublishesTo P queue_flow6_p3_to_p5 (Json.obj d)
        (record w { published = w.published ++ (queue_flow6_p3_to_p4, Json.obj d) ∷ [] }) w' h5 both
        (more-PublishesTo P queue_flow6_p3_to_p4 (Json.obj d) w
          (record w { published = w.published ++ (queue_flow6_p3_to_p4, Json.obj d) ∷ [] }) h4 refl
          p)

  handle_flow6-Routes :
      (env : Env)
      → P queue_flow6_p3_to_p4
      → P queue_flow6_p3_to_p5
      → Routes P (handle_flow6_message env)
  handle_flow6-Routes env h4 h5 body w p = elim (handle_flow6_message_cases env body w) [
    | inl dropped ↦ same-PublishesTo P w (handle_flow6_message env body w).1 dropped.0 p
    | inr (d, admitted, fanned) ↦
        publish_both-PublishesTo d w (handle_flow6_message env body w).1 h4 h5 fanned p
  ]

module _ (P : String → Type 0)
    (known : (queue : String) → contains all_queues queue ≡ true → P queue) (env : Env) where
  -- whatever holds of all the queues holds of those that they publish to
  pub forwarder-AllRoute : AllRoute P (consumers env)
  unfolding contains handle_flow1_message handle_flow2_message handle_flow4_message
      handle_flow5_message handle_flow7_message
  forwarder-AllRoute = (
    relay-Routes P (change_flow1 env) queue_flow1_p3_to_p4 "flow1_forwarded" "flow1_failed"
        (known queue_flow1_p3_to_p4 refl),
    (
      relay-Routes P (change_flow2 env) queue_flow2_p3_reflected "flow2_reflected" "flow2_failed"
          (known queue_flow2_p3_reflected refl),
      (
        guarded-Routes P valid_flow4 (change_flow4 env) queue_flow4_p3_to_p4 "flow4_forwarded"
            "flow4_failed" (known queue_flow4_p3_to_p4 refl),
        (
          guarded-Routes P valid_flow5 (change_flow5 env) queue_flow5_p3_to_p4 "flow5_forwarded"
              "flow5_failed" (known queue_flow5_p3_to_p4 refl),
          (
            handle_flow6-Routes P env (known queue_flow6_p3_to_p4 refl)
                (known queue_flow6_p3_to_p5 refl),
            (
              guarded-Routes P valid_flow7 (change_flow7 env) queue_flow7_p3_to_p4 "flow7_forwarded"
                  "flow7_failed" (known queue_flow7_p3_to_p4 refl),
              tt,
            ),
          ),
        ),
      ),
    ),
  )
