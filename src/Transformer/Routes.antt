-- ===== src/Transformer/Routes.antt =====
-- Where the consumers of src/application/process2.py publish.
use flow_first.Base.{String, true, ◌≡◌, refl, contains}
use flow_first.Env.{Env}
use flow_first.Queues.{
  all_queues, queue_flow1_p2_to_p3, queue_flow2_p2_to_p3, queue_flow3_p2_to_p4,
  queue_flow4_p2_to_p3, queue_flow5_p2_to_p3, queue_flow6_p2_to_p3, queue_flow6_p2_to_p4,
  queue_flow7_p2_to_p3,
}
use flow_first.Relay.Routes.{AllRoute, relay-Routes}
use flow_first.Transformer.Changes.{
  change_flow1, change_flow2, change_flow3, change_flow4, change_flow5, change_flow6,
  change_flow6_remote_return, change_flow7,
}
use flow_first.Transformer.{
  handle_flow1_message, handle_flow2_message, handle_flow3_message, handle_flow4_message,
  handle_flow5_message, handle_flow6_message, handle_flow6_remote_return_message,
  handle_flow7_message,
}
use flow_first.Transformer.Consume.{consumers}

module _ (P : String → Type 0)
    (known : (queue : String) → contains all_queues queue ≡ true → P queue) (env : Env) where
  -- whatever holds of all the queues holds of those that they publish to
  pub transformer-AllRoute : AllRoute P (consumers env)
  unfolding contains handle_flow1_message handle_flow2_message handle_flow3_message
      handle_flow4_message handle_flow5_message handle_flow6_message
      handle_flow6_remote_return_message handle_flow7_message
  transformer-AllRoute = (
    relay-Routes P (change_flow1 env) queue_flow1_p2_to_p3 "flow1_processed" "flow1_failed"
        (known queue_flow1_p2_to_p3 refl),
    (
      relay-Routes P (change_flow2 env) queue_flow2_p2_to_p3 "flow2_processed" "flow2_failed"
          (known queue_flow2_p2_to_p3 refl),
      (
        relay-Routes P (change_flow3 env) queue_flow3_p2_to_p4 "flow3_processed" "flow3_failed"
            (known queue_flow3_p2_to_p4 refl),
        (
          relay-Routes P (change_flow4 env) queue_flow4_p2_to_p3 "flow4_processed" "flow4_failed"
              (known queue_flow4_p2_to_p3 refl),
          (
            relay-Routes P (change_flow5 env) queue_flow5_p2_to_p3 "flow5_processed" "flow5_failed"
                (known queue_flow5_p2_to_p3 refl),
            (
              relay-Routes P (change_flow6 env) queue_flow6_p2_to_p3 "flow6_processed"
                  "flow6_failed" (known queue_flow6_p2_to_p3 refl),
              (
                relay-Routes P (change_flow6_remote_return env) queue_flow6_p2_to_p4
                    "flow6_remote_processed" "flow6_failed" (known queue_flow6_p2_to_p4 refl),
                (
                  relay-Routes P (change_flow7 env) queue_flow7_p2_to_p3 "flow7_processed"
                      "flow7_failed" (known queue_flow7_p2_to_p3 refl),
                  tt,
                ),
              ),
            ),
          ),
        ),
      ),
    ),
  )
