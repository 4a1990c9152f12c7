-- ===== src/Transformer.antt =====
-- The Transformer, src/application/process2.py: what each handler does to its message, and the handlers.
pub mod Consume
pub mod Routes
pub mod Changes
pub mod Rules
use flow_first.Base.{String, Bool, true, false, Option, none, some, List, [], ◌∷◌}
use flow_first.Json.{Json}
use flow_first.World.{Action}
use flow_first.Relay.{relay}
use flow_first.Env.{Env}
use flow_first.Queues.{
  queue_flow1_p2_to_p3, queue_flow2_p2_to_p3, queue_flow3_p2_to_p4, queue_flow4_p2_to_p3,
  queue_flow5_p2_to_p3, queue_flow6_p2_to_p3, queue_flow6_p2_to_p4, queue_flow7_p2_to_p3,
}
use Changes.{
  change_flow1, change_flow2, change_flow3, change_flow4, change_flow5, change_flow6,
  change_flow6_remote_return, change_flow7,
}

module _ (env : Env) (body : Option Json) where
  unfoldable pub handle_flow1_message : Action (Unit {0})
  unfolding relay change_flow1
  handle_flow1_message =
      relay (change_flow1 env) queue_flow1_p2_to_p3 "flow1_processed" "flow1_failed" body

  unfoldable pub handle_flow2_message : Action (Unit {0})
  unfolding relay change_flow2
  handle_flow2_message =
      relay (change_flow2 env) queue_flow2_p2_to_p3 "flow2_processed" "flow2_failed" body

  unfoldable pub handle_flow3_message : Action (Unit {0})
  unfolding relay change_flow3
  handle_flow3_message =
      relay (change_flow3 env) queue_flow3_p2_to_p4 "flow3_processed" "flow3_failed" body

  unfoldable pub handle_flow4_message : Action (Unit {0})
  unfolding relay change_flow4
  handle_flow4_message =
      relay (change_flow4 env) queue_flow4_p2_to_p3 "flow4_processed" "flow4_failed" body

  unfoldable pub handle_flow5_message : Action (Unit {0})
  unfolding relay change_flow5
  handle_flow5_message =
      relay (change_flow5 env) queue_flow5_p2_to_p3 "flow5_processed" "flow5_failed" body

  unfoldable pub handle_flow6_message : Action (Unit {0})
  unfolding relay change_flow6
  handle_flow6_message =
      relay (change_flow6 env) queue_flow6_p2_to_p3 "flow6_processed" "flow6_failed" body

  unfoldable pub handle_flow6_remote_return_message : Action (Unit {0})
  unfolding relay change_flow6_remote_return
  handle_flow6_remote_return_message =
      relay (change_flow6_remote_return env) queue_flow6_p2_to_p4 "flow6_remote_processed"
        "flow6_failed" body

  unfoldable pub handle_flow7_message : Action (Unit {0})
  unfolding relay change_flow7
  handle_flow7_message =
      relay (change_flow7 env) queue_flow7_p2_to_p3 "flow7_processed" "flow7_failed" body
