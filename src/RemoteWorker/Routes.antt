-- ===== src/RemoteWorker/Routes.antt =====
-- Where the consumers of src/application/process5.py publish.
use flow_first.Base.{String, true, ◌≡◌, refl, contains}
use flow_first.Env.{Env}
use flow_first.Queues.{all_queues, queue_flow3_p5_to_p2, queue_flow6_p5_to_p2}
use flow_first.Relay.Routes.{AllRoute, relay-Routes}
use flow_first.RemoteWorker.{change_flow3, change_flow6, handle_flow3_message, handle_flow6_message}
use flow_first.RemoteWorker.Consume.{consumers}

module _ (P : String → Type 0)
    (known : (queue : String) → contains all_queues queue ≡ true → P queue) (env : Env) where
  -- whatever holds of all the queues holds of those that they publish to
  pub remote_worker-AllRoute : AllRoute P (consumers env)
  unfolding contains handle_flow3_message handle_flow6_message
  remote_worker-AllRoute = (
    relay-Routes P (change_flow3 env) queue_flow3_p5_to_p2 "flow3_processed" "flow3_failed"
        (known queue_flow3_p5_to_p2 refl),
    (
      relay-Routes P (change_flow6 env) queue_flow6_p5_to_p2 "flow6_processed" "flow6_failed"
          (known queue_flow6_p5_to_p2 refl),
      tt,
    ),
  )
