-- ===== src/Forwarder.antt =====
-- The Forwarder, src/application/process3.py: what its handlers do to a message, which messages pass
-- their validation, and the handlers.
pub mod Validation
pub mod Consume
pub mod Routes
pub mod Dual
use flow_first.Base.{String, Bool, true, false, Option, none, some, List, [], ◌∷◌}
use flow_first.Base.Result.{Result, ok, raise}
use flow_first.Json.{Json, Fields, put_field}
use flow_first.World.{
  World, Action, lift, try_except, ◌>>=◌, ◌>>◌, basic_publish, basic_ack, count_event,
}
use flow_first.Relay.{load_object, append_history, reject, relay, guarded}
use flow_first.Env.{Env, put_fields, stage}
use flow_first.Queues.{
  queue_flow1_p3_to_p4, queue_flow2_p3_reflected, queue_flow4_p3_to_p4, queue_flow5_p3_to_p4,
  queue_flow6_p3_to_p4, queue_flow6_p3_to_p5, queue_flow7_p3_to_p4,
}
use Validation.{valid_flow4, valid_flow5, valid_flow6, valid_flow7}

module _ (env : Env) where
  unfoldable pub change_flow1 : Fields → Result Fields
  change_flow1 msg =
      append_history (put_fields msg (("process3_acknowledged", Json.bool true) ∷ [])) (
        stage env 0 "process3_received_and_forwarded"
          (("status", Json.str "forwarded_to_process4") ∷ []))

  unfoldable pub change_flow2 : Fields → Result Fields
  change_flow2 msg =
      append_history
        (put_fields msg
          (("verified_by", Json.str "forwarder") ∷ ("completed", Json.bool true) ∷ []))
        (stage env 0 "process3_reflected"
          (("modification", Json.str "Added verification seal and marked completed") ∷ []))

  unfoldable pub change_flow4 : Fields → Result Fields
  change_flow4 msg = append_history (put_fields msg (("validation_passed", Json.bool true) ∷ [])) (
      stage env 0 "process3_validated" (("validation", Json.str "device_name_and_type_valid") ∷ []))

  unfoldable pub change_flow5 : Fields → Result Fields
  change_flow5 msg =
      append_history (put_fields msg (("query_validated", Json.bool true) ∷ [])) (
        stage env 0 "process3_query_validated"
          (("validation", Json.str "query_filters_valid") ∷ []))

  unfoldable pub change_flow6 : Fields → Result Fields
  change_flow6 msg =
      append_history (put_fields msg (("validation_passed", Json.bool true) ∷ []))
        (stage env 0 "process3_validated" (("validation", Json.str "device_id_valid_uuid") ∷ []))

  unfoldable pub change_flow7 : Fields → Result Fields
  change_flow7 msg = append_history (put_fields msg (("deletion_validated", Json.bool true) ∷ [])) (
      stage env 0 "process3_deletion_validated" (("validation", Json.str "device_id_present") ∷ []))

-- `except Exception as pub_exc` around the second publish, once the first is done: acknowledge, so that
-- the message is not delivered to P4 again
abbrev after_p5 : Result (Unit {0}) → Action (Unit {0})
after_p5 (ok u) = count_event "flow6_forwarded" >> basic_ack
after_p5 (raise e) = count_event "flow6_failed" >> basic_ack

abbrev publish_p5 : Fields → Action (Unit {0})
publish_p5 msg w = let (r, w') = basic_publish queue_flow6_p3_to_p5 msg w in after_p5 r w'

unfoldable pub dual_publish : Fields → Action (Unit {0})
unfolding basic_publish count_event basic_ack
dual_publish msg = basic_publish queue_flow6_p3_to_p4 msg >> publish_p5 msg

abbrev pub validated_flow6 : Env → Fields → Bool → Action (Unit {0})
validated_flow6 env msg true = lift (change_flow6 env msg) >>= dual_publish
validated_flow6 env msg false = reject "flow6_failed"

module _ (env : Env) (body : Option Json) where
  unfoldable pub handle_flow1_message : Action (Unit {0})
  unfolding relay change_flow1
  handle_flow1_message =
      relay (change_flow1 env) queue_flow1_p3_to_p4 "flow1_forwarded" "flow1_failed" body

  unfoldable pub handle_flow2_message : Action (Unit {0})
  unfolding relay change_flow2
  handle_flow2_message =
      relay (change_flow2 env) queue_flow2_p3_reflected "flow2_reflected" "flow2_failed" body

  unfoldable pub handle_flow4_message : Action (Unit {0})
  unfolding guarded valid_flow4 change_flow4
  handle_flow4_message =
      guarded valid_flow4 (change_flow4 env) queue_flow4_p3_to_p4 "flow4_forwarded" "flow4_failed"
        body

  unfoldable pub handle_flow5_message : Action (Unit {0})
  unfolding guarded valid_flow5 change_flow5
  handle_flow5_message =
      guarded valid_flow5 (change_flow5 env) queue_flow5_p3_to_p4 "flow5_forwarded" "flow5_failed"
        body

  unfoldable pub handle_flow6_message : Action (Unit {0})
  unfolding load_object valid_flow6 change_flow6 dual_publish reject
  handle_flow6_message =
      try_except
        (lift (load_object body) >>= λ msg. lift (valid_flow6 msg) >>= validated_flow6 env msg)
        (reject "flow6_failed")

  unfoldable pub handle_flow7_message : Action (Unit {0})
  unfolding guarded valid_flow7 change_flow7
  handle_flow7_message =
      guarded valid_flow7 (change_flow7 env) queue_flow7_p3_to_p4 "flow7_forwarded" "flow7_failed"
        body
