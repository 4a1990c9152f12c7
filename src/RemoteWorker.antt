-- ===== src/RemoteWorker.antt =====
-- The Remote Worker, src/application/process5.py: what its two handlers do to a message, and the handlers.
pub mod Consume
pub mod Routes
use flow_first.Base.{String, true, Option, [], ◌∷◌}
use flow_first.Base.Int.{pos}
use flow_first.Base.Result.{Result, ◌>>=◌}
use flow_first.Base.Text.{concat, take_text}
use flow_first.Json.{Json, Fields, get_field}
use flow_first.Numbers.{
  int, float, as_number, to_json, plus, product, round_two, text_of_int, text_of_number,
}
use flow_first.World.{Action}
use flow_first.Relay.{append_history, relay}
use flow_first.Env.{Env, str_of, field_or, put_fields, stage, int_setting}
use flow_first.Queues.{queue_flow3_p5_to_p2, queue_flow6_p5_to_p2}

module _ (env : Env) where
  -- A text or a list times an integer is one of Python's repetitions, to which 7.5 cannot be added: it
  -- raises TypeError, as `as_number` does.
  unfoldable pub change_flow3 : Fields → Result Fields
  unfolding get_field int_setting as_number plus product round_two text_of_number text_of_int concat
  change_flow3 msg = int_setting env "flow3_remote_multiplier" (pos 2) >>= λ remote_step.
      as_number (field_or msg "remote_metric" (Json.float "50.0")) >>= λ initial_val.
      product env.floats initial_val (int remote_step) >>= λ scaled.
      plus env.floats scaled (float "7.5") >>= λ moved.
      let computed_val = round_two env.floats moved in
      append_history
        (put_fields msg (
          ("remote_processed", Json.bool true)
          ∷ ("remote_node", Json.str env.node_name)
          ∷ ("remote_computed_value", to_json computed_val)
          ∷ []))
        (stage env 0 "process5_remote_transformed_and_reflected" (
          ("node_type", Json.str "remotenode1")
          ∷ (
            "modification",
            Json.str (
                concat (
                  "Applied remote transform (multiplier="
                  ∷ text_of_int remote_step
                  ∷ ", computed_value="
                  ∷ text_of_number computed_val
                  ∷ ")"
                  ∷ [])),
          )
          ∷ []))

  unfoldable pub edge_sync_token : Fields → String
  unfolding get_field str_of concat take_text
  edge_sync_token msg = take_text 16 (
      env.sha256_hex (
        concat (
          str_of env (field_or msg "device_id" (Json.str ""))
          ∷ ":"
          ∷ str_of env (field_or msg "update_sequence" (Json.int (pos 0)))
          ∷ [])))

  unfoldable pub change_flow6 : Fields → Result Fields
  unfolding edge_sync_token concat
  change_flow6 msg =
      append_history
        (put_fields msg (
          ("remote_sync_applied", Json.bool true)
          ∷ ("edge_sync_token", Json.str (edge_sync_token msg))
          ∷ ("remote_node", Json.str env.node_name)
          ∷ []))
        (stage env 0 "process5_edge_sync_applied" (
          ("node_type", Json.str "remotenode1")
          ∷ (
            "modification",
            Json.str (concat ("Edge sync applied (token=" ∷ edge_sync_token msg ∷ ")" ∷ [])),
          )
          ∷ []))

  unfoldable pub handle_flow3_message : Option Json → Action (Unit {0})
  unfolding relay change_flow3
  handle_flow3_message body =
      relay change_flow3 queue_flow3_p5_to_p2 "flow3_processed" "flow3_failed" body

  unfoldable pub handle_flow6_message : Option Json → Action (Unit {0})
  unfolding relay change_flow6
  handle_flow6_message body =
      relay change_flow6 queue_flow6_p5_to_p2 "flow6_processed" "flow6_failed" body
