-- ===== src/Transformer/Changes.antt =====
-- What the handlers of src/application/process2.py do to a message between its decoding and its
-- publication: an exception in place of the message sends the delivery to the dead letters.
use flow_first.Base.{String, Bool, true, false, Option, some, [], ◌∷◌}
use flow_first.Base.Int.{ℤ, pos}
use flow_first.Base.Result.{Result, raise, ◌>>=◌, attribute_error}
use flow_first.Base.Text.{concat, lower}
use flow_first.Json.{Json, Fields, end, get_field, put_field}
use flow_first.Numbers.{
  int, float, as_number, to_json, plus, product, is_above, round_two, text_of_int,
}
use flow_first.Relay.{append_history}
use flow_first.Env.{Env, str_of, field_or, put_fields, stage, int_setting, float_setting}

abbrev pub status_of : Bool → String
status_of true = "HIGH"
status_of false = "NORMAL"

module _ (env : Env) where
  abbrev pub flow1_entry : ℤ → Json
  flow1_entry counter_step = stage env 0 "process2_reflected" (
      (
        "modification",
        Json.str (
            concat
              ("Added +" ∷ text_of_int counter_step ∷ " to counter (step from ZK config)" ∷ [])),
      )
      ∷ [])

  unfoldable pub change_flow1 : Fields → Result Fields
  unfolding get_field int_setting as_number plus text_of_int concat
  change_flow1 msg = int_setting env "flow1_counter_step" (pos 10) >>= λ counter_step.
      as_number (field_or msg "counter" (Json.int (pos 0))) >>= λ counter.
      plus env.floats counter (int counter_step) >>= λ sum.
      append_history
        (put_fields msg
          (("counter", to_json sum) ∷ ("process2_flow1_reflected", Json.bool true) ∷ []))
        (flow1_entry counter_step)

  abbrev pub flow2_entry : String → String → String → Json
  flow2_entry status scale_factor high_threshold = stage env 0 "process2_examined_and_forwarded" (
      ("status_assigned", Json.str status)
      ∷ (
        "modification",
        Json.str (
            concat (
              "Applied " ∷ scale_factor ∷ "x scale (threshold=" ∷ high_threshold
              ∷ ", from ZK config)" ∷ [])),
      )
      ∷ [])

  unfoldable pub change_flow2 : Fields → Result Fields
  unfolding get_field float_setting as_number is_above product round_two concat
  change_flow2 msg = float_setting env "flow2_high_threshold" "30.0" >>= λ high_threshold.
      float_setting env "flow2_scale_factor" "1.15" >>= λ scale_factor.
      as_number (field_or msg "value" (Json.float "0.0")) >>= λ val.
      product env.floats val (float scale_factor) >>= λ scaled.
      let status = status_of (is_above env.floats val (float high_threshold)) in
      append_history
        (put_fields msg (
          ("examined_status", Json.str status)
          ∷ ("value", to_json (round_two env.floats scaled))
          ∷ []))
        (flow2_entry status scale_factor high_threshold)

  unfoldable pub change_flow3 : Fields → Result Fields
  unfolding get_field str_of concat
  change_flow3 msg =
      append_history (put_fields msg (("process2_verified_remote", Json.bool true) ∷ [])) (
        stage env 0 "process2_received_from_remote_and_forwarded_to_p4" (
          ("status", Json.str "remote_flow3_verified")
          ∷ (
            "action",
            Json.str (
                concat (
                  "Received from "
                  ∷ str_of env (field_or msg "remote_node" Json.null)
                  ∷ " (computed_val="
                  ∷ str_of env (field_or msg "remote_computed_value" Json.null)
                  ∷ ") and forwarded to DB Updater (Process 4)"
                  ∷ [])),
          )
          ∷ []))

  fingerprint : Fields → String
  unfolding get_field str_of concat
  fingerprint msg = env.sha256_hex (
      concat (
        str_of env (field_or msg "device_name" (Json.str ""))
        ∷ ":"
        ∷ str_of env (field_or msg "device_type" (Json.str ""))
        ∷ ":"
        ∷ str_of env (field_or msg "location" (Json.str ""))
        ∷ []))

  unfoldable pub change_flow4 : Fields → Result Fields
  unfolding fingerprint
  change_flow4 msg =
      append_history
        (put_fields msg (
          ("device_fingerprint", Json.str (fingerprint msg))
          ∷ ("enriched_at", Json.str (env.now 0))
          ∷ []))
        (stage env 1 "process2_enriched"
          (("enrichment", Json.str "device_fingerprint_computed") ∷ []))

-- filters[key] = filters[key].lower(), for a text
abbrev lower_field : Fields → String → Option Json → Fields
lower_field filters key (some (Json.str s)) = put_field filters key (Json.str (lower s))
lower_field filters key _ = filters

unfoldable pub lowered : Fields → String → Fields
unfolding get_field put_field lower
lowered filters key = lower_field filters key (get_field filters key)

module _ (env : Env) where
  abbrev pub query_changed : Fields → Json → Result Fields
  query_changed msg (Json.obj filters) =
      append_history
        (put_fields msg (
          ("filters", Json.obj (lowered (lowered filters "device_type") "status"))
          ∷ ("query_enriched_at", Json.str (env.now 0))
          ∷ []))
        (stage env 1 "process2_query_normalized"
          (("enrichment", Json.str "filter_values_normalized") ∷ []))
  query_changed msg _ = raise attribute_error

  unfoldable pub change_flow5 : Fields → Result Fields
  unfolding get_field lowered
  change_flow5 msg = query_changed msg (field_or msg "filters" (Json.obj end))

  unfoldable pub change_flow6 : Fields → Result Fields
  unfolding int_setting
  change_flow6 msg = int_setting env "flow6_update_seq" env.now_ms >>= λ update_seq.
      append_history
        (put_fields msg (
          ("update_sequence", Json.int update_seq)
          ∷ ("previous_state_tracked", Json.bool true)
          ∷ []))
        (stage env 0 "process2_sequenced" (("update_sequence", Json.int update_seq) ∷ []))

  unfoldable pub change_flow6_remote_return : Fields → Result Fields
  unfolding get_field str_of concat
  change_flow6_remote_return msg =
      append_history (put_fields msg (("process2_remote_return_verified", Json.bool true) ∷ [])) (
        stage env 0 "process2_received_remote_sync_result" (
          (
            "action",
            Json.str (
                concat (
                  "Received edge-sync from "
                  ∷ str_of env (field_or msg "remote_node" Json.null)
                  ∷ " and forwarding to P4"
                  ∷ [])),
          )
          ∷ []))

  unfoldable pub change_flow7 : Fields → Result Fields
  unfolding int_setting
  change_flow7 msg = int_setting env "flow7_grace_period_s" (pos 0) >>= λ grace_period_s.
      append_history
        (put_fields msg (
          ("deletion_requested_by", Json.str env.node_name)
          ∷ ("grace_period_s", Json.int grace_period_s)
          ∷ []))
        (stage env 0 "process2_deletion_marked" (("grace_period_s", Json.int grace_period_s) ∷ []))
