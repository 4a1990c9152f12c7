-- ===== src/Transformer/Rules.antt =====
-- The values that the Transformer computes in flows 1 and 2.
use flow_first.Base.{String, true, false, some, [], ◌∷◌, ◌≡◌, refl, sym, ap, ◌∙◌, ◌==◌, arith}
use flow_first.Base.Int.{ℤ, pos, ◌+ℤ◌}
use flow_first.Base.Result.{ok}
use flow_first.Json.{Json, Fields, get_field, put_field, append_item, get-put_field}
use flow_first.Numbers.{Number, float, as_number, to_json, plus, product, is_above, round_two}
use flow_first.Relay.{append_history}
use flow_first.Pipeline.Step.{append_to_cases}
use flow_first.Env.{Env, field_or, put_fields, int_setting, float_setting}
use flow_first.Transformer.Changes.{change_flow1, change_flow2, flow1_entry, flow2_entry, status_of}

-- appending to the history leaves another field alone
append_history-field :
    (msg msg' : Fields) (entry : Json) (key : String)
    → append_history msg entry ≡ ok msg'
    → ("history" == key) ≡ false
    → get_field msg' key ≡ get_field msg key
unfolding append_history
append_history-field msg msg' entry key h other =
    let (l, found, e) = append_to_cases msg msg' entry (get_field msg "history") h in
    ap (λ m. get_field m key) (sym e)
    ∙ ground (arith, get-put_field msg "history" key (Json.arr (append_item l entry)), other)

module _ (env : Env) (msg msg' : Fields) where
  -- the counter of flow 1
  pub change_flow1-counter :
      (step c : ℤ)
      → int_setting env "flow1_counter_step" (pos 10) ≡ ok step
      → field_or msg "counter" (Json.int (pos 0)) ≡ Json.int c
      → change_flow1 env msg ≡ ok msg'
      → get_field msg' "counter" ≡ some (Json.int (c +ℤ step))
  unfolding change_flow1 as_number plus put_fields
  change_flow1-counter step c configured counted h =
      let fields =
        put_fields msg
          (("counter", Json.int (c +ℤ step)) ∷ ("process2_flow1_reflected", Json.bool true) ∷ []) in
      append_history-field fields msg' (flow1_entry env step) "counter" (ground arith) refl
      ∙ get-put_field (put_field msg "counter" (Json.int (c +ℤ step))) "process2_flow1_reflected"
          "counter" (Json.bool true)
      ∙ get-put_field msg "counter" "counter" (Json.int (c +ℤ step))

  -- Flow 2 compares the value as it came with the threshold, before it scales it: the status says HIGH
  -- exactly if that value is above, and the value that goes on is the product, rounded.
  pub change_flow2-status :
      (threshold factor : String) (val scaled : Number)
      → float_setting env "flow2_high_threshold" "30.0" ≡ ok threshold
      → float_setting env "flow2_scale_factor" "1.15" ≡ ok factor
      → as_number (field_or msg "value" (Json.float "0.0")) ≡ ok val
      → product env.floats val (float factor) ≡ ok scaled
      → change_flow2 env msg ≡ ok msg'
      → (get_field msg' "examined_status"
          ≡ some (Json.str (status_of (is_above env.floats val (float threshold)))))
        × (get_field msg' "value" ≡ some (to_json (round_two env.floats scaled)))
  unfolding change_flow2 put_fields
  change_flow2-status threshold factor val scaled t f v p h =
      let status = Json.str (status_of (is_above env.floats val (float threshold))) in
      let value = to_json (round_two env.floats scaled) in
      let fields = put_fields msg (("examined_status", status) ∷ ("value", value) ∷ []) in
      let entry =
        flow2_entry env (status_of (is_above env.floats val (float threshold))) factor threshold in
      let appended : append_history fields entry ≡ ok msg' = ground arith in
      (
        append_history-field fields msg' entry "examined_status" appended refl
            ∙ get-put_field (put_field msg "examined_status" status) "value" "examined_status" value
            ∙ get-put_field msg "examined_status" "examined_status" status,
        append_history-field fields msg' entry "value" appended refl
            ∙ get-put_field (put_field msg "examined_status" status) "value" "value" value,
      )
