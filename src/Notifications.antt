-- ===== src/Notifications.antt =====
-- src/notifications/notifications.py: which flows are notified, the envelope, and `notify`, which never
-- raises.
use flow_first.Base.{
  ℕ, String, Bool, true, false, ◌||◌, ◌&&◌, not, Option, none, some, List, [], ◌∷◌, ◌++◌, ◌==◌, any,
  eqb, leb, ltb, if◌then◌else◌,
}
use flow_first.Base.Int.{ℤ, pos}
use flow_first.Base.Result.{Result, ok, broker_error}
use flow_first.Base.Text.{split, strip, is_empty, all_chars}
use flow_first.Json.{Json, Fields, get_field, put_field, without_field, is_truthy}
use flow_first.Numbers.{int_of_text}
use flow_first.World.{Action, give, call, try_except}
use flow_first.Env.{Env, field_or, fields}

pub record Settings : Type 0 where
  -- NOTIFICATIONS_ENABLED, _ENABLED_FLOWS, NOTIFICATIONS_EXCHANGE, NOTIFICATIONS_MAX_PAYLOAD_BYTES
  pub enabled : Bool
  pub flows : List ℕ
  pub exchange : String
  pub max_payload_bytes : ℕ
  -- str(uuid.uuid4()), and the length of json.dumps in bytes
  pub new_id : String
  pub json_bytes : Fields → ℕ

-- part.isdigit(), in the digits of ASCII
abbrev is_decimal : String → Bool
is_decimal s = not (is_empty s) && all_chars (λ c. leb b'0' c && leb c b'9') s

-- result.add(int(part))
abbrev add_part : Result ℤ → List ℕ → List ℕ
add_part (ok (ℤ.pos n)) result = n ∷ result
add_part _ result = result

parse_parts : List String → List ℕ
unfolding strip is_empty int_of_text all_chars
parse_parts [] = []
parse_parts (part ∷ rest) =
    let result = parse_parts rest in
    if is_decimal (strip part) then add_part (int_of_text (strip part)) result else result

unfoldable pub parse_flows : String → List ℕ
unfolding parse_parts strip is_empty split
parse_flows raw =
    if is_empty raw || strip raw == "*" || is_empty (strip raw)
    then []
    else parse_parts (split b',' raw)

abbrev is_nil : List ℕ → Bool
is_nil [] = true
is_nil (n ∷ l) = false

unfoldable pub flow_enabled : Settings → ℕ → Bool
unfolding any
flow_enabled settings flow = is_nil settings.flows || any (λ n. eqb n flow) settings.flows

-- `none` stands for None: the payload is too large
unfoldable pub safe_payload : Settings → Fields → Option Fields
unfolding without_field
safe_payload settings msg =
    if ltb 0 settings.max_payload_bytes
      && ltb settings.max_payload_bytes (settings.json_bytes (without_field msg "history"))
    then none
    else some (without_field msg "history")

-- a or b
abbrev either : Bool → Json → Json → Json
either true a b = a
either false a b = b

abbrev add_payload : Settings → Fields → Option Fields → Fields → Fields
add_payload settings msg (some payload) envelope = put_field envelope "payload" (Json.obj payload)
add_payload settings msg none envelope =
    put_field envelope "payload_bytes"
      (Json.int (pos (settings.json_bytes (without_field msg "history"))))

unfoldable pub envelope : Env → Settings → String → Fields → ℕ → Fields
unfolding get_field put_field is_truthy safe_payload without_field
envelope env settings event_type msg flow = add_payload settings msg (safe_payload settings msg) (
    fields (
      ("notification_id", Json.str settings.new_id)
      ∷ ("event_type", Json.str event_type)
      ∷ ("flow", Json.int (pos flow))
      ∷ (
        "entity_id",
        either (is_truthy (field_or msg "device_id" Json.null)) (field_or msg "device_id" Json.null)
            (field_or msg "item_id" Json.null),
      )
      ∷ ("entity_type", Json.str (if leb 4 flow then "device" else "message"))
      ∷ ("occurred_at", Json.str (env.now 2))
      ∷ ("node", Json.str env.node_name)
      ∷ ("message_id", field_or msg "message_id" (Json.str ""))
      ∷ []))

unfoldable pub notify : Env → Settings → String → Fields → ℕ → Action (Unit {0})
unfolding flow_enabled envelope
notify env settings event_type msg flow =
    if settings.enabled && flow_enabled settings flow
    then try_except
        (call broker_error λ w. record w {
          notices =
              w.notices ++ (settings.exchange, envelope env settings event_type msg flow) ∷ [];
        })
        (give tt)
    else give tt
