-- ===== src/Gateway/Publish.antt =====
-- The seven functions of src/application/process1.py that prepare a message and publish it. An argument
-- that may be None is an Option, or JSON's null where it comes from the request as it is.
use flow_first.Base.{
  ℕ, ◌-◌, ◌%◌, String, Bool, true, false, Option, none, some, List, [], ◌∷◌, if◌then◌else◌,
}
use flow_first.Base.Int.{ℤ, pos, negsuc, ◌+ℤ◌}
use flow_first.Base.Result
use flow_first.Base.Result.{Result, ok, raise, value_error}
use flow_first.Base.Text.{concat}
use flow_first.Json.{Json, Fields, end, nil, cons, is_truthy}
use flow_first.Numbers.{Number, int, float, to_json, plus, product, round_two, text_of_int}
use flow_first.World.{Action, give, lift, fail, ◌>>=◌, ◌>>◌, basic_publish, count_event}
use flow_first.Env.{Env, fields, int_setting}
use flow_first.Queues.{
  queue_flow1_p1_to_p2, queue_flow2_p1_to_p2, queue_flow3_p1_to_p5, queue_flow4_p1_to_p2,
  queue_flow5_p1_to_p2, queue_flow6_p1_to_p2, queue_flow7_p1_to_p2,
}

-- n % m in Python, for m > 0: the remainder is not negative
abbrev remainder : ℤ → ℕ → ℕ
remainder (pos n) m = n % m
remainder (negsuc n) m = m - 1 - n % m

abbrev or_int : Option ℤ → ℤ → ℤ
or_int none default = default
or_int (some n) default = n

-- `if x is None: x = default`
abbrev if_none : Json → Json → Json
if_none Json.null default = default
if_none v default = v

-- tags or {}
abbrev or_empty_dict : Bool → Json → Json
or_empty_dict true v = v
or_empty_dict false v = Json.obj end

module _ (env : Env) (uuid : ℕ → String) where
  -- the first entry of a message's history
  abbrev created : List (String × Json) → (String × Json)
  created rest = (
    "history",
    Json.arr (
        cons
          (Json.obj (
            fields (
              ("stage", Json.str "process1_created") ∷ ("timestamp", Json.str (env.now 0)) ∷ rest)))
          nil),
  )

  abbrev prepared : String → String × Json
  prepared status = created (
      ("status", Json.str status)
      ∷ ("source", Json.str "rest_api")
      ∷ ("published_by", Json.str env.node_name)
      ∷ [])

  abbrev operated : String → String × Json
  operated operation =
      created (("published_by", Json.str env.node_name) ∷ ("operation", Json.str operation) ∷ [])

  -- publish, count, return the payload
  unfoldable pub send : String → String → Fields → Action Fields
  unfolding basic_publish count_event
  send queue published payload =
      basic_publish queue payload >> count_event published >> give payload

  abbrev pub item_of : Option ℤ → ℤ
  item_of item_id = or_int item_id (pos (remainder env.now_ms 100000))

  unfoldable pub flow1_payload : Option ℤ → Json → Option ℤ → ℤ → Fields
  unfolding text_of_int concat ◌+ℤ◌
  flow1_payload item_id custom_data counter counter_step = fields (
      ("flow", Json.int (pos 1))
      ∷ ("message_id", Json.str (uuid 0))
      ∷ ("item_id", Json.int (item_of item_id))
      ∷ (
        "initial_data",
        if_none custom_data (
            Json.str
              (concat ("Flow-1 original payload for item #" ∷ text_of_int (item_of item_id) ∷ []))),
      )
      ∷ ("counter", Json.int (or_int counter (pos 100 +ℤ item_of item_id)))
      ∷ ("zk_counter_step", Json.int counter_step)
      ∷ prepared "prepared"
      ∷ [])

  unfoldable pub publish_flow1_message : Option ℤ → Json → Option ℤ → Action Fields
  unfolding int_setting flow1_payload send
  publish_flow1_message item_id custom_data counter =
      lift (int_setting env "flow1_counter_step" (pos 10)) >>= λ counter_step.
      send queue_flow1_p1_to_p2 "flow1_published"
        (flow1_payload item_id custom_data counter counter_step)

  -- round(base + (item_id % m) * step, 2), unless the value is given
  unfoldable pub default_value : String → ℕ → String → ℤ → Option String → Result Number
  unfolding product plus round_two
  default_value base m step item_id (some x) = ok (float x)
  default_value base m step item_id none =
      Result.◌>>=◌ (product env.floats (int (pos (remainder item_id m))) (float step)) λ scaled.
        Result.◌>>=◌ (plus env.floats (float base) scaled) λ sum. ok (round_two env.floats sum)

  unfoldable pub flow2_payload : Option ℤ → Json → Number → Fields
  unfolding text_of_int concat
  flow2_payload item_id custom_data value = fields (
      ("flow", Json.int (pos 2))
      ∷ ("message_id", Json.str (uuid 0))
      ∷ ("item_id", Json.int (item_of item_id))
      ∷ (
        "initial_data",
        if_none custom_data (
            Json.str
              (concat ("Flow-2 raw metric for item #" ∷ text_of_int (item_of item_id) ∷ []))),
      )
      ∷ ("value", to_json value)
      ∷ prepared "prepared"
      ∷ [])

  unfoldable pub publish_flow2_message : Option ℤ → Json → Option String → Action Fields
  unfolding default_value flow2_payload send
  publish_flow2_message item_id custom_data value =
      lift (default_value "25.0" 10 "1.5" (item_of item_id) value) >>= λ v.
      send queue_flow2_p1_to_p2 "flow2_published" (flow2_payload item_id custom_data v)

  unfoldable pub flow3_payload : Option ℤ → Json → Number → Fields
  unfolding text_of_int concat
  flow3_payload item_id custom_data remote_metric = fields (
      ("flow", Json.int (pos 3))
      ∷ ("message_id", Json.str (uuid 0))
      ∷ ("item_id", Json.int (item_of item_id))
      ∷ (
        "initial_data",
        if_none custom_data (
            Json.str
              (concat ("Flow-3 remote payload for item #" ∷ text_of_int (item_of item_id) ∷ []))),
      )
      ∷ ("remote_metric", to_json remote_metric)
      ∷ prepared "prepared_for_remotenode1"
      ∷ [])

  unfoldable pub publish_flow3_message : Option ℤ → Json → Option String → Action Fields
  unfolding default_value flow3_payload send
  publish_flow3_message item_id custom_data remote_metric =
      lift (default_value "45.0" 15 "2.2" (item_of item_id) remote_metric) >>= λ v.
      send queue_flow3_p1_to_p5 "flow3_published" (flow3_payload item_id custom_data v)

  -- device_name, device_type, location, firmware_version, tags, owner_team
  unfoldable pub flow4_payload : Json → Json → Json → Json → Json → Json → Fields
  unfolding text_of_int concat is_truthy
  flow4_payload device_name device_type location firmware_version tags owner_team = fields (
      ("flow", Json.int (pos 4))
      ∷ ("message_id", Json.str (uuid 1))
      ∷ ("operation", Json.str "create")
      ∷ ("device_id", Json.str (uuid 0))
      ∷ (
        "device_name",
        if_none device_name
            (Json.str (concat ("sensor-" ∷ text_of_int (pos (remainder env.now_ms 100000)) ∷ []))),
      )
      ∷ ("device_type", if_none device_type (Json.str "temperature_sensor"))
      ∷ ("location", if_none location (Json.str "facility/zone-1"))
      ∷ ("firmware_version", if_none firmware_version (Json.str "1.0.0"))
      ∷ ("tags", or_empty_dict (is_truthy tags) tags)
      ∷ ("status", Json.str "active")
      ∷ ("owner_team", if_none owner_team (Json.str "ops"))
      ∷ operated "create_device"
      ∷ [])

  unfoldable pub publish_flow4_message : Json → Json → Json → Json → Json → Json → Action Fields
  unfolding flow4_payload send
  publish_flow4_message device_name device_type location firmware_version tags owner_team =
      send queue_flow4_p1_to_p2 "flow4_published"
        (flow4_payload device_name device_type location firmware_version tags owner_team)

  unfoldable pub flow5_payload : Json → Fields
  flow5_payload filters = fields (
      ("flow", Json.int (pos 5))
      ∷ ("message_id", Json.str (uuid 0))
      ∷ ("operation", Json.str "query")
      ∷ ("filters", if_none filters (Json.obj end))
      ∷ operated "query_devices"
      ∷ [])

  unfoldable pub publish_flow5_message : Json → Action Fields
  unfolding flow5_payload send
  publish_flow5_message filters =
      send queue_flow5_p1_to_p2 "flow5_published" (flow5_payload filters)

  unfoldable pub flow6_payload : Json → Json → Fields
  flow6_payload device_id updates = fields (
      ("flow", Json.int (pos 6))
      ∷ ("message_id", Json.str (uuid 0))
      ∷ ("operation", Json.str "update")
      ∷ ("device_id", device_id)
      ∷ ("updates", if_none updates (Json.obj end))
      ∷ operated "update_device"
      ∷ [])

  -- raise ValueError if not device_id
  unfoldable pub publish_flow6_message : Json → Json → Action Fields
  unfolding flow6_payload send is_truthy
  publish_flow6_message device_id updates =
      if is_truthy device_id
      then send queue_flow6_p1_to_p2 "flow6_published" (flow6_payload device_id updates)
      else fail value_error

  unfoldable pub flow7_payload : Json → Fields
  flow7_payload device_id = fields (
      ("flow", Json.int (pos 7))
      ∷ ("message_id", Json.str (uuid 0))
      ∷ ("operation", Json.str "delete")
      ∷ ("device_id", device_id)
      ∷ operated "soft_delete_device"
      ∷ [])

  unfoldable pub publish_flow7_message : Json → Action Fields
  unfolding flow7_payload send is_truthy
  publish_flow7_message device_id =
      if is_truthy device_id
      then send queue_flow7_p1_to_p2 "flow7_published" (flow7_payload device_id)
      else fail value_error
