-- ===== src/Relay.antt =====
-- The shape that the message handlers of process2.py, process3.py and process5.py share: decode, change
-- the message, publish it to the next queue, count, and acknowledge; on any exception count the failure
-- and reject the delivery.
pub mod Outcome
pub mod Routes
pub mod Guarded
use flow_first.Base.{String, Bool, true, false, Option, none, some, List, [], ◌∷◌, ◌++◌}
use flow_first.Base.Result
use flow_first.Base.Result.{
  Exception, Result, ok, raise, value_error, attribute_error, key_error, broker_error,
}
use flow_first.Json.{Json, Fields, Items, get_field, put_field, append_item}
use flow_first.World.{
  World, Action, give, lift, try_except, ◌>>=◌, ◌>>◌, basic_publish, basic_ack, basic_nack,
  count_event,
}

-- json.loads(body.decode("utf-8")): `none` where it raises. A later `data.get` raises unless it is a dict.
unfoldable pub load_object : Option Json → Result Fields
load_object none = raise value_error
load_object (some (Json.obj d)) = ok d
load_object (some _) = raise attribute_error

-- data["history"].append(entry)
abbrev pub append_to : Fields → Json → Option Json → Result Fields
append_to msg entry (some (Json.arr l)) =
    ok (put_field msg "history" (Json.arr (append_item l entry)))
append_to msg entry (some _) = raise attribute_error
append_to msg entry none = raise key_error

unfoldable pub append_history : Fields → Json → Result Fields
unfolding get_field put_field append_item
append_history msg entry = append_to msg entry (get_field msg "history")

-- `except Exception`: count and reject
unfoldable pub reject : String → Action (Unit {0})
unfolding count_event basic_nack
reject failed = count_event failed >> basic_nack

-- publish, count, acknowledge
unfoldable pub forward : String → String → Fields → Action (Unit {0})
unfolding basic_publish count_event basic_ack
forward queue processed msg = basic_publish queue msg >> count_event processed >> basic_ack

-- the message that goes on, or the exception in its place
unfoldable pub changed : (Fields → Result Fields) → Option Json → Result Fields
unfolding load_object
changed transform body = Result.◌>>=◌ (load_object body) transform

unfoldable pub relay :
    (Fields → Result Fields) → String → String → String → Option Json → Action (Unit {0})
unfolding changed forward reject
relay transform queue processed failed body =
    try_except (lift (changed transform body) >>= forward queue processed) (reject failed)

-- The handlers that validate first: a message that fails validation is rejected before anything is
-- written, inside the same `try`.
abbrev pub pass_on :
    (Fields → Result Fields) → String → String → String → Fields → Bool → Action (Unit {0})
pass_on transform queue processed failed msg true = lift (transform msg) >>= forward queue processed
pass_on transform queue processed failed msg false = reject failed

unfoldable pub guarded :
    (Fields → Result Bool)
    → (Fields → Result Fields)
    → String
    → String
    → String
    → Option Json
    → Action (Unit {0})
unfolding load_object forward reject
guarded is_valid transform queue processed failed body =
    try_except
      (lift (load_object body) >>= λ msg.
        lift (is_valid msg) >>= pass_on transform queue processed failed msg)
      (reject failed)
