-- ===== src/Forwarder/Validation.antt =====
-- The tests that the Forwarder's handlers make of a message before they change it. `ok false` is a failed
-- validation; an exception has the same end by the handler's `except`.
pub mod Exact
use Prim.Native.String.{count}
use flow_first.Base.{
  String, Bool, true, false, not, ◌&&◌, Option, none, some, List, [], ◌∷◌, ◌==◌, eqb, any, contains,
  map, if◌then◌else◌,
}
use flow_first.Base.Result.{Result, ok, raise, ◌>>=◌, attribute_error}
use flow_first.Base.Text.{strip, is_empty}
use flow_first.Json.{Json, Fields, end, field, get_field, is_truthy}
use flow_first.Env.{field_or}

-- (value or "").strip()
unfoldable pub strip_text : Json → Result String
unfolding is_truthy strip
strip_text (Json.str s) = ok (strip s)
strip_text v = if is_truthy v then raise attribute_error else ok ""

-- _ALLOWED_DEVICE_TYPES
abbrev pub allowed_device_types : List String
allowed_device_types =
    "temperature_sensor" ∷ "pressure_gauge" ∷ "flow_meter" ∷ "humidity_sensor" ∷ "vibration_sensor"
    ∷ "power_monitor" ∷ []

unfoldable pub valid_flow4 : Fields → Result Bool
unfolding get_field strip_text is_empty contains
valid_flow4 msg = strip_text (field_or msg "device_name" Json.null) >>= λ device_name.
    strip_text (field_or msg "device_type" Json.null) >>= λ device_type.
    if is_empty device_name then ok false else ok (contains allowed_device_types device_type)

abbrev is_dict : Json → Bool
is_dict (Json.obj d) = true
is_dict _ = false

abbrev keys_of : Fields → List String
keys_of end = []
keys_of (field k v d) = k ∷ keys_of d

-- filters.keys()
abbrev keys : Json → Result (List String)
keys (Json.obj d) = ok (keys_of d)
keys _ = raise attribute_error

abbrev recognized_filter_keys : List String
recognized_filter_keys = "device_type" ∷ "status" ∷ "owner_team" ∷ "location_contains" ∷ []

-- the condition of the outer `if`, and the test inside it
unfoldable pub valid_filters : Json → Result Bool
unfolding is_truthy any contains
valid_filters filters =
    if not (is_truthy filters)
    then ok (is_dict filters)
    else keys filters >>= λ ks.
        if not (any (contains recognized_filter_keys) ks) then ok (is_dict filters) else ok true

unfoldable pub valid_flow5 : Fields → Result Bool
unfolding get_field valid_filters
valid_flow5 msg = valid_filters (field_or msg "filters" (Json.obj end))

unfoldable pub valid_flow6 : Fields → Result Bool
unfolding get_field strip_text is_empty
valid_flow6 msg = strip_text (field_or msg "device_id" Json.null) >>= λ device_id.
    ok (not (is_empty device_id) && eqb (count device_id) 36)

unfoldable pub valid_flow7 : Fields → Result Bool
unfolding get_field strip_text is_empty
valid_flow7 msg =
    strip_text (field_or msg "device_id" Json.null) >>= λ device_id. ok (not (is_empty device_id))
