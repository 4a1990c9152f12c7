-- ===== src/Swift.antt =====
-- `put_message_object` of src/swift/swift_storage.py: it returns a flag, and never raises.
pub mod Reads
use flow_first.Base.{String, Bool, true, false, [], ◌∷◌, ◌++◌}
use flow_first.Base.Result.{runtime_error}
use flow_first.Base.Text.{concat}
use flow_first.Json.{Json, Fields, get_field, is_truthy}
use flow_first.World.{Action, give, ◌>>◌, call, try_except}
use flow_first.Env.{Env, str_of, field_or}

-- message_data.get("swift_object_name") or the name by flow and message
abbrev named : Env → Bool → Json → String → String
named env true given default = str_of env given
named env false given default = default

unfoldable pub object_name : Env → Fields → String
unfolding get_field is_truthy str_of concat
object_name env msg =
    named env (is_truthy (field_or msg "swift_object_name" Json.null))
      (field_or msg "swift_object_name" Json.null)
      (concat (
        str_of env (field_or msg "swift_path_prefix" (Json.str ""))
        ∷ "flow"
        ∷ str_of env (field_or msg "flow" (Json.str "unknown"))
        ∷ "/"
        ∷ str_of env (field_or msg "message_id" (Json.str ""))
        ∷ ".json"
        ∷ []))

-- put_container, then put_object
unfoldable pub put_message_object : Env → Bool → Fields → Action Bool
unfolding object_name
put_message_object env false msg = give false
put_message_object env true msg =
    try_except
      (call runtime_error (λ w. w)
        >> call runtime_error
            (λ w. record w { objects = w.objects ++ (object_name env msg, msg) ∷ [] })
        >> give true)
      (give false)
