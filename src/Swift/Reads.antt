-- ===== src/Swift/Reads.antt =====
-- The reads of src/swift/swift_storage.py: each tells a failure by its result, and never raises.
use flow_first.Base.{ℕ, String, Bool, true, false, Option, none, some, [], ◌∷◌}
use flow_first.Base.Result.{Result, ok, raise, runtime_error}
use flow_first.Json.{Json, Items, Fields, end}
use flow_first.World.{Action, give, lift, ◌>>=◌, ◌>>◌, call, try_except}
use flow_first.Env.{fields}

-- What the object store holds. A request may raise for any reason; these are the answers of those that do not.
pub record Store : Type 0 where
  pub enabled : Bool
  pub auth_url : String
  pub container : String
  -- the text of an object as json.loads reads it, and its headers: raises for no such object
  pub object_at : String → Result (Json × Fields)
  pub listing : Option String → ℕ → Items
  pub account_objects : Json
  pub account_bytes : Json
  pub container_headers : Fields
  -- str(e) of a failure
  pub error_text : String

-- a request that changes nothing
abbrev pub read : Action (Unit {0})
read = call runtime_error (λ w. w)

abbrev pub found : Result (Json × Fields) → Action (Option (Json × Fields))
found (raise e) = lift (raise e)
found (ok object) = give (some object)

module _ (store : Store) where
  abbrev pub get_enabled : Bool → String → Action (Option (Json × Fields))
  get_enabled false name = give none
  get_enabled true name = try_except (read >> found (store.object_at name)) (give none)

  unfoldable pub get_message_object : String → Action (Option (Json × Fields))
  get_message_object name = get_enabled store.enabled name

  abbrev pub list_enabled : Bool → Option String → ℕ → Action (Option Items)
  list_enabled false prefix limit = give none
  list_enabled true prefix limit =
      try_except (read >> give (some (store.listing prefix limit))) (give none)

  unfoldable pub list_message_objects : Option String → ℕ → Action (Option Items)
  list_message_objects prefix limit = list_enabled store.enabled prefix limit

  -- the two forms of the status
  abbrev pub connected : Fields → Fields
  connected headers = fields (
      ("enabled", Json.bool true)
      ∷ ("status", Json.str "connected")
      ∷ ("auth_url", Json.str store.auth_url)
      ∷ ("container", Json.str store.container)
      ∷ ("account_objects", store.account_objects)
      ∷ ("account_bytes", store.account_bytes)
      ∷ ("container_headers", Json.obj headers)
      ∷ [])

  abbrev pub failed : Fields
  failed = fields (
      ("enabled", Json.bool true)
      ∷ ("status", Json.str "error")
      ∷ ("auth_url", Json.str store.auth_url)
      ∷ ("container", Json.str store.container)
      ∷ ("error", Json.str store.error_text)
      ∷ [])

  abbrev pub disabled : Fields
  disabled = fields (("enabled", Json.bool false) ∷ ("status", Json.str "disabled") ∷ [])

  -- the headers of the container, which are empty if they cannot be read
  abbrev pub described : Action Fields
  described = try_except (read >> give store.container_headers) (give end) >>= λ headers.
      give (connected headers)

  abbrev pub status_enabled : Bool → Action Fields
  status_enabled false = give disabled
  status_enabled true = try_except (read >> described) (give failed)

  unfoldable pub get_swift_status : Action Fields
  get_swift_status = status_enabled store.enabled
