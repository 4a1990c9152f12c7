-- ===== src/Gateway/Post.antt =====
-- do_POST of src/application/process1.py: the token, the publications of flows 1 to 5, the batch and the
-- runtime configuration. The greenthreads of a batch are taken in the order in which they are spawned.
use flow_first.Base.{
  ℕ, zero, suc, ◌+◌, String, Bool, true, false, not, ◌&&◌, ◌||◌, Option, none, some, [], ◌∷◌, ◌==◌,
  ltb, if◌then◌else◌,
}
use flow_first.Base.Int.{ℤ, pos, negsuc}
use flow_first.Base.Dict.{Dict}
use flow_first.Base.Result.{
  Exception, Result, ok, raise, value_error, type_error, attribute_error, zookeeper_error,
}
use flow_first.Base.Text.{is_empty, rstrip_char}
use flow_first.Json.{Json, Fields, Items, nil, get_field, append_item, is_truthy}
use flow_first.Numbers.{int_of, float_of}
use flow_first.World.{World, Action, give, fail, lift, ◌>>=◌, ◌>>◌, call as ask, count_event}
use flow_first.Env.{Env, fields, field_or, str_of}
use flow_first.Config.{write_config}
use flow_first.Config.Client.{get_client}
use flow_first.Authz.Identity.{resolve_identity, admin_decision}
use flow_first.Authz.Keys.{verify_api_key}
use flow_first.Authz.Token.{issue_token}
use flow_first.Gateway.Publish.{
  publish_flow1_message, publish_flow2_message, publish_flow3_message, publish_flow4_message,
  publish_flow5_message,
}
use flow_first.Gateway.Gates.{Server, Call, Reply, answer, read_json_body, with_body, gated}

-- convert(post_data[key]) if key in post_data else None
abbrev converted : {A : Type 0} → Result A → Result (Option A)
converted (raise e) = raise e
converted (ok a) = ok (some a)

abbrev optional : {A : Type 0} → (Json → Result A) → Option Json → Result (Option A)
optional convert none = ok none
optional convert (some v) = converted (convert v)

-- the `except` clauses of the handler
abbrev pub recovered : Result Reply → Action Reply
recovered (ok reply) = give reply
recovered (raise value_error) = answer 400 none
recovered (raise type_error) = answer 400 none
recovered (raise _) = answer 500 none

unfoldable pub attempt : Action Reply → Action Reply
unfolding count_event
attempt body w = let (r, w') = body w in recovered r w'

-- the routes behind the body, by the chain of tests on the path
pub data Route : Type 0 where
  flow1 flow2 flow3 batch devices query config unknown : Route

unfoldable pub route_of : String → Route
route_of path =
    if path == "/api/flow1"
    then Route.flow1
    else if path == "/api/flow2"
    then Route.flow2
    else if path == "/api/flow3"
    then Route.flow3
    else if path == "/api/batch"
    then Route.batch
    else if path == "/api/devices"
    then Route.devices
    else if path == "/api/devices/query"
    then Route.query
    else if path == "/zk/config"
    then Route.config
    else Route.unknown

-- what the greenthreads of a batch have done, and the exception of the first that raised
pub record Batch : Type 0 where
  pub flow1_messages : Items
  pub flow2_messages : Items
  pub failed : Option Exception

abbrev pub empty_batch : Batch
empty_batch = record { flow1_messages = nil; flow2_messages = nil; failed = none }

abbrev first_of : Option Exception → Exception → Option Exception
first_of none e = some e
first_of (some d) e = some d

abbrev pub note_flow1 : Result Fields → Batch → Batch
note_flow1 (ok p) b = record b { flow1_messages = append_item b.flow1_messages (Json.obj p) }
note_flow1 (raise e) b = record b { failed = first_of b.failed e }

abbrev pub note_flow2 : Result Fields → Batch → Batch
note_flow2 (ok p) b = record b { flow2_messages = append_item b.flow2_messages (Json.obj p) }
note_flow2 (raise e) b = record b { failed = first_of b.failed e }

-- the waits, the first of which that raises ends the request
abbrev pub batch_answer : Batch → Action Reply
batch_answer b = elim b.failed [
  | some e ↦ fail e
  | none ↦ answer 200 (
      some (
        fields (
          ("flow1_messages", Json.arr b.flow1_messages)
          ∷ ("flow2_messages", Json.arr b.flow2_messages)
          ∷ [])))
]

abbrev pub is_null : Json → Bool
is_null Json.null = true
is_null _ = false

abbrev has_keys : Dict String → Bool
has_keys [] = false
has_keys (_ ∷ _) = true

module _ (server : Server) (call : Call) where
  abbrev pub null_or : Fields → String → Json
  null_or d key = field_or d key Json.null

  -- the path without its last slashes
  unfoldable pub path : String
  unfolding rstrip_char
  path = rstrip_char b'/' call.path

  -- authz.verify_api_key on a value of the body: what is true and no text has no `encode`
  abbrev pub key_label : Json → Result (Option String)
  key_label (Json.str s) = verify_api_key server.digests s server.api_keys
  key_label v = if is_truthy v && has_keys server.api_keys then raise attribute_error else ok none

  abbrev pub token_answer : String → Result String → Action Reply
  token_answer label (raise e) = answer 500 none
  token_answer label (ok token) =
      answer 200 (some (fields (("token", Json.str token) ∷ ("label", Json.str label) ∷ [])))

  abbrev pub issue_for : Option String → Action Reply
  issue_for none = answer 401 none
  issue_for (some label) =
      if is_empty label
      then answer 401 none
      else token_answer label (
          issue_token server.digests server.codec server.now label server.token_ttl_s
            server.token_secret)

  -- POST /auth/token
  unfoldable pub post_token : Fields → Action Reply
  unfolding get_field is_truthy verify_api_key issue_token is_empty count_event
  post_token d = lift (key_label (field_or d "api_key" (Json.str ""))) >>= issue_for

  -- a publication, and the answer with its payload
  abbrev pub sent : Action Fields → Action Reply
  sent publish = publish >>= λ payload. answer 200 (some payload)

  unfoldable pub int_field : Fields → String → Result (Option ℤ)
  unfolding int_of get_field
  int_field d key = optional (int_of server.env.floats) (get_field d key)

  unfoldable pub float_field : Fields → String → Result (Option String)
  unfolding float_of get_field
  float_field d key = optional (float_of server.env.floats) (get_field d key)

  unfoldable pub post_flow1 : Fields → Action Fields
  unfolding publish_flow1_message int_field get_field
  post_flow1 d = lift (int_field d "item_id") >>= λ item_id.
      lift (int_field d "counter") >>= λ counter.
      publish_flow1_message server.env server.uuid item_id (null_or d "initial_data") counter

  unfoldable pub post_flow2 : Fields → Action Fields
  unfolding publish_flow2_message int_field float_field get_field
  post_flow2 d = lift (int_field d "item_id") >>= λ item_id.
      lift (float_field d "value") >>= λ value.
      publish_flow2_message server.env server.uuid item_id (null_or d "initial_data") value

  unfoldable pub post_flow3 : Fields → Action Fields
  unfolding publish_flow3_message int_field float_field get_field
  post_flow3 d = lift (int_field d "item_id") >>= λ item_id.
      lift (float_field d "remote_metric") >>= λ metric.
      publish_flow3_message server.env server.uuid item_id (null_or d "initial_data") metric

  unfoldable pub post_device : Fields → Action Fields
  unfolding publish_flow4_message get_field
  post_device d =
      publish_flow4_message server.env server.uuid (null_or d "device_name")
        (null_or d "device_type") (null_or d "location") (null_or d "firmware_version")
        (null_or d "tags") (null_or d "owner_team")

  unfoldable pub post_query : Fields → Action Fields
  unfolding publish_flow5_message get_field
  post_query d = publish_flow5_message server.env server.uuid (field_or d "filters" (Json.obj d))

  -- The publications for the items from the i-th on; the k-th greenthread reads the clock and makes its
  -- identifier after those before it.
  abbrev pub env_at : ℕ → Env
  env_at k = record server.env { now = λ n. server.env.now (k + n) }

  abbrev pub uuid_at : ℕ → ℕ → String
  uuid_at k n = server.uuid (k + n)

  -- the two greenthreads of the i-th item
  unfoldable pub batch_flow1 : ℕ → Action Fields
  unfolding publish_flow1_message
  batch_flow1 i =
      publish_flow1_message (env_at (i + i)) (uuid_at (i + i)) (some (pos i)) Json.null none

  unfoldable pub batch_flow2 : ℕ → Action Fields
  unfolding publish_flow2_message
  batch_flow2 i =
      publish_flow2_message (env_at (i + i + 1)) (uuid_at (i + i + 1)) (some (pos i)) Json.null none

  unfoldable pub batch_from : ℕ → ℕ → Batch → World → Batch × World
  unfolding batch_flow1 batch_flow2 append_item
  batch_from zero i b w = (b, w)
  batch_from (suc left) i b w =
      let (r1, w1) = batch_flow1 i w in
      let (r2, w2) = batch_flow2 i w1 in
      batch_from left (suc i) (note_flow2 r2 (note_flow1 r1 b)) w2

  unfoldable pub run_batch : ℕ → Action Reply
  unfolding batch_from count_event
  run_batch count w = let (b, w') = batch_from count 1 empty_batch w in batch_answer b w'

  -- 1 <= count <= API_MAX_BATCH_COUNT
  abbrev pub counted_batch : ℤ → Action Reply
  counted_batch (negsuc n) = answer 400 none
  counted_batch (pos zero) = answer 400 none
  counted_batch (pos (suc n)) =
      if ltb server.max_batch_count (suc n) then answer 400 none else run_batch (suc n)

  unfoldable pub post_batch : Fields → Action Reply
  unfolding run_batch int_of get_field count_event
  post_batch d =
      lift (int_of server.env.floats (field_or d "count" (Json.int (pos 3)))) >>= counted_batch

  -- _caller_identity and _require_admin
  unfoldable pub require_admin : Bool
  unfolding resolve_identity admin_decision
  require_admin =
      (admin_decision (resolve_identity call.peer_cert call.client_cn server.admin_proxy_cns)
        server.tls_api_enabled server.admin_allowed_cns server.allow_unauthenticated_admin).0

  -- zk.ensure_path and zk.set
  abbrev pub set_znode : String → String → Action Bool
  set_znode key text =
      ask zookeeper_error (λ w. w)
      >> ask zookeeper_error (λ w. record w { config = (write_config w.config key text).0 })
      >> give true

  -- the rest of write_config, for a known key
  unfoldable pub write_znode : String → String → Action Bool
  unfolding write_config get_client
  write_znode key text = get_client call.zk_is_lost >> set_znode key text

  -- zklib.write_config. What no dictionary can look up raises.
  abbrev pub set_config : String → String → Action Bool
  set_config key text w =
      if (write_config w.config key text).1 then write_znode key text w else (ok false, w)

  abbrev pub change_config : Json → String → Action Bool
  change_config (Json.str key) text = set_config key text
  change_config (Json.arr l) text = fail type_error
  change_config (Json.obj d) text = fail type_error
  change_config other text = give false

  abbrev pub config_answer : Bool → Action Reply
  config_answer true = answer 200 none
  config_answer false = answer 400 none

  -- POST /zk/config
  unfoldable pub post_config : Fields → Action Reply
  unfolding require_admin write_config write_znode is_truthy get_field str_of count_event
  post_config d =
      if require_admin
      then (if not (is_truthy (null_or d "key")) || is_null (null_or d "value")
          then answer 400 none
          else change_config (null_or d "key") (str_of server.env (null_or d "value"))
            >>= config_answer)
      else answer 403 none

  -- the branch of a route, in the `try`
  unfoldable pub serve : Route → Fields → Action Reply
  unfolding gated post_flow1 post_flow2 post_flow3 post_batch post_device post_query post_config
      count_event
  serve Route.flow1 d = gated server call "flow:1" (sent (post_flow1 d))
  serve Route.flow2 d = gated server call "flow:2" (sent (post_flow2 d))
  serve Route.flow3 d = gated server call "flow:3" (sent (post_flow3 d))
  serve Route.batch d = gated server call "flow:*" (post_batch d)
  serve Route.devices d = gated server call "flow:4" (sent (post_device d))
  serve Route.query d = gated server call "flow:5" (sent (post_query d))
  serve Route.config d = post_config d
  serve Route.unknown d = answer 404 none

  unfoldable pub do_post : Action Reply
  unfolding path read_json_body post_token attempt route_of serve count_event
  do_post =
      if path == "/auth/token"
      then with_body server call post_token (read_json_body server call)
      else with_body server call (λ d. attempt (serve (route_of path) d))
          (read_json_body server call)
