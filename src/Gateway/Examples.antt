-- ===== src/Gateway/Examples.antt =====
-- Tests of the gateway's publications.
use flow_first.Base.{
  ◌==◌, ℕ, length, String, Bool, true, false, Option, none, some, List, [], ◌∷◌, ◌≡◌, refl,
}
use flow_first.Base.Int.{pos}
use flow_first.Base.Result.{Result, ok, raise, key_error}
use flow_first.Json.{Json, Items, Fields, end}
use flow_first.Env.{fields}
use flow_first.World.{World}
use flow_first.Swift.Reads.{Store}
use flow_first.Config.{config_defaults}
use flow_first.Config.Client.{get_client}
use flow_first.Gateway.Local.{Local}
use flow_first.Gateway.Get.{do_get}
use flow_first.Gateway.Got.{do_get-Answered}
use flow_first.Gateway.Got
use flow_first.Base.Dict.{Dict}
use flow_first.DbUpdater.Once.{Handler}
use flow_first.DbUpdater.Missing.{Unsaved}
use flow_first.Pipeline.Journey.{arrived}
use flow_first.Gateway.Published.{Request, Answered, publish, publish-Answered}
use flow_first.Gateway.Unsaved.{DeviceRequest, device_payload, device_message-Unsaved}
use flow_first.Authz.Sample.{sample_digests, sample_codec}
use flow_first.Authz.Rbac.{builtin_roles}
use flow_first.Gateway.Gates.{Server, Call, Reply, do_put, do_delete}
use flow_first.Base.Text.{is_empty, rstrip_char}
use flow_first.Gateway.Passed.{OnlyCleared}
use flow_first.Gateway.Post.{Route, route_of, path, do_post, post_batch}
use flow_first.Gateway.Settings.{Guarded}
use flow_first.Gateway.Routed.{serve_request-Guarded}
use flow_first.Gateway.Batch.{InBounds, post_batch-InBounds}
use flow_first.Sample.{sample_env, sample_site, empty_world, world_with}

abbrev sample_uuid : ℕ → String
sample_uuid n = "u1"

publish-Answered_example :
    Answered sample_env sample_uuid 6 "flow6_p1_to_p2" empty_world
      (publish sample_env sample_uuid (Request.update (Json.str "d1") Json.null) empty_world)
publish-Answered_example =
    publish-Answered sample_env sample_uuid (Request.update (Json.str "d1") Json.null) empty_world

device_message-Unsaved_example :
    Unsaved sample_site Handler.flow7
      (some
        (Json.obj (device_payload sample_env sample_uuid (DeviceRequest.delete (Json.str "d1")))))
      empty_world
      (device_payload sample_env sample_uuid (DeviceRequest.delete (Json.str "d1")))
device_message-Unsaved_example =
    device_message-Unsaved sample_env sample_uuid (DeviceRequest.delete (Json.str "d1")) sample_site
      Handler.flow7 empty_world arrived

abbrev is_raised : Result Fields → Bool
is_raised (ok payload) = false
is_raised (raise e) = true

-- an empty identifier is refused
no_device :
    is_raised (publish sample_env sample_uuid (Request.delete (Json.str "")) empty_world).0 ≡ true
unfolding publish
no_device = refl

abbrev sample_server : Server
sample_server = record {
  env = sample_env;
  uuid = sample_uuid;
  digests = sample_digests;
  codec = sample_codec;
  auth_mode = "api_key";
  api_keys = ("ops", "secret") ∷ [];
  token_secret = "s";
  authz = record {
    authz_mode = "rbac";
    roles = builtin_roles;
    identity_roles = ("ops", "publisher" ∷ []) ∷ [];
    acl = [];
    policy = [];
  };
  max_body_bytes = 1000;
  now = pos 0;
  hour_utc = pos 12;
  token_ttl_s = pos 3600;
  max_batch_count = 100;
  max_list_limit = 1000;
  tls_api_enabled = true;
  allow_unauthenticated_admin = false;
  admin_allowed_cns = "admin" ∷ [];
  admin_proxy_cns = [];
}

abbrev deletion : Option String → Call
deletion key = record {
  method = "DELETE";
  path = "/api/devices/d1/";
  content_length = none;
  api_key = key;
  authorization = none;
  peer_cert = none;
  client_cn = none;
  zk_is_lost = false;
  body = none;
}

-- a POST to a path with an object as its body
abbrev posted : String → Fields → Call
posted path d = record {
  method = "POST";
  path = path;
  content_length = some "20";
  api_key = some "secret";
  authorization = none;
  peer_cert = none;
  client_cn = none;
  zk_is_lost = false;
  body = some (Json.obj d);
}

serve_request-Guarded_example :
    Guarded sample_server
      (posted "/api/devices/query" end)
      Route.query
      empty_world
      (do_post sample_server (posted "/api/devices/query" end) empty_world).1
    × OnlyCleared sample_server
        (posted "/api/devices/query" end)
        "flow:6"
        empty_world
        (do_put sample_server (posted "/api/devices/query" end) empty_world).1
    × OnlyCleared sample_server
        (posted "/api/devices/query" end)
        "flow:7"
        empty_world
        (do_delete sample_server (posted "/api/devices/query" end) empty_world).1
unfolding route_of path rstrip_char is_empty
serve_request-Guarded_example =
    serve_request-Guarded sample_server (posted "/api/devices/query" end) empty_world

post_batch-InBounds_example :
    InBounds sample_server
      (posted "/api/batch" end)
      empty_world
      (post_batch sample_server (posted "/api/batch" end) end empty_world)
post_batch-InBounds_example =
    post_batch-InBounds sample_server (posted "/api/batch" end) end empty_world

abbrev status_of_reply : Result Reply → ℕ
status_of_reply (ok r) = r.status
status_of_reply (raise e) = 0

deleted_with_key :
    status_of_reply (do_delete sample_server (deletion (some "secret")) empty_world).0 ≡ 200
unfolding do_delete flow_first.Authz.Rbac.rbac_check flow_first.Base.Dict.get
    flow_first.Base.Text.split_last flow_first.Authz.Glob.fnmatchcase
deleted_with_key = refl

refused_without_key : status_of_reply (do_delete sample_server (deletion none) empty_world).0 ≡ 401
unfolding do_delete
refused_without_key = refl

-- a query is published, and the batch is refused to the role publisher
query_answered :
    status_of_reply (do_post sample_server (posted "/api/devices/query/" end) empty_world).0 ≡ 200
unfolding do_post flow_first.Authz.Rbac.rbac_check flow_first.Base.Text.split_last
    flow_first.Authz.Glob.fnmatchcase
query_answered = refl

batch_refused :
    status_of_reply (do_post sample_server (posted "/api/batch" end) empty_world).0 ≡ 403
unfolding do_post flow_first.Authz.Rbac.rbac_check flow_first.Base.Text.split_last
    flow_first.Authz.Glob.fnmatchcase
batch_refused = refl

three_of_each :
    length (post_batch sample_server (posted "/api/batch" end) end empty_world).1.published ≡ 6
unfolding post_batch
three_of_each = refl

no_admin : status_of_reply (do_post sample_server (posted "/zk/config" end) empty_world).0 ≡ 403
unfolding do_post
no_admin = refl

abbrev reading : String → Call
reading path = record {
  method = "GET";
  path = path;
  content_length = none;
  api_key = none;
  authorization = none;
  peer_cert = none;
  client_cn = none;
  zk_is_lost = false;
  body = none;
}

abbrev sample_store : Store
sample_store = record {
  enabled = true;
  auth_url = "https://swift/auth";
  container = "flowfirst";
  object_at = λ name. raise key_error;
  listing = λ prefix limit. Items.cons (Json.str "flow1/m1.json") Items.nil;
  account_objects = Json.int (pos 1);
  account_bytes = Json.int (pos 9);
  container_headers = end;
  error_text = "refused: 10.0.0.7";
}

-- one slot of three has an open connection
abbrev sample_local : Dict String → Local
sample_local query = record {
  slots = none ∷ some true ∷ some false ∷ [];
  is_stopping = false;
  greenthreads = Items.nil;
  pool_size = 100;
  zk_state = "disconnected";
  watched = none;
  expose_error_details = false;
  pipeline_health = end;
  zk_is_lost = λ tree. tree == "health";
  zk_reads = λ tree. 1;
  registered = λ process. Items.nil;
  store = sample_store;
  query = query;
}

abbrev get_status_of : Result Reply × World → Option ℕ
get_status_of (ok reply, w) = some reply.status
get_status_of (raise e, w) = none

abbrev get_payload : Result Reply × World → Option Fields
get_payload (ok reply, w) = reply.payload
get_payload (raise e, w) = none

got_ready :
    get_status_of (do_get sample_server (reading "/ready/") (sample_local []) empty_world)
    ≡ some 200
unfolding do_get flow_first.World.count_event
got_ready = refl

-- a failure of the store is told with no text of its error and no address
got_status :
    get_payload
      (do_get sample_server (reading "/swift/status") (sample_local []) (world_with (true ∷ [])))
    ≡ some (
        fields (
          ("enabled", Json.bool true)
          ∷ ("status", Json.str "error")
          ∷ ("container", Json.str "flowfirst")
          ∷ ("error", Json.str "Object store unreachable (see server log)")
          ∷ []))
unfolding do_get flow_first.World.count_event
got_status = refl

-- the first read after a lost connection writes the defaults
seeds_all :
    length (do_get sample_server (reading "/zk/health") (sample_local []) empty_world).1.config
    ≡ length config_defaults
unfolding do_get get_client flow_first.World.count_event flow_first.Base.Dict.put
seeds_all = refl

too_many :
    get_status_of (
      do_get sample_server
        (reading "/swift/objects")
        (sample_local (("limit", "1001") ∷ []))
        empty_world)
    ≡ some 400
unfolding do_get flow_first.World.count_event
too_many = refl

do_get-Answered_example :
    Got.Answered "/zk/health"
      (world_with (true ∷ []))
      (do_get sample_server (reading "/zk/health") (sample_local []) (world_with (true ∷ [])))
unfolding path
do_get-Answered_example =
    do_get-Answered sample_server (reading "/zk/health") (sample_local []) (world_with (true ∷ []))
