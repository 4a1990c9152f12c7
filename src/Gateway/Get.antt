-- ===== src/Gateway/Get.antt =====
-- do_GET of RestApiHandler in src/application/process1.py. The payloads are given without their constant texts
-- (the list of the endpoints, the note) and their timestamps.
use flow_first.Base.{
  ℕ, String, Bool, false, not, ◌&&◌, ◌||◌, Option, none, some, List, [], ◌∷◌, ◌==◌, ltb, length,
  if◌then◌else◌,
}
use flow_first.Base.Int.{ℤ, pos, negsuc}
use flow_first.Base.Dict.{get}
use flow_first.Base.Result.{Result, ok, raise}
use flow_first.Base.Text.{is_empty, after_prefix}
use flow_first.Json.{Json, Items, Fields, end, field}
use flow_first.Numbers.{int_of_text}
use flow_first.Config.Client.{get_client, requests}
use flow_first.World.{Action, give, ◌>>=◌, ◌>>◌}
use flow_first.Env.{fields}
use flow_first.Swift.Reads.{get_message_object, list_message_objects, get_swift_status}
use flow_first.Gateway.Gates.{Server, Call, Reply, answer}
use flow_first.Gateway.Post.{path}
use flow_first.Gateway.Local.{Local, open_slots, snapshot, redacted, count_items, json_or_null}

module _ (server : Server) (call_in : Call) (local : Local) where
  abbrev pub get_health : Action Reply
  get_health w =
      answer 200
        (some (
          fields (
            ("status", Json.str "healthy")
            ∷ ("node", Json.str server.env.node_name)
            ∷ ("greenthreads", Json.arr local.greenthreads)
            ∷ ("metrics", Json.obj (snapshot w.counters))
            ∷ [])))
        w

  abbrev pub is_ready : Bool
  is_ready = ltb 0 (open_slots local.slots) && not local.is_stopping

  abbrev checks : Fields
  checks = fields (
      (
        "rabbitmq_publisher_connections",
        Json.obj (
            fields (
              ("open", Json.int (pos (open_slots local.slots)))
              ∷ ("configured", Json.int (pos (length local.slots)))
              ∷ ("required", Json.int (pos 1))
              ∷ [])),
      )
      ∷ (
        "zookeeper",
        Json.obj (fields (("state", Json.str local.zk_state) ∷ ("required", Json.bool false) ∷ [])),
      )
      ∷ ("stopping", Json.bool local.is_stopping)
      ∷ [])

  abbrev pub ready_status : ℕ
  ready_status = if is_ready then 200 else 503

  abbrev pub ready_payload : Fields
  ready_payload = fields (
      ("status", Json.str (if is_ready then "ready" else "not_ready"))
      ∷ ("node", Json.str server.env.node_name)
      ∷ ("checks", Json.obj checks)
      ∷ [])

  abbrev pub get_ready : Action Reply
  get_ready = answer ready_status (some ready_payload)

  abbrev pub get_gt_status : Action Reply
  get_gt_status w =
      answer 200
        (some (
          fields (
            ("active_greenthreads", Json.arr local.greenthreads)
            ∷ ("metrics", Json.obj (snapshot w.counters))
            ∷ ("pool_size", Json.int (pos local.pool_size))
            ∷ ("is_stopping", Json.bool local.is_stopping)
            ∷ [])))
        w

  abbrev pub with_process : String → Fields → Action Fields
  with_process process rest = give (field process (Json.arr (local.registered process)) rest)

  abbrev pub register_next : String → Action Fields → Action Fields
  register_next process others = others >>= with_process process

  -- get_client, and the reads that its caller makes; NoNodeError is caught, and so a value
  abbrev pub read_znodes : String → Action (Unit {0})
  read_znodes tree = get_client (local.zk_is_lost tree) >> requests (local.zk_reads tree)

  -- list_registered, for the processes in turn
  unfoldable pub registrations : List String → Action Fields
  unfolding get_client requests
  registrations [] = give end
  registrations (process ∷ processes) =
      read_znodes process >> register_next process (registrations processes)

  abbrev pub zk_processes : List String
  zk_processes = "api_gateway" ∷ "transformer" ∷ "forwarder" ∷ "db_updater" ∷ "remote_worker" ∷ []

  abbrev pub zk_answer : Fields → Action Reply
  zk_answer workers = answer 200 (
      some (
        fields (
          ("pipeline_health", Json.obj local.pipeline_health)
          ∷ ("registered_workers", Json.obj workers)
          ∷ [])))

  abbrev pub registered_health : Action Reply
  registered_health = registrations zk_processes >>= zk_answer

  -- GET /zk/health: get_pipeline_health, then the registrations
  abbrev pub get_zk_health : Action Reply
  get_zk_health = read_znodes "health" >> registered_health

  abbrev config_of : Option Fields → Fields
  config_of none = end
  config_of (some values) = values

  abbrev pub get_zk_config : Action Reply
  get_zk_config =
      answer 200 (some (fields (("zk_config", Json.obj (config_of local.watched)) ∷ [])))

  abbrev pub status_answer : Fields → Action Reply
  status_answer status = answer 200 (some (redacted local.expose_error_details status))

  abbrev pub get_status : Action Reply
  get_status = get_swift_status local.store >>= status_answer

  -- the answer to a listing
  abbrev pub listed : Option String → Option Items → Action Reply
  listed prefix none = answer 502 none
  listed prefix (some objects) = answer 200 (
      some (
        fields (
          ("status", Json.str "success")
          ∷ ("count", Json.int (pos (count_items objects)))
          ∷ ("prefix", json_or_null prefix)
          ∷ ("objects", Json.arr objects)
          ∷ [])))

  -- the listing, if 1 <= limit <= API_MAX_LIST_LIMIT
  abbrev pub list_limited : Option String → Result ℤ → Action Reply
  list_limited prefix (raise e) = answer 400 none
  list_limited prefix (ok (negsuc n)) = answer 400 none
  list_limited prefix (ok (pos n)) =
      if ltb n 1 || ltb server.max_list_limit n
      then answer 400 none
      else list_message_objects local.store prefix n >>= listed prefix

  abbrev pub limit_of : Option String → Result ℤ
  limit_of none = ok (pos 100)
  limit_of (some text) = int_of_text text

  unfoldable pub get_objects : Action Reply
  unfolding get int_of_text list_message_objects count_items
  get_objects = list_limited (get local.query "prefix") (limit_of (get local.query "limit"))

  abbrev pub fetched : String → Option (Json × Fields) → Action Reply
  fetched name none = answer 404 none
  fetched name (some (object, headers)) = answer 200 (
      some (
        fields (
          ("status", Json.str "success")
          ∷ ("object_name", Json.str name)
          ∷ ("payload", object)
          ∷ ("swift_headers", Json.obj headers)
          ∷ [])))

  -- what stands behind "/swift/object/", if the path starts so
  abbrev pub get_object : Option String → Action Reply
  get_object none = answer 404 none
  get_object (some name) =
      if is_empty name
      then answer 400 none
      else get_message_object local.store name >>= fetched name

  unfoldable pub do_get : Action Reply
  unfolding path open_slots snapshot registrations get_swift_status redacted get_objects
      get_message_object after_prefix is_empty
  do_get =
      if path server call_in == "" || path server call_in == "/health"
      then get_health
      else if path server call_in == "/ready"
      then get_ready
      else if path server call_in == "/gt/status"
      then get_gt_status
      else if path server call_in == "/zk/health"
      then get_zk_health
      else if path server call_in == "/zk/config"
      then get_zk_config
      else if path server call_in == "/swift/status"
      then get_status
      else if path server call_in == "/swift/objects"
      then get_objects
      else get_object (after_prefix "/swift/object/" (path server call_in))
