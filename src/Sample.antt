-- ===== src/Sample.antt =====
-- A node, a site and messages to run the handlers on.
use flow_first.Base.{Bool, true, none, List, [], ◌∷◌}
use flow_first.Base.Int.{pos}
use flow_first.Base.Result.{ok}
use flow_first.Json.{Json, Fields, end, nil, cons}
use flow_first.Numbers.{float, Floats, text_of_int}
use flow_first.World.{World}
use flow_first.Env.{Env, fields}
use flow_first.Db.{value, datetime}
use flow_first.DbUpdater.{Site}

-- an arithmetic that is good for tests alone
abbrev pub sample_floats : Floats
sample_floats = record {
  truncate = λ x. ok (pos 0);
  of_int = λ n. ok (text_of_int n);
  of_text = λ s. ok s;
  add = λ a b. ok (float "107.5");
  times = λ a b. ok (float "46.0");
  is_greater = λ a b. true;
  round2 = λ x. x;
}

abbrev pub sample_env : Env
sample_env = record {
  node_name = "node1";
  now = λ n. "2025-01-01 00:00:00";
  now_ms = pos 1735689600000;
  watcher = none;
  floats = sample_floats;
  sha256_hex = λ s. s;
  repr = λ v. "[...]";
}

abbrev pub sample_site : Site
sample_site = record {
  env = sample_env;
  tables = record {
    select = λ sql params.
        (("device_id", value (Json.str "d1")) ∷ ("created_at", datetime "now") ∷ []) ∷ [];
    rowcount = λ id. pos 1;
  };
  swift_enabled = true;
  notifications = record {
    enabled = true;
    flows = [];
    exchange = "flowfirst.notifications";
    max_payload_bytes = 8192;
    new_id = "n1";
    json_bytes = λ msg. 100;
  };
}

abbrev pub world_with : List Bool → World
world_with faults = record {
  faults = faults;
  published = [];
  settled = [];
  counters = [];
  dedup = [];
  inserted = [];
  device_writes = [];
  decommissioned = [];
  config = [];
  objects = [];
  notices = [];
}

abbrev pub empty_world : World
empty_world = world_with []

abbrev pub telemetry : Fields
telemetry = fields (
    ("flow", Json.int (pos 1))
    ∷ ("message_id", Json.str "m1")
    ∷ ("item_id", Json.int (pos 7))
    ∷ ("counter", Json.int (pos 5))
    ∷ ("value", Json.float "40.0")
    ∷ ("history", Json.arr nil)
    ∷ [])

-- a creation and an update, as the gateway sends them: without "item_id"
abbrev pub creation : Fields
creation = fields (
    ("flow", Json.int (pos 4))
    ∷ ("message_id", Json.str "m4")
    ∷ ("device_id", Json.str "d1")
    ∷ ("device_name", Json.str " pump ")
    ∷ ("device_type", Json.str "flow_meter")
    ∷ ("status", Json.str "active")
    ∷ ("history", Json.arr nil)
    ∷ [])

abbrev pub update : Fields
update = fields (
    ("flow", Json.int (pos 6))
    ∷ ("message_id", Json.str "m6")
    ∷ ("device_id", Json.str "123e4567-e89b-12d3-a456-426614174000")
    ∷ ("updates", Json.obj end)
    ∷ ("history", Json.arr nil)
    ∷ [])

-- the update as the Forwarder publishes it
abbrev pub sent_update : Fields
sent_update = fields (
    ("flow", Json.int (pos 6))
    ∷ ("message_id", Json.str "m6")
    ∷ ("device_id", Json.str "123e4567-e89b-12d3-a456-426614174000")
    ∷ ("updates", Json.obj end)
    ∷ (
      "history",
      Json.arr (
          cons
            (Json.obj (
              fields (
                ("stage", Json.str "process3_validated")
                ∷ ("timestamp", Json.str "2025-01-01 00:00:00")
                ∷ ("processed_by", Json.str "node1")
                ∷ ("validation", Json.str "device_id_valid_uuid")
                ∷ [])))
            nil),
    )
    ∷ ("validation_passed", Json.bool true)
    ∷ [])
