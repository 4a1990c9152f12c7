-- ===== src/DbUpdater.antt =====
-- The DB Updater, src/application/process4.py: its eight handlers. They share the barrier in front and
-- the steps after the insertion, and differ in what they write to the database.
pub mod Handlers
pub mod Once
pub mod Unique
pub mod Missing
pub mod Replay
pub mod Consume
pub mod Dated
pub mod Effects
pub mod Saves
pub mod Silent
pub mod Deliveries
use flow_first.Base.{ℕ, String, Bool, true, false, Option, none, some, List, [], ◌∷◌, length}
use flow_first.Base.Int.{ℤ, pos}
use flow_first.Base.Result.{Exception, Result, ok, raise, type_error, attribute_error}
use flow_first.Base.Text.{concat}
use flow_first.Json.{Json, Fields, end, Items, nil, cons, get_field, put_field, merge}
use flow_first.World.{World, Action, give, lift, ◌>>=◌, ◌>>◌, try_except, basic_ack, count_event}
use flow_first.Relay.{load_object, append_history, reject}
use flow_first.Env.{Env, str_of, field_or, fields, put_fields}
use flow_first.Db.{
  Cell, value, datetime, Row, Tables, insert_processed_message, upsert_device, soft_delete_device,
  query_devices,
}
use flow_first.Dedup.{check_and_mark_processed}
use flow_first.Swift.{put_message_object}
use flow_first.Notifications.{Settings, notify}

-- what the DB Updater's process is configured with
pub record Site : Type 0 where
  pub env : Env
  pub tables : Tables
  pub swift_enabled : Bool
  pub notifications : Settings

abbrev pub message_id : Env → Fields → String
message_id env msg = str_of env (field_or msg "message_id" (Json.str ""))

-- the entry of the history, with "persisted_by" for the node
unfoldable pub persisted : Env → String → List (String × Json) → Json
persisted env name rest = Json.obj (
    fields (
      ("stage", Json.str name)
      ∷ ("timestamp", Json.str (env.now 0))
      ∷ ("persisted_by", Json.str env.node_name)
      ∷ rest))

-- `if swift_ok: ... += 1`
abbrev pub count_stored : String → Bool → Action (Unit {0})
count_stored event true = count_event event
count_stored event false = give tt

-- the counters and the event of a handler, by the prefix of its counters
pub record Labels : Type 0 where
  pub dedup_skipped : String
  pub was_persisted : String
  pub swift_stored : String
  pub notified : String
  pub has_failed : String
  pub event_type : String
  pub flow : ℕ

abbrev pub labels : String → String → String → ℕ → Labels
labels prefix failed event flow = record {
  dedup_skipped = concat (prefix ∷ "_dedup_skipped" ∷ []);
  was_persisted = concat (prefix ∷ "_persisted" ∷ []);
  swift_stored = concat (prefix ∷ "_swift_stored" ∷ []);
  notified = concat (prefix ∷ "_notified" ∷ []);
  has_failed = failed;
  event_type = event;
  flow = flow;
}

-- log_steps: flow 2 logs each step of the history, which must be a dict
abbrev read_steps : Items → Result (Unit {0})
read_steps nil = ok tt
read_steps (cons (Json.obj step) rest) = read_steps rest
read_steps (cons _ rest) = raise attribute_error

abbrev pub log_steps : Json → Result (Unit {0})
log_steps (Json.arr l) = read_steps l
log_steps _ = raise type_error

module _ (site : Site) where
  -- Everything after the rows are written: count, store the object, log, acknowledge, notify. `object` is
  -- what is stored, `msg` what is notified.
  unfoldable pub finish : Labels → Result (Unit {0}) → Fields → Fields → Action (Unit {0})
  unfolding count_event put_message_object basic_ack notify
  finish names logged object msg =
      count_event names.was_persisted
      >> (put_message_object site.env site.swift_enabled object >>= count_stored names.swift_stored)
      >> lift logged
      >> basic_ack
      >> notify site.env site.notifications names.event_type msg names.flow
      >> count_event names.notified

  abbrev pub barrier : Labels → (Fields → Action (Unit {0})) → Fields → Bool → Action (Unit {0})
  barrier names work msg true = work msg
  barrier names work msg false = count_event names.dedup_skipped >> basic_ack

  -- decode, pass the barrier, work; on any exception count and reject
  unfoldable pub persist :
      Labels → (Fields → String) → (Fields → Action (Unit {0})) → Option Json → Action (Unit {0})
  unfolding load_object check_and_mark_processed reject count_event basic_ack
  persist names key work body =
      try_except
        (lift (load_object body) >>= λ msg.
          check_and_mark_processed (key msg) >>= barrier names work msg)
        (reject names.has_failed)
