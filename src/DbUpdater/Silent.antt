-- ===== src/DbUpdater/Silent.antt =====
-- The handlers of src/application/process4.py end the pipeline: none of them publishes to a queue.
pub mod Saves
use flow_first.Base.{String, Bool, true, false, Option, List, [], ◌∷◌, ◌++◌, ◌≡◌, refl, ◌∙◌, arith}
use flow_first.Base.Result.{Result, ok, raise, database_error}
use flow_first.Base.Text.{concat}
use flow_first.Json.{Json, Fields, end, Items, nil, put_field}
use flow_first.World.{World, Action, lift, ◌>>=◌, ◌>>◌, try_except, count_event, basic_ack}
use flow_first.World.Frames.{Keeps, lift-Keeps, bind-Keeps, call-Keeps}
use flow_first.Relay.{load_object, append_history, reject}
use flow_first.Env.{Env, field_or, put_fields}
use flow_first.Db.{
  Tables, has_null, message_row, message_columns, device_row, device_columns, write_row,
  insert_processed_message, upsert_device, soft_delete_device, query_devices,
}
use flow_first.Dedup.{check_and_mark_processed}
use flow_first.Swift.{put_message_object}
use flow_first.Notifications.{notify}
use flow_first.DbUpdater.{Site, Labels, message_id, persisted, log_steps, finish, barrier, persist}
use flow_first.DbUpdater.Handlers.{
  archive, merged, counted, flow4_entry, flow5_entry, flow6_direct_entry, flow6_remote_entry,
  flow7_entry, remote_key, flow1_labels, flow2_labels, flow3_labels, flow4_labels, flow5_labels,
  flow6_labels, flow6_remote_labels, flow7_labels, save_flow1, save_flow2, save_flow3, save_flow4,
  save_flow5, save_flow6_direct, save_flow6_remote, save_flow7, dumps_rows, handle_flow1_message,
  handle_flow2_message, handle_flow3_message, handle_flow4_message, handle_flow5_message,
  handle_flow6_direct_message, handle_flow6_remote_message, handle_flow7_message,
}
use flow_first.DbUpdater.Once.{Handler, handle}

abbrev pub sent_of : World → List (String × Json)
sent_of w = w.published

abbrev pub IsSilent : {A : Type 0} → Action A → Type 0
IsSilent m = Keeps sent_of m

reject-IsSilent : (failed : String) → IsSilent (reject failed)
unfolding reject
reject-IsSilent failed w = ground arith

try_except-IsSilent :
    (body handler : Action (Unit {0}))
    → IsSilent body
    → IsSilent handler
    → IsSilent (try_except body handler)
try_except-IsSilent body handler first kept w = after (body w).0 (body w).1 ∙ first w
  where
    after :
        (r : Result (Unit {0})) (v : World) → sent_of (try_except (lift r) handler v).1 ≡ sent_of v
    after (ok u) v = refl
    after (raise e) v = kept v

write_row-IsSilent :
    (refused : Bool) (effect : World → World)
    → ((w : World) → sent_of (effect w) ≡ sent_of w)
    → IsSilent (write_row refused effect)
write_row-IsSilent true effect kept = λ w. refl
write_row-IsSilent false effect kept = call-Keeps sent_of database_error effect (λ w fs. refl) kept

insert-IsSilent : (msg : Fields) → IsSilent (insert_processed_message msg)
unfolding insert_processed_message
insert-IsSilent msg =
    write_row-IsSilent (has_null (message_row msg) message_columns)
      (λ w. record w { inserted = w.inserted ++ message_row msg ∷ [] }) (λ w. refl)

upsert-IsSilent : (device : Fields) → IsSilent (upsert_device device)
unfolding upsert_device
upsert-IsSilent device =
    write_row-IsSilent (has_null (device_row device) device_columns)
      (λ w. record w { device_writes = w.device_writes ++ device_row device ∷ [] }) (λ w. refl)

pub soft_delete-IsSilent :
    (tables : Tables) (device : Json) → IsSilent (soft_delete_device tables device)
unfolding soft_delete_device
soft_delete-IsSilent tables device w = ground arith

pub query-IsSilent :
    (env : Env) (tables : Tables) (filters : Json) → IsSilent (query_devices env tables filters)
unfolding query_devices
query-IsSilent env tables filters w = ground arith

module _ (site : Site) where
  pub finish-IsSilent :
      (names : Labels) (logged : Result (Unit {0})) (object msg : Fields)
      → IsSilent (finish site names logged object msg)
  unfolding finish put_message_object notify count_event basic_ack
  finish-IsSilent names logged object msg w = ground arith

  -- the end of each handler's work
  pub stored-IsSilent :
      (names : Labels) (logged : Result (Unit {0})) (row object msg : Fields)
      → IsSilent (insert_processed_message row >> finish site names logged object msg)
  stored-IsSilent names logged row object msg =
      bind-Keeps sent_of (insert_processed_message row) (λ _. finish site names logged object msg)
        (insert-IsSilent row) (λ _. finish-IsSilent names logged object msg)

  pub upserted-IsSilent :
      (device : Fields) (names : Labels) (row object msg : Fields)
      → IsSilent (
          upsert_device device
          >> (insert_processed_message row >> finish site names (ok tt) object msg))
  upserted-IsSilent device names row object msg =
      bind-Keeps sent_of (upsert_device device)
        (λ _. insert_processed_message row >> finish site names (ok tt) object msg)
        (upsert-IsSilent device) (λ _. stored-IsSilent names (ok tt) row object msg)

  pub updated-IsSilent :
      (merging appending : Result Fields) (names : Labels) (row object : Fields → Fields)
      → IsSilent (
          lift merging >>= λ device. lift appending >>= λ saved.
          upsert_device device
          >> (insert_processed_message (row saved)
              >> finish site names (ok tt) (object saved) saved))
  updated-IsSilent merging appending names row object =
      lift-Keeps sent_of merging
        (λ device. lift appending >>= λ saved.
          upsert_device device
          >> (insert_processed_message (row saved)
              >> finish site names (ok tt) (object saved) saved))
        (λ device.
          lift-Keeps sent_of appending
            (λ saved.
              upsert_device device
              >> (insert_processed_message (row saved)
                  >> finish site names (ok tt) (object saved) saved))
            (λ saved. upserted-IsSilent device names (row saved) (object saved) saved))

  pub archive-IsSilent : (msg : Fields) (r : Result Items) → IsSilent (archive site msg r)
  archive-IsSilent msg (raise e) = λ w. refl
  archive-IsSilent msg (ok rows) =
      stored-IsSilent flow5_labels (ok tt) (put_fields msg (("query_results", Json.arr rows) ∷ []))
        (put_fields msg (
          ("query_results", Json.arr rows)
          ∷ (
            "swift_object_name",
            Json.str (concat ("query_" ∷ message_id site.env msg ∷ ".json" ∷ [])),
          )
          ∷ []))
        (put_fields msg (("query_results", Json.arr rows) ∷ []))

  check-IsSilent : (key : String) → IsSilent (check_and_mark_processed key)
  unfolding check_and_mark_processed
  check-IsSilent key w = ground arith

  skip-IsSilent : (event : String) → IsSilent (count_event event >> basic_ack)
  unfolding count_event basic_ack
  skip-IsSilent event w = ground arith

  pub persist-IsSilent :
      (names : Labels) (key : Fields → String) (work : Fields → Action (Unit {0}))
      → ((msg : Fields) → IsSilent (work msg))
      → (body : Option Json) → IsSilent (persist site names key work body)
  unfolding persist
  persist-IsSilent names key work kept body =
      try_except-IsSilent
        (lift (load_object body) >>= λ msg.
          check_and_mark_processed (key msg) >>= barrier site names work msg)
        (reject names.has_failed)
        (lift-Keeps sent_of (load_object body)
          (λ msg. check_and_mark_processed (key msg) >>= barrier site names work msg)
          (λ msg.
            bind-Keeps sent_of (check_and_mark_processed (key msg)) (barrier site names work msg)
              (check-IsSilent (key msg)) (passed msg)))
        (reject-IsSilent names.has_failed)
    where
      passed : (msg : Fields) (new : Bool) → IsSilent (barrier site names work msg new)
      passed msg true = kept msg
      passed msg false = skip-IsSilent names.dedup_skipped
