-- ===== src/DbUpdater/Handlers.antt =====
-- What each handler of src/application/process4.py does behind the barrier, and the handlers.
use flow_first.Base.{String, Option, List, [], ◌∷◌, length}
use flow_first.Base.Int.{ℤ, pos}
use flow_first.Base.Result
use flow_first.Base.Result.{Exception, Result, ok, raise, type_error}
use flow_first.Base.Text.{concat}
use flow_first.Json.{Json, Fields, end, field, Items, nil, cons, get_field, put_field, merge}
use flow_first.World.{Action, lift, fail, ◌>>=◌, ◌>>◌}
use flow_first.Relay.{append_history}
use flow_first.Env.{field_or, put_fields}
use flow_first.Db.{
  value, datetime, Row, insert_processed_message, upsert_device, soft_delete_device, query_devices,
}
use flow_first.DbUpdater.{Site, Labels, labels, message_id, persisted, log_steps, finish, persist}

-- json.dumps of a row: a datetime raises TypeError
abbrev pub dumps_row : Row → Result Fields
dumps_row [] = ok end
dumps_row ((column, datetime t) ∷ row) = raise type_error
dumps_row ((column, value v) ∷ row) = Result.◌>>=◌ (dumps_row row) λ rest. ok (field column v rest)

unfoldable pub dumps_rows : List Row → Result Items
dumps_rows [] = ok nil
dumps_rows (row ∷ rows) =
    Result.◌>>=◌ (dumps_row row)
      λ first. Result.◌>>=◌ (dumps_rows rows) λ rest. ok (cons (Json.obj first) rest)

-- {**data, **updates}: a TypeError unless `updates` is a dict
abbrev pub merged : Fields → Json → Result Fields
merged msg (Json.obj updates) = ok (merge msg updates)
merged msg _ = raise type_error

abbrev pub flow1_labels : Labels
flow1_labels = labels "flow1" "flow1_failed" "telemetry.processed" 1

abbrev pub flow2_labels : Labels
flow2_labels = labels "flow2" "flow2_failed" "metric.processed" 2

abbrev pub flow3_labels : Labels
flow3_labels = labels "flow3" "flow3_failed" "telemetry.remote_processed" 3

abbrev pub flow4_labels : Labels
flow4_labels = labels "flow4" "flow4_failed" "device.created" 4

abbrev pub flow5_labels : Labels
flow5_labels = labels "flow5" "flow5_failed" "device.queried" 5

abbrev pub flow6_labels : Labels
flow6_labels = labels "flow6" "flow6_failed" "device.updated" 6

abbrev pub flow6_remote_labels : Labels
flow6_remote_labels = labels "flow6_remote" "flow6_failed" "device.edge_synced" 6

abbrev pub flow7_labels : Labels
flow7_labels = labels "flow7" "flow7_failed" "device.decommissioned" 7

abbrev action : String → List (String × Json)
action text = ("database_action", Json.str text) ∷ []

module _ (site : Site) where
  unfoldable pub save_flow1 : Fields → Action (Unit {0})
  unfolding append_history persisted insert_processed_message finish
  save_flow1 msg =
      lift (
        append_history msg (
          persisted site.env "process4_saved_to_mariadb"
            (action "INSERT/UPDATE processed_messages")))
      >>= λ saved. insert_processed_message saved >> finish site flow1_labels (ok tt) saved saved

  unfoldable pub save_flow2 : Fields → Action (Unit {0})
  unfolding append_history persisted insert_processed_message finish get_field
  save_flow2 msg =
      lift (
        append_history msg (
          persisted site.env "process4_saved_to_mariadb"
            (action "INSERT/UPDATE processed_messages")))
      >>= λ saved.
          insert_processed_message saved
          >> finish site flow2_labels (log_steps (field_or saved "history" (Json.arr nil))) saved
              saved

  unfoldable pub save_flow3 : Fields → Action (Unit {0})
  unfolding append_history persisted insert_processed_message finish
  save_flow3 msg =
      lift (
        append_history msg (
          persisted site.env "process4_saved_to_mariadb"
            (action "INSERT/UPDATE processed_messages (flow3 remote complete)")))
      >>= λ saved. insert_processed_message saved >> finish site flow3_labels (ok tt) saved saved

  abbrev pub flow4_entry : Json
  flow4_entry = persisted site.env "process4_device_created" (action "upsert_device")

  unfoldable pub save_flow4 : Fields → Action (Unit {0})
  unfolding append_history persisted upsert_device insert_processed_message finish
  save_flow4 msg = lift (append_history msg flow4_entry) >>= λ saved.
      upsert_device saved
      >> (insert_processed_message saved >> finish site flow4_labels (ok tt) saved saved)

  -- `rows` are the values that json.dumps meets when the message is inserted
  abbrev pub archive : Fields → Result Items → Action (Unit {0})
  archive msg (raise e) = fail e
  archive msg (ok rows) =
      insert_processed_message (put_fields msg (("query_results", Json.arr rows) ∷ []))
      >> finish site flow5_labels (ok tt)
          (put_fields msg (
            ("query_results", Json.arr rows)
            ∷ (
              "swift_object_name",
              Json.str (concat ("query_" ∷ message_id site.env msg ∷ ".json" ∷ [])),
            )
            ∷ []))
          (put_fields msg (("query_results", Json.arr rows) ∷ []))

  abbrev pub flow5_entry : List Row → Json
  flow5_entry results =
      persisted site.env "process4_query_executed"
        (("result_count", Json.int (pos (length results))) ∷ [])

  abbrev pub counted : Fields → List Row → Fields
  counted msg results =
      put_fields msg (
        ("query_results", Json.null) ∷ ("query_result_count", Json.int (pos (length results))) ∷ [])

  -- The results keep their place among the keys, but are put in once they are known to be JSON.
  unfoldable pub save_flow5 : Fields → Action (Unit {0})
  unfolding get_field query_devices put_fields append_history persisted dumps_rows
      insert_processed_message finish concat
  save_flow5 msg =
      query_devices site.env site.tables (field_or msg "filters" (Json.obj end)) >>= λ results.
      lift (append_history (counted msg results) (flow5_entry results)) >>= λ saved.
      archive saved (dumps_rows results)

  abbrev pub flow6_direct_entry : Json
  flow6_direct_entry =
      persisted site.env "process4_device_updated_direct" (action "upsert_device (direct path)")

  unfoldable pub save_flow6_direct : Fields → Action (Unit {0})
  unfolding get_field merge append_history persisted upsert_device insert_processed_message finish
  save_flow6_direct msg = lift (merged msg (field_or msg "updates" (Json.obj end))) >>= λ device.
      lift (append_history msg flow6_direct_entry) >>= λ saved.
      upsert_device device
      >> (insert_processed_message saved >> finish site flow6_labels (ok tt) saved saved)

  abbrev pub remote_key : Fields → String
  remote_key msg = concat (message_id site.env msg ∷ "_remote" ∷ [])

  abbrev pub flow6_remote_entry : Fields → Json
  flow6_remote_entry msg = persisted site.env "process4_device_updated_remote" (
      ("database_action", Json.str "upsert_device (remote edge-sync path)")
      ∷ ("edge_sync_token", field_or msg "edge_sync_token" Json.null)
      ∷ [])

  unfoldable pub save_flow6_remote : Fields → Action (Unit {0})
  unfolding get_field put_field merge append_history persisted upsert_device
      insert_processed_message finish concat
  save_flow6_remote msg = lift (merged msg (field_or msg "updates" (Json.obj end))) >>= λ device.
      lift (append_history msg (flow6_remote_entry msg)) >>= λ saved.
      upsert_device device
      >> (insert_processed_message (put_field saved "message_id" (Json.str (remote_key msg)))
          >> finish site flow6_remote_labels (ok tt)
              (put_field saved "swift_path_prefix" (Json.str "remote_sync_")) saved)

  abbrev pub flow7_entry : ℤ → Json
  flow7_entry rows_affected = persisted site.env "process4_device_decommissioned" (
      ("database_action", Json.str "soft_delete_device (status=decommissioned)")
      ∷ ("rows_affected", Json.int rows_affected)
      ∷ [])

  unfoldable pub save_flow7 : Fields → Action (Unit {0})
  unfolding get_field soft_delete_device append_history persisted insert_processed_message finish
  save_flow7 msg =
      soft_delete_device site.tables (field_or msg "device_id" (Json.str "")) >>= λ rows_affected.
      lift (append_history msg (flow7_entry rows_affected)) >>= λ saved.
      insert_processed_message saved >> finish site flow7_labels (ok tt) saved saved

  module _ (body : Option Json) where
    unfoldable pub handle_flow1_message : Action (Unit {0})
    unfolding persist save_flow1
    handle_flow1_message = persist site flow1_labels (message_id site.env) save_flow1 body

    unfoldable pub handle_flow2_message : Action (Unit {0})
    unfolding persist save_flow2
    handle_flow2_message = persist site flow2_labels (message_id site.env) save_flow2 body

    unfoldable pub handle_flow3_message : Action (Unit {0})
    unfolding persist save_flow3
    handle_flow3_message = persist site flow3_labels (message_id site.env) save_flow3 body

    unfoldable pub handle_flow4_message : Action (Unit {0})
    unfolding persist save_flow4
    handle_flow4_message = persist site flow4_labels (message_id site.env) save_flow4 body

    unfoldable pub handle_flow5_message : Action (Unit {0})
    unfolding persist save_flow5
    handle_flow5_message = persist site flow5_labels (message_id site.env) save_flow5 body

    unfoldable pub handle_flow6_direct_message : Action (Unit {0})
    unfolding persist save_flow6_direct
    handle_flow6_direct_message =
        persist site flow6_labels (message_id site.env) save_flow6_direct body

    unfoldable pub handle_flow6_remote_message : Action (Unit {0})
    unfolding persist save_flow6_remote
    handle_flow6_remote_message = persist site flow6_remote_labels remote_key save_flow6_remote body

    unfoldable pub handle_flow7_message : Action (Unit {0})
    unfolding persist save_flow7
    handle_flow7_message = persist site flow7_labels (message_id site.env) save_flow7 body
