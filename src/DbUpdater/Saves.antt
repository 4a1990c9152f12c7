-- ===== src/DbUpdater/Saves.antt =====
-- Each handler's work behind the barrier either raises with nothing written and nothing settled, or writes
-- the row of its message.
use flow_first.Base.{Bool, true, false, List, [], ◌∷◌, refl, arith, ◌++◌, ◌∙◌, sym, length, inl}
use flow_first.Base.Result.{Result, ok, raise}
use flow_first.Json.{Json, Fields, end, Items, put_field, get-put_field, nil}
use flow_first.World.{World, Action, lift, ◌>>=◌, ◌>>◌}
use flow_first.Relay.{append_history}
use flow_first.Env.{field_or, put_fields}
use flow_first.Db.{
  Row, insert_processed_message, upsert_device, soft_delete_device, query_devices, write_row,
  has_null, device_row, device_columns,
}
use flow_first.DbUpdater.{Site, Labels, log_steps, finish}
use flow_first.DbUpdater.Effects.{
  Work, Kept, Quiet, insert-Work, lift-Work, call-Work, append_history-Kept,
}
use flow_first.Base.Int.{pos}
use flow_first.DbUpdater.Handlers.{
  remote_key, flow1_labels, flow2_labels, flow3_labels, flow4_labels, flow7_labels, save_flow1,
  save_flow2, save_flow3, save_flow4, flow5_labels, flow6_labels, flow6_remote_labels, save_flow5,
  save_flow6_direct, save_flow6_remote, save_flow7, flow4_entry, flow5_entry, flow6_direct_entry,
  flow6_remote_entry, flow7_entry, merged, counted, archive, dumps_rows,
}

device_written : Fields → World → World
device_written row w = record w { device_writes = w.device_writes ++ row ∷ [] }

write_row-Quiet :
    (msg row : Fields) (null : Bool) (w : World)
    → Quiet msg w (write_row null (device_written row) w)
unfolding device_written
write_row-Quiet msg row true w = (refl, refl, refl)
write_row-Quiet msg row false w = ground arith

upsert_device-Quiet : (msg row : Fields) (w : World) → Quiet msg w (upsert_device row w)
unfolding upsert_device device_written
upsert_device-Quiet msg row w =
    write_row-Quiet msg (device_row row) (has_null (device_row row) device_columns) w

query_devices-Quiet :
    (site : Site) (msg : Fields) (filters : Json) (w : World)
    → Quiet msg w (query_devices site.env site.tables filters w)
unfolding query_devices
query_devices-Quiet site msg (Json.obj filters) w = ground arith
query_devices-Quiet site msg Json.null w = (refl, refl, refl)
query_devices-Quiet site msg (Json.bool b) w = (refl, refl, refl)
query_devices-Quiet site msg (Json.int n) w = (refl, refl, refl)
query_devices-Quiet site msg (Json.float x) w = (refl, refl, refl)
query_devices-Quiet site msg (Json.str s) w = (refl, refl, refl)
query_devices-Quiet site msg (Json.arr l) w = (refl, refl, refl)

Kept-trans : (a b c : Fields) → Kept a b → Kept b c → Kept a c
Kept-trans a b c (id, item) (id', item') = (id' ∙ id, item' ∙ item)

module _ (site : Site) (msg : Fields) where
  soft_delete_device-Quiet :
      (device_id : Json) (w : World) → Quiet msg w (soft_delete_device site.tables device_id w)
  unfolding soft_delete_device
  soft_delete_device-Quiet device_id w = ground arith

  -- append the entry, write the row, finish
  recorded : Labels → Json → (Fields → Result (Unit {0})) → Action (Unit {0})
  recorded names entry logged = lift (append_history msg entry) >>= λ saved.
      insert_processed_message saved >> finish site names (logged saved) saved saved

  recorded-Work :
      (names : Labels) (entry : Json) (logged : Fields → Result (Unit {0})) (w : World)
      → Work msg w (recorded names entry logged w)
  unfolding recorded
  recorded-Work names entry logged w =
      lift-Work msg (append_history msg entry)
        (λ saved. insert_processed_message saved >> finish site names (logged saved) saved saved) w
        λ saved h.
          insert-Work site names (logged saved) saved saved saved msg w
            (append_history-Kept msg saved entry h)

  -- write the device, then the row
  device_stored : Labels → Fields → Fields → Fields → Fields → Action (Unit {0})
  device_stored names device row object notified =
      upsert_device device
      >> (insert_processed_message row >> finish site names (ok tt) object notified)

  device_stored-Work :
      (names : Labels) (device row object notified : Fields) (w : World)
      → Kept msg row
      → Work msg w (device_stored names device row object notified w)
  unfolding device_stored
  device_stored-Work names device row object notified w kept =
      call-Work msg (upsert_device device)
        (λ u. insert_processed_message row >> finish site names (ok tt) object notified) w
        (upsert_device-Quiet msg device w)
        λ u w'. insert-Work site names (ok tt) object notified row msg w' kept

  pub save_flow1-Work : (w : World) → Work msg w (save_flow1 site msg w)
  unfolding save_flow1 recorded
  save_flow1-Work w = recorded-Work flow1_labels _ (λ saved. ok tt) w

  pub save_flow2-Work : (w : World) → Work msg w (save_flow2 site msg w)
  unfolding save_flow2 recorded
  save_flow2-Work w =
      recorded-Work flow2_labels _ (λ saved. log_steps (field_or saved "history" (Json.arr nil))) w

  pub save_flow3-Work : (w : World) → Work msg w (save_flow3 site msg w)
  unfolding save_flow3 recorded
  save_flow3-Work w = recorded-Work flow3_labels _ (λ saved. ok tt) w

  pub save_flow7-Work : (w : World) → Work msg w (save_flow7 site msg w)
  unfolding save_flow7 recorded
  save_flow7-Work w =
      call-Work msg (soft_delete_device site.tables (field_or msg "device_id" (Json.str "")))
        (λ rows_affected. recorded flow7_labels (flow7_entry site rows_affected) (λ saved. ok tt)) w
        (soft_delete_device-Quiet (field_or msg "device_id" (Json.str "")) w)
        λ rows_affected w'.
          recorded-Work flow7_labels (flow7_entry site rows_affected) (λ saved. ok tt) w'

  pub save_flow4-Work : (w : World) → Work msg w (save_flow4 site msg w)
  unfolding save_flow4 device_stored
  save_flow4-Work w =
      lift-Work msg (append_history msg (flow4_entry site))
        (λ saved. device_stored flow4_labels saved saved saved saved) w
        λ saved h.
          device_stored-Work flow4_labels saved saved saved saved w
            (append_history-Kept msg saved (flow4_entry site) h)

  direct : Fields → Action (Unit {0})
  direct device = lift (append_history msg (flow6_direct_entry site)) >>= λ saved.
      device_stored flow6_labels device saved saved saved

  pub save_flow6_direct-Work : (w : World) → Work msg w (save_flow6_direct site msg w)
  unfolding save_flow6_direct device_stored direct
  save_flow6_direct-Work w =
      lift-Work msg (merged msg (field_or msg "updates" (Json.obj end))) direct w λ device m.
        lift-Work msg (append_history msg (flow6_direct_entry site))
          (λ saved. device_stored flow6_labels device saved saved saved) w
          λ saved h.
            device_stored-Work flow6_labels device saved saved saved w
              (append_history-Kept msg saved (flow6_direct_entry site) h)

  archive-Work :
      (saved : Fields) (rows : Result Items) (w : World)
      → Kept msg saved
      → Work msg w (archive site saved rows w)
  unfolding put_fields
  archive-Work saved (raise e) w kept = (refl, inl (refl, refl, e, refl))
  archive-Work saved (ok rows) w (id, item) =
      insert-Work site flow5_labels (ok tt) _ _
        (put_fields saved (("query_results", Json.arr rows) ∷ [])) msg w
        (
          get-put_field saved "query_results" "message_id" (Json.arr rows) ∙ id,
          get-put_field saved "query_results" "item_id" (Json.arr rows) ∙ item,
        )

  counted-Kept : (results : List Row) → Kept msg (counted site msg results)
  unfolding put_fields
  counted-Kept results =
      Kept-trans msg (put_field msg "query_results" Json.null) (counted site msg results)
        (
          get-put_field msg "query_results" "message_id" Json.null,
          get-put_field msg "query_results" "item_id" Json.null,
        )
        (
          get-put_field (put_field msg "query_results" Json.null) "query_result_count" "message_id"
              (Json.int (pos (length results))),
          get-put_field (put_field msg "query_results" Json.null) "query_result_count" "item_id"
              (Json.int (pos (length results))),
        )

  queried : List Row → Action (Unit {0})
  queried results =
      lift (append_history (counted site msg results) (flow5_entry site results)) >>= λ saved.
      archive site saved (dumps_rows results)

  pub save_flow5-Work : (w : World) → Work msg w (save_flow5 site msg w)
  unfolding save_flow5 queried
  save_flow5-Work w =
      call-Work msg (query_devices site.env site.tables (field_or msg "filters" (Json.obj end)))
        queried w (query_devices-Quiet site msg (field_or msg "filters" (Json.obj end)) w)
        λ results w'.
          lift-Work msg (append_history (counted site msg results) (flow5_entry site results))
            (λ saved. archive site saved (dumps_rows results)) w'
            λ saved h. archive-Work saved (dumps_rows results) w' (
              Kept-trans msg (counted site msg results) saved (counted-Kept results)
                (append_history-Kept (counted site msg results) saved (flow5_entry site results) h))

-- The remote path writes the row of the message under another key.
module _ (site : Site) (msg : Fields) where
  abbrev pub renamed : Fields → Fields
  renamed m = put_field m "message_id" (Json.str (remote_key site msg))

  renamed-Kept : (saved : Fields) → Kept msg saved → Kept (renamed msg) (renamed saved)
  renamed-Kept saved (id, item) = (
    get-put_field saved "message_id" "message_id" (Json.str (remote_key site msg))
        ∙ sym (get-put_field msg "message_id" "message_id" (Json.str (remote_key site msg))),
    get-put_field saved "message_id" "item_id" (Json.str (remote_key site msg))
        ∙ item
        ∙ sym (get-put_field msg "message_id" "item_id" (Json.str (remote_key site msg))),
  )

  prefixed : Fields → Fields
  prefixed saved = put_field saved "swift_path_prefix" (Json.str "remote_sync_")

  remote : Fields → Action (Unit {0})
  remote device = lift (append_history msg (flow6_remote_entry site msg)) >>= λ saved.
      device_stored site msg flow6_remote_labels device (renamed saved) (prefixed saved) saved

  pub save_flow6_remote-Work : (w : World) → Work (renamed msg) w (save_flow6_remote site msg w)
  unfolding save_flow6_remote device_stored remote prefixed
  save_flow6_remote-Work w =
      lift-Work (renamed msg) (merged msg (field_or msg "updates" (Json.obj end))) remote w
        λ device m.
          lift-Work (renamed msg) (append_history msg (flow6_remote_entry site msg))
            (λ saved.
              device_stored site (renamed msg) flow6_remote_labels device (renamed saved)
                (prefixed saved) saved)
            w
            λ saved h.
              device_stored-Work site (renamed msg) flow6_remote_labels device (renamed saved)
                (prefixed saved) saved w
                (renamed-Kept saved (append_history-Kept msg saved (flow6_remote_entry site msg) h))
