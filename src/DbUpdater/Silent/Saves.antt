-- ===== src/DbUpdater/Silent/Saves.antt =====
-- What each handler of src/application/process4.py does behind the barrier, and the handlers: no
-- publication to a queue.
use flow_first.Base.{Option, [], ◌∷◌}
use flow_first.Base.Result.{ok}
use flow_first.Json.{Json, Fields, end, nil, put_field}
use flow_first.World.{lift, ◌>>=◌, ◌>>◌}
use flow_first.World.Frames.{lift-Keeps, bind-Keeps}
use flow_first.Relay.{append_history}
use flow_first.Env.{field_or}
use flow_first.Db.{insert_processed_message, upsert_device, soft_delete_device, query_devices}
use flow_first.DbUpdater.{Site, message_id, persisted, log_steps, finish}
use flow_first.DbUpdater.Handlers.{
  archive, merged, counted, flow4_entry, flow5_entry, flow6_direct_entry, flow6_remote_entry,
  flow7_entry, remote_key, flow1_labels, flow2_labels, flow3_labels, flow4_labels, flow5_labels,
  flow6_labels, flow6_remote_labels, flow7_labels, save_flow1, save_flow2, save_flow3, save_flow4,
  save_flow5, save_flow6_direct, save_flow6_remote, save_flow7, dumps_rows, handle_flow1_message,
  handle_flow2_message, handle_flow3_message, handle_flow4_message, handle_flow5_message,
  handle_flow6_direct_message, handle_flow6_remote_message, handle_flow7_message,
}
use flow_first.DbUpdater.Once.{Handler, handle}
use flow_first.DbUpdater.Silent.{
  sent_of, IsSilent, stored-IsSilent, upserted-IsSilent, updated-IsSilent, archive-IsSilent,
  persist-IsSilent, query-IsSilent, soft_delete-IsSilent,
}

module _ (site : Site) where
  save_flow1-IsSilent : (msg : Fields) → IsSilent (save_flow1 site msg)
  unfolding save_flow1
  save_flow1-IsSilent msg =
      lift-Keeps sent_of
        (append_history msg (
          persisted site.env "process4_saved_to_mariadb"
            (("database_action", Json.str "INSERT/UPDATE processed_messages") ∷ [])))
        (λ saved. insert_processed_message saved >> finish site flow1_labels (ok tt) saved saved)
        (λ saved. stored-IsSilent site flow1_labels (ok tt) saved saved saved)

  save_flow2-IsSilent : (msg : Fields) → IsSilent (save_flow2 site msg)
  unfolding save_flow2
  save_flow2-IsSilent msg =
      lift-Keeps sent_of
        (append_history msg (
          persisted site.env "process4_saved_to_mariadb"
            (("database_action", Json.str "INSERT/UPDATE processed_messages") ∷ [])))
        (λ saved.
          insert_processed_message saved
          >> finish site flow2_labels (log_steps (field_or saved "history" (Json.arr nil))) saved
              saved)
        (λ saved.
          stored-IsSilent site flow2_labels (log_steps (field_or saved "history" (Json.arr nil)))
            saved saved saved)

  save_flow3-IsSilent : (msg : Fields) → IsSilent (save_flow3 site msg)
  unfolding save_flow3
  save_flow3-IsSilent msg =
      lift-Keeps sent_of
        (append_history msg (
          persisted site.env "process4_saved_to_mariadb" (
            ("database_action", Json.str "INSERT/UPDATE processed_messages (flow3 remote complete)")
            ∷ [])))
        (λ saved. insert_processed_message saved >> finish site flow3_labels (ok tt) saved saved)
        (λ saved. stored-IsSilent site flow3_labels (ok tt) saved saved saved)

  save_flow4-IsSilent : (msg : Fields) → IsSilent (save_flow4 site msg)
  unfolding save_flow4
  save_flow4-IsSilent msg =
      lift-Keeps sent_of (append_history msg (flow4_entry site))
        (λ saved.
          upsert_device saved
          >> (insert_processed_message saved >> finish site flow4_labels (ok tt) saved saved))
        (λ saved. upserted-IsSilent site saved flow4_labels saved saved saved)

  save_flow5-IsSilent : (msg : Fields) → IsSilent (save_flow5 site msg)
  unfolding save_flow5
  save_flow5-IsSilent msg =
      bind-Keeps sent_of
        (query_devices site.env site.tables (field_or msg "filters" (Json.obj end)))
        (λ results.
          lift (append_history (counted site msg results) (flow5_entry site results)) >>= λ saved.
          archive site saved (dumps_rows results))
        (query-IsSilent site.env site.tables (field_or msg "filters" (Json.obj end)))
        (λ results.
          lift-Keeps sent_of (append_history (counted site msg results) (flow5_entry site results))
            (λ saved. archive site saved (dumps_rows results))
            (λ saved. archive-IsSilent site saved (dumps_rows results)))

  save_flow6_direct-IsSilent : (msg : Fields) → IsSilent (save_flow6_direct site msg)
  unfolding save_flow6_direct
  save_flow6_direct-IsSilent msg =
      updated-IsSilent site (merged msg (field_or msg "updates" (Json.obj end)))
        (append_history msg (flow6_direct_entry site)) flow6_labels (λ saved. saved)
        (λ saved. saved)

  save_flow6_remote-IsSilent : (msg : Fields) → IsSilent (save_flow6_remote site msg)
  unfolding save_flow6_remote
  save_flow6_remote-IsSilent msg =
      updated-IsSilent site (merged msg (field_or msg "updates" (Json.obj end)))
        (append_history msg (flow6_remote_entry site msg)) flow6_remote_labels
        (λ saved. put_field saved "message_id" (Json.str (remote_key site msg)))
        (λ saved. put_field saved "swift_path_prefix" (Json.str "remote_sync_"))

  save_flow7-IsSilent : (msg : Fields) → IsSilent (save_flow7 site msg)
  unfolding save_flow7
  save_flow7-IsSilent msg =
      bind-Keeps sent_of (soft_delete_device site.tables (field_or msg "device_id" (Json.str "")))
        (λ rows_affected. lift (append_history msg (flow7_entry site rows_affected)) >>= λ saved.
          insert_processed_message saved >> finish site flow7_labels (ok tt) saved saved)
        (soft_delete-IsSilent site.tables (field_or msg "device_id" (Json.str "")))
        (λ rows_affected.
          lift-Keeps sent_of (append_history msg (flow7_entry site rows_affected))
            (λ saved.
              insert_processed_message saved >> finish site flow7_labels (ok tt) saved saved)
            (λ saved. stored-IsSilent site flow7_labels (ok tt) saved saved saved))

  pub handle-IsSilent :
      (handler : Handler) (body : Option Json) → IsSilent (handle site handler body)
  unfolding handle handle_flow1_message handle_flow2_message handle_flow3_message
      handle_flow4_message handle_flow5_message handle_flow6_direct_message
      handle_flow6_remote_message handle_flow7_message
  handle-IsSilent Handler.flow1 =
      persist-IsSilent site flow1_labels (message_id site.env) (save_flow1 site) save_flow1-IsSilent
  handle-IsSilent Handler.flow2 =
      persist-IsSilent site flow2_labels (message_id site.env) (save_flow2 site) save_flow2-IsSilent
  handle-IsSilent Handler.flow3 =
      persist-IsSilent site flow3_labels (message_id site.env) (save_flow3 site) save_flow3-IsSilent
  handle-IsSilent Handler.flow4 =
      persist-IsSilent site flow4_labels (message_id site.env) (save_flow4 site) save_flow4-IsSilent
  handle-IsSilent Handler.flow5 =
      persist-IsSilent site flow5_labels (message_id site.env) (save_flow5 site) save_flow5-IsSilent
  handle-IsSilent Handler.flow6_direct =
      persist-IsSilent site flow6_labels (message_id site.env) (save_flow6_direct site)
        save_flow6_direct-IsSilent
  handle-IsSilent Handler.flow6_remote =
      persist-IsSilent site flow6_remote_labels (remote_key site) (save_flow6_remote site)
        save_flow6_remote-IsSilent
  handle-IsSilent Handler.flow7 =
      persist-IsSilent site flow7_labels (message_id site.env) (save_flow7 site) save_flow7-IsSilent
