-- ===== src/DbUpdater/Replay.antt =====
-- What becomes of a message that is delivered again after its key was marked.
use flow_first.Base.{String, true, Option, [], ◌∷◌, ◌++◌, ◌≡◌, ap, ◌∙◌, arith, contains, eq_refl}
use flow_first.Base.Result.{ok}
use flow_first.Json.{Json, Fields}
use flow_first.World.{World, acked, Action, basic_ack, count_event}
use flow_first.Relay.{load_object}
use flow_first.Dedup.{check_and_mark_processed}
use flow_first.DbUpdater.{Site, Labels, message_id, persist}
use flow_first.DbUpdater.Handlers
use flow_first.DbUpdater.Once.{Handler, handle, dedup_key}
use flow_first.DbUpdater.Unique.{contains-append}

-- acknowledged, with no row
abbrev pub Skipped : World → World → Type 0
Skipped w w' =
    (w'.inserted ≡ w.inserted) × (w'.dedup ≡ w.dedup) × (w'.settled ≡ w.settled ++ acked ∷ [])

persist-Skipped :
    (site : Site) (names : Labels) (key : Fields → String) (work : Fields → Action (Unit {0}))
    (body : Option Json) (msg : Fields) (w : World)
    → load_object body ≡ ok msg
    → contains w.dedup (key msg) ≡ true
    → w.faults ≡ []
    → Skipped w (persist site names key work body w).1
unfolding persist check_and_mark_processed count_event basic_ack
persist-Skipped site names key work body msg w decoded seen calm = ground arith

module _ (site : Site) where
  handle-Skipped :
      (handler : Handler) (body : Option Json) (msg : Fields) (w : World)
      → load_object body ≡ ok msg
      → contains w.dedup (dedup_key site handler msg) ≡ true
      → w.faults ≡ []
      → Skipped w (handle site handler body w).1
  unfolding handle Handlers.handle_flow1_message Handlers.handle_flow2_message
      Handlers.handle_flow3_message Handlers.handle_flow4_message Handlers.handle_flow5_message
      Handlers.handle_flow6_direct_message Handlers.handle_flow6_remote_message
      Handlers.handle_flow7_message
  handle-Skipped Handler.flow1 body msg w decoded seen calm =
      persist-Skipped site Handlers.flow1_labels (message_id site.env) (Handlers.save_flow1 site)
        body msg w decoded seen calm
  handle-Skipped Handler.flow2 body msg w decoded seen calm =
      persist-Skipped site Handlers.flow2_labels (message_id site.env) (Handlers.save_flow2 site)
        body msg w decoded seen calm
  handle-Skipped Handler.flow3 body msg w decoded seen calm =
      persist-Skipped site Handlers.flow3_labels (message_id site.env) (Handlers.save_flow3 site)
        body msg w decoded seen calm
  handle-Skipped Handler.flow4 body msg w decoded seen calm =
      persist-Skipped site Handlers.flow4_labels (message_id site.env) (Handlers.save_flow4 site)
        body msg w decoded seen calm
  handle-Skipped Handler.flow5 body msg w decoded seen calm =
      persist-Skipped site Handlers.flow5_labels (message_id site.env) (Handlers.save_flow5 site)
        body msg w decoded seen calm
  handle-Skipped Handler.flow6_direct body msg w decoded seen calm =
      persist-Skipped site Handlers.flow6_labels (message_id site.env)
        (Handlers.save_flow6_direct site) body msg w decoded seen calm
  handle-Skipped Handler.flow6_remote body msg w decoded seen calm =
      persist-Skipped site Handlers.flow6_remote_labels (Handlers.remote_key site)
        (Handlers.save_flow6_remote site) body msg w decoded seen calm
  handle-Skipped Handler.flow7 body msg w decoded seen calm =
      persist-Skipped site Handlers.flow7_labels (message_id site.env) (Handlers.save_flow7 site)
        body msg w decoded seen calm

  -- Once a delivery has marked its key, whether or not its row was written, a later delivery of the message
  -- to the same handler, such as a replay from the dead letters, is acknowledged and writes no row, if no
  -- call fails and the mark is still there.
  pub handle-replay :
      (handler : Handler) (body : Option Json) (msg : Fields) (w later : World)
      → load_object body ≡ ok msg
      → (handle site handler body w).1.dedup ≡ w.dedup ++ dedup_key site handler msg ∷ []
      → later.dedup ≡ (handle site handler body w).1.dedup
      → later.faults ≡ []
      → Skipped later (handle site handler body later).1
  handle-replay handler body msg w later decoded marked kept calm =
      handle-Skipped handler body msg later decoded
        (ap (λ l. contains l (dedup_key site handler msg)) (kept ∙ marked)
          ∙ contains-append w.dedup (dedup_key site handler msg) (dedup_key site handler msg)
          ∙ ground (arith, eq_refl (dedup_key site handler msg)))
        calm
