-- ===== src/DbUpdater/Missing.antt =====
-- Messages that the DB Updater cannot save: without an item, after a failed insertion, and with the rows
-- of a query in them.
use mathlib.Core.Bool.{false≢true}
use flow_first.Base.{
  true, Option, none, [], ◌∷◌, ◌++◌, ◌≡◌, refl, sym, ap, subst, ◌∙◌, ◌⊎◌, inl, inr, arith, contains,
}
use flow_first.Base.Result.{ok}
use flow_first.Json.{Json, Fields, get_field, get-put_field}
use flow_first.World.{World, nacked}
use flow_first.Relay.{load_object}
use flow_first.Db.{has_null, message_row, message_columns}
use flow_first.DbUpdater.{Site}
use flow_first.DbUpdater.Effects.{Kept}
use flow_first.DbUpdater.Deliveries.{Repeated, Marked, Processed}
use flow_first.DbUpdater.Handlers.{remote_key}
use flow_first.DbUpdater.Once.{Handler, handle, keyed, dedup_key, handle_cases}

no_item-has_null :
    (msg saved : Fields)
    → Kept msg saved
    → get_field msg "item_id" ≡ none
    → has_null (message_row saved) message_columns ≡ true
unfolding has_null message_row
no_item-has_null msg saved (id, item) missing = ground arith

module _ (site : Site) where
  keyed-item :
      (handler : Handler) (msg : Fields)
      → get_field (keyed site handler msg) "item_id" ≡ get_field msg "item_id"
  keyed-item Handler.flow1 msg = refl
  keyed-item Handler.flow2 msg = refl
  keyed-item Handler.flow3 msg = refl
  keyed-item Handler.flow4 msg = refl
  keyed-item Handler.flow5 msg = refl
  keyed-item Handler.flow6_direct msg = refl
  keyed-item Handler.flow6_remote msg =
      get-put_field msg "message_id" "item_id" (Json.str (remote_key site msg))
  keyed-item Handler.flow7 msg = refl

  no_row_or_ack :
      (handler : Handler) (msg : Fields) (w w' : World)
      → get_field msg "item_id" ≡ none
      → Processed (keyed site handler msg) w w'
      → (w'.inserted ≡ w.inserted)
        × ((w'.settled ≡ w.settled) ⊎ (w'.settled ≡ w.settled ++ nacked ∷ []))
  no_row_or_ack handler msg w w' missing (inl left) = left
  no_row_or_ack handler msg w w' missing (inr (saved, kept, i, filled)) = absurd (
      false≢true (
        sym filled
        ∙ no_item-has_null (keyed site handler msg) saved kept (keyed-item handler msg ∙ missing)))

  -- no row, and no acknowledgement unless the key was marked
  abbrev pub Unsaved : Handler → Option Json → World → Fields → Type 0
  Unsaved handler body w msg =
      ((handle site handler body w).1.inserted ≡ w.inserted)
      × ((contains w.dedup (dedup_key site handler msg) ≡ true)
          ⊎ ((handle site handler body w).1.settled ≡ w.settled)
          ⊎ ((handle site handler body w).1.settled ≡ w.settled ++ nacked ∷ []))

  no_item-Unsaved :
      (handler : Handler) (body : Option Json) (msg : Fields) (w : World)
      → get_field msg "item_id" ≡ none
      → Repeated (dedup_key site handler msg) w (handle site handler body w).1
        ⊎ Marked
            (dedup_key site handler msg)
            (keyed site handler msg)
            w
            (handle site handler body w).1
      → Unsaved handler body w msg
  no_item-Unsaved handler body msg w missing (inl (seen, d, i)) = (i, inl seen)
  no_item-Unsaved handler body msg w missing (inr (new, d, processed)) =
      let (i, s) = no_row_or_ack handler msg w (handle site handler body w).1 missing processed in
      (i, inr s)

  -- A message without "item_id", as flows 4 to 7 send it, never gets a row, whatever the handler and
  -- whatever calls fail; and it is not acknowledged either, unless its key was marked before.
  pub handle-no_item :
      (handler : Handler) (body : Option Json) (msg : Fields) (w : World)
      → load_object body ≡ ok msg
      → get_field msg "item_id" ≡ none
      → Unsaved handler body w msg
  handle-no_item handler body msg w decoded missing = elim (handle_cases site handler body w) [
    | inl (d, i, s) ↦ (i, inr s)
    | inr (msg', decoded', outcome) ↦
        let same : msg' ≡ msg = ground arith in
        subst (Unsaved handler body w) same (
          no_item-Unsaved handler body msg' w (ap (λ m. get_field m "item_id") same ∙ missing)
            outcome)
  ]
