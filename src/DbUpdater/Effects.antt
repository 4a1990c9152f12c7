-- ===== src/DbUpdater/Effects.antt =====
-- How the steps behind the barrier act on the dedup znodes, the rows and the settlement.
use flow_first.Base.{false, [], ◌∷◌, ◌++◌, ◌≡◌, refl, sym, ap, ◌∙◌, ◌⊎◌, inl, inr, arith}
use flow_first.Base.Result.{Exception, Result, ok, raise, database_error, raise≢ok}
use flow_first.Json.{Json, Fields, get_field, append_item, get-put_field}
use flow_first.World.{World, Action, lift, ◌>>=◌, ◌>>◌, basic_ack, count_event}
use flow_first.Relay.{append_history}
use flow_first.Pipeline.Step.{append_to_cases}
use flow_first.Db.{has_null, message_row, message_columns, insert_processed_message}
use flow_first.Swift.{put_message_object}
use flow_first.Notifications.{notify}
use flow_first.DbUpdater.{Site, Labels, finish}

abbrev pub Outcome : Type 0
Outcome = Result (Unit {0}) × World

abbrev pub Refused : World → Outcome → Type 0
Refused w out =
    (out.1.inserted ≡ w.inserted)
    × (out.1.settled ≡ w.settled)
    × (e : Exception) × (out.0 ≡ raise e)

abbrev pub Inserted : Fields → World → Outcome → Type 0
Inserted row w out =
    (out.1.inserted ≡ w.inserted ++ row ∷ []) × (has_null row message_columns ≡ false)

-- Both messages give the row the same key and item.
abbrev pub Kept : Fields → Fields → Type 0
Kept msg saved =
    (get_field saved "message_id" ≡ get_field msg "message_id")
    × (get_field saved "item_id" ≡ get_field msg "item_id")

-- The work behind the barrier makes no znode. It raises with no row written and nothing settled, or it
-- writes the row of the message.
abbrev pub Work : Fields → World → Outcome → Type 0
Work msg w out =
    (out.1.dedup ≡ w.dedup)
    × (Refused w out ⊎ ((saved : Fields) × Kept msg saved × Inserted (message_row saved) w out))

module _ (site : Site) (names : Labels) (logged : Result (Unit {0}))
    (object notified saved : Fields) where
  finish-rows :
      (w : World)
      → ((finish site names logged object notified w).1.dedup ≡ w.dedup)
        × ((finish site names logged object notified w).1.inserted ≡ w.inserted)
  unfolding finish put_message_object notify count_event basic_ack
  finish-rows w = ground arith

  -- what the insertion does, by its result
  InsertedOrNot : World → Outcome → Type 0
  InsertedOrNot w out =
      (out.1.dedup ≡ w.dedup)
      × ((out.0 ≡ raise database_error)
            × (out.1.inserted ≡ w.inserted)
            × (out.1.settled ≡ w.settled)
          ⊎ (out.0 ≡ ok tt)
            × (out.1.inserted ≡ w.inserted ++ message_row saved ∷ [])
            × (has_null (message_row saved) message_columns ≡ false))

  insert_cases : (w : World) → InsertedOrNot w (insert_processed_message saved w)
  unfolding InsertedOrNot insert_processed_message
  insert_cases w = ground arith

  after_insert :
      (msg : Fields) (w w' : World) (r : Result (Unit {0}))
      → Kept msg saved
      → InsertedOrNot w (r, w')
      → Work msg w ((lift r >> finish site names logged object notified) w')
  unfolding InsertedOrNot
  after_insert msg w w' (raise e) kept (d, inl (failed, i, s)) = (d, inl (i, s, e, refl))
  after_insert msg w w' (raise e) kept (d, inr (returned, i, n)) = absurd (raise≢ok e returned)
  after_insert msg w w' (ok u) kept (d, inl (failed, i, s)) =
      absurd (raise≢ok database_error (sym failed))
  after_insert msg w w' (ok u) kept (d, inr (returned, i, n)) =
      let (d', i') = finish-rows w' in (d' ∙ d, inr (saved, kept, (i' ∙ i, n)))

  pub insert-Work :
      (msg : Fields) (w : World)
      → Kept msg saved
      → Work msg w ((insert_processed_message saved >> finish site names logged object notified) w)
  insert-Work msg w kept =
      after_insert msg w (insert_processed_message saved w).1 (insert_processed_message saved w).0
        kept (insert_cases w)

module _ (msg : Fields) where
  -- what can raise before anything is written
  pub lift-Work :
      (r : Result Fields) (rest : Fields → Action (Unit {0})) (w : World)
      → ((saved : Fields) → r ≡ ok saved → Work msg w (rest saved w))
      → Work msg w ((lift r >>= rest) w)
  lift-Work (ok saved) rest w step = step saved refl
  lift-Work (raise e) rest w step = (refl, inl (refl, refl, e, refl))

  -- a call that writes no row, makes no znode and settles nothing
  abbrev pub Quiet : {A : Type 0} → World → Result A × World → Type 0
  Quiet w out =
      (out.1.dedup ≡ w.dedup) × (out.1.inserted ≡ w.inserted) × (out.1.settled ≡ w.settled)

  Work-trans :
      (w w' : World) (out : Outcome)
      → w'.dedup ≡ w.dedup
      → w'.inserted ≡ w.inserted
      → w'.settled ≡ w.settled
      → Work msg w' out
      → Work msg w out
  Work-trans w w' out d i s (d', inl (i', s', e, r)) = (d' ∙ d, inl (i' ∙ i, s' ∙ s, e, r))
  Work-trans w w' out d i s (d', inr (saved, kept, written)) =
      let (i', null) = written in
      (d' ∙ d, inr (saved, kept, (i' ∙ ap (λ l. l ++ message_row saved ∷ []) i, null)))

  resume-Work :
      {A : Type 0} (rest : A → Action (Unit {0}))
      → ((a : A) (w' : World) → Work msg w' (rest a w'))
      → (r : Result A) (w : World) → Work msg w ((lift r >>= rest) w)
  resume-Work rest step (ok a) w = step a w
  resume-Work rest step (raise e) w = (refl, inl (refl, refl, e, refl))

  pub call-Work :
      {A : Type 0} (m : Action A) (rest : A → Action (Unit {0})) (w : World)
      → Quiet w (m w)
      → ((a : A) (w' : World) → Work msg w' (rest a w'))
      → Work msg w ((m >>= rest) w)
  call-Work m rest w (d, i, s) step =
      Work-trans w (m w).1 ((m >>= rest) w) d i s (resume-Work rest step (m w).0 (m w).1)

pub append_history-Kept :
    (msg saved : Fields) (entry : Json) → append_history msg entry ≡ ok saved → Kept msg saved
unfolding append_history
append_history-Kept msg saved entry h =
    let (l, found, e) = append_to_cases msg saved entry (get_field msg "history") h in
    (
      ap (λ m. get_field m "message_id") (sym e)
          ∙ get-put_field msg "history" "message_id" (Json.arr (append_item l entry)),
      ap (λ m. get_field m "item_id") (sym e)
          ∙ get-put_field msg "history" "item_id" (Json.arr (append_item l entry)),
    )
