-- ===== src/DbUpdater/Deliveries.antt =====
-- A delivery to the DB Updater: what any of its handlers does with it, whatever calls fail.
use flow_first.Base.{
  String, Bool, true, false, Option, [], ◌∷◌, ◌++◌, ◌≡◌, refl, sym, ap, ◌∙◌, ◌⊎◌, inl, inr, arith,
  contains, Option-cases,
}
use flow_first.Base.Result.{Result, ok, raise, raise≢ok, zookeeper_error}
use flow_first.Json.{Json, Fields, get_field}
use flow_first.World.{World, nacked, Action, lift, ◌>>=◌, ◌>>◌, try_except, basic_ack, count_event}
use flow_first.Relay.{load_object, reject}
use flow_first.Env.{Env, str_of, field_or}
use flow_first.Db.{has_null, message_row, message_columns}
use flow_first.Dedup.{check_and_mark_processed}
use flow_first.DbUpdater.{Site, Labels, message_id, barrier, persist}
use flow_first.DbUpdater.Effects.{Work, Kept}

-- the key of a row of processed_messages
abbrev pub row_key : Env → Fields → String
row_key env row = str_of env (field_or row "message_id" Json.null)

pub row_key-message_row :
    (env : Env) (msg saved : Fields)
    → Kept msg saved
    → has_null (message_row saved) message_columns ≡ false
    → row_key env (message_row saved) ≡ message_id env msg
unfolding has_null message_row
row_key-message_row env msg saved (id, item) filled =
    elim (Option-cases (get_field saved "message_id")) [
      | inl missing ↦ ground arith
      | inr (v, found) ↦ ground arith
    ]

-- no row, no znode, and no acknowledgement
abbrev pub Rejected : World → World → Type 0
Rejected w w' =
    (w'.dedup ≡ w.dedup)
    × (w'.inserted ≡ w.inserted)
    × ((w'.settled ≡ w.settled) ⊎ (w'.settled ≡ w.settled ++ nacked ∷ []))

reject-Rejected : (failed : String) (w : World) → Rejected w (reject failed w).1
unfolding reject
reject-Rejected failed w = ground arith

check_cases :
    (key : String) (w : World)
    → ((check_and_mark_processed key w).1.inserted ≡ w.inserted)
      × ((check_and_mark_processed key w).1.settled ≡ w.settled)
      × (((check_and_mark_processed key w).0 ≡ raise zookeeper_error)
            × ((check_and_mark_processed key w).1.dedup ≡ w.dedup)
          ⊎ ((check_and_mark_processed key w).0 ≡ ok false)
            × ((check_and_mark_processed key w).1.dedup ≡ w.dedup)
            × (contains w.dedup key ≡ true)
          ⊎ ((check_and_mark_processed key w).0 ≡ ok true)
            × ((check_and_mark_processed key w).1.dedup ≡ w.dedup ++ key ∷ [])
            × (contains w.dedup key ≡ false))
unfolding check_and_mark_processed
check_cases key w = ground arith

-- No row is written and the delivery is not acknowledged, or the row of the message is written.
abbrev pub Processed : Fields → World → World → Type 0
Processed msg w w' =
    (w'.inserted ≡ w.inserted)
      × ((w'.settled ≡ w.settled) ⊎ (w'.settled ≡ w.settled ++ nacked ∷ []))
    ⊎ ((saved : Fields) × Kept msg saved
        × (w'.inserted ≡ w.inserted ++ message_row saved ∷ [])
        × (has_null (message_row saved) message_columns ≡ false))

-- The message was seen before, and no row is written.
abbrev pub Repeated : String → World → World → Type 0
Repeated key w w' =
    (contains w.dedup key ≡ true) × (w'.dedup ≡ w.dedup) × (w'.inserted ≡ w.inserted)

-- The message is seen for the first time: it is marked, whatever becomes of it.
abbrev pub Marked : String → Fields → World → World → Type 0
Marked key msg w w' =
    (contains w.dedup key ≡ false) × (w'.dedup ≡ w.dedup ++ key ∷ []) × Processed msg w w'

module _ (failed : String) where
  attempt : Action (Unit {0}) → Action (Unit {0})
  attempt try = try_except try (reject failed)

  attempt-Work :
      (msg : Fields) (w w' : World) (r : Result (Unit {0}))
      → Work msg w (r, w')
      → ((attempt (lift r) w').1.dedup ≡ w.dedup) × Processed msg w (attempt (lift r) w').1
  unfolding attempt
  attempt-Work msg w w' (ok u) (d, inl (i, s, e, returned)) = absurd (raise≢ok e (sym returned))
  attempt-Work msg w w' (ok u) (d, inr (saved, kept, written)) =
      let (i, n) = written in (d, inr (saved, kept, i, n))
  attempt-Work msg w w' (raise e) (d, inl (i, s, e', returned)) =
      let (d', i', s') = reject-Rejected failed w' in
      (
        d' ∙ d,
        inl (
          i' ∙ i,
          elim s' [
            | inl same ↦ inl (same ∙ s)
            | inr more ↦ inr (more ∙ ap (λ l. l ++ nacked ∷ []) s)
          ],
        ),
      )
  attempt-Work msg w w' (raise e) (d, inr (saved, kept, written)) =
      let (d', i', s') = reject-Rejected failed w' in
      let (i, n) = written in (d' ∙ d, inr (saved, kept, i' ∙ i, n))

  skip-rows :
      (event : String) (w : World)
      → ((attempt (count_event event >> basic_ack) w).1.dedup ≡ w.dedup)
        × ((attempt (count_event event >> basic_ack) w).1.inserted ≡ w.inserted)
  unfolding attempt count_event basic_ack reject
  skip-rows event w = ground arith

settled_trans :
    (w w1 w2 : World)
    → w1.settled ≡ w.settled
    → (w2.settled ≡ w1.settled) ⊎ (w2.settled ≡ w1.settled ++ nacked ∷ [])
    → (w2.settled ≡ w.settled) ⊎ (w2.settled ≡ w.settled ++ nacked ∷ [])
settled_trans w w1 w2 s (inl same) = inl (same ∙ s)
settled_trans w w1 w2 s (inr more) = inr (more ∙ ap (λ l. l ++ nacked ∷ []) s)

outcome_trans :
    (w w1 w2 : World) (msg : Fields)
    → w1.inserted ≡ w.inserted
    → w1.settled ≡ w.settled
    → Processed msg w1 w2
    → Processed msg w w2
outcome_trans w w1 w2 msg i s (inl (i', s')) = inl (i' ∙ i, settled_trans w w1 w2 s s')
outcome_trans w w1 w2 msg i s (inr (saved, kept, i', n)) =
    inr (saved, kept, i' ∙ ap (λ l. l ++ message_row saved ∷ []) i, n)

module _ (site : Site) (names : Labels) (key : Fields → String) (keyed : Fields → Fields)
    (work : Fields → Action (Unit {0}))
    (works : (msg : Fields) (w : World) → Work (keyed msg) w (work msg w)) where
  checked_cases :
      (msg : Fields) (w w1 : World) (r : Result Bool)
      → (w1.inserted ≡ w.inserted)
      → (w1.settled ≡ w.settled)
      → ((r ≡ raise zookeeper_error) × (w1.dedup ≡ w.dedup)
          ⊎ (r ≡ ok false) × (w1.dedup ≡ w.dedup) × (contains w.dedup (key msg) ≡ true)
          ⊎ (r ≡ ok true)
            × (w1.dedup ≡ w.dedup ++ key msg ∷ [])
            × (contains w.dedup (key msg) ≡ false))
      → Rejected w (attempt names.has_failed (lift r >>= barrier site names work msg) w1).1
        ⊎ Repeated
            (key msg)
            w
            (attempt names.has_failed (lift r >>= barrier site names work msg) w1).1
        ⊎ Marked
            (key msg)
            (keyed msg)
            w
            (attempt names.has_failed (lift r >>= barrier site names work msg) w1).1
  unfolding attempt
  checked_cases msg w w1 (raise e) i s (inl (failed, d)) =
      let (d', i', s') = reject-Rejected names.has_failed w1 in
      inl (d' ∙ d, i' ∙ i, settled_trans w w1 (reject names.has_failed w1).1 s s')
  checked_cases msg w w1 (raise e) i s (inr (inl (returned, d, seen))) =
      absurd (raise≢ok e returned)
  checked_cases msg w w1 (raise e) i s (inr (inr (returned, d, new))) = absurd (raise≢ok e returned)
  checked_cases msg w w1 (ok b) i s (inl (failed, d)) =
      absurd (raise≢ok zookeeper_error (sym failed))
  checked_cases msg w w1 (ok false) i s (inr (inl (returned, d, seen))) =
      let (d', i') = skip-rows names.has_failed names.dedup_skipped w1 in
      inr (inl (seen, d' ∙ d, i' ∙ i))
  checked_cases msg w w1 (ok false) i s (inr (inr (returned, d, new))) = ground arith
  checked_cases msg w w1 (ok true) i s (inr (inl (returned, d, seen))) = ground arith
  checked_cases msg w w1 (ok true) i s (inr (inr (returned, d, new))) =
      let (d', processed) =
        attempt-Work names.has_failed (keyed msg) w1 (work msg w1).1 (work msg w1).0
          (works msg w1) in
      inr (
        inr (
          new,
          d' ∙ d,
          outcome_trans w w1 (attempt names.has_failed (work msg) w1).1 (keyed msg) i s processed,
        ))

  checked : Fields → Action (Unit {0})
  checked msg = check_and_mark_processed (key msg) >>= barrier site names work msg

  loaded_cases :
      (r : Result Fields) (w : World)
      → Rejected w (attempt names.has_failed (lift r >>= checked) w).1
        ⊎ ((msg : Fields) × (r ≡ ok msg)
            × (Repeated (key msg) w (attempt names.has_failed (lift r >>= checked) w).1
                ⊎ Marked
                    (key msg)
                    (keyed msg)
                    w
                    (attempt names.has_failed (lift r >>= checked) w).1))
  unfolding attempt checked
  loaded_cases (raise e) w = inl (reject-Rejected names.has_failed w)
  loaded_cases (ok msg) w =
      let (i, s, c) = check_cases (key msg) w in
      elim (checked_cases msg w (check_and_mark_processed (key msg) w).1
        (check_and_mark_processed (key msg) w).0 i s c) [
          | inl rejected ↦ inl rejected
          | inr other ↦ inr (msg, refl, other)
        ]

  -- Whatever calls fail, a delivery is rejected; or its message was seen before, and no row is written; or
  -- it is seen for the first time, its key is marked, and then its row is written or it is not
  -- acknowledged.
  pub persist_cases :
      (body : Option Json) (w : World)
      → Rejected w (persist site names key work body w).1
        ⊎ ((msg : Fields) × (load_object body ≡ ok msg)
            × (Repeated (key msg) w (persist site names key work body w).1
                ⊎ Marked (key msg) (keyed msg) w (persist site names key work body w).1))
  unfolding persist attempt checked
  persist_cases body w = loaded_cases (load_object body) w
