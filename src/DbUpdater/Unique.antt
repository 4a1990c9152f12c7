-- ===== src/DbUpdater/Unique.antt =====
-- Over any sequence of deliveries and failing calls, no key gets two rows.
use flow_first.Base.{
  ◌+◌, String, false, ◌||◌, Option, List, [], ◌∷◌, ◌++◌, ◌==◌, ◌≡◌, refl, sym, ap, ◌∙◌, inl, inr,
  arith, contains, if◌then◌else◌, eq_iff, Bool-cases,
}
use flow_first.Json.{Json, Fields, get-put_field}
use flow_first.World.{World}
use flow_first.Env.{str_of}
use flow_first.Db.{message_row}
use flow_first.DbUpdater.{Site, message_id}
use flow_first.DbUpdater.Deliveries.{row_key, row_key-message_row, Marked}
use flow_first.DbUpdater.Handlers.{remote_key}
use flow_first.DbUpdater.Once.{
  Handler, handle, keyed, dedup_key, handle_cases, run, rows_with, Recorded,
}

pub contains-append :
    (xs : List String) (x s : String) → contains (xs ++ x ∷ []) s ≡ contains xs s || x == s
unfolding contains
contains-append [] x s = ground arith
contains-append (y ∷ ys) x s = ground (arith, contains-append ys x s)

module _ (site : Site) where
  rows_with-append :
      (key : String) (rows : List Fields) (row : Fields)
      → rows_with site key (rows ++ row ∷ [])
        ≡ rows_with site key rows + (if row_key site.env row == key then 1 else 0)
  unfolding rows_with
  rows_with-append key [] row = omega arith
  rows_with-append key (r ∷ rows) row = omega (arith, rows_with-append key rows row)

  keyed-key :
      (handler : Handler) (msg : Fields)
      → message_id site.env (keyed site handler msg) ≡ dedup_key site handler msg
  unfolding str_of
  keyed-key Handler.flow1 msg = refl
  keyed-key Handler.flow2 msg = refl
  keyed-key Handler.flow3 msg = refl
  keyed-key Handler.flow4 msg = refl
  keyed-key Handler.flow5 msg = refl
  keyed-key Handler.flow6_direct msg = refl
  keyed-key Handler.flow6_remote msg =
      ground (arith, get-put_field msg "message_id" "message_id" (Json.str (remote_key site msg)))
  keyed-key Handler.flow7 msg = refl

  -- the rows and the marks of one world carried over to another that has the same
  same-Recorded :
      (w w' : World)
      → w'.dedup ≡ w.dedup
      → w'.inserted ≡ w.inserted
      → Recorded site w
      → Recorded site w'
  same-Recorded w w' d i recorded key = rw (d, i) (recorded key)

  marked-Recorded :
      (w w' : World) (new : String)
      → w'.dedup ≡ w.dedup ++ new ∷ []
      → w'.inserted ≡ w.inserted
      → Recorded site w
      → Recorded site w'
  marked-Recorded w w' new d i recorded key =
      rw (d, i, contains-append w.dedup new key) (ground (arith, recorded key))

  row-Recorded :
      (w w' : World) (new : String) (row : Fields)
      → contains w.dedup new ≡ false
      → w'.dedup ≡ w.dedup ++ new ∷ []
      → w'.inserted ≡ w.inserted ++ row ∷ []
      → row_key site.env row ≡ new
      → Recorded site w
      → Recorded site w'
  row-Recorded w w' new row fresh d i k recorded key =
      rw (d, i, contains-append w.dedup new key, rows_with-append key w.inserted row, k)
        (elim (Bool-cases (new == key)) [
          | inl same ↦
              let fresh' : contains w.dedup key ≡ false =
                sym (ap (contains w.dedup) ((eq_iff new key).0 same)) ∙ fresh in
              ground (arith, recorded key)
          | inr other ↦ ground (arith, recorded key)
        ])

  mark_step :
      (handler : Handler) (msg : Fields) (w w' : World)
      → Marked (dedup_key site handler msg) (keyed site handler msg) w w'
      → Recorded site w
      → Recorded site w'
  mark_step handler msg w w' (fresh, d, inl (i, s)) recorded =
      marked-Recorded w w' (dedup_key site handler msg) d i recorded
  mark_step handler msg w w' (fresh, d, inr (saved, kept, i, filled)) recorded =
      row-Recorded w w' (dedup_key site handler msg) (message_row saved) fresh d i
        (row_key-message_row site.env (keyed site handler msg) saved kept filled
          ∙ keyed-key handler msg)
        recorded

  handle-Recorded :
      (handler : Handler) (body : Option Json) (w : World)
      → Recorded site w
      → Recorded site (handle site handler body w).1
  handle-Recorded handler body w recorded = elim (handle_cases site handler body w) [
    | inl (d, i, s) ↦ same-Recorded w (handle site handler body w).1 d i recorded
    | inr (msg, decoded, inl (seen, d, i)) ↦
        same-Recorded w (handle site handler body w).1 d i recorded
    | inr (msg, decoded, inr marked) ↦
        mark_step handler msg w (handle site handler body w).1 marked recorded
  ]

  -- Whatever messages are delivered to the handlers, in any order, with any repetitions and any failing
  -- calls, each key has at most one row at the end, and a key that is not marked has none, if that held at
  -- the start.
  pub run-Recorded :
      (deliveries : List (Handler × Option Json)) (w : World)
      → Recorded site w
      → Recorded site (run site deliveries w)
  unfolding run
  run-Recorded [] w recorded = recorded
  run-Recorded ((handler, body) ∷ rest) w recorded =
      run-Recorded rest (handle site handler body w).1 (handle-Recorded handler body w recorded)
