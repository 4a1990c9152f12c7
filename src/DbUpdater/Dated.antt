-- ===== src/DbUpdater/Dated.antt =====
-- A query whose result holds a datetime, as every row of the table devices does by its TIMESTAMP columns.
use mathlib.Core.Bool.{false≢true}
use flow_first.Base.{
  String, Bool, true, false, List, [], ◌∷◌, ◌≡◌, refl, sym, ap, subst, ◌∙◌, ◌⊎◌, inl, inr, arith,
  Member, here, later,
}
use flow_first.Base.Result.{Result, ok, raise, type_error, database_error, raise≢ok}
use flow_first.Json.{Json, Fields, end, field}
use flow_first.World.{World, Action, lift, ◌>>=◌}
use flow_first.Relay.{append_history}
use flow_first.Env.{field_or}
use flow_first.Db.{
  Cell, value, datetime, Row, query_devices, query_sql, query_conditions, params_of,
}
use flow_first.DbUpdater.{Site}
use flow_first.DbUpdater.Effects.{Refused}
use flow_first.DbUpdater.Handlers.{dumps_row, dumps_rows, archive, counted, flow5_entry, save_flow5}

abbrev is_datetime : Cell → Bool
is_datetime (datetime t) = true
is_datetime (value v) = false

dumps_row-datetime :
    (row : Row) (column t : String)
    → Member {A = String × Cell} (column, datetime t) row
    → dumps_row row ≡ raise type_error
dumps_row-datetime [] column t m = elim m [ ]
dumps_row-datetime ((c, datetime u) ∷ row) column t m = refl
dumps_row-datetime ((c, value v) ∷ row) column t (here e) =
    absurd (false≢true (sym (ap (λ cell. is_datetime cell.1) e)))
dumps_row-datetime ((c, value v) ∷ row) column t (later m) =
    rw (dumps_row-datetime row column t m) refl

dumps_row-raises :
    (row : Row) → (dumps_row row ≡ raise type_error) ⊎ ((d : Fields) × (dumps_row row ≡ ok d))
dumps_row-raises [] = inr (end, refl)
dumps_row-raises ((c, datetime t) ∷ row) = inl refl
dumps_row-raises ((c, value v) ∷ row) = elim (dumps_row-raises row) [
  | inl failed ↦ inl (rw (failed) refl)
  | inr (d, e) ↦ inr (field c v d, rw (e) refl)
]

dumps_rows-datetime :
    (rows : List Row) (row : Row)
    → Member row rows
    → dumps_row row ≡ raise type_error
    → dumps_rows rows ≡ raise type_error
unfolding dumps_rows
dumps_rows-datetime [] row m h = elim m [ ]
dumps_rows-datetime (r ∷ rows) row (here e) h = rw (← e, h) refl
dumps_rows-datetime (r ∷ rows) row (later m) h = elim (dumps_row-raises r) [
  | inl failed ↦ rw (failed) refl
  | inr (d, e) ↦ rw (e, dumps_rows-datetime rows row m h) refl
]

module _ (site : Site) (msg : Fields) where
  -- the rows that the query of the message's filters finds
  abbrev pub found : Fields → List Row
  found filters =
      site.tables.select (query_sql (query_conditions site.env filters))
        (params_of (query_conditions site.env filters))

  queried : List Row → Action (Unit {0})
  queried results =
      lift (append_history (counted site msg results) (flow5_entry site results)) >>= λ saved.
      archive site saved (dumps_rows results)

  query_cases :
      (filters : Fields) (w : World)
      → ((query_devices site.env site.tables (Json.obj filters) w).1.inserted ≡ w.inserted)
        × ((query_devices site.env site.tables (Json.obj filters) w).1.settled ≡ w.settled)
        × (((query_devices site.env site.tables (Json.obj filters) w).0 ≡ raise database_error)
            ⊎ ((query_devices site.env site.tables (Json.obj filters) w).0 ≡ ok (found filters)))
  unfolding query_devices
  query_cases filters w = ground arith

  archive-Refused :
      (results : List Row) (r : Result Fields) (w : World)
      → dumps_rows results ≡ raise type_error
      → Refused w ((lift r >>= λ saved. archive site saved (dumps_rows results)) w)
  archive-Refused results (raise e) w h = (refl, refl, e, refl)
  archive-Refused results (ok saved) w h = rw (h) (refl, refl, type_error, refl)

  queried-Refused :
      (rows : List Row) (w w' : World) (r : Result (List Row))
      → dumps_rows rows ≡ raise type_error
      → (w'.inserted ≡ w.inserted)
      → (w'.settled ≡ w.settled)
      → (r ≡ raise database_error) ⊎ (r ≡ ok rows)
      → Refused w ((lift r >>= queried) w')
  unfolding queried
  queried-Refused rows w w' (raise e) h i s c = (i, s, e, refl)
  queried-Refused rows w w' (ok results) h i s (inl failed) =
      absurd (raise≢ok database_error (sym failed))
  queried-Refused rows w w' (ok results) h i s (inr returned) =
      let same : results ≡ rows = ground arith in
      let (i', s', e, raised) =
        archive-Refused results
          (append_history (counted site msg results) (flow5_entry site results)) w'
          (ap dumps_rows same ∙ h) in
      (i' ∙ i, s' ∙ s, e, raised)

  query-Refused :
      (filters : Fields) (w : World)
      → dumps_rows (found filters) ≡ raise type_error
      → Refused w ((query_devices site.env site.tables (Json.obj filters) >>= queried) w)
  query-Refused filters w h =
      let (i, s, c) = query_cases filters w in
      queried-Refused (found filters) w (query_devices site.env site.tables (Json.obj filters) w).1
        (query_devices site.env site.tables (Json.obj filters) w).0 h i s c

  -- Behind the barrier, a query that finds a row with a datetime in it raises, with no row written and
  -- nothing settled, whatever calls fail.
  pub save_flow5-datetime :
      (filters : Fields) (row : Row) (column t : String) (w : World)
      → field_or msg "filters" (Json.obj end) ≡ Json.obj filters
      → Member row (found filters)
      → Member {A = String × Cell} (column, datetime t) row
      → Refused w (save_flow5 site msg w)
  unfolding save_flow5 queried
  save_flow5-datetime filters row column t w asked m dated =
      subst (λ f. Refused w ((query_devices site.env site.tables f >>= queried) w)) (sym asked)
        (query-Refused filters w
          (dumps_rows-datetime (found filters) row m (dumps_row-datetime row column t dated)))
