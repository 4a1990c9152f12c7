-- ===== src/Db.antt =====
-- The statements of src/db/db.py, as the DB Updater calls them: each call succeeds or raises as a whole,
-- its retries included (Retry). The `NOT NULL` columns are those of `init_database`, and MariaDB refuses a
-- row that holds NULL in one of them.
pub mod Retry
pub mod Hosts
pub mod Examples
use flow_first.Base.{String, Bool, true, false, List, [], ◌∷◌, ◌++◌, any}
use flow_first.Base.Int.{ℤ}
use flow_first.Base.Result.{database_error, attribute_error}
use flow_first.Base.Text.{concat}
use flow_first.Json.{Json, Fields, get_field, is_truthy, nil}
use flow_first.World.{World, Action, give, fail, ◌>>◌, call}
use flow_first.Env.{Env, str_of, field_or, fields}

-- a column of a row that a SELECT returns: TIMESTAMP columns come as datetime objects
pub data Cell : Type 0 where
  value : Json → Cell
  datetime : String → Cell

abbrev pub Row : Type 0
Row = List (String × Cell)

-- The tables' contents, as far as the two statements that read them show: the rows of a SELECT, and the
-- row count of an UPDATE. Any functions.
pub record Tables : Type 0 where
  pub select : String → List Json → List Row
  pub rowcount : Json → ℤ

abbrev pub is_null : Json → Bool
is_null Json.null = true
is_null _ = false

unfoldable pub has_null : Fields → List String → Bool
unfolding get_field any
has_null row columns = any (λ column. is_null (field_or row column Json.null)) columns

abbrev pub column_of : Fields → String → Json
column_of row key = field_or row key Json.null

-- the parameters of the INSERT; the two JSON columns hold the values that their texts encode
unfoldable pub message_row : Fields → Fields
unfolding get_field
message_row msg = fields (
    ("message_id", column_of msg "message_id")
    ∷ ("flow_id", column_of msg "flow")
    ∷ ("item_id", column_of msg "item_id")
    ∷ ("initial_data", column_of msg "initial_data")
    ∷ ("counter_value", column_of msg "counter")
    ∷ ("metric_value", column_of msg "value")
    ∷ ("examined_status", column_of msg "examined_status")
    ∷ ("verified_by", column_of msg "verified_by")
    ∷ ("history_trail", field_or msg "history" (Json.arr nil))
    ∷ ("raw_payload", Json.obj msg)
    ∷ [])

abbrev pub message_columns : List String
message_columns = "message_id" ∷ "flow_id" ∷ "item_id" ∷ []

-- a statement that writes a row, refused if a NOT NULL column would be NULL
abbrev pub write_row : Bool → (World → World) → Action (Unit {0})
write_row true effect = fail database_error
write_row false effect = call database_error effect

-- `inserted` lists the writes. On a message_id that has a row already, the statement's ON DUPLICATE KEY UPDATE
-- makes the write an update of that row, so that the table has no more rows than there are writes.
unfoldable pub insert_processed_message : Fields → Action (Unit {0})
unfolding message_row has_null
insert_processed_message msg =
    write_row (has_null (message_row msg) message_columns)
      λ w. record w { inserted = w.inserted ++ message_row msg ∷ [] }

unfoldable pub device_row : Fields → Fields
unfolding get_field
device_row msg = fields (
    ("device_id", column_of msg "device_id")
    ∷ ("device_name", column_of msg "device_name")
    ∷ ("device_type", column_of msg "device_type")
    ∷ ("location", column_of msg "location")
    ∷ ("firmware_version", field_or msg "firmware_version" (Json.str "1.0.0"))
    ∷ ("tags", column_of msg "tags")
    ∷ ("status", field_or msg "status" (Json.str "active"))
    ∷ ("owner_team", column_of msg "owner_team")
    ∷ [])

abbrev pub device_columns : List String
device_columns = "device_id" ∷ "device_name" ∷ "device_type" ∷ "status" ∷ []

unfoldable pub upsert_device : Fields → Action (Unit {0})
unfolding device_row has_null
upsert_device msg =
    write_row (has_null (device_row msg) device_columns)
      λ w. record w { device_writes = w.device_writes ++ device_row msg ∷ [] }

unfoldable pub soft_delete_device : Tables → Json → Action ℤ
soft_delete_device tables device_id =
    call database_error (λ w. record w { decommissioned = w.decommissioned ++ device_id ∷ [] })
    >> give (tables.rowcount device_id)

-- conditions.append(...) and params.append(...) under `if filters.get(key)`
abbrev condition : Bool → String → Json → List (String × Json) → List (String × Json)
condition true text param rest = (text, param) ∷ rest
condition false text param rest = rest

unfoldable pub query_conditions : Env → Fields → List (String × Json)
unfolding get_field is_truthy str_of concat
query_conditions env filters =
    condition (is_truthy (column_of filters "device_type")) "device_type = %s"
      (column_of filters "device_type")
      (condition (is_truthy (column_of filters "status")) "status = %s" (column_of filters "status")
        (condition (is_truthy (column_of filters "owner_team")) "owner_team = %s"
          (column_of filters "owner_team")
          (condition (is_truthy (column_of filters "location_contains")) "location LIKE %s"
            (Json.str
              (concat ("%" ∷ str_of env (column_of filters "location_contains") ∷ "%" ∷ [])))
            [])))

-- " AND ".join(conditions)
abbrev join_and : List (String × Json) → List String
join_and [] = []
join_and ((text, param) ∷ []) = text ∷ []
join_and ((text, param) ∷ next ∷ rest) = text ∷ " AND " ∷ join_and (next ∷ rest)

abbrev where_clause : List (String × Json) → List String
where_clause [] = []
where_clause (c ∷ rest) = "WHERE " ∷ join_and (c ∷ rest)

abbrev pub params_of : List (String × Json) → List Json
params_of [] = []
params_of ((text, param) ∷ rest) = param ∷ params_of rest

unfoldable pub query_sql : List (String × Json) → String
unfolding concat
query_sql conditions = concat (
    "SELECT * FROM devices " ∷ where_clause conditions
    ++ " ORDER BY created_at DESC LIMIT 1000;" ∷ [])

-- `filters.get` raises on all but a dict
unfoldable pub query_devices : Env → Tables → Json → Action (List Row)
unfolding query_conditions query_sql
query_devices env tables (Json.obj filters) =
    call database_error (λ w. w)
    >> give (
        tables.select (query_sql (query_conditions env filters))
          (params_of (query_conditions env filters)))
query_devices env tables _ = fail attribute_error
