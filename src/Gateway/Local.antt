-- ===== src/Gateway/Local.antt =====
-- What do_GET of src/application/process1.py reads besides the request, and the forms in which it shows it.
use flow_first.Base.{
  ℕ, suc, String, Bool, false, not, ◌&&◌, ◌||◌, Option, none, some, List, [], ◌∷◌, ◌==◌,
  if◌then◌else◌,
}
use flow_first.Base.Int.{pos}
use flow_first.Base.Dict.{Dict}
use flow_first.Json.{Json, Items, Fields, end, field, get_field, put_field}
use flow_first.Swift.Reads.{Store}

-- what the process holds itself, and what the servers answer when a request does not raise
pub record Local : Type 0 where
  -- the connection of each publish slot, by is_closed
  pub slots : List (Option Bool)
  pub is_stopping : Bool
  pub greenthreads : Items
  pub pool_size : ℕ
  pub zk_state : String
  -- _config_watcher.get_all()
  pub watched : Option Fields
  pub expose_error_details : Bool
  pub pipeline_health : Fields
  -- whether get_client finds no connected client, and the number of the reads after it: by the process
  -- whose registrations are listed, and for "health", the tree of the pipeline's health
  pub zk_is_lost : String → Bool
  pub zk_reads : String → ℕ
  pub registered : String → Items
  pub store : Store
  -- parse_qs of the query, by the first value of each name
  pub query : Dict String

abbrev pub is_open : Option Bool → Bool
is_open none = false
is_open (some is_closed) = not is_closed

unfoldable pub open_slots : List (Option Bool) → ℕ
open_slots [] = 0
open_slots (slot ∷ slots) = let rest = open_slots slots in if is_open slot then suc rest else rest

-- gt.metrics_snapshot()
unfoldable pub snapshot : Dict ℕ → Fields
snapshot [] = end
snapshot ((key, n) ∷ counters) = field key (Json.int (pos n)) (snapshot counters)

-- d.items() without two keys
unfoldable pub without : String → String → Fields → Fields
without j k end = end
without j k (field key v d) =
    let rest = without j k d in if key == j || key == k then rest else field key v rest

abbrev pub is_error : Option Json → Bool
is_error (some (Json.str s)) = s == "error"
is_error _ = false

-- the status as it is sent: the raw text of an error stays out of it
unfoldable pub redacted : Bool → Fields → Fields
unfolding without put_field get_field
redacted expose status =
    if is_error (get_field status "status") && not expose
    then put_field (without "error" "auth_url" status) "error"
        (Json.str "Object store unreachable (see server log)")
    else status

unfoldable pub count_items : Items → ℕ
count_items Items.nil = 0
count_items (Items.cons v rest) = suc (count_items rest)

abbrev pub json_or_null : Option String → Json
json_or_null none = Json.null
json_or_null (some s) = Json.str s
