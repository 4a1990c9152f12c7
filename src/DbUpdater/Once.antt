-- ===== src/DbUpdater/Once.antt =====
-- The handlers of src/application/process4.py over a sequence of deliveries: no key gets two rows.
use flow_first.Base.{
  ℕ, ◌+◌, ◌≤◌, String, Option, List, [], ◌∷◌, ◌==◌, ◌≡◌, ◌⊎◌, contains, if◌then◌else◌,
}
use flow_first.Base.Result.{ok}
use flow_first.Json.{Json, Fields, get_field}
use flow_first.World.{World, Action}
use flow_first.Relay.{load_object}
use flow_first.Env.{str_of}
use flow_first.DbUpdater.{Site, message_id}
use flow_first.DbUpdater.Saves.{
  renamed, save_flow1-Work, save_flow2-Work, save_flow3-Work, save_flow4-Work, save_flow5-Work,
  save_flow6_direct-Work, save_flow6_remote-Work, save_flow7-Work,
}
use flow_first.DbUpdater.Deliveries.{row_key, Rejected, Repeated, Marked, persist_cases}
use flow_first.DbUpdater.Handlers.{
  flow1_labels, flow2_labels, flow3_labels, flow4_labels, flow5_labels, flow6_labels,
  flow6_remote_labels, flow7_labels, save_flow1, save_flow2, save_flow3, save_flow4, save_flow5,
  save_flow6_direct, save_flow6_remote, save_flow7, remote_key, handle_flow1_message,
  handle_flow2_message, handle_flow3_message, handle_flow4_message, handle_flow5_message,
  handle_flow6_direct_message, handle_flow6_remote_message, handle_flow7_message,
}

-- the handlers, one for each queue that the process consumes
pub data Handler : Type 0 where
  flow1 flow2 flow3 flow4 flow5 flow6_direct flow6_remote flow7 : Handler

module _ (site : Site) where
  unfoldable pub handle : Handler → Option Json → Action (Unit {0})
  unfolding handle_flow1_message handle_flow2_message handle_flow3_message handle_flow4_message
      handle_flow5_message handle_flow6_direct_message handle_flow6_remote_message
      handle_flow7_message
  handle Handler.flow1 = handle_flow1_message site
  handle Handler.flow2 = handle_flow2_message site
  handle Handler.flow3 = handle_flow3_message site
  handle Handler.flow4 = handle_flow4_message site
  handle Handler.flow5 = handle_flow5_message site
  handle Handler.flow6_direct = handle_flow6_direct_message site
  handle Handler.flow6_remote = handle_flow6_remote_message site
  handle Handler.flow7 = handle_flow7_message site

  -- the message under the key of the handler's row
  abbrev pub keyed : Handler → Fields → Fields
  keyed Handler.flow6_remote msg = renamed site msg msg
  keyed _ msg = msg

  abbrev pub dedup_key : Handler → Fields → String
  dedup_key Handler.flow6_remote msg = remote_key site msg
  dedup_key _ msg = message_id site.env msg

  abbrev pub Handled : Handler → Option Json → World → World → Type 0
  Handled handler body w w' =
      Rejected w w'
      ⊎ ((msg : Fields) × (load_object body ≡ ok msg)
          × (Repeated (dedup_key handler msg) w w'
              ⊎ Marked (dedup_key handler msg) (keyed handler msg) w w'))

  -- Whatever calls fail, a delivery ends in one of three ways. It is rejected: no row, no mark, no
  -- acknowledgement. Its key was marked before: no row and no mark. Or its key is marked now, and either
  -- the row of its message is written, with no NULL in a column that must not have it, or the delivery is
  -- not acknowledged.
  pub handle_cases :
      (handler : Handler) (body : Option Json) (w : World)
      → Handled handler body w (handle handler body w).1
  unfolding handle handle_flow1_message handle_flow2_message handle_flow3_message
      handle_flow4_message handle_flow5_message handle_flow6_direct_message
      handle_flow6_remote_message handle_flow7_message
  handle_cases Handler.flow1 =
      persist_cases site flow1_labels (message_id site.env) (λ m. m) (save_flow1 site)
        (save_flow1-Work site)
  handle_cases Handler.flow2 =
      persist_cases site flow2_labels (message_id site.env) (λ m. m) (save_flow2 site)
        (save_flow2-Work site)
  handle_cases Handler.flow3 =
      persist_cases site flow3_labels (message_id site.env) (λ m. m) (save_flow3 site)
        (save_flow3-Work site)
  handle_cases Handler.flow4 =
      persist_cases site flow4_labels (message_id site.env) (λ m. m) (save_flow4 site)
        (save_flow4-Work site)
  handle_cases Handler.flow5 =
      persist_cases site flow5_labels (message_id site.env) (λ m. m) (save_flow5 site)
        (save_flow5-Work site)
  handle_cases Handler.flow6_direct =
      persist_cases site flow6_labels (message_id site.env) (λ m. m) (save_flow6_direct site)
        (save_flow6_direct-Work site)
  handle_cases Handler.flow6_remote =
      persist_cases site flow6_remote_labels (remote_key site) (λ m. renamed site m m)
        (save_flow6_remote site) (save_flow6_remote-Work site)
  handle_cases Handler.flow7 =
      persist_cases site flow7_labels (message_id site.env) (λ m. m) (save_flow7 site)
        (save_flow7-Work site)

  -- deliveries one after the other, each to a handler, in any order and as often as they come, within the
  -- lifetime of their marks: the reaper, which deletes old marks (Dedup.Reaper), does not run in between
  unfoldable pub run : List (Handler × Option Json) → World → World
  unfolding handle
  run [] w = w
  run ((handler, body) ∷ rest) w = run rest (handle handler body w).1

  -- how many rows have the key
  unfoldable pub rows_with : String → List Fields → ℕ
  unfolding str_of get_field
  rows_with key [] = 0
  rows_with key (row ∷ rows) = (if row_key site.env row == key then 1 else 0) + rows_with key rows

  -- A marked key has at most one row, and any other key has none.
  abbrev pub Recorded : World → Type 0
  Recorded w = (key : String) → rows_with key w.inserted ≤ (if contains w.dedup key then 1 else 0)
