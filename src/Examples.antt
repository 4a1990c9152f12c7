-- ===== src/Examples.antt =====
-- Tests of the pipeline's handlers on the messages of the samples.
use flow_first.Base.{
  not, keep, ◌==◌, if◌then◌else◌, here, later, ◌+◌, String, Bool, true, false, some, List, [], ◌∷◌,
  ◌≡◌, refl, arith, ◌↔◌, contains,
}
use flow_first.Base.Int.{ℤ, pos, ◌+ℤ◌}
use flow_first.Base.Dict.{get}
use flow_first.Base.Result.{Result, ok, raise}
use flow_first.Json.{Json, Fields, end, Items, nil, get_field, item_count}
use flow_first.Relay.Outcome.{Relayed, relay_cases, relay_total, calm_end}
use flow_first.Relay.{load_object, append_history, relay, changed}
use flow_first.Env.{fields, put_fields, stage}
use flow_first.Numbers.{float}
use flow_first.Config.{start_watcher, watch, get_int}
use flow_first.Config.Typed.{started, delivered, Reached-get_int}
use flow_first.Pipeline.{Hop, change}
use flow_first.Pipeline.Journey.{arrived, hop_on, identity_fields, Travels-kept}
use flow_first.Forwarder.Validation.{valid_flow4}
use flow_first.Forwarder.Validation.Exact.{Creatable, valid_flow4-exact}
use flow_first.Forwarder.Dual.{Delivered, handle_flow6_message_cases}
use flow_first.Forwarder
use flow_first.Transformer.Changes
use flow_first.Transformer.Rules.{change_flow1-counter}
use flow_first.DbUpdater.Once.{Handler, handle, Handled, handle_cases, run, rows_with, Recorded}
use flow_first.DbUpdater.Unique.{run-Recorded}
use flow_first.DbUpdater.Missing.{Unsaved, handle-no_item}
use flow_first.DbUpdater.Replay.{Skipped, handle-replay}
use flow_first.Db.{value, datetime}
use flow_first.DbUpdater.Effects.{Refused}
use flow_first.DbUpdater.Handlers.{save_flow5}
use flow_first.DbUpdater.Dated.{save_flow5-datetime}
use flow_first.World.{World}
use flow_first.Dedup.Reaper.{is_expired, reap}
use flow_first.Dedup.Exact.{reap-keep}
use flow_first.Sample.{
  sample_floats, sample_env, sample_site, world_with, empty_world, telemetry, creation, update,
  sent_update,
}

ok_or : Fields → Result Fields → Fields
ok_or default (ok d) = d
ok_or default (raise e) = default

-- The insertion fails after the mark, and the dead letter is replayed.
failing_insert : List Bool
failing_insert = false ∷ true ∷ []

empty-Recorded : Recorded sample_site empty_world
unfolding rows_with contains
empty-Recorded key = omega arith

run-Recorded_example : Recorded sample_site (
    run sample_site
      ((Handler.flow1, some (Json.obj telemetry))
        ∷ (Handler.flow1, some (Json.obj telemetry))
        ∷ (Handler.flow4, some (Json.obj creation))
        ∷ [])
      empty_world)
run-Recorded_example =
    run-Recorded sample_site
      ((Handler.flow1, some (Json.obj telemetry))
        ∷ (Handler.flow1, some (Json.obj telemetry))
        ∷ (Handler.flow4, some (Json.obj creation))
        ∷ [])
      empty_world empty-Recorded

handle_cases_example :
    Handled sample_site Handler.flow1
      (some (Json.obj telemetry))
      empty_world
      (handle sample_site Handler.flow1 (some (Json.obj telemetry)) empty_world).1
handle_cases_example =
    handle_cases sample_site Handler.flow1 (some (Json.obj telemetry)) empty_world

handle-no_item_example :
    Unsaved sample_site Handler.flow4 (some (Json.obj creation)) empty_world creation
unfolding load_object get_field
handle-no_item_example =
    handle-no_item sample_site Handler.flow4 (some (Json.obj creation)) creation empty_world refl
      refl

handle-replay_example :
    Skipped
      (record (handle sample_site Handler.flow1
        (some (Json.obj telemetry))
        (world_with failing_insert)).1 { faults = [] })
      (handle sample_site Handler.flow1
        (some (Json.obj telemetry))
        (record (handle sample_site Handler.flow1
          (some (Json.obj telemetry))
          (world_with failing_insert)).1 { faults = [] })).1
unfolding load_object handle failing_insert
handle-replay_example =
    handle-replay sample_site Handler.flow1 (some (Json.obj telemetry)) telemetry
      (world_with failing_insert)
      (record (handle sample_site Handler.flow1 (some (Json.obj telemetry))
        (world_with failing_insert)).1 { faults = [] })
      refl refl refl refl

handle_flow6_message_cases_example :
    Delivered sample_env
      (some (Json.obj update))
      empty_world
      (Forwarder.handle_flow6_message sample_env (some (Json.obj update)) empty_world).1
handle_flow6_message_cases_example =
    handle_flow6_message_cases sample_env (some (Json.obj update)) empty_world

Reached-get_int_example :
    (m : ℤ) × (get
        (watch sample_floats
          (start_watcher sample_floats (("flow1_counter_step", "x") ∷ []))
          "flow1_counter_step"
          (some " 12 "))
        "flow1_counter_step"
      ≡ some (flow_first.Numbers.int m))
    × (get_int sample_floats
          (watch sample_floats
            (start_watcher sample_floats (("flow1_counter_step", "x") ∷ []))
            "flow1_counter_step"
            (some " 12 "))
          "flow1_counter_step"
        ≡ ok m)
unfolding get
Reached-get_int_example =
    Reached-get_int sample_floats "flow1_counter_step" (pos 10)
      (delivered "flow1_counter_step" (some " 12 ") (started (("flow1_counter_step", "x") ∷ [])))
      refl

valid_flow4-exact_example : valid_flow4 creation ≡ ok true ↔ Creatable creation
valid_flow4-exact_example = valid_flow4-exact creation

creation_is_valid : valid_flow4 creation ≡ ok true
unfolding valid_flow4
creation_is_valid = refl

relay_cases_example :
    Relayed
      (Changes.change_flow1 sample_env)
      "flow1_p2_to_p3"
      "flow1_processed"
      "flow1_failed"
      (some (Json.obj telemetry))
      empty_world
      (relay
        (Changes.change_flow1 sample_env)
        "flow1_p2_to_p3"
        "flow1_processed"
        "flow1_failed"
        (some (Json.obj telemetry))
        empty_world).1
relay_cases_example =
    relay_cases (Changes.change_flow1 sample_env) "flow1_p2_to_p3" "flow1_processed" "flow1_failed"
      (some (Json.obj telemetry)) empty_world

relay_total_example :
    relay
      (Changes.change_flow1 sample_env)
      "flow1_p2_to_p3"
      "flow1_processed"
      "flow1_failed"
      (some (Json.obj telemetry))
      empty_world
    ≡ calm_end
        (Changes.change_flow1 sample_env)
        "flow1_p2_to_p3"
        "flow1_processed"
        "flow1_failed"
        (some (Json.obj telemetry))
        empty_world
        (changed (Changes.change_flow1 sample_env) (some (Json.obj telemetry)))
relay_total_example =
    relay_total (Changes.change_flow1 sample_env) "flow1_p2_to_p3" "flow1_processed" "flow1_failed"
      (some (Json.obj telemetry)) empty_world refl

Travels-kept_example :
    ((key : String)
      → contains identity_fields key ≡ true
      → get_field sent_update key ≡ get_field update key)
    × ((l : Items)
        → get_field update "history" ≡ some (Json.arr l)
        → (l' : Items) × (get_field sent_update "history" ≡ some (Json.arr l'))
          × (item_count l' ≡ item_count l + 1))
unfolding change Forwarder.change_flow6 get_field flow_first.Json.put_field put_fields stage
    append_history flow_first.Json.append_item
Travels-kept_example =
    Travels-kept
      (hop_on {msg'' = sent_update} sample_env Hop.forward_flow6 (arrived {msg = update}) refl)

counted_fifteen :
    get_field (ok_or end (Changes.change_flow1 sample_env telemetry)) "counter"
    ≡ some (Json.int (pos 5 +ℤ pos 10))
unfolding Changes.change_flow1 get_field flow_first.Json.put_field put_fields stage append_history
    flow_first.Json.append_item ok_or
counted_fifteen =
    change_flow1-counter sample_env telemetry
      (ok_or end (Changes.change_flow1 sample_env telemetry)) (pos 10) (pos 5) refl refl refl

inquiry : Fields
inquiry = fields (
    ("flow", Json.int (pos 5))
    ∷ ("message_id", Json.str "m5")
    ∷ ("filters", Json.obj end)
    ∷ ("history", Json.arr nil)
    ∷ [])

save_flow5-datetime_example : Refused empty_world (save_flow5 sample_site inquiry empty_world)
unfolding inquiry get_field
save_flow5-datetime_example =
    save_flow5-datetime sample_site inquiry end
      (("device_id", value (Json.str "d1")) ∷ ("created_at", datetime "now") ∷ []) "created_at"
      "now" empty_world refl (here refl) (later (here refl))

-- two znodes, of which one is older than the limit
abbrev two_znodes : World
two_znodes = record empty_world { dedup = "old" ∷ "new" ∷ [] }

abbrev age_of : String → ℤ
age_of child = if child == "old" then pos 400000 else pos 1000

reap-keep_example :
    (reap age_of (pos 300000) two_znodes).dedup
    ≡ keep (λ child. not (is_expired age_of (pos 300000) child)) two_znodes.dedup
reap-keep_example = reap-keep age_of (pos 300000) two_znodes refl

reaps_one : (reap age_of (pos 300000) two_znodes).dedup ≡ "new" ∷ []
unfolding reap
reaps_one = refl

-- the second request, for the age of the first znode, fails
skips_one :
    (reap age_of (pos 300000) (record two_znodes { faults = false ∷ true ∷ [] })).dedup
    ≡ "old" ∷ "new" ∷ []
unfolding reap
skips_one = refl
