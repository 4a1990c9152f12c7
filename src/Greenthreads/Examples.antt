-- ===== src/Greenthreads/Examples.antt =====
-- Tests of the greenthread utilities.
use flow_first.Base.{true, false, none, List, [], ◌∷◌, ◌≡◌, refl, any}
use flow_first.Base.Dict.{get}
use flow_first.Base.Int.{pos}
use flow_first.World.{Action, count_event}
use flow_first.Sample.{empty_world}
use flow_first.Greenthreads.Pool.{
  Event, no_threads, spawn_consumers, list_greenthreads, run_events, step,
}
use flow_first.Greenthreads.Orderly.{IsExact, run_events-IsExact}
use flow_first.Greenthreads.Periodic.{Signal, Ends, quiet, periodic, periodic-Ends}
use flow_first.Greenthreads.Connect.{
  ByFirst, get_rmq_connection_with_retry, get_rmq_connection_with_retry-ByFirst,
}
use flow_first.Greenthreads.Report.{delta_sum, reports, reports-delta_sum}

-- two consumers, one of which raises and is restarted, and a plain greenthread that ends
abbrev consumer_events : List Event
consumer_events =
    Event.spawned "flow1" true
    ∷ Event.spawned "flow1_2" true
    ∷ Event.spawned "metrics" false
    ∷ Event.began 0
    ∷ Event.began 2
    ∷ Event.raised 0
    ∷ Event.raised 2
    ∷ Event.killed "flow1"
    ∷ []

three_consumers :
    list_greenthreads (spawn_consumers "flow1" (pos 3) no_threads)
    ≡ "flow1" ∷ "flow1_2" ∷ "flow1_3" ∷ []
unfolding spawn_consumers list_greenthreads no_threads
three_consumers = refl

one_is_left : list_greenthreads (run_events consumer_events no_threads) ≡ "flow1_2" ∷ []
unfolding run_events list_greenthreads no_threads
one_is_left = refl

run_events-IsExact_example : IsExact (run_events consumer_events no_threads)
unfolding get no_threads step any
run_events-IsExact_example =
    run_events-IsExact consumer_events (refl, (refl, (refl, (tt, (tt, (tt, (tt, (refl, tt))))))))

-- a function that counts a round and raises if its call fails
abbrev report_health : Action (Unit {0})
report_health = count_event "rounds"

abbrev two_sleeps : List (List Signal)
two_sleeps = [] ∷ (Signal.sigterm ∷ []) ∷ [] ∷ []

periodic-Ends_example :
    Ends true 2 report_health empty_world (periodic report_health true two_sleeps none empty_world)
unfolding quiet any
periodic-Ends_example = periodic-Ends report_health true two_sleeps empty_world

get_rmq_connection_with_retry-ByFirst_example :
    ByFirst (λ n. false) 1 21 0 (get_rmq_connection_with_retry (λ n. false) 20)
get_rmq_connection_with_retry-ByFirst_example =
    get_rmq_connection_with_retry-ByFirst (λ n. false) 20

reported_seven :
    delta_sum "acked"
      (reports ((("acked", 2) ∷ []) ∷ (("published", 1) ∷ ("acked", 7) ∷ []) ∷ []) []).lines
    ≡ pos 7
unfolding get
reported_seven =
    reports-delta_sum "acked" ((("acked", 2) ∷ []) ∷ []) (("published", 1) ∷ ("acked", 7) ∷ []) refl
