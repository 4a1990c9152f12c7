-- ===== src/Pipeline/Examples.antt =====
-- Tests of the workers' consumers.
use flow_first.Base.{
  ℕ, suc, eqb, String, Bool, true, false, Option, none, some, List, [], ◌∷◌, ◌≡◌, refl, Member,
  here, later, any, contains,
}
use flow_first.Base.Int.{pos}
use flow_first.Base.Result.{ok, raise, broker_error}
use flow_first.Json.{Json}
use flow_first.Sample.{sample_env, sample_site, empty_world, telemetry}
use flow_first.Greenthreads.Pool.{no_threads, list_greenthreads}
use flow_first.Greenthreads.Periodic.{Signal, is_stopping, handle_signals}
use flow_first.Greenthreads.Connect.{get_rmq_connection_with_retry}
use flow_first.Greenthreads.Consumer.{
  Round, Session, ConsumerState, consume_rounds, gt_consume, wrapper,
}
use flow_first.Greenthreads.Stopped.{is_usable}
use flow_first.Greenthreads.Stopping.{Stops, cut, wrapper-Exits}
use flow_first.Greenthreads.Connections.{HasFew, unprepared, wrapper-HasFew}
use flow_first.Transformer.Consume.{gt_consume_flow1}
use flow_first.RemoteWorker.Consume as RemoteWorker
use flow_first.Pipeline.Consumed.{workers, consumers_of, consumers_of-workers}
use flow_first.Pipeline.Routed.{IsRouted}
use flow_first.Gateway.Published.{Request}
use flow_first.Pipeline.System.{Step, run_steps, run_steps-IsRouted}

abbrev sent_from : String → List (Option Json)
sent_from queue = some (Json.obj telemetry) ∷ none ∷ []

-- a round with a good message and one that is no JSON, and a signal
abbrev two_messages : Round
two_messages = record { sent = sent_from; is_lost = false; signals = Signal.sigterm ∷ [] }

-- the second attempt connects
abbrev good_session : Session
good_session = record {
  connects = λ n. eqb n 2;
  channel = ok tt;
  setup_queues = ok tt;
  basic_qos = ok tt;
  basic_consume = ok tt;
  before = [];
  rounds = two_messages ∷ [];
  close = ok tt;
  pause = [];
}

-- no attempt connects; the queues cannot be declared
abbrev no_broker : Session
no_broker = record good_session { connects = λ n. false }

abbrev bad_setup : Session
bad_setup = record good_session { setup_queues = raise broker_error }

abbrev at_start : ConsumerState
at_start = record { stop_event = none; world = empty_world; opened = 0; closed = 0 }

abbrev sessions_of_test : List Session
sessions_of_test = no_broker ∷ bad_setup ∷ good_session ∷ []

handles_both :
    (wrapper (gt_consume_flow1 sample_env) true sessions_of_test at_start).1.world.counters
    ≡ ("flow1_processed", 1) ∷ ("flow1_failed", 1) ∷ []
unfolding wrapper flow_first.Transformer.handle_flow1_message flow_first.Relay.append_history
    flow_first.Env.put_fields flow_first.Base.Dict.put
handles_both = refl

-- the connection whose set-up raised was not closed
leaves_one_open :
    (wrapper (gt_consume_flow1 sample_env) true sessions_of_test at_start).1.opened
    ≡ suc (wrapper (gt_consume_flow1 sample_env) true sessions_of_test at_start).1.closed
unfolding wrapper flow_first.Transformer.handle_flow1_message flow_first.Relay.append_history
    flow_first.Env.put_fields
leaves_one_open = refl

two_of_each :
    list_greenthreads (RemoteWorker.consume sample_env (pos 2) no_threads)
    ≡ "p5_flow3_consumer" ∷ "p5_flow3_consumer_2" ∷ "p5_flow6_consumer" ∷ "p5_flow6_consumer_2"
      ∷ "p5_zk_health" ∷ "remote_worker_metrics" ∷ []
unfolding list_greenthreads RemoteWorker.consume no_threads
two_of_each = refl

-- the signal arrives in the first of two rounds
abbrev late_session : Session
late_session = record good_session { rounds = two_messages ∷ two_messages ∷ [] }

received_in_round :
    is_stopping (gt_consume (gt_consume_flow1 sample_env) late_session at_start).1.stop_event ≡ true
unfolding gt_consume consume_rounds flow_first.Transformer.handle_flow1_message
    flow_first.Relay.append_history flow_first.Env.put_fields is_stopping handle_signals
received_in_round = refl

wrapper-Exits_example :
    Stops
      (gt_consume (gt_consume_flow1 sample_env) (cut none late_session) at_start)
      true
      (wrapper (gt_consume_flow1 sample_env) true (late_session ∷ sessions_of_test) at_start)
unfolding any is_usable get_rmq_connection_with_retry
wrapper-Exits_example =
    wrapper-Exits (gt_consume_flow1 sample_env) late_session sessions_of_test at_start
      received_in_round

wrapper-HasFew_example :
    HasFew 1 (wrapper (gt_consume_flow1 sample_env) true sessions_of_test at_start)
unfolding unprepared get_rmq_connection_with_retry
wrapper-HasFew_example =
    wrapper-HasFew (gt_consume_flow1 sample_env) true sessions_of_test at_start refl refl

consumers_of-workers_example : consumers_of "flow6_p3_to_p5" (workers sample_env sample_site) ≡ 1
unfolding contains
consumers_of-workers_example = consumers_of-workers sample_env sample_site "flow6_p3_to_p5"

-- a publication of flow 1, and what the first consumer makes of two messages
abbrev two_steps : List Step
two_steps =
    Step.requested sample_env (λ n. "m1") (Request.telemetry none Json.null none)
    ∷ Step.served sample_env sample_site 0 sessions_of_test
    ∷ []

run_steps-IsRouted_example : IsRouted sample_env sample_site (run_steps two_steps empty_world)
run_steps-IsRouted_example =
    run_steps-IsRouted sample_env sample_site two_steps empty_world (λ queue body m. elim m [ ])
