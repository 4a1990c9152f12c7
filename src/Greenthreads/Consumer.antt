-- ===== src/Greenthreads/Consumer.antt =====
-- The life of one consumer greenthread: the body that all the functions _gt_consume_* of
-- src/application/process2.py to process5.py share, and _wrapper of src/gt/gt.py, which runs it again after
-- an exception. What the broker and the network do is observed: see Session and Round. The prefetch is the
-- broker's, the labels are text of the log.
use flow_first.Base.{ℕ, suc, String, Bool, true, false, Option, List, [], ◌∷◌}
use flow_first.Base.Result.{Result, ok, raise, ◌>>=◌, broker_error}
use flow_first.Json.{Json}
use flow_first.World.{World, Action, give, fail}
use flow_first.World
use flow_first.Base.Int.{ℤ}
use flow_first.Greenthreads.Pool.{Pool, spawn_consumers}
use flow_first.Greenthreads.Periodic.{Signal, StopEvent, is_stopping, handle_signals}
use flow_first.Greenthreads.Connect.{get_rmq_connection_with_retry}

-- what one _gt_consume_* consumes, and with what: on_message_callback, on the body of a delivery
pub record Consumer : Type 0 where
  pub queue : String
  pub handler : Option Json → Action (Unit {0})

-- One process_data_events, and the sleep(0) after it: the bodies that the broker sends from each queue,
-- whether the connection is lost after them, and the signals that arrive meanwhile.
pub record Round : Type 0 where
  pub sent : String → List (Option Json)
  pub is_lost : Bool
  pub signals : List Signal

-- One run of the function: which attempts connect, what the calls on the connection return, the rounds
-- that are observed, and the signals before the loop and in the 2 s after an exception.
pub record Session : Type 0 where
  pub connects : ℕ → Bool
  pub channel : Result (Unit {0})
  pub setup_queues : Result (Unit {0})
  pub basic_qos : Result (Unit {0})
  pub basic_consume : Result (Unit {0})
  pub before : List Signal
  pub rounds : List Round
  pub close : Result (Unit {0})
  pub pause : List Signal

pub record ConsumerState : Type 0 where
  pub stop_event : StopEvent
  pub world : World
  -- the connections that were opened, and the calls of close
  pub opened : ℕ
  pub closed : ℕ

-- whether the function runs still when the observation ends, or how it ended
pub data Progress : Type 0 where
  running : Progress
  ended : Result (Unit {0}) → Progress

-- the deliveries of a round one by one: an exception of the handler leaves process_data_events
unfoldable pub deliver :
    (Option Json → Action (Unit {0})) → List (Option Json) → Bool → Action (Unit {0})
deliver handler [] false = give tt
deliver handler [] true = fail broker_error
deliver handler (body ∷ bodies) is_lost = World.◌>>◌ (handler body) (deliver handler bodies is_lost)

abbrev pub observed : Round → World → ConsumerState → ConsumerState
observed round w t = record t { world = w; stop_event = handle_signals round.signals t.stop_event }

abbrev pub after_round :
    Result (Unit {0}) × World
    → Round
    → (ConsumerState → Progress × ConsumerState)
    → ConsumerState
    → Progress × ConsumerState
after_round (ok u, w) round next t = next (observed round w t)
after_round (raise e, w) round next t = (Progress.ended (raise e), observed round w t)

abbrev pub unless_stopping :
    Bool → (ConsumerState → Progress × ConsumerState) → ConsumerState → Progress × ConsumerState
unless_stopping true body t = (Progress.ended (ok tt), t)
unless_stopping false body t = body t

-- while not gt.is_stopping(): conn.process_data_events(time_limit=1); gt.sleep(0)
unfoldable pub consume_rounds : Consumer → List Round → ConsumerState → Progress × ConsumerState
unfolding deliver is_stopping handle_signals
consume_rounds consumer [] t =
    unless_stopping (is_stopping t.stop_event) (λ t. (Progress.running, t)) t
consume_rounds consumer (round ∷ rounds) t =
    unless_stopping (is_stopping t.stop_event)
      (λ t.
        after_round (deliver consumer.handler (round.sent consumer.queue) round.is_lost t.world)
          round (consume_rounds consumer rounds) t)
      t

-- finally: conn.close(), whose exception takes the place of the first
abbrev pub closed_with : Result (Unit {0}) → Result (Unit {0}) → Result (Unit {0})
closed_with first (ok u) = first
closed_with first (raise e) = raise e

abbrev pub finally_close : Result (Unit {0}) → Progress × ConsumerState → Progress × ConsumerState
finally_close close (Progress.running, t) = (Progress.running, t)
finally_close close (Progress.ended r, t) =
    (Progress.ended (closed_with r close), record t { closed = suc t.closed })

-- the calls before the loop, which stand outside of its try
abbrev pub prepare : Session → Result (Unit {0})
prepare session = session.channel >>= λ _.
    session.setup_queues >>= λ _. session.basic_qos >>= λ _. session.basic_consume

abbrev pub prepared :
    Result (Unit {0}) → Consumer → Session → ConsumerState → Progress × ConsumerState
prepared (ok u) consumer session t =
    finally_close session.close (consume_rounds consumer session.rounds t)
prepared (raise e) consumer session t = (Progress.ended (raise e), t)

abbrev pub connected : Result ℕ → Consumer → Session → ConsumerState → Progress × ConsumerState
connected (ok n) consumer session t =
    prepared (prepare session) consumer session (record t { opened = suc t.opened })
connected (raise e) consumer session t = (Progress.ended (raise e), t)

-- the connection of a session, by the attempt that opened it
abbrev pub connection : Session → Result ℕ
connection session = (get_rmq_connection_with_retry session.connects 20).outcome

-- _gt_consume_*
unfoldable pub gt_consume : Consumer → Session → ConsumerState → Progress × ConsumerState
unfolding get_rmq_connection_with_retry consume_rounds handle_signals
gt_consume consumer session t =
    connected (connection session) consumer session
      (record t { stop_event = handle_signals session.before t.stop_event })

-- the end of a run in _wrapper: it exits, or it runs the function again after 2 s
abbrev pub after_run :
    Progress × ConsumerState
    → Bool
    → Session
    → (ConsumerState → Bool × ConsumerState)
    → Bool × ConsumerState
after_run (Progress.running, t) restart session again = (false, t)
after_run (Progress.ended (ok u), t) restart session again = (true, t)
after_run (Progress.ended (raise e), t) false session again = (true, t)
after_run (Progress.ended (raise e), t) true session again =
    again (record t { stop_event = handle_signals session.pause t.stop_event })

-- _wrapper, over the sessions that are observed: whether it has exited, and what it has done
unfoldable pub wrapper : Consumer → Bool → List Session → ConsumerState → Bool × ConsumerState
unfolding gt_consume handle_signals
wrapper consumer restart [] t = (false, t)
wrapper consumer restart (session ∷ sessions) t =
    after_run (gt_consume consumer session t) restart session (wrapper consumer restart sessions)

-- the calls of spawn_consumers in _consume, one after the other
unfoldable pub spawn_all : List (String × Consumer) → ℤ → Pool → Pool
unfolding spawn_consumers
spawn_all [] count pool = pool
spawn_all ((name, consumer) ∷ consumers) count pool =
    spawn_all consumers count (spawn_consumers name count pool)
