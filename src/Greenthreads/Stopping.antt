-- ===== src/Greenthreads/Stopping.antt =====
-- How a consumer greenthread of src/application/process2.py to process5.py ends once a signal has arrived,
-- before its loop or in one of its rounds.
use flow_first.Base.{
  sym, subst, arith, ◌⊎◌, inl, inr, String, ℕ, suc, Bool, true, false, some, none, List, [], ◌∷◌,
  ◌≡◌, refl, ap, ◌∙◌, any,
}
use flow_first.Base.Result.{Result, Exception, ok, raise}
use flow_first.World.{World}
use flow_first.Greenthreads.Periodic.{StopEvent, is_stopping, handle_signals, handle_signals-some}
use flow_first.Greenthreads.Consumer.{
  Consumer, Round, Session, ConsumerState, Progress, consume_rounds, finally_close, prepare,
  deliver, after_round, observed, unless_stopping, prepared, connected, connection, gt_consume,
  after_run, wrapper,
}
use flow_first.Greenthreads.Stopped.{is_usable, rounds-stopped, wrapper-stopped}

-- The rounds that begin before a signal is received; the signals are received in their order.
unfoldable pub heard : StopEvent → List Round → List Round
unfolding is_stopping handle_signals
heard (some sent) rounds = []
heard none [] = []
heard none (round ∷ rounds) = round ∷ heard (handle_signals round.signals none) rounds

-- the session without the rounds that begin after a signal
unfoldable pub cut : StopEvent → Session → Session
unfolding heard
cut stop session = record session {
  rounds = heard (handle_signals session.before stop) session.rounds;
}

-- The run has done what the first run did, without the rounds after the signal, and nothing later changed
-- the world. It has exited if that run returned; if that run raised, it has exited if `later` says so.
abbrev pub Stops : Progress × ConsumerState → Bool → Bool × ConsumerState → Type 0
Stops (p, u) later (b, v) =
    (v.world ≡ u.world)
    × (((p ≡ Progress.ended (ok tt)) × (b ≡ true))
        ⊎ ((e : Exception) × (p ≡ Progress.ended (raise e)) × (b ≡ later)))

-- A run that goes on has received no signal.
abbrev HasEnded : Progress × ConsumerState → Type 0
HasEnded (p, u) =
    (is_stopping u.stop_event ≡ false) ⊎ ((r : Result (Unit {0})) × (p ≡ Progress.ended r))

module _ (consumer : Consumer) where
  consume_rounds-heard :
      (rounds : List Round) (t : ConsumerState) (stop : StopEvent)
      → t.stop_event ≡ stop
      → consume_rounds consumer (heard stop rounds) t ≡ consume_rounds consumer rounds t
  unfolding heard consume_rounds is_stopping
  consume_rounds-heard rounds t (some sent) e =
      rounds-stopped consumer sent [] t e ∙ sym (rounds-stopped consumer sent rounds t e)
  consume_rounds-heard [] t none e = refl
  consume_rounds-heard (round ∷ rounds) t none e =
      goes (is_stopping t.stop_event)
        (λ u.
          after_round (deliver consumer.handler (round.sent consumer.queue) round.is_lost u.world)
            round (consume_rounds consumer (heard (handle_signals round.signals none) rounds)) u)
        (λ u.
          after_round (deliver consumer.handler (round.sent consumer.queue) round.is_lost u.world)
            round (consume_rounds consumer rounds) u)
        (next (deliver consumer.handler (round.sent consumer.queue) round.is_lost t.world) (λ w.
          consume_rounds-heard rounds (observed round w t) (handle_signals round.signals none)
            (ap (handle_signals round.signals) e)))
    where
      goes :
          (b : Bool) (f g : ConsumerState → Progress × ConsumerState)
          → f t ≡ g t
          → unless_stopping b f t ≡ unless_stopping b g t
      goes true f g same = refl
      goes false f g same = same

      next :
          (r : Result (Unit {0}) × World)
          → ((w : World)
              → consume_rounds consumer
                  (heard (handle_signals round.signals none) rounds)
                  (observed round w t)
                ≡ consume_rounds consumer rounds (observed round w t))
          → after_round r round
              (consume_rounds consumer (heard (handle_signals round.signals none) rounds))
              t
            ≡ after_round r round (consume_rounds consumer rounds) t
      next (ok u, w) later = later w
      next (raise x, w) later = refl

  gt_consume-cut :
      (session : Session) (t : ConsumerState)
      → gt_consume consumer (cut t.stop_event session) t ≡ gt_consume consumer session t
  unfolding gt_consume cut
  gt_consume-cut session t = opened (connection session)
    where
      started : ℕ → ConsumerState
      started n = record t { opened = n; stop_event = handle_signals session.before t.stop_event }

      set_up :
          (r : Result (Unit {0})) (n : ℕ)
          → prepared r consumer (cut t.stop_event session) (started n)
            ≡ prepared r consumer session (started n)
      set_up (ok u) n = ap (finally_close session.close) (
          consume_rounds-heard session.rounds (started n)
            (handle_signals session.before t.stop_event) refl)
      set_up (raise x) n = refl

      opened :
          (r : Result ℕ)
          → connected r consumer (cut t.stop_event session) (started t.opened)
            ≡ connected r consumer session (started t.opened)
      opened (ok n) = set_up (prepare session) (suc t.opened)
      opened (raise x) = refl

  unless_stopping-ended :
      (b : Bool) (t : ConsumerState) (body : ConsumerState → Progress × ConsumerState)
      → (b ≡ false → HasEnded (body t))
      → HasEnded (unless_stopping b body t)
  unless_stopping-ended true t body h = inr (ok tt, refl)
  unless_stopping-ended false t body h = h refl

  after_round-ended :
      (r : Result (Unit {0}) × World) (round : Round) (t : ConsumerState)
      (next : ConsumerState → Progress × ConsumerState)
      → ((u : ConsumerState) → HasEnded (next u))
      → HasEnded (after_round r round next t)
  after_round-ended (ok u, w) round t next h = h (observed round w t)
  after_round-ended (raise e, w) round t next h = inr (raise e, refl)

  consume_rounds-ended :
      (rounds : List Round) (t : ConsumerState) → HasEnded (consume_rounds consumer rounds t)
  unfolding consume_rounds
  consume_rounds-ended [] t =
      unless_stopping-ended (is_stopping t.stop_event) t (λ u. (Progress.running, u)) inl
  consume_rounds-ended (round ∷ rounds) t =
      unless_stopping-ended (is_stopping t.stop_event) t _ λ _.
        after_round-ended
          (deliver consumer.handler (round.sent consumer.queue) round.is_lost t.world) round t
          (consume_rounds consumer rounds) (consume_rounds-ended rounds)

  closed-ended :
      (close : Result (Unit {0})) (p : Progress) (u : ConsumerState)
      → HasEnded (p, u)
      → HasEnded (finally_close close (p, u))
  closed-ended close Progress.running u h = h
  closed-ended close (Progress.ended r) u h = inr (_, refl)

  prepared-ended :
      (r : Result (Unit {0})) (session : Session) (t : ConsumerState)
      → HasEnded (prepared r consumer session t)
  prepared-ended (raise x) session t = inr (raise x, refl)
  prepared-ended (ok u) session t =
      closed-ended session.close (consume_rounds consumer session.rounds t).0
        (consume_rounds consumer session.rounds t).1 (consume_rounds-ended session.rounds t)

  connected-ended :
      (r : Result ℕ) (session : Session) (t : ConsumerState)
      → HasEnded (connected r consumer session t)
  connected-ended (raise x) session t = inr (raise x, refl)
  connected-ended (ok n) session t =
      prepared-ended (prepare session) session (record t { opened = suc t.opened })

  gt_consume-ended :
      (session : Session) (t : ConsumerState) → HasEnded (gt_consume consumer session t)
  unfolding gt_consume
  gt_consume-ended session t =
      connected-ended (connection session) session
        (record t { stop_event = handle_signals session.before t.stop_event })

  received : (stop : StopEvent) → is_stopping stop ≡ true → (sent : String) × (stop ≡ some sent)
  unfolding is_stopping
  received none h = ground arith
  received (some sent) h = (sent, refl)

  after_run-Stops :
      (p : Progress) (u : ConsumerState) (session : Session) (sessions : List Session)
      → HasEnded (p, u)
      → is_stopping u.stop_event ≡ true
      → Stops
          (p, u)
          (any is_usable sessions)
          (after_run (p, u) true session (wrapper consumer true sessions))
  after_run-Stops p u session sessions (inl goes) h = ground arith
  after_run-Stops p u session sessions (inr (ok x, e)) h = rw e (refl, inl (refl, refl))
  after_run-Stops p u session sessions (inr (raise x, e)) h =
      let (sent, same) = received u.stop_event h in
      let (b, w) =
        wrapper-stopped consumer sent sessions
          (record u { stop_event = handle_signals session.pause u.stop_event })
          (ap (handle_signals session.pause) same ∙ handle_signals-some session.pause sent) in
      rw e (w, inr (x, refl, b))

  -- Let a consumer that is restarted on errors have received a signal by the end of a run, before it or in
  -- any of its rounds. Then what it has done to the world in the end, whatever later sessions bring, is
  -- what this run does without the rounds that begin after the signal: none of their deliveries is
  -- handled. That shorter run ends, and if it returns, the greenthread has exited; if it raises, the
  -- greenthread has exited exactly if in one of the later sessions a connection was opened, set up and
  -- closed without an exception.
  pub wrapper-Exits :
      (session : Session) (sessions : List Session) (t : ConsumerState)
      → is_stopping (gt_consume consumer session t).1.stop_event ≡ true
      → Stops
          (gt_consume consumer (cut t.stop_event session) t)
          (any is_usable sessions)
          (wrapper consumer true (session ∷ sessions) t)
  unfolding wrapper
  wrapper-Exits session sessions t h =
      subst
        (λ run. Stops run (any is_usable sessions) (wrapper consumer true (session ∷ sessions) t))
        (sym (gt_consume-cut session t))
        (after_run-Stops (gt_consume consumer session t).0 (gt_consume consumer session t).1 session
          sessions (gt_consume-ended session t) h)
