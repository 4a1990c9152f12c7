-- ===== src/Greenthreads/Kept.antt =====
-- What the loop of a consumer keeps, of src/application/process2.py to process5.py.
use flow_first.Base.{ℕ, suc, Option, Bool, true, false, List, [], ◌∷◌}
use flow_first.Base.Result.{Result, ok, raise}
use flow_first.Json.{Json}
use flow_first.World.{World, Action, lift, ◌>>◌}
use flow_first.Greenthreads.Periodic.{is_stopping, handle_signals}
use flow_first.Greenthreads.Consumer.{
  Consumer, Round, Session, ConsumerState, Progress, deliver, observed, after_round,
  unless_stopping, consume_rounds, finally_close, prepare, prepared, connected, connection,
  gt_consume, after_run, wrapper,
}

-- What every round keeps, the loop keeps.
module _ (P : ConsumerState → Type 0) (consumer : Consumer)
    (kept : (round : Round) (t : ConsumerState)
      → P t
      → P (
          observed round
            (deliver consumer.handler (round.sent consumer.queue) round.is_lost t.world).1
            t)) where
  unless_stopping-keeps :
      (b : Bool) (body : ConsumerState → Progress × ConsumerState) (t : ConsumerState)
      → P t
      → P (body t).1
      → P (unless_stopping b body t).1
  unless_stopping-keeps true body t p q = p
  unless_stopping-keeps false body t p q = q

  after_round-keeps :
      (r : Result (Unit {0})) (w : World) (round : Round)
      (next : ConsumerState → Progress × ConsumerState) (t : ConsumerState)
      → P (observed round w t)
      → ((u : ConsumerState) → P u → P (next u).1)
      → P (after_round (r, w) round next t).1
  after_round-keeps (ok u) w round next t p rest = rest (observed round w t) p
  after_round-keeps (raise e) w round next t p rest = p

  pub consume_rounds-keeps :
      (rounds : List Round) (t : ConsumerState) → P t → P (consume_rounds consumer rounds t).1
  unfolding consume_rounds
  consume_rounds-keeps [] t p =
      unless_stopping-keeps (is_stopping t.stop_event) (λ t. (Progress.running, t)) t p p
  consume_rounds-keeps (round ∷ rounds) t p =
      unless_stopping-keeps (is_stopping t.stop_event)
        (λ t.
          after_round (deliver consumer.handler (round.sent consumer.queue) round.is_lost t.world)
            round (consume_rounds consumer rounds) t)
        t p
        (after_round-keeps
          (deliver consumer.handler (round.sent consumer.queue) round.is_lost t.world).0
          (deliver consumer.handler (round.sent consumer.queue) round.is_lost t.world).1 round
          (consume_rounds consumer rounds) t (kept round t p) (consume_rounds-keeps rounds))

-- What every call of the handler keeps of the World, a consumer keeps over all its sessions, whatever fails
-- in them.
module _ (Inv : World → Type 0) (consumer : Consumer)
    (handles : (body : Option Json) (w : World) → Inv w → Inv (consumer.handler body w).1) where
  resume-keeps :
      (r : Result (Unit {0})) (rest : Action (Unit {0})) (w : World)
      → Inv w
      → ((v : World) → Inv v → Inv (rest v).1)
      → Inv ((lift r >> rest) w).1
  resume-keeps (ok u) rest w i step = step w i
  resume-keeps (raise e) rest w i step = i

  deliver-keeps :
      (bodies : List (Option Json)) (is_lost : Bool) (w : World)
      → Inv w
      → Inv (deliver consumer.handler bodies is_lost w).1
  unfolding deliver
  deliver-keeps [] false w i = i
  deliver-keeps [] true w i = i
  deliver-keeps (body ∷ bodies) is_lost w i =
      resume-keeps (consumer.handler body w).0 (deliver consumer.handler bodies is_lost)
        (consumer.handler body w).1 (handles body w i) (deliver-keeps bodies is_lost)

  rounds-keep :
      (rounds : List Round) (t : ConsumerState)
      → Inv t.world
      → Inv (consume_rounds consumer rounds t).1.world
  rounds-keep rounds t i =
      consume_rounds-keeps (λ u. Inv u.world) consumer
        (λ round u j. deliver-keeps (round.sent consumer.queue) round.is_lost u.world j) rounds t i

  close-keeps :
      (close : Result (Unit {0})) (p : Progress) (u : ConsumerState)
      → Inv u.world
      → Inv (finally_close close (p, u)).1.world
  close-keeps close Progress.running u i = i
  close-keeps close (Progress.ended r) u i = i

  prepared-keeps :
      (r : Result (Unit {0})) (session : Session) (t : ConsumerState)
      → Inv t.world
      → Inv (prepared r consumer session t).1.world
  prepared-keeps (raise e) session t i = i
  prepared-keeps (ok u) session t i =
      close-keeps session.close (consume_rounds consumer session.rounds t).0
        (consume_rounds consumer session.rounds t).1 (rounds-keep session.rounds t i)

  connected-keeps :
      (r : Result ℕ) (session : Session) (t : ConsumerState)
      → Inv t.world
      → Inv (connected r consumer session t).1.world
  connected-keeps (raise e) session t i = i
  connected-keeps (ok n) session t i =
      prepared-keeps (prepare session) session (record t { opened = suc t.opened }) i

  after_run-keeps :
      (p : Progress) (u : ConsumerState) (restart : Bool) (session : Session)
      (again : ConsumerState → Bool × ConsumerState)
      → Inv u.world
      → ((v : ConsumerState) → Inv v.world → Inv (again v).1.world)
      → Inv (after_run (p, u) restart session again).1.world
  after_run-keeps Progress.running u restart session again i rest = i
  after_run-keeps (Progress.ended (ok x)) u restart session again i rest = i
  after_run-keeps (Progress.ended (raise e)) u false session again i rest = i
  after_run-keeps (Progress.ended (raise e)) u true session again i rest =
      rest (record u { stop_event = handle_signals session.pause u.stop_event }) i

  pub wrapper-keeps :
      (restart : Bool) (sessions : List Session) (t : ConsumerState)
      → Inv t.world
      → Inv (wrapper consumer restart sessions t).1.world
  unfolding wrapper gt_consume
  wrapper-keeps restart [] t i = i
  wrapper-keeps restart (session ∷ sessions) t i =
      after_run-keeps (gt_consume consumer session t).0 (gt_consume consumer session t).1 restart
        session (wrapper consumer restart sessions)
        (connected-keeps (connection session) session
          (record t { stop_event = handle_signals session.before t.stop_event }) i)
        (wrapper-keeps restart sessions)
