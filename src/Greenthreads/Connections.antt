-- ===== src/Greenthreads/Connections.antt =====
-- The connections of a consumer greenthread of src/application/process2.py to process5.py, over its
-- sessions.
use flow_first.Base.{
  ℕ, suc, ◌+◌, ◌≤◌, Bool, true, false, List, [], ◌∷◌, ◌≡◌, refl, arith, if◌then◌else◌,
}
use flow_first.Base.Result.{Result, ok, raise}
use flow_first.Greenthreads.Periodic.{handle_signals}
use flow_first.Greenthreads.Connect.{get_rmq_connection_with_retry}
use flow_first.Greenthreads.Consumer.{
  Consumer, Session, ConsumerState, Progress, consume_rounds, finally_close, prepare, prepared,
  connected, connection, gt_consume, after_run, wrapper,
}
use flow_first.Greenthreads.Kept.{consume_rounds-keeps}

abbrev unprepared_by : Result ℕ → Result (Unit {0}) → ℕ
unprepared_by (raise e) prepares = 0
unprepared_by (ok n) (ok u) = 0
unprepared_by (ok n) (raise e) = 1

-- the sessions that connect, and whose set-up raises
unfoldable pub unprepared : List Session → ℕ
unfolding get_rmq_connection_with_retry
unprepared [] = 0
unprepared (session ∷ sessions) =
    unprepared_by (connection session) (prepare session) + unprepared sessions

-- the connection that a run still uses
abbrev live : Progress → ℕ
live Progress.running = 1
live (Progress.ended r) = 0

-- what a run opens, against what it closes
abbrev Spends : ℕ → ConsumerState → Progress × ConsumerState → Type 0
Spends left t (p, u) = u.opened + t.closed ≡ u.closed + t.opened + left + live p

module _ (consumer : Consumer) where
  rounds-counts :
      (session : Session) (t : ConsumerState)
      → ((consume_rounds consumer session.rounds t).1.opened ≡ t.opened)
        × ((consume_rounds consumer session.rounds t).1.closed ≡ t.closed)
  rounds-counts session t =
      consume_rounds-keeps (λ u. (u.opened ≡ t.opened) × (u.closed ≡ t.closed)) consumer
        (λ round u same. same) session.rounds t (refl, refl)

  close-Spends :
      (close : Result (Unit {0})) (t u : ConsumerState) (p : Progress)
      → u.opened ≡ suc t.opened
      → u.closed ≡ t.closed
      → Spends 0 t (finally_close close (p, u))
  close-Spends close t u Progress.running o c = omega arith
  close-Spends close t u (Progress.ended r) o c = omega arith

  prepared-Spends :
      (r : Result (Unit {0})) (n : ℕ) (session : Session) (t : ConsumerState)
      → Spends
          (unprepared_by (ok n) r)
          t
          (prepared r consumer session (record t { opened = suc t.opened }))
  prepared-Spends (raise e) n session t = omega arith
  prepared-Spends (ok u) n session t =
      let (o, c) = rounds-counts session (record t { opened = suc t.opened }) in
      close-Spends session.close t
        (consume_rounds consumer session.rounds (record t { opened = suc t.opened })).1
        (consume_rounds consumer session.rounds (record t { opened = suc t.opened })).0 o c

  connected-Spends :
      (r : Result ℕ) (session : Session) (t : ConsumerState)
      → Spends (unprepared_by r (prepare session)) t (connected r consumer session t)
  connected-Spends (raise e) session t = omega arith
  connected-Spends (ok n) session t = prepared-Spends (prepare session) n session t

  run-Spends :
      (session : Session) (t : ConsumerState)
      → Spends
          (unprepared_by (connection session) (prepare session))
          t
          (gt_consume consumer session t)
  unfolding gt_consume
  run-Spends session t =
      connected-Spends (connection session) session
        (record t { stop_event = handle_signals session.before t.stop_event })

  -- no connection is closed twice, and the open ones are at most those that are given
  abbrev pub Opens : ℕ → ConsumerState → Bool × ConsumerState → Type 0
  Opens left t (b, u) =
      (t.opened + u.closed ≤ u.opened + t.closed)
      × (u.opened + t.closed ≤ u.closed + t.opened + left + (if b then 0 else 1))

  after_run-Opens :
      (session : Session) (t u : ConsumerState) (p : Progress) (restart : Bool) (left more : ℕ)
      (again : ConsumerState → Bool × ConsumerState)
      → Spends left t (p, u)
      → ((v : ConsumerState) → Opens more v (again v))
      → Opens (left + more) t (after_run (p, u) restart session again)
  after_run-Opens session t u Progress.running restart left more again e rest =
      (omega arith, omega arith)
  after_run-Opens session t u (Progress.ended (ok x)) restart left more again e rest =
      (omega arith, omega arith)
  after_run-Opens session t u (Progress.ended (raise x)) false left more again e rest =
      (omega arith, omega arith)
  after_run-Opens session t u (Progress.ended (raise x)) true left more again e rest =
      let (l, h) = rest (record u { stop_event = handle_signals session.pause u.stop_event }) in
      (omega arith, omega arith)

  wrapper-Opens :
      (restart : Bool) (sessions : List Session) (t : ConsumerState)
      → Opens (unprepared sessions) t (wrapper consumer restart sessions t)
  unfolding wrapper unprepared
  wrapper-Opens restart [] t = (omega arith, omega arith)
  wrapper-Opens restart (session ∷ sessions) t =
      after_run-Opens session t (gt_consume consumer session t).1 (gt_consume consumer session t).0
        restart (unprepared_by (connection session) (prepare session)) (unprepared sessions)
        (wrapper consumer restart sessions) (run-Spends session t) (wrapper-Opens restart sessions)

-- the bounds on the connections of a consumer that began with none
abbrev pub HasFew : ℕ → Bool × ConsumerState → Type 0
HasFew left (b, u) = (u.closed ≤ u.opened) × (u.opened ≤ u.closed + left + (if b then 0 else 1))

-- Over any sessions, however their calls fail, a consumer that began with no connection never closes one
-- that it did not open; and the connections that it has not closed are at most those on which the set-up
-- raised, and one more while it has not exited.
pub wrapper-HasFew :
    (consumer : Consumer) (restart : Bool) (sessions : List Session) (t : ConsumerState)
    → t.opened ≡ 0
    → t.closed ≡ 0
    → HasFew (unprepared sessions) (wrapper consumer restart sessions t)
wrapper-HasFew consumer restart sessions t o c =
    let (l, h) = wrapper-Opens consumer restart sessions t in (omega arith, omega arith)
