-- ===== src/Greenthreads/Stopped.antt =====
-- A consumer greenthread of src/application/process2.py to process5.py that is started after a signal.
use flow_first.Base.{
  String, ℕ, suc, ◌||◌, Bool, true, false, some, List, [], ◌∷◌, ◌≡◌, refl, ap, ◌∙◌, any,
}
use flow_first.Base.Result.{Result, ok, raise, ◌>>=◌}
use flow_first.Greenthreads.Periodic.{is_stopping, handle_signals, handle_signals-some}
use flow_first.Greenthreads.Connect.{get_rmq_connection_with_retry}
use flow_first.Greenthreads.Consumer.{
  Consumer, Round, Session, ConsumerState, Progress, consume_rounds, finally_close, prepare,
  prepared, connected, connection, gt_consume, after_run, wrapper,
}

abbrev is_ok {ℓ} : {A : Type ℓ} → Result A → Bool
is_ok (ok a) = true
is_ok (raise e) = false

-- The session connects, its set-up returns, and so does close.
unfoldable pub is_usable : Session → Bool
unfolding get_rmq_connection_with_retry
is_usable session = is_ok (connection session >>= λ _. prepare session >>= λ _. session.close)

-- The run has ended, by an exception unless the test holds; it has handled nothing.
abbrev EndsBy : Bool → ConsumerState → Progress × ConsumerState → Type 0
EndsBy usable t (p, u) =
    (r : Result (Unit {0})) × (p ≡ Progress.ended r)
    × (is_ok r ≡ usable)
    × (u.stop_event ≡ t.stop_event)
    × (u.world ≡ t.world)

-- whether the greenthread has exited; its world is as it was
abbrev pub Exits : Bool → ConsumerState → Bool × ConsumerState → Type 0
Exits exited t (b, u) = (b ≡ exited) × (u.world ≡ t.world)

module _ (consumer : Consumer) (s : String) where
  pub rounds-stopped :
      (rounds : List Round) (t : ConsumerState)
      → t.stop_event ≡ some s
      → consume_rounds consumer rounds t ≡ (Progress.ended (ok tt), t)
  unfolding consume_rounds is_stopping
  rounds-stopped [] t e = rw e refl
  rounds-stopped (round ∷ rounds) t e = rw e refl

  prepared-stopped :
      (r : Result (Unit {0})) (session : Session) (t : ConsumerState)
      → t.stop_event ≡ some s
      → EndsBy (is_ok (r >>= λ _. session.close)) t (prepared r consumer session t)
  prepared-stopped (raise x) session t e = (raise x, refl, refl, refl, refl)
  prepared-stopped (ok u) session t e =
      rw (rounds-stopped session.rounds t e) (closes session.close)
    where
      closes :
          (close : Result (Unit {0}))
          → EndsBy (is_ok close) t (finally_close close (Progress.ended (ok tt), t))
      closes (ok u) = (ok tt, refl, refl, refl, refl)
      closes (raise x) = (raise x, refl, refl, refl, refl)

  connected-stopped :
      (r : Result ℕ) (session : Session) (t : ConsumerState)
      → t.stop_event ≡ some s
      → EndsBy
          (is_ok (r >>= λ _. prepare session >>= λ _. session.close))
          t
          (connected r consumer session t)
  connected-stopped (raise x) session t e = (raise x, refl, refl, refl, refl)
  connected-stopped (ok n) session t e =
      prepared-stopped (prepare session) session (record t { opened = suc t.opened }) e

  run-stopped :
      (session : Session) (t : ConsumerState)
      → t.stop_event ≡ some s
      → EndsBy (is_usable session) t (gt_consume consumer session t)
  unfolding gt_consume is_usable
  run-stopped session t e =
      rw (e, handle_signals-some session.before s)
        (connected-stopped (connection session) session (record t { stop_event = some s }) refl)

  after_run-stopped :
      (session : Session) (t u : ConsumerState) (p : Progress) (more : Bool)
      (again : ConsumerState → Bool × ConsumerState)
      → t.stop_event ≡ some s
      → EndsBy (is_usable session) t (p, u)
      → ((v : ConsumerState) → v.stop_event ≡ some s → Exits more v (again v))
      → Exits (is_usable session || more) t (after_run (p, u) true session again)
  after_run-stopped session t u p more again e (ok x, ended, usable, es, ew) rest =
      rw (ended, ← usable) (refl, ew)
  after_run-stopped session t u p more again e (raise x, ended, usable, es, ew) rest =
      let (b, w) =
        rest (record u { stop_event = handle_signals session.pause u.stop_event })
          (ap (handle_signals session.pause) (es ∙ e) ∙ handle_signals-some session.pause s) in
      rw (ended, ← usable) (b, w ∙ ew)

-- A consumer that is restarted on errors and that is started after a signal.
pub wrapper-stopped :
    (consumer : Consumer) (sent : String) (sessions : List Session) (t : ConsumerState)
    → t.stop_event ≡ some sent
    → Exits (any is_usable sessions) t (wrapper consumer true sessions t)
unfolding wrapper any
wrapper-stopped consumer sent [] t e = (refl, refl)
wrapper-stopped consumer sent (session ∷ sessions) t e =
    after_run-stopped consumer sent session t (gt_consume consumer session t).1
      (gt_consume consumer session t).0 (any is_usable sessions) (wrapper consumer true sessions) e
      (run-stopped consumer sent session t e) (wrapper-stopped consumer sent sessions)
