-- ===== src/Leader/Reporter.antt =====
-- _gt_zk_health_reporter of src/application/process2.py to process5.py: the loop that writes the znode of the
-- worker's health every 30 s. What arrives while it sleeps is a list of signals.
use flow_first.Base.{String, Bool, true, false, none, List, [], ◌∷◌, ◌≡◌, refl, any, if◌then◌else◌}
use flow_first.Base.Result.{ok}
use flow_first.Leader.{Cluster, try_except, update_health}
use flow_first.Greenthreads.Periodic.{
  Signal, StopEvent, is_stopping, handle_signals, is_signalled, is_stopping-handle_signals,
}

-- try: _update_health(...) except Exception: pass
unfoldable pub report_once : String → String → String → Cluster → Cluster
unfolding update_health
report_once process node state c =
    (try_except (update_health process node state) (λ d. (ok tt, d)) c).1

-- while not gt.is_stopping(): whether the loop has ended after the sleeps, and what it has written
unfoldable pub zk_health_reporter :
    String → String → String → List (List Signal) → StopEvent → Cluster → Bool × Cluster
unfolding report_once is_stopping handle_signals
zk_health_reporter process node state [] stop c =
    if is_stopping stop then (true, c) else (false, report_once process node state c)
zk_health_reporter process node state (signals ∷ sleeps) stop c =
    let next =
      zk_health_reporter process node state sleeps (handle_signals signals stop)
        (report_once process node state c) in
    if is_stopping stop then (true, c) else next

module _ (process node state : String) where
  stopped_reporter :
      (sleeps : List (List Signal)) (stop : StopEvent) (c : Cluster)
      → is_stopping stop ≡ true
      → zk_health_reporter process node state sleeps stop c ≡ (true, c)
  unfolding zk_health_reporter
  stopped_reporter [] stop c h = rw h refl
  stopped_reporter (signals ∷ sleeps) stop c h = rw h refl

  -- The reporter has ended exactly if a signal arrived in one of its sleeps, whatever requests fail.
  pub zk_health_reporter_lem :
      (sleeps : List (List Signal)) (c : Cluster)
      → (zk_health_reporter process node state sleeps none c).0 ≡ any is_signalled sleeps
  unfolding zk_health_reporter any is_stopping handle_signals
  zk_health_reporter_lem [] c = refl
  zk_health_reporter_lem ([] ∷ sleeps) c =
      zk_health_reporter_lem sleeps (report_once process node state c)
  zk_health_reporter_lem ((s ∷ signals) ∷ sleeps) c =
      rw
        (stopped_reporter sleeps (handle_signals (s ∷ signals) none)
          (report_once process node state c) (is_stopping-handle_signals (s ∷ signals)))
        refl
