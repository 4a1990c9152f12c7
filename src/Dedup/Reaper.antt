-- ===== src/Dedup/Reaper.antt =====
-- `_gt_dedup_reaper` of src/application/process4.py. The age of a znode, now_ms - stat.ctime, is an
-- argument; what arrives while the loop sleeps is a list of signals.
use flow_first.Base.{
  ℕ, zero, suc, ◌+◌, String, Bool, true, List, [], ◌∷◌, ◌==◌, keep, not, if◌then◌else◌,
}
use flow_first.Base.Int.{ℤ, ltb_ℤ}
use flow_first.Base.Dict.{get_or, put}
use flow_first.Base.Result.{Result, ok, raise, zookeeper_error}
use flow_first.World.{World, Action, call}
use flow_first.Greenthreads.Periodic.{Signal, StopEvent, is_stopping, handle_signals}

-- a request that changes nothing
abbrev pub ask : Action (Unit {0})
ask = call zookeeper_error (λ w. w)

abbrev pub delete : String → Action (Unit {0})
delete child =
    call zookeeper_error (λ w. record w { dedup = keep (λ other. not (other == child)) w.dedup })

abbrev pub count_deleted : Result (Unit {0}) × World → ℕ → ℕ × World
count_deleted (ok u, w) reaped = (suc reaped, w)
count_deleted (raise e, w) reaped = (reaped, w)

-- if reaped: metrics_counter["dedup_reaped"] += reaped
abbrev pub count_reaped : ℕ × World → World
count_reaped (zero, w) = w
count_reaped (suc n, w) = record w {
  counters = put w.counters "dedup_reaped" (get_or w.counters "dedup_reaped" 0 + suc n);
}

module _ (age_ms : String → ℤ) (ttl_ms : ℤ) where
  abbrev pub is_expired : String → Bool
  is_expired child = ltb_ℤ ttl_ms (age_ms child)

  abbrev pub after_get : Result (Unit {0}) × World → String → ℕ → ℕ × World
  after_get (raise e, w) child reaped = (reaped, w)
  after_get (ok u, w) child reaped =
      if is_expired child then count_deleted (delete child w) reaped else (reaped, w)

  -- one child: an exception of get or delete passes
  abbrev pub reap_child : String → ℕ × World → ℕ × World
  reap_child child (reaped, w) = after_get (ask w) child reaped

  unfoldable pub reap_children : List String → ℕ × World → ℕ × World
  unfolding keep
  reap_children [] s = s
  reap_children (child ∷ children) s = reap_children children (reap_child child s)

  abbrev pub after_children : Result (Unit {0}) × World → World
  after_children (raise e, w) = w
  after_children (ok u, w) = count_reaped (reap_children w.dedup (0, w))

  -- one round: an exception of get_children is logged
  unfoldable pub reap : World → World
  unfolding reap_children put
  reap w = after_children (ask w)

  -- while not gt.is_stopping(): sleep, then a round; whether the loop has ended after the sleeps
  unfoldable pub dedup_reaper : List (List Signal) → StopEvent → World → Bool × World
  unfolding reap is_stopping handle_signals
  dedup_reaper [] stop w = (is_stopping stop, w)
  dedup_reaper (signals ∷ sleeps) stop w =
      let next = dedup_reaper sleeps (handle_signals signals stop) (reap w) in
      if is_stopping stop then (true, w) else next
