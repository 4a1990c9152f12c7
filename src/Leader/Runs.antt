-- ===== src/Leader/Runs.antt =====
-- How often a process of src/application consumes, and as what.
use flow_first.Base.{
  String, Bool, true, false, Option, none, some, List, [], ◌∷◌, ◌++◌, ◌≡◌, refl, subst, ap, ◌∙◌,
  ◌⊎◌, inl, inr,
}
use flow_first.Base.Dict.{get}
use flow_first.Base.Result.{Result, ok, raise}
use flow_first.Leader.{
  Run, Cluster, Step, after, ◌>>◌, rescued, try_except, re_raised, finally, request_with, request,
  ask, znode, write_health, update_health, create_or_set, register_service, wrap, run, ran, consume,
  main_with,
}

-- A step that does not consume.
abbrev pub Silent : Step → Type 0
Silent m = (c : Cluster) → (m c).1.runs ≡ c.runs

-- and that leaves the flag of the leader
abbrev pub Calm : Step → Type 0
Calm m = (c : Cluster) → ((m c).1.runs ≡ c.runs) × ((m c).1.is_leader ≡ c.is_leader)

request-Calm :
    (effect : Cluster → Cluster)
    → ((c : Cluster) → ((effect c).runs ≡ c.runs) × ((effect c).is_leader ≡ c.is_leader))
    → Calm (request effect)
request-Calm effect h c = by_faults c.faults
  where
    by_faults :
        (fs : List Bool)
        → ((request_with fs effect c).1.runs ≡ c.runs)
          × ((request_with fs effect c).1.is_leader ≡ c.is_leader)
    by_faults [] = h c
    by_faults (true ∷ fs) = (refl, refl)
    by_faults (false ∷ fs) = h (record c { faults = fs })

pub then-Calm : (m rest : Step) → Calm m → Calm rest → Calm (m >> rest)
then-Calm m rest h k c = by_result (m c) (h c)
  where
    by_result :
        (r : Result (Unit {0}) × Cluster)
        → (r.1.runs ≡ c.runs) × (r.1.is_leader ≡ c.is_leader)
        → ((after r rest).1.runs ≡ c.runs) × ((after r rest).1.is_leader ≡ c.is_leader)
    by_result (ok t, d) (e, l) = ((k d).0 ∙ e, (k d).1 ∙ l)
    by_result (raise x, d) (e, l) = (e, l)

abbrev IsRaise : Result (Unit {0}) → Type 0
IsRaise (ok t) = ⊥
IsRaise (raise e) = Unit {0}

pub ask-Calm : Calm ask
ask-Calm = request-Calm (λ c. c) (λ c. (refl, refl))

-- As the leader, alone, or first as the leader and then alone; the flag of the leader is down again after the
-- process was the leader.
abbrev pub Consumes : List Run → Result (Unit {0}) × Cluster → Type 0
Consumes before (r, d) =
    ((r ≡ ok tt) × (d.runs ≡ before ++ Run.elected ∷ []) × (d.is_leader ≡ false))
    ⊎ (d.runs ≡ before ++ Run.alone ∷ [])
    ⊎ ((d.runs ≡ (before ++ Run.elected ∷ []) ++ Run.alone ∷ []) × (d.is_leader ≡ false))

module _ (process node : String) where
  write_health-Calm :
      (state : String) (old : Option String) → Calm (write_health process node state old)
  write_health-Calm state none = request-Calm _ (λ c. (refl, refl))
  write_health-Calm state (some old) = request-Calm _ (λ c. (refl, refl))

  update_health-Calm : (state : String) → Calm (update_health process node state)
  unfolding update_health
  update_health-Calm state =
      then-Calm (ask >> ask >> ask)
        (λ c. write_health process node state (get c.health (znode process node)) c)
        (then-Calm (ask >> ask) ask (then-Calm ask ask ask-Calm ask-Calm) ask-Calm)
        (λ c. write_health-Calm state (get c.health (znode process node)) c)

  create_or_set-Calm : (old : Option String) → Calm (create_or_set process node old)
  create_or_set-Calm none = request-Calm _ (λ c. (refl, refl))
  create_or_set-Calm (some old) = then-Calm ask _ ask-Calm (request-Calm _ (λ c. (refl, refl)))

  pub register_service-Calm : Calm (register_service process node)
  unfolding register_service
  register_service-Calm =
      then-Calm (ask >> ask)
        (λ c. create_or_set process node (get c.registry (znode process node)) c)
        (then-Calm ask ask ask-Calm ask-Calm)
        (λ c. create_or_set-Calm (get c.registry (znode process node)) c)

  -- It raised before it consumed, or it consumed as the leader and gave the lead up.
  abbrev Elects : Cluster → Result (Unit {0}) × Cluster → Type 0
  Elects c (r, d) =
      (IsRaise r × (d.runs ≡ c.runs))
      ⊎ ((d.runs ≡ c.runs ++ Run.elected ∷ []) × (d.is_leader ≡ false))

  moved_to :
      (c d : Cluster) (r : Result (Unit {0}) × Cluster) → d.runs ≡ c.runs → Elects d r → Elects c r
  moved_to c d (r, f) e (inl (raised, same)) = inl (raised, same ∙ e)
  moved_to c d (r, f) e (inr (led, down)) = inr (led ∙ ap (λ rs. rs ++ Run.elected ∷ []) e, down)

  before-Elects :
      (m rest : Step) (c : Cluster)
      → Calm m
      → ((d : Cluster) → Elects d (rest d))
      → Elects c ((m >> rest) c)
  before-Elects m rest c h k = by_result (m c) (h c)
    where
      by_result :
          (r : Result (Unit {0}) × Cluster)
          → (r.1.runs ≡ c.runs) × (r.1.is_leader ≡ c.is_leader)
          → Elects c (after r rest)
      by_result (ok t, d) (e, l) = moved_to c d (rest d) e (k d)
      by_result (raise x, d) (e, l) = inl (tt, e)

  -- giving the lead up, after a run
  abbrev step_down : Step
  step_down =
      (λ c. (ok tt, record c { is_leader = false })) >> update_health process node "follower"

  stepped_down :
      (how : Result (Unit {0})) (c d : Cluster)
      → d.runs ≡ c.runs ++ Run.elected ∷ []
      → Elects c (re_raised how (step_down d))
  stepped_down how c d e =
      by_result (step_down d) (update_health-Calm "follower" (record d { is_leader = false }))
    where
      by_result :
          (r : Result (Unit {0}) × Cluster)
          → (r.1.runs ≡ d.runs) × (r.1.is_leader ≡ false)
          → Elects c (re_raised how r)
      by_result (ok t, f) (same, down) = inr (same ∙ e, down)
      by_result (raise x, f) (same, down) = inr (same ∙ e, down)

  pub consumed_runs :
      (fs : List Bool) (how : Run) (c : Cluster)
      → (ran process node fs how c).1.runs ≡ c.runs ++ how ∷ []
  consumed_runs [] how c = refl
  consumed_runs (true ∷ fs) how c = refl
  consumed_runs (false ∷ fs) how c = refl

  leading-Elects : (c : Cluster) → Elects c (finally (consume process node Run.elected) step_down c)
  leading-Elects c =
      stepped_down (ran process node c.failures Run.elected c).0 c
        (ran process node c.failures Run.elected c).1 (consumed_runs c.failures Run.elected c)

  wrap-Elects : (c : Cluster) → Elects c (wrap process node (consume process node Run.elected) c)
  unfolding wrap
  wrap-Elects c =
      moved_to c (record c { is_leader = true })
        ((update_health process node "leader"
            >> finally (consume process node Run.elected) step_down)
          (record c { is_leader = true }))
        refl
        (before-Elects (update_health process node "leader")
          (finally (consume process node Run.elected) step_down) (record c { is_leader = true })
          (update_health-Calm "leader") leading-Elects)

  -- giving the lock back
  released : (c : Cluster) (r : Result (Unit {0}) × Cluster) → Elects c r → Elects c (after r ask)
  released c (raise x, d) h = h
  released c (ok t, d) (inl (raised, same)) = absurd raised
  released c (ok t, d) (inr (led, down)) = inr ((ask-Calm d).0 ∙ led, (ask-Calm d).1 ∙ down)

  run-Elects : (c : Cluster) → Elects c (run process node (consume process node Run.elected) c)
  unfolding run
  run-Elects c =
      released c ((ask >> ask >> ask >> wrap process node (consume process node Run.elected)) c) (
        before-Elects (ask >> ask >> ask) (wrap process node (consume process node Run.elected)) c
          (then-Calm (ask >> ask) ask (then-Calm ask ask ask-Calm ask-Calm) ask-Calm) wrap-Elects)

  alone_flag :
      (fs : List Bool) (c : Cluster) → (ran process node fs Run.alone c).1.is_leader ≡ c.is_leader
  alone_flag [] c = refl
  alone_flag (true ∷ fs) c = refl
  alone_flag (false ∷ fs) c = refl

  rescued-Consumes :
      (c : Cluster) (r : Result (Unit {0}) × Cluster)
      → Elects c r
      → Consumes c.runs (rescued r (consume process node Run.alone))
  rescued-Consumes c (ok t, d) (inl (raised, same)) = absurd raised
  rescued-Consumes c (ok t, d) (inr (led, down)) = inl (refl, led, down)
  rescued-Consumes c (raise x, d) (inl (raised, same)) =
      inr (inl (consumed_runs d.failures Run.alone d ∙ ap (λ rs. rs ++ Run.alone ∷ []) same))
  rescued-Consumes c (raise x, d) (inr (led, down)) = inr (
      inr (
        consumed_runs d.failures Run.alone d ∙ ap (λ rs. rs ++ Run.alone ∷ []) led,
        alone_flag d.failures d ∙ down,
      ))

  registered :
      (c : Cluster) (r : Result (Unit {0}) × Cluster)
      → r.1.runs ≡ c.runs
      → ((d : Cluster)
          → d.runs ≡ c.runs
          → Consumes c.runs (
              rescued
                (run process node (consume process node Run.elected) d)
                (consume process node Run.alone)))
      → Consumes c.runs (
          after (rescued r (λ d. (ok tt, d))) (
            try_except
              (run process node (consume process node Run.elected))
              (consume process node Run.alone)))
  registered c (ok t, d) e k = k d e
  registered c (raise x, d) e k = k d e

pub main_with-Consumes :
    (process node : String) (setup : Step) (c : Cluster)
    → Silent setup
    → Consumes c.runs (main_with process node setup c)
unfolding main_with
main_with-Consumes process node setup c silent =
    registered process node c (setup c) (silent c) (λ d e.
      subst
        (λ rs. Consumes rs (
          rescued (run process node (consume process node Run.elected) d)
            (consume process node Run.alone)))
        e
        (rescued-Consumes process node d (run process node (consume process node Run.elected) d)
          (run-Elects process node d)))
