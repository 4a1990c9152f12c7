-- ===== src/Greenthreads/Orderly.antt =====
-- Sequences of events in the table of greenthreads of src/gt/gt.py.
use flow_first.Base.{
  ℕ, String, Bool, true, false, Option, none, some, List, [], ◌∷◌, ◌==◌, eqb, ◌≡◌, sym, ap, ◌∙◌,
  inl, inr, arith, eq_iff, Bool-cases, any, contains, Member, here, later, Option-cases,
}
use flow_first.Base.Dict.{get, get_or, get-put, get-pop, contains-keys}
use flow_first.Greenthreads.Pool.{
  Thread, Pool, Event, no_threads, find, on_thread, spawn, leave, crash, kill, list_greenthreads,
  step, run_events,
}
use flow_first.Greenthreads.Listed.{
  IsListed, Runs, find-Member, Member-without, no_threads-IsListed, leave-IsListed, pop-IsListed,
  crash-IsListed, spawn-IsListed,
}

module _ (pool : Pool) (inv : IsListed pool) where
  kill-IsListed : (name : String) → IsListed (kill name pool)
  kill-IsListed name = elim (Option-cases (get pool.greenthreads name)) [
    | inl unknown ↦ unfold kill in rw unknown inv
    | inr found ↦ killed found.0 found.1 (inv.listed name found.0 found.1)
  ]
    where
      killed :
          (h : ℕ)
          → get pool.greenthreads name ≡ some h
          → Runs pool name h
          → IsListed (kill name pool)
      killed h e (t, m, eh, en) = elim (Bool-cases (any (eqb h) pool.started)) [
        | inl ran ↦
            unfold kill in rw (e, ran, ← eh, ← en) (unfold leave in leave-IsListed pool inv t m)
        | inr new ↦ unfold kill in rw (e, new, ← en) (pop-IsListed pool inv t m)
      ]

  -- The pool after an event on a greenthread that may have ended before.
  on_thread-IsListed :
      (h : ℕ) (act : Thread → Pool → Pool)
      → ((t : Thread) → Member t pool.running → IsListed (act t pool))
      → IsListed (on_thread (find h pool.running) act pool)
  on_thread-IsListed h act kept = elim (Option-cases (find h pool.running)) [
    | inl gone ↦ rw gone inv
    | inr found ↦ rw found.1 (kept found.0 (find-Member h pool.running found.0 found.1).0)
  ]

step-IsListed : (e : Event) (pool : Pool) → IsListed pool → IsListed (step e pool)
unfolding step
step-IsListed (Event.spawned name b) pool inv = spawn-IsListed name b pool inv
step-IsListed (Event.killed name) pool inv = kill-IsListed pool inv name
step-IsListed (Event.began h) pool inv = record {
  fresh = inv.fresh;
  unique = inv.unique;
  listed = inv.listed;
}
step-IsListed (Event.returned h) pool inv =
    on_thread-IsListed pool inv h leave (leave-IsListed pool inv)
step-IsListed (Event.raised h) pool inv =
    on_thread-IsListed pool inv h crash (crash-IsListed pool inv)

pub run_events-IsListed :
    (events : List Event) (pool : Pool) → IsListed pool → IsListed (run_events events pool)
unfolding run_events
run_events-IsListed [] pool inv = inv
run_events-IsListed (e ∷ events) pool inv =
    run_events-IsListed events (step e pool) (step-IsListed e pool inv)

-- whether the greenthread that a name stands for has run
abbrev pub has_run : Option ℕ → List ℕ → Bool
has_run none started = true
has_run (some h) started = any (eqb h) started

-- A name is spawned only while it is not listed, and a greenthread is killed only if it has run.
abbrev pub IsOrderly : Event → Pool → Type 0
IsOrderly (Event.spawned name b) pool = get pool.greenthreads name ≡ none
IsOrderly (Event.killed name) pool = has_run (get pool.greenthreads name) pool.started ≡ true
IsOrderly (Event.began h) pool = Unit
IsOrderly (Event.returned h) pool = Unit
IsOrderly (Event.raised h) pool = Unit

abbrev pub AreOrderly : List Event → Pool → Type 0
AreOrderly [] pool = Unit
AreOrderly (e ∷ events) pool = IsOrderly e pool × AreOrderly events (step e pool)

-- Every running greenthread is listed under its name.
abbrev Covers : Pool → Type 0
Covers pool = (t : Thread) → Member t pool.running → get pool.greenthreads t.name ≡ some t.handle

module _ (pool : Pool) (cov : Covers pool) where
  spawn-Covers :
      (name : String) (b : Bool) → get pool.greenthreads name ≡ none → Covers (spawn name b pool)
  unfolding spawn
  spawn-Covers name b free t (here e) =
      rw e (ground (arith, get-put pool.greenthreads name name pool.spawned, eq_iff name name))
  spawn-Covers name b free t (later m) =
      ground
        (arith, get-put pool.greenthreads name t.name pool.spawned, eq_iff name t.name, cov t m)

  leave-Covers : (t : Thread) → Member t pool.running → Covers (leave t pool)
  unfolding leave
  leave-Covers t m u n =
      let (o, ne) = Member-without t.handle pool.running u n in
      elim (Bool-cases (t.name == u.name)) [
        | inl same ↦ absurd (ne (ground (arith, cov t m, cov u o, eq_iff t.name u.name)))
        | inr other ↦ ground (arith, get-pop pool.greenthreads t.name u.name, cov u o)
      ]

  crash-Covers : (t : Thread) → Member t pool.running → Covers (crash t pool)
  crash-Covers t m = elim (Bool-cases (get_or pool.restart_policy t.name false)) [
    | inl again ↦ unfold crash in rw again cov
    | inr over ↦ unfold crash in rw over (leave-Covers t m)
  ]

  on_thread-Covers :
      (h : ℕ) (act : Thread → Pool → Pool)
      → ((t : Thread) → Member t pool.running → Covers (act t pool))
      → Covers (on_thread (find h pool.running) act pool)
  on_thread-Covers h act kept = elim (Option-cases (find h pool.running)) [
    | inl gone ↦ rw gone cov
    | inr found ↦ rw found.1 (kept found.0 (find-Member h pool.running found.0 found.1).0)
  ]

  kill-Covers :
      (name : String) → IsListed pool → IsOrderly (Event.killed name) pool → Covers (kill name pool)
  kill-Covers name inv ran = elim (Option-cases (get pool.greenthreads name)) [
    | inl unknown ↦ unfold kill in rw unknown cov
    | inr found ↦ killed found.0 found.1 (inv.listed name found.0 found.1)
  ]
    where
      killed :
          (h : ℕ) → get pool.greenthreads name ≡ some h → Runs pool name h → Covers (kill name pool)
      killed h e (t, m, eh, en) =
          unfold kill in
          rw (e, ap (λ o. has_run o pool.started) (sym e) ∙ ran, ← eh, ← en)
            (unfold leave in leave-Covers t m)

step-Covers :
    (e : Event) (pool : Pool)
    → IsListed pool
    → Covers pool
    → IsOrderly e pool
    → Covers (step e pool)
unfolding step
step-Covers (Event.spawned name b) pool inv cov o = spawn-Covers pool cov name b o
step-Covers (Event.killed name) pool inv cov o = kill-Covers pool cov name inv o
step-Covers (Event.began h) pool inv cov o = cov
step-Covers (Event.returned h) pool inv cov o =
    on_thread-Covers pool cov h leave (leave-Covers pool cov)
step-Covers (Event.raised h) pool inv cov o =
    on_thread-Covers pool cov h crash (crash-Covers pool cov)

run_events-Covers :
    (events : List Event) (pool : Pool)
    → IsListed pool
    → Covers pool
    → AreOrderly events pool
    → Covers (run_events events pool)
unfolding run_events
run_events-Covers [] pool inv cov o = cov
run_events-Covers (e ∷ events) pool inv cov o =
    run_events-Covers events (step e pool) (step-IsListed e pool inv)
      (step-Covers e pool inv cov o.0) o.1

-- A listed name is that of a greenthread that runs, a greenthread that runs is listed, and no two have
-- the same name.
pub record IsExact (pool : Pool) : Type 0 where
  pub listed_runs :
      (name : String)
      → contains (list_greenthreads pool) name ≡ true
      → (t : Thread) × Member t pool.running × (t.name ≡ name)
  pub running_listed :
      (t : Thread) → Member t pool.running → contains (list_greenthreads pool) t.name ≡ true
  pub one_per_name :
      (t u : Thread) → Member t pool.running → Member u pool.running → t.name ≡ u.name → t ≡ u

Covers-IsExact : (pool : Pool) → IsListed pool → Covers pool → IsExact pool
unfolding list_greenthreads
Covers-IsExact pool inv cov = record {
  listed_runs = λ name c. elim (Option-cases (get pool.greenthreads name)) [
    | inl missing ↦ absurd (ground (arith, contains-keys pool.greenthreads name))
    | inr found ↦ let (t, m, eh, en) = inv.listed name found.0 found.1 in (t, m, en)
  ];
  running_listed = λ t m. ground (arith, contains-keys pool.greenthreads t.name, cov t m);
  one_per_name = λ t u m n e. inv.unique t u m n (ground (arith, cov t m, cov u n));
}

-- After any events, spawned names, kills, returns, exceptions and restarts in any order, in which a name
-- is spawned only while it is not listed and a greenthread is killed only after it has run,
-- list_greenthreads names exactly the greenthreads that run, each name standing for one.
pub run_events-IsExact :
    (events : List Event) → AreOrderly events no_threads → IsExact (run_events events no_threads)
run_events-IsExact events o =
    Covers-IsExact _ (run_events-IsListed events no_threads no_threads-IsListed) (
      run_events-Covers events no_threads no_threads-IsListed
        (unfold no_threads in λ t m. elim m [ ]) o)
