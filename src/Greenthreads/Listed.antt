-- ===== src/Greenthreads/Listed.antt =====
-- The table of named greenthreads against the greenthreads that run.
use flow_first.Base.{
  ℕ, suc, ◌<◌, String, Bool, true, false, not, some, List, [], ◌∷◌, ◌==◌, eqb, ◌≡◌, refl, sym, ap,
  ◌∙◌, ◌≢◌, inl, inr, arith, eq_iff, Bool-cases, Member, here, later, keep-Member, Member-keep,
}
use flow_first.Base.Dict.{get, get_or, put, pop, get-put, get-pop}
use flow_first.Greenthreads.Pool.{
  Thread, Pool, no_threads, has_handle, without, find, spawn, leave, crash,
}

eqb_refl : (n : ℕ) → eqb n n ≡ true
eqb_refl n = ground arith

eqb-eq : (m n : ℕ) → eqb m n ≡ true → m ≡ n
eqb-eq m n h = ground arith

pub find-Member :
    (h : ℕ) (ts : List Thread) (t : Thread) → find h ts ≡ some t → Member t ts × (t.handle ≡ h)
find-Member h [] t e = absurd (ground arith)
find-Member h (x ∷ ts) t e = elim (Bool-cases (has_handle h x)) [
  | inl found ↦ (here (ground arith), ground arith)
  | inr other ↦ let (m, f) = find-Member h ts t (ground arith) in (later m, f)
]

pub Member-without :
    (h : ℕ) (ts : List Thread) (t : Thread) → Member t (without h ts) → Member t ts × (t.handle ≢ h)
Member-without h ts t m =
    let (n, e) = Member-keep (λ x. not (has_handle h x)) t ts m in (n, λ same. ground arith)

without-Member :
    (h : ℕ) (ts : List Thread) (t : Thread) → Member t ts → t.handle ≢ h → Member t (without h ts)
without-Member h ts t m ne = keep-Member (λ x. not (has_handle h x)) t ts m (ground arith)

-- the entry of a running greenthread
abbrev pub Runs : Pool → String → ℕ → Type 0
Runs pool name h = (t : Thread) × Member t pool.running × (t.handle ≡ h) × (t.name ≡ name)

-- Every handle belongs to one greenthread, and every name that is listed is that of a running one.
pub record IsListed (pool : Pool) : Type 0 where
  pub fresh : (t : Thread) → Member t pool.running → t.handle < pool.spawned
  pub unique :
      (t u : Thread) → Member t pool.running → Member u pool.running → t.handle ≡ u.handle → t ≡ u
  pub listed : (name : String) (h : ℕ) → get pool.greenthreads name ≡ some h → Runs pool name h

pub no_threads-IsListed : IsListed no_threads
unfolding no_threads get
no_threads-IsListed = record {
  fresh = λ t m. elim m [ ];
  unique = λ t u m n e. elim m [ ];
  listed = λ name h e. absurd (ground arith);
}

-- One greenthread and its name are taken away.
module _ (pool : Pool) (inv : IsListed pool) (t : Thread) (m : Member t pool.running) where
  other_handle : (u : Thread) → Member u pool.running → u.name ≢ t.name → u.handle ≢ t.handle
  other_handle u n ne e = ne (ap (λ (x : Thread). x.name) (inv.unique u t n m e))

  get-pop_other :
      (name : String) (h : ℕ)
      → get (pop pool.greenthreads t.name) name ≡ some h
      → (name ≢ t.name) × (get pool.greenthreads name ≡ some h)
  get-pop_other name h e = elim (Bool-cases (t.name == name)) [
    | inl same ↦ absurd (ground (arith, get-pop pool.greenthreads t.name name))
    | inr other ↦ (
      λ same. absurd (ground (arith, eq_iff t.name name)),
      ground (arith, get-pop pool.greenthreads t.name name),
    )
  ]

  pub leave-IsListed : IsListed (leave t pool)
  unfolding leave
  leave-IsListed = record {
    fresh = λ u n. inv.fresh u (Member-without t.handle pool.running u n).0;
    unique = λ u v n o e.
        inv.unique u v (Member-without t.handle pool.running u n).0
          (Member-without t.handle pool.running v o).0 e;
    listed = λ name h e. still name h (get-pop_other name h e);
  }
    where
      still :
          (name : String) (h : ℕ)
          → (name ≢ t.name) × (get pool.greenthreads name ≡ some h)
          → Runs (leave t pool) name h
      still name h e =
          let (u, n, eh, en) = inv.listed name h e.1 in
          (
            u,
            without-Member t.handle pool.running u n
                (other_handle u n (λ same. e.0 (sym en ∙ same))),
            eh,
            en,
          )

  pub pop-IsListed : IsListed (record pool { greenthreads = pop pool.greenthreads t.name })
  pop-IsListed = record {
    fresh = inv.fresh;
    unique = inv.unique;
    listed = λ name h e. inv.listed name h (get-pop_other name h e).1;
  }

pub crash-IsListed :
    (pool : Pool) (inv : IsListed pool) (t : Thread)
    → Member t pool.running
    → IsListed (crash t pool)
unfolding crash
crash-IsListed pool inv t m = elim (Bool-cases (get_or pool.restart_policy t.name false)) [
  | inl again ↦ rw again inv
  | inr over ↦ rw over (leave-IsListed pool inv t m)
]

pub spawn-IsListed :
    (name : String) (b : Bool) (pool : Pool) → IsListed pool → IsListed (spawn name b pool)
unfolding spawn
spawn-IsListed name b pool inv = record {
  fresh = fresh_again;
  unique = unique_again;
  listed = listed_again;
}
  where
    new : Thread
    new = record { handle = pool.spawned; name = name }

    fresh_again :
        (t : Thread)
        → Member t (record { handle = pool.spawned; name = name } ∷ pool.running)
        → t.handle < suc pool.spawned
    fresh_again t (here e) = rw e (omega arith)
    fresh_again t (later m) = omega (arith, inv.fresh t m)

    unique_again :
        (t u : Thread)
        → Member t (record { handle = pool.spawned; name = name } ∷ pool.running)
        → Member u (record { handle = pool.spawned; name = name } ∷ pool.running)
        → t.handle ≡ u.handle
        → t ≡ u
    unique_again t u (here e) (here f) h = e ∙ sym f
    unique_again t u (here e) (later n) h =
        absurd (omega (arith, inv.fresh u n, ap (λ (x : Thread). x.handle) e, h))
    unique_again t u (later m) (here f) h =
        absurd (omega (arith, inv.fresh t m, ap (λ (x : Thread). x.handle) f, h))
    unique_again t u (later m) (later n) h = inv.unique t u m n h

    listed_again :
        (j : String) (h : ℕ)
        → get (put pool.greenthreads name pool.spawned) j ≡ some h
        → Runs (spawn name b pool) j h
    listed_again j h e = elim (Bool-cases (name == j)) [
      | inl same ↦ (
        record { handle = pool.spawned; name = name },
        here refl,
        ground (arith, get-put pool.greenthreads name j pool.spawned),
        (eq_iff name j).0 same,
      )
      | inr other ↦
          let (t, m, eh, en) =
            inv.listed j h (ground (arith, get-put pool.greenthreads name j pool.spawned)) in
          (t, later m, eh, en)
    ]
