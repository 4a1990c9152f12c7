-- ===== src/Migration/Dry.antt =====
-- What scripts/migrate_queue_type.py leaves alone with --dry-run, or while a queue has a consumer.
use flow_first.Base.{
  ℕ, ◌+◌, String, Bool, true, false, not, ◌&&◌, ◌||◌, Option, none, some, List, [], ◌∷◌, ◌++◌, ◌≡◌,
  ◌⊎◌, inl, inr, refl, sym, subst, ap, ◌∙◌, arith, if◌then◌else◌,
}
use flow_first.Base.Dict.{get}
use flow_first.Queues.{all_queues, queue_dead_letters}
use flow_first.Migration.{
  Kind, Queue, Queues, Broker, Ended, Script, give, ◌>>=◌, Declared, create, declare, counts,
  exists,
}
use flow_first.Migration.Script.{
  temp_of, fit, peek_present, peek, waiting_count, migrate_found, migrate_one, consumed, busy,
  migrate_all, unless_busy, main,
}
use flow_first.Migration.Hoare.{Runs, serve-Runs, bind-Runs}

abbrev Same : Queues → Queues → Type 0
Same p q = q ≡ p

transitive : (p q r : Queues) → Same p q → Same q r → Same p r
transitive p q r h h' = h' ∙ h

-- the queues are as they were, and the loops did not run out of fuel
abbrev Idle : {A : Type 0} → (A → Type 0) → Broker → Ended A × Broker → Type 0
Idle Post b r = Runs Same (λ a _. Post a) b r

abbrev Nothing : {A : Type 0} → A → Type 0
Nothing a = Unit {0}

bind-Idle :
    {A B : Type 0} (First : A → Type 0) (Post : B → Type 0) (m : Script A) (rest : A → Script B)
    (b : Broker)
    → Idle First b (m b)
    → ((a : A) (c : Broker) → Same b.queues c.queues → First a → Idle Post c (rest a c))
    → Idle Post b ((m >>= rest) b)
bind-Idle First Post m rest b first next =
    bind-Runs Same (λ p. refl) transitive (λ a _. First a) (λ a _. Post a) m rest b first next

give-Idle : {A : Type 0} (a : A) (b : Broker) → Idle Nothing b (give a b)
give-Idle a b = (refl, tt)

module _ (name : String) where
  exists-Idle : (b : Broker) → Idle (λ found. counts (get b.queues name) ≡ found) b (exists name b)
  unfolding exists
  exists-Idle b =
      serve-Runs Same (λ p. refl) transitive (λ found _. counts (get b.queues name) ≡ found) _ b
        refl (λ a q done. ground (arith, done.0))

  create-present :
      (target : Kind) (o : Option Queue) (n : ℕ × ℕ) (p : Queues)
      → counts o ≡ some n
      → create target name o p ≡ p
  create-present target none n p h = ground arith
  create-present target (some q) n p h = refl

  declare-Idle :
      (target : Kind) (n : ℕ × ℕ) (b : Broker)
      → counts (get b.queues name) ≡ some n
      → Idle Nothing b (declare name target b)
  unfolding declare
  declare-Idle target n b present =
      serve-Runs Same (λ p. refl) transitive (λ _ _. Unit {0}) _ b
        (create-present target (get b.queues name) n b.queues present) (λ a q done. tt)

  present-Idle :
      (target : Kind) (found : Option (ℕ × ℕ)) (c : Broker)
      → counts (get c.queues name) ≡ found
      → Idle Nothing c (peek_present name target found c)
  present-Idle target none c e = give-Idle (Declared.fits 0 0) c
  present-Idle target (some n) c e =
      bind-Idle Nothing Nothing (declare name target) (λ d. give (fit d)) c
        (declare-Idle target n c e) (λ d e rel h. give-Idle (fit d) e)

  peek-Idle : (target : Kind) (b : Broker) → Idle Nothing b (peek name target b)
  unfolding peek
  peek-Idle target b =
      bind-Idle (λ found. counts (get b.queues name) ≡ found) Nothing (exists name)
        (peek_present name target) b (exists-Idle b)
        (λ found c rel e. present-Idle target found c (ap (λ p. counts (get p name)) rel ∙ e))

  found-Idle :
      (fuel : ℕ) (target : Kind) (state : Declared) (left : Option (ℕ × ℕ)) (c : Broker)
      → Idle Nothing c (migrate_found fuel name target true state left c)
  found-Idle fuel target (Declared.fits messages consumers) none c = give-Idle {A = ℕ} 0 c
  found-Idle fuel target (Declared.fits messages consumers) (some n) c =
      bind-Idle (λ found. counts (get c.queues name) ≡ found) Nothing (exists name)
        (λ old. give (waiting_count old)) c (exists-Idle c)
        (λ old d rel e. give-Idle (waiting_count old) d)
  found-Idle fuel target Declared.mismatch left c =
      bind-Idle (λ found. counts (get c.queues name) ≡ found) Nothing (exists name)
        (λ old. give (waiting_count old)) c (exists-Idle c)
        (λ old d rel e. give-Idle (waiting_count old) d)

one-Idle :
    (fuel : ℕ) (name : String) (target : Kind) (b : Broker)
    → Idle Nothing b (migrate_one fuel name target true b)
unfolding migrate_one
one-Idle fuel name target b =
    bind-Idle Nothing Nothing (peek name target)
      (λ state. exists (temp_of name) >>= migrate_found fuel name target true state) b
      (peek-Idle name target b)
      (λ state c rel h.
        bind-Idle (λ found. counts (get c.queues (temp_of name)) ≡ found) Nothing
          (exists (temp_of name)) (migrate_found fuel name target true state) c
          (exists-Idle (temp_of name) c)
          (λ left d rel' e. found-Idle name fuel target state left d))

all-Idle :
    (fuel : ℕ) (names : List String) (target : Kind) (b : Broker)
    → Idle Nothing b (migrate_all fuel names target true b)
unfolding migrate_all
all-Idle fuel [] target b = give-Idle {A = ℕ} 0 b
all-Idle fuel (name ∷ names) target b =
    bind-Idle Nothing Nothing (migrate_one fuel name target true) _ b (one-Idle fuel name target b)
      (λ n c rel h.
        bind-Idle Nothing Nothing (migrate_all fuel names target true) _ c
          (all-Idle fuel names target c) (λ rest d rel' h'. give-Idle {A = ℕ} (n + rest) d))

-- whether some queue of the list has a consumer
abbrev pub consumers_in : List String → Queues → Bool
consumers_in [] p = false
consumers_in (name ∷ names) p = consumed (counts (get p name)) || consumers_in names p

busy-Idle :
    (names : List String) (b : Broker)
    → Idle (λ is_busy. consumers_in names b.queues ≡ is_busy) b (busy names b)
unfolding busy
busy-Idle [] b = (refl, refl)
busy-Idle (name ∷ names) b =
    bind-Idle (λ found. counts (get b.queues name) ≡ found)
      (λ is_busy. consumers_in (name ∷ names) b.queues ≡ is_busy) (exists name) _ b
      (exists-Idle name b)
      (λ found c rel e.
        bind-Idle (λ is_busy. consumers_in names c.queues ≡ is_busy)
          (λ is_busy. consumers_in (name ∷ names) b.queues ≡ is_busy) (busy names) _ c
          (busy-Idle names c)
          (λ rest d rel' h. (
            refl,
            ap (λ o. consumed o || consumers_in names b.queues) e
                ∙ ap (λ p. consumed found || consumers_in names p) (sym rel)
                ∙ ap (λ x. consumed found || x) h,
          )))

-- the status with which the script ends
abbrev pub status_of : Bool → Bool → ℕ
status_of is_busy force = if is_busy && not force then 1 else 0

-- nothing is to be changed
abbrev pub IsHarmless : Bool → Bool → Bool → Type 0
IsHarmless dry_run force is_busy = (dry_run ≡ true) ⊎ ((is_busy ≡ true) × (force ≡ false))

-- the status of the script
abbrev pub Reports : ℕ → ℕ × ℕ → Type 0
Reports status (s, total) = s ≡ status

module _ (fuel : ℕ) (names : List String) (target : Kind) (dry_run : Bool) where
  guarded-Idle :
      (refuses : Bool) (c : Broker)
      → (dry_run ≡ true) ⊎ (refuses ≡ true)
      → Idle (Reports (if refuses then 1 else 0)) c (
          (if refuses
              then give (1, 0)
              else migrate_all fuel names target dry_run >>= λ total. give (0, total))
            c)
  guarded-Idle true c h = (refl, refl)
  guarded-Idle false c (inr h) = ground arith
  guarded-Idle false c (inl dry) =
      bind-Idle Nothing (Reports 0) (migrate_all fuel names target dry_run)
        (λ total. give (0, total)) c
        (subst (λ d. Idle Nothing c (migrate_all fuel names target d c)) (sym dry)
          (all-Idle fuel names target c))
        (λ total d rel h. (refl, refl))

  refuses-harmless :
      (force is_busy : Bool)
      → IsHarmless dry_run force is_busy
      → (dry_run ≡ true) ⊎ ((is_busy && not force) ≡ true)
  refuses-harmless force is_busy (inl h) = inl h
  refuses-harmless force is_busy (inr (h, h')) = inr (rw (h, h') refl)

  names-Idle :
      (force : Bool) (b : Broker)
      → IsHarmless dry_run force (consumers_in names b.queues)
      → Idle
          (Reports (status_of (consumers_in names b.queues) force))
          b
          ((busy names >>= unless_busy fuel names target dry_run force) b)
  names-Idle force b harmless =
      bind-Idle (λ is_busy. consumers_in names b.queues ≡ is_busy)
        (Reports (status_of (consumers_in names b.queues) force)) (busy names)
        (unless_busy fuel names target dry_run force) b (busy-Idle names b)
        (λ is_busy c rel e.
          subst
            (λ x.
              Idle (Reports (status_of x force)) c
                (unless_busy fuel names target dry_run force is_busy c))
            (sym e)
            (guarded-Idle (is_busy && not force) c
              (refuses-harmless force is_busy (subst (IsHarmless dry_run force) e harmless))))

-- With --dry-run, and without --force as long as a pipeline queue or the dead-letter queue has a consumer,
-- the script changes no queue, whatever its requests are answered, and it always ends. If it ends with no
-- exception, its status is 1 if a queue had a consumer and --force was not given, and 0 otherwise.
pub main-Same :
    (fuel : ℕ) (target : Kind) (dry_run force : Bool) (b : Broker)
    → IsHarmless dry_run force (consumers_in (all_queues ++ queue_dead_letters ∷ []) b.queues)
    → Runs
        (λ p q. q ≡ p)
        (λ r _.
          r.0 ≡ status_of (consumers_in (all_queues ++ queue_dead_letters ∷ []) b.queues) force)
        b
        (main fuel target dry_run force b)
unfolding main
main-Same fuel target dry_run force b harmless =
    names-Idle fuel (all_queues ++ queue_dead_letters ∷ []) target dry_run force b harmless
