-- ===== src/Startup/Declared.antt =====
-- queue_arguments and setup_queues of src/config/config.py. RabbitMQ refuses a declaration of a queue that is
-- there with another type (406), which setup_queues turns into RuntimeError. Any other failure is left.
use flow_first.Base.{
  String, Bool, true, false, Option, none, some, List, [], ◌∷◌, ◌++◌, ◌==◌, ◌≡◌, ◌↔◌, refl, sym,
  ◌∙◌, inl, inr, arith, eq_iff, all, contains, if◌then◌else◌, Bool-cases, Option-cases,
}
use flow_first.Base.Dict.{Dict, get, put, get-put}
use flow_first.Base.Result.{Result, ok, raise, runtime_error, raise≢ok}
use flow_first.Queues.{all_queues, queue_dead_letters, dlx_exchange}

-- the x-queue-type of a declaration: classic for a declaration without arguments
unfoldable pub queue_arguments : String → String
queue_arguments queue_type = if queue_type == "quorum" then "quorum" else "classic"

pub record Broker : Type 0 where
  pub confirms : Bool
  -- the type of each queue
  pub queues : Dict String
  pub exchanges : List String
  pub is_bound : Bool

-- a queue of the type, or none
abbrev fits : String → Option String → Bool
fits kind none = true
fits kind (some other) = other == kind

abbrev pub is_free : String → Dict String → String → Bool
is_free kind queues name = fits kind (get queues name)

abbrev declared : Option String → String → String → Dict String → Dict String
declared none name kind queues = put queues name kind
declared (some other) name kind queues = queues

-- queue_declare for each name
unfoldable pub declare_queues : String → List String → Dict String → Result (Unit {0}) × Dict String
unfolding get put
declare_queues kind [] queues = (ok tt, queues)
declare_queues kind (name ∷ names) queues =
    let next = declare_queues kind names (declared (get queues name) name kind queues) in
    if is_free kind queues name then next else (raise runtime_error, queues)

-- exchange_declare, of a fanout exchange
abbrev declare_exchange : String → List String → List String
declare_exchange name exchanges =
    if contains exchanges name then exchanges else exchanges ++ name ∷ []

abbrev bound : Bool → String → Result (Unit {0}) × Dict String → Broker → Result (Unit {0}) × Broker
bound notified notices (ok done, queues) b = (
  ok tt,
  record b {
    queues = queues;
    is_bound = true;
    exchanges = if notified then declare_exchange notices b.exchanges else b.exchanges;
  },
)
bound notified notices (raise e, queues) b = (raise e, record b { queues = queues })

abbrev with_dlx :
    String → Bool → String → Result (Unit {0}) × Dict String → Broker → Result (Unit {0}) × Broker
with_dlx kind notified notices (ok done, queues) b =
    bound notified notices (declare_queues kind (queue_dead_letters ∷ []) queues)
      (record b { exchanges = declare_exchange dlx_exchange b.exchanges })
with_dlx kind notified notices (raise e, queues) b = (raise e, record b { queues = queues })

-- setup_queues, with NOTIFICATIONS_ENABLED and the exchange of the notifications
unfoldable pub setup_queues : String → Bool → String → Broker → Result (Unit {0}) × Broker
setup_queues queue_type notified notices b =
    with_dlx (queue_arguments queue_type) notified notices
      (declare_queues (queue_arguments queue_type) all_queues b.queues)
      (record b { confirms = true })

-- The queues that are declared have the type, and the others are as they were.
abbrev pub Typed : String → List String → Dict String → Dict String → Type 0
Typed kind names before after =
    (name : String) → get after name ≡ (if contains names name then some kind else get before name)

module _ (kind : String) where
  get-declared :
      (name : String) (queues : Dict String) (j : String)
      → is_free kind queues name ≡ true
      → get (declared (get queues name) name kind queues) j
        ≡ (if name == j then some kind else get queues j)
  get-declared name queues j free = elim (Option-cases (get queues name)) [
    | inl new ↦ rw new (get-put queues name j kind)
    | inr old ↦ ground (arith, eq_iff name j, eq_iff old.0 kind, old.1)
  ]

  is_free-declared :
      (name : String) (queues : Dict String) (j : String)
      → is_free kind queues name ≡ true
      → is_free kind (declared (get queues name) name kind queues) j ≡ is_free kind queues j
  is_free-declared name queues j free =
      ground (arith, get-declared name queues j free, eq_iff name j, eq_iff kind kind)

  all-declared :
      (name : String) (queues : Dict String) (names : List String)
      → is_free kind queues name ≡ true
      → all (is_free kind (declared (get queues name) name kind queues)) names
        ≡ all (is_free kind queues) names
  unfolding all
  all-declared name queues [] free = refl
  all-declared name queues (n ∷ names) free =
      rw (is_free-declared name queues n free, all-declared name queues names free)

  -- What the declarations need, and what they leave.
  declare_queues-free :
      (names : List String) (queues : Dict String)
      → all (is_free kind queues) names ≡ true
      → ((declare_queues kind names queues).0 ≡ ok tt)
        × Typed kind names queues (declare_queues kind names queues).1
  unfolding declare_queues all contains
  declare_queues-free [] queues h = (refl, λ j. refl)
  declare_queues-free (n ∷ names) queues h =
      let free : is_free kind queues n ≡ true = ground arith in
      let rest =
        declare_queues-free names (declared (get queues n) n kind queues)
          (all-declared n queues names free ∙ ground arith) in
      rw free (rest.0, λ j. rest.1 j ∙ ground (arith, get-declared n queues j free))

  declare_queues-ok :
      (names : List String) (queues : Dict String)
      → (declare_queues kind names queues).0 ≡ ok tt
      → all (is_free kind queues) names ≡ true
  unfolding declare_queues all
  declare_queues-ok [] queues h = refl
  declare_queues-ok (n ∷ names) queues h = elim (Bool-cases (is_free kind queues n)) [
    | inl free ↦ rw free (
        sym (all-declared n queues names free)
        ∙ declare_queues-ok names (declared (get queues n) n kind queues) (ground arith))
    | inr taken ↦ absurd (ground arith)
  ]

-- all of a list, by its first and the rest
all-cons :
    (p : String → Bool) (x : String) (xs : List String)
    → (all p (x ∷ xs) ≡ true) ↔ ((p x ≡ true) × (all p xs ≡ true))
unfolding all
all-cons p x xs = (λ h. (ground arith, ground arith), λ h. ground arith)

-- the queues that setup_queues declares
abbrev pub every_queue : List String
every_queue = queue_dead_letters ∷ all_queues

-- what a set-up that succeeded has left
pub record IsSetUp (kind : String) (before : Broker) (after : Broker) : Type 0 where
  pub confirms : after.confirms ≡ true
  pub is_bound : after.is_bound ≡ true
  pub queues : Typed kind every_queue before.queues after.queues

module _ (kind : String) (notified : Bool) (notices : String) where
  -- the queues of a list, and one more that is not among them
  Typed-snoc :
      (names : List String) (last : String) (queues middle after : Dict String)
      → contains names last ≡ false
      → Typed kind names queues middle
      → Typed kind (last ∷ []) middle after
      → Typed kind (last ∷ names) queues after
  unfolding contains
  Typed-snoc names last queues middle after apart first second j = ground (arith, first j, second j)

  last_is_free :
      (names : List String) (last : String) (queues middle : Dict String)
      → contains names last ≡ false
      → Typed kind names queues middle
      → is_free kind middle last ≡ is_free kind queues last
  last_is_free names last queues middle apart typed = ground (arith, typed last)

  bound-IsSetUp :
      (b c : Broker) (r : Result (Unit {0})) (queues : Dict String)
      → r ≡ ok tt
      → c.confirms ≡ true
      → Typed kind every_queue b.queues queues
      → ((bound notified notices (r, queues) c).0 ≡ ok tt)
        × IsSetUp kind b (bound notified notices (r, queues) c).1
  bound-IsSetUp b c (ok done) queues e confirms typed =
      (refl, record { confirms = confirms; is_bound = refl; queues = typed })
  bound-IsSetUp b c (raise x) queues e confirms typed = absurd (raise≢ok x e)

  with_dlx-IsSetUp :
      (b c : Broker) (r : Result (Unit {0})) (queues : Dict String)
      → r ≡ ok tt
      → c.confirms ≡ true
      → contains all_queues queue_dead_letters ≡ false
      → is_free kind b.queues queue_dead_letters ≡ true
      → Typed kind all_queues b.queues queues
      → ((with_dlx kind notified notices (r, queues) c).0 ≡ ok tt)
        × IsSetUp kind b (with_dlx kind notified notices (r, queues) c).1
  with_dlx-IsSetUp b c (raise x) queues e confirms apart free typed = absurd (raise≢ok x e)
  with_dlx-IsSetUp b c (ok done) queues e confirms apart free typed =
      let last = declare_queues-free kind (queue_dead_letters ∷ []) queues (
        unfold all in
        ground (arith, last_is_free all_queues queue_dead_letters b.queues queues apart typed)) in
      bound-IsSetUp b _ (declare_queues kind (queue_dead_letters ∷ []) queues).0
        (declare_queues kind (queue_dead_letters ∷ []) queues).1 last.0 confirms
        (Typed-snoc all_queues queue_dead_letters b.queues queues _ apart typed last.1)

  bound-ok :
      (c : Broker) (r : Result (Unit {0})) (queues : Dict String)
      → (bound notified notices (r, queues) c).0 ≡ ok tt
      → r ≡ ok tt
  bound-ok c (ok done) queues h = refl
  bound-ok c (raise e) queues h = absurd (raise≢ok e h)

  with_dlx-ok :
      (c : Broker) (r : Result (Unit {0})) (queues : Dict String)
      → (with_dlx kind notified notices (r, queues) c).0 ≡ ok tt
      → (r ≡ ok tt) × (is_free kind queues queue_dead_letters ≡ true)
  with_dlx-ok c (raise e) queues h = absurd (raise≢ok e h)
  with_dlx-ok c (ok done) queues h =
      let last = declare_queues-ok kind (queue_dead_letters ∷ []) queues (
        bound-ok _ (declare_queues kind (queue_dead_letters ∷ []) queues).0
          (declare_queues kind (queue_dead_letters ∷ []) queues).1 h) in
      (refl, unfold all in ground arith)

no_dead_letters : contains all_queues queue_dead_letters ≡ false
unfolding contains
no_dead_letters = refl

module _ (queue_type : String) (notified : Bool) (notices : String) (b : Broker) where
  abbrev kind_of : String
  kind_of = queue_arguments queue_type

  set_up :
      all (is_free kind_of b.queues) all_queues ≡ true
      → is_free kind_of b.queues queue_dead_letters ≡ true
      → ((setup_queues queue_type notified notices b).0 ≡ ok tt)
        × IsSetUp kind_of b (setup_queues queue_type notified notices b).1
  unfolding setup_queues
  set_up every last =
      let first = declare_queues-free kind_of all_queues b.queues every in
      with_dlx-IsSetUp kind_of notified notices b (record b { confirms = true })
        (declare_queues kind_of all_queues b.queues).0
        (declare_queues kind_of all_queues b.queues).1 first.0 refl no_dead_letters last first.1

  needed :
      (setup_queues queue_type notified notices b).0 ≡ ok tt
      → (all (is_free kind_of b.queues) all_queues ≡ true)
        × (is_free kind_of b.queues queue_dead_letters ≡ true)
  unfolding setup_queues
  needed h =
      let parts =
        with_dlx-ok kind_of notified notices (record b { confirms = true })
          (declare_queues kind_of all_queues b.queues).0
          (declare_queues kind_of all_queues b.queues).1 h in
      let every = declare_queues-ok kind_of all_queues b.queues parts.0 in
      (
        every,
        sym (
              last_is_free kind_of notified notices all_queues queue_dead_letters b.queues _
                no_dead_letters (declare_queues-free kind_of all_queues b.queues every).1)
            ∙ parts.1,
      )

  -- The set-up succeeds exactly if each of the queues of the pipeline and the dead-letter queue has the
  -- type that is asked for or is not there. It then leaves the channel with publisher confirms, the
  -- dead-letter queue bound, each of those queues with the type, and any other queue as it was.
  pub setup_queues-exact :
      ((setup_queues queue_type notified notices b).0 ≡ ok tt
        ↔ (all (is_free kind_of b.queues) every_queue ≡ true))
      × ((setup_queues queue_type notified notices b).0 ≡ ok tt
          → IsSetUp kind_of b (setup_queues queue_type notified notices b).1)
  setup_queues-exact =
      let cons = all-cons (is_free kind_of b.queues) queue_dead_letters all_queues in
      (
        (
          λ h. let parts = needed h in cons.1 (parts.1, parts.0),
          λ h. let parts = cons.0 h in (set_up parts.1 parts.0).0,
        ),
        λ h. let parts = needed h in (set_up parts.0 parts.1).1,
      )
