-- ===== src/Migration/Hoare.antt =====
-- What a script does to the queues, by its steps: a relation between the queues before and after holds however
-- the script ends, a condition on the result holds if it returns, and its loops have the fuel they need.
use flow_first.Base.{Option, none, some, List, [], ◌∷◌, ◌≡◌, refl}
use flow_first.Migration.{
  Queues, Answer, Broker, Ended, Script, give, ended_of, request_with, request, after, ◌>>=◌,
}

abbrev pub Ends : {A : Type 0} → (A → Queues → Type 0) → Ended A → Queues → Type 0
Ends Post (Ended.returned a) queues = Post a queues
Ends Post Ended.raised queues = Unit {0}
Ends Post Ended.unfinished queues = ⊥

-- the request was carried out, with this answer and these queues
abbrev pub Answers : {A : Type 0} → Option A × Queues → A → Queues → Type 0
Answers done a queues = (done.0 ≡ some a) × (done.1 ≡ queues)

module _ (Rel : Queues → Queues → Type 0) where
  -- of a script that was started in the broker `b`
  abbrev pub Runs : {A : Type 0} → (A → Queues → Type 0) → Broker → Ended A × Broker → Type 0
  Runs Post b (ended, c) = Rel b.queues c.queues × Ends Post ended c.queues

  -- A weaker relation and a weaker condition hold too.
  pub weaken-Runs :
      {A : Type 0} (Other : Queues → Queues → Type 0) (First Post : A → Queues → Type 0)
      (b : Broker) (r : Ended A × Broker)
      → ((q : Queues) → Rel b.queues q → Other b.queues q)
      → ((a : A) (q : Queues) → Rel b.queues q → First a q → Post a q)
      → Runs First b r
      → Other b.queues r.1.queues × Ends Post r.0 r.1.queues
  weaken-Runs Other First Post b (Ended.returned a, c) weaker next (rel, h) =
      (weaker c.queues rel, next a c.queues rel h)
  weaken-Runs Other First Post b (Ended.raised, c) weaker next (rel, h) = (weaker c.queues rel, tt)
  weaken-Runs Other First Post b (Ended.unfinished, c) weaker next (rel, h) = absurd h

module _ (Rel : Queues → Queues → Type 0) (reflexive : (p : Queues) → Rel p p)
    (transitive : (p q r : Queues) → Rel p q → Rel q r → Rel p r) where
  pub give-Runs :
      {A : Type 0} (Post : A → Queues → Type 0) (a : A) (b : Broker)
      → Post a b.queues
      → Runs Rel Post b (give a b)
  give-Runs Post a b h = (reflexive b.queues, h)

  answer-Ends :
      {A : Type 0} (a : Option A) (queues : Queues) → Ends (Answers (a, queues)) (ended_of a) queues
  answer-Ends none queues = tt
  answer-Ends (some x) queues = (refl, refl)

  -- A request that is carried out does to the queues what it does, and answers from them.
  pub request-Runs :
      {A : Type 0} (work : Queues → Option A × Queues) (b : Broker)
      → Rel b.queues (work b.queues).1
      → Runs Rel (Answers (work b.queues)) b (request work b)
  request-Runs work b h = by_answers b.answers
    where
      by_answers :
          (answers : List Answer)
          → Runs Rel (Answers (work b.queues)) b (request_with answers work b)
      by_answers [] = (h, answer-Ends (work b.queues).0 (work b.queues).1)
      by_answers (Answer.answered ∷ rest) = (h, answer-Ends (work b.queues).0 (work b.queues).1)
      by_answers (Answer.refused ∷ rest) = (reflexive b.queues, tt)
      by_answers (Answer.unanswered ∷ rest) = (h, tt)

  pub bind-Runs :
      {A B : Type 0} (First : A → Queues → Type 0) (Post : B → Queues → Type 0) (m : Script A)
      (rest : A → Script B) (b : Broker)
      → Runs Rel First b (m b)
      → ((a : A) (c : Broker)
          → Rel b.queues c.queues
          → First a c.queues
          → Runs Rel Post c (rest a c))
      → Runs Rel Post b ((m >>= rest) b)
  bind-Runs First Post m rest b first then_rest = joined (m b) first
    where
      joined : (r : Ended _ × Broker) → Runs Rel First b r → Runs Rel Post b (after r rest)
      joined (Ended.returned a, c) (rel, h) =
          let (rel', h') = then_rest a c rel h in (transitive b.queues c.queues _ rel rel', h')
      joined (Ended.raised, c) (rel, h) = (rel, tt)
      joined (Ended.unfinished, c) (rel, h) = absurd h

  -- What a request answers is taken into a condition on the answer and the queues.
  pub serve-Runs :
      {A : Type 0} (Post : A → Queues → Type 0) (work : Queues → Option A × Queues) (b : Broker)
      → Rel b.queues (work b.queues).1
      → ((a : A) (q : Queues) → Answers (work b.queues) a q → Post a q)
      → Runs Rel Post b (request work b)
  serve-Runs Post work b h next =
      weaken-Runs Rel Rel (Answers (work b.queues)) Post b (request work b) (λ q rel. rel)
        (λ a q rel done. next a q done) (request-Runs work b h)
