-- ===== src/Migration/Declares.antt =====
-- The declarations of scripts/migrate_queue_type.py: they lose no message, and a queue that is created has the
-- new type.
use flow_first.Base.{
  ℕ, String, false, Option, none, some, ◌≡◌, refl, sym, ap, subst, ◌∙◌, ◌⊎◌, inl, inr, arith,
  Member, Bool-cases, eq_iff, ◌==◌,
}
use flow_first.Base.Dict.{get, put, get-put}
use flow_first.Migration.{
  Kind, Queue, Queues, Broker, Declared, declared, create, declare, counts, exists,
}
use flow_first.Migration.Hoare.{Runs, serve-Runs}
use flow_first.Migration.Requests.{
  messages_of, kind_of, messages_in, kind_in, Kept, reflexive-Kept, transitive-Kept,
}

-- the queue is missing, or it has the type
abbrev pub Fit : Kind → Option Queue → Type 0
Fit target o = (o ≡ none) ⊎ (kind_of o ≡ some target)

pub declared-Fit :
    (target : Kind) (o : Option Queue) (messages consumers : ℕ)
    → declared target o ≡ Declared.fits messages consumers
    → Fit target o
declared-Fit target none messages consumers h = inl refl
declared-Fit target (some q) messages consumers h = by_kinds q.kind target h
  where
    by_kinds :
        (j k : Kind)
        → declared k (some (record { kind = j; messages = q.messages; consumers = q.consumers }))
          ≡ Declared.fits messages consumers
        → Fit k (some (record { kind = j; messages = q.messages; consumers = q.consumers }))
    by_kinds Kind.quorum Kind.quorum h = inr refl
    by_kinds Kind.classic Kind.classic h = inr refl
    by_kinds Kind.quorum Kind.classic h = ground arith
    by_kinds Kind.classic Kind.quorum h = ground arith

module _ (target : Kind) (queue : String) where
  abbrev pub created : Queues → Queues
  created p = create target queue (get p queue) p

  get-put_same : (p : Queues) (q : Queue) → get (put p queue q) queue ≡ some q
  get-put_same p q = get-put p queue queue q ∙ rw ((eq_iff queue queue).1 refl) refl

  other-create :
      (p : Queues) (o : Option Queue) (j : String)
      → (queue == j) ≡ false
      → get (create target queue o p) j ≡ get p j
  other-create p none j h = get-put p queue j _ ∙ rw h refl
  other-create p (some q) j h = refl

  messages-create :
      (p : Queues) (o : Option Queue) (j : String)
      → get p queue ≡ o
      → messages_in (create target queue o p) j ≡ messages_in p j
  messages-create p none j e = elim (Bool-cases (queue == j)) [
    | inl same ↦
        subst (λ k. messages_in (create target queue none p) k ≡ messages_in p k)
          ((eq_iff queue j).0 same) (ap messages_of (get-put_same p _) ∙ sym (ap messages_of e))
    | inr other ↦ ap messages_of (other-create p none j other)
  ]
  messages-create p (some q) j e = refl

  pub created-messages : (p : Queues) (j : String) → messages_in (created p) j ≡ messages_in p j
  created-messages p j = messages-create p (get p queue) j refl

  kind-create :
      (p : Queues) (o : Option Queue)
      → get p queue ≡ o
      → Fit target o
      → kind_in (create target queue o p) queue ≡ some target
  kind-create p none e fit = ap kind_of (get-put_same p _)
  kind-create p (some q) e (inl absent) = ground arith
  kind-create p (some q) e (inr same) = ap kind_of e ∙ same

  pub created-kind :
      (p : Queues) → Fit target (get p queue) → kind_in (created p) queue ≡ some target
  created-kind p fit = kind-create p (get p queue) refl fit

  module _ (name temp : String)
      (covers : (j : String)
        → (name == j) ≡ false
        → (temp == j) ≡ false
        → (queue == j) ≡ false) where
    created-Kept : (p : Queues) → Kept name temp p (created p)
    created-Kept p = (
      λ m held. elim held [
        | inl h ↦ inl (subst (λ xs. Member m xs) (sym (created-messages p name)) h)
        | inr h ↦ inr (subst (λ xs. Member m xs) (sym (created-messages p temp)) h)
      ],
      λ k a b. other-create p (get p queue) k (covers k a b),
    )

    -- what a declaration answers, and what it leaves
    abbrev pub Declares : Queues → Declared → Queues → Type 0
    Declares p state q = (declared target (get p queue) ≡ state) × (created p ≡ q)

    pub declare-Runs :
        (b : Broker) → Runs (Kept name temp) (Declares b.queues) b (declare queue target b)
    unfolding declare
    declare-Runs b =
        serve-Runs (Kept name temp) (reflexive-Kept name temp) (transitive-Kept name temp)
          (Declares b.queues) _ b (created-Kept b.queues)
          (λ a q done. (ground (arith, done.0), done.1))

module _ (name temp queue : String) where
  abbrev pub Finds : Queues → Option (ℕ × ℕ) → Queues → Type 0
  Finds p found q = (counts (get p queue) ≡ found) × (p ≡ q)

  pub exists-Runs : (b : Broker) → Runs (Kept name temp) (Finds b.queues) b (exists queue b)
  unfolding exists
  exists-Runs b =
      serve-Runs (Kept name temp) (reflexive-Kept name temp) (transitive-Kept name temp)
        (Finds b.queues) _ b (reflexive-Kept name temp b.queues)
        (λ a q done. (ground (arith, done.0), done.1))
