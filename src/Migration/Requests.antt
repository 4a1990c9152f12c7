-- ===== src/Migration/Requests.antt =====
-- What the requests of scripts/migrate_queue_type.py do to the messages of two queues.
use flow_first.Base.{
  String, false, Option, none, some, List, [], ◌∷◌, ◌++◌, ◌≡◌, refl, sym, subst, ap, ◌∙◌, ◌⊎◌, inl,
  inr, arith, Member, here, later, Member.here, Member.later, eq_iff, ◌==◌,
}
use flow_first.Base.Dict.{get, put, pop, get-put, get-pop}
use flow_first.Migration.{Kind, Queue, Queues, first, append, tail, drop_first}

abbrev pub messages_of : Option Queue → List String
messages_of none = []
messages_of (some q) = q.messages

abbrev pub kind_of : Option Queue → Option Kind
kind_of none = none
kind_of (some q) = some q.kind

abbrev pub messages_in : Queues → String → List String
messages_in queues name = messages_of (get queues name)

abbrev pub kind_in : Queues → String → Option Kind
kind_in queues name = kind_of (get queues name)

module _ (name temp : String) where
  -- a message that is in one of the two queues
  abbrev pub Held : String → Queues → Type 0
  Held m queues = Member m (messages_in queues name) ⊎ Member m (messages_in queues temp)

  -- The two queues lose no message, and the other queues are as they were.
  abbrev pub Kept : Queues → Queues → Type 0
  Kept p q =
      ((m : String) → Held m p → Held m q)
      × ((k : String) → (name == k) ≡ false → (temp == k) ≡ false → get q k ≡ get p k)

  pub reflexive-Kept : (p : Queues) → Kept p p
  reflexive-Kept p = (λ m h. h, λ k h h'. refl)

  pub transitive-Kept : (p q r : Queues) → Kept p q → Kept q r → Kept p r
  transitive-Kept p q r h h' = (λ m held. h'.0 m (h.0 m held), λ k a b. h'.1 k a b ∙ h.1 k a b)

  pub same-Kept : (p q : Queues) → p ≡ q → Kept p q
  same-Kept p q e = rw (← e) (reflexive-Kept p)

swap-Held : (name temp m : String) (p : Queues) → Held name temp m p → Held temp name m p
swap-Held name temp m p (inl h) = inr h
swap-Held name temp m p (inr h) = inl h

pub swap-Kept : (name temp : String) (p q : Queues) → Kept name temp p q → Kept temp name p q
swap-Kept name temp p q h =
    (λ m held. swap-Held name temp m q (h.0 m (swap-Held temp name m p held)), λ k a b. h.1 k b a)

Member-append : (m : String) (xs ys : List String) → Member m xs → Member m (xs ++ ys)
Member-append m [] ys h = elim h [ ]
Member-append m (x ∷ xs) ys (here e) = here e
Member-append m (x ∷ xs) ys (later h) = later (Member-append m xs ys h)

pub Member-last : (m : String) (xs : List String) → Member m (xs ++ m ∷ [])
Member-last m [] = here refl
Member-last m (x ∷ xs) = later (Member-last m xs)

pub distinct-sym : (a b : String) → (a == b) ≡ false → (b == a) ≡ false
distinct-sym a b h = ground (arith, eq_iff a b, eq_iff b a)

module _ (source destination : String) (apart : (source == destination) ≡ false) where
  abbrev pub Both : Queues → Queues → Type 0
  Both p q = Kept source destination p q × (kind_in q destination ≡ kind_in p destination)

  -- a write to one queue leaves another as it was
  get-put_other :
      (p : Queues) (k j : String) (q : Queue) → (k == j) ≡ false → get (put p k q) j ≡ get p j
  get-put_other p k j q h = get-put p k j q ∙ rw h refl

  get-put_same : (p : Queues) (k : String) (q : Queue) → get (put p k q) k ≡ some q
  get-put_same p k q = get-put p k k q ∙ rw ((eq_iff k k).1 refl) refl

  pub source-append :
      (m : String) (p : Queues) (o : Option Queue)
      → get (append destination m o p).1 source ≡ get p source
  source-append m p none = refl
  source-append m p (some q) =
      get-put_other p destination source _ (distinct-sym source destination apart)

  pub destination-append :
      (m : String) (p : Queues) (o : Option Queue)
      → (append destination m o p).0 ≡ some tt
      → messages_in (append destination m o p).1 destination ≡ messages_of o ++ m ∷ []
  destination-append m p none h = ground arith
  destination-append m p (some q) h = ap messages_of (get-put_same p destination _)

  append-Both :
      (m : String) (p : Queues) (o : Option Queue)
      → get p destination ≡ o
      → Both p (append destination m o p).1
  append-Both m p none e = (reflexive-Kept source destination p, refl)
  append-Both m p (some q) e = (
    (
      λ n held. elim held [
        | inl h ↦ inl (subst (λ o. Member n (messages_of o)) (sym (source-append m p (some q))) h)
        | inr h ↦ inr (
            subst (λ o. Member n (messages_of o)) (sym (get-put_same p destination _))
              (Member-append n q.messages (m ∷ []) (subst (λ o. Member n (messages_of o)) e h)))
      ],
      λ k a b. get-put_other p destination k _ b,
    ),
    ap kind_of (get-put_same p destination _) ∙ sym (ap kind_of e),
  )

  pub publish-Both :
      (m : String) (p : Queues) → Both p (append destination m (get p destination) p).1
  publish-Both m p = append-Both m p (get p destination) refl

  -- the first message of the queue
  pub first-messages :
      (m : String) (o : Option Queue)
      → first o ≡ some (some m)
      → messages_of o ≡ m ∷ tail (messages_of o)
  first-messages m none h = ground arith
  first-messages m (some q) h = by_messages q.messages h
    where
      by_messages :
          (xs : List String)
          → some (elim xs [ [] ↦ none | x ∷ rest ↦ some x ]) ≡ some (some m)
          → xs ≡ m ∷ tail xs
      by_messages [] h = ground arith
      by_messages (x ∷ rest) h = ground arith

  pub first-none : (o : Option Queue) → first o ≡ some none → messages_of o ≡ []
  first-none none h = refl
  first-none (some q) h = by_messages q.messages h
    where
      by_messages :
          (xs : List String)
          → some (elim xs [ [] ↦ none | x ∷ rest ↦ some x ]) ≡ some none
          → xs ≡ []
      by_messages [] h = refl
      by_messages (x ∷ rest) h = ground arith

  pub source-drop_first :
      (p : Queues) (o : Option Queue)
      → get p source ≡ o
      → messages_in (drop_first source o p) source ≡ tail (messages_of o)
  source-drop_first p none e = ap messages_of e
  source-drop_first p (some q) e = ap messages_of (get-put_same p source _)

  pub other-drop_first :
      (p : Queues) (o : Option Queue) (k : String)
      → (source == k) ≡ false
      → get (drop_first source o p) k ≡ get p k
  other-drop_first p none k h = refl
  other-drop_first p (some q) k h = get-put_other p source k _ h

  pub Member-tail :
      (m n : String) (xs : List String)
      → xs ≡ m ∷ tail xs
      → Member n xs
      → (n ≡ m) ⊎ Member n (tail xs)
  Member-tail m n [] e h = elim h [ ]
  Member-tail m n (x ∷ xs) e (here h) = inl (ground arith)
  Member-tail m n (x ∷ xs) e (later h) = inr h

  -- The acknowledgement of a message of which the destination has the copy.
  pub ack-Both :
      (m : String) (p : Queues)
      → messages_in p source ≡ m ∷ tail (messages_in p source)
      → Member m (messages_in p destination)
      → Both p (drop_first source (get p source) p)
  ack-Both m p head copy = (
    (
      λ n held. elim held [
        | inl h ↦ elim (Member-tail m n (messages_in p source) head h) [
          | inl e ↦
              inr
                (in_destination n (subst (λ x. Member x (messages_in p destination)) (sym e) copy))
          | inr t ↦
              inl (subst (λ xs. Member n xs) (sym (source-drop_first p (get p source) refl)) t)
        ]
        | inr h ↦ inr (in_destination n h)
      ],
      λ k a b. other-drop_first p (get p source) k a,
    ),
    ap kind_of (other-drop_first p (get p source) destination apart),
  )
    where
      in_destination :
          (n : String)
          → Member n (messages_in p destination)
          → Member n (messages_in (drop_first source (get p source) p) destination)
      in_destination n h =
          subst (λ o. Member n (messages_of o))
            (sym (other-drop_first p (get p source) destination apart)) h

  pub get-pop_other :
      (p : Queues) (k : String) → (source == k) ≡ false → get (pop p source) k ≡ get p k
  get-pop_other p k h = get-pop p source k ∙ rw h refl

  -- the deletion of a queue with no message
  pub pop-Both : (p : Queues) → messages_in p source ≡ [] → Both p (pop p source)
  pop-Both p empty = (
    (
      λ n held. elim held [
        | inl h ↦ elim (subst (λ xs. Member n xs) empty h) [ ]
        | inr h ↦
            inr (subst (λ o. Member n (messages_of o)) (sym (get-pop_other p destination apart)) h)
      ],
      λ k a b. get-pop_other p k a,
    ),
    ap kind_of (get-pop_other p destination apart),
  )
