-- ===== src/Migration/Moves.antt =====
-- The loops of scripts/migrate_queue_type.py: a move from one queue to another, and the moves until the source
-- can be deleted.
use flow_first.Base.{
  ℕ, zero, suc, ◌<◌, String, false, Option, none, some, List, [], ◌∷◌, ◌++◌, ◌≡◌, refl, sym, ap,
  subst, ◌∙◌, arith, Member, ◌==◌, length,
}
use flow_first.Base.Dict.{get}
use flow_first.Migration.{
  Queues, Broker, Ended, Script, give, ◌>>◌, first, tail, basic_get, basic_publish, basic_ack,
}
use flow_first.Migration.Script.{move_next, move}
use flow_first.Migration.Hoare.{Runs, give-Runs, serve-Runs, bind-Runs}
use flow_first.Migration.Requests.{
  messages_of, messages_in, reflexive-Kept, transitive-Kept, Both, source-append, other-drop_first,
  Member-last, destination-append, publish-Both, first-messages, first-none, source-drop_first,
  ack-Both,
}

pub append-nil : (xs : List String) → xs ++ [] ≡ xs
append-nil [] = refl
append-nil (x ∷ xs) = ap (λ ys. x ∷ ys) (append-nil xs)

append_assoc : (xs ys zs : List String) → (xs ++ ys) ++ zs ≡ xs ++ (ys ++ zs)
append_assoc [] ys zs = refl
append_assoc (x ∷ xs) ys zs = ap (λ us. x ∷ us) (append_assoc xs ys zs)

module _ (source destination : String) (apart : (source == destination) ≡ false) where
  pub reflexive : (p : Queues) → Both source destination apart p p
  reflexive p = (reflexive-Kept source destination p, refl)

  pub transitive :
      (p q r : Queues)
      → Both source destination apart p q
      → Both source destination apart q r
      → Both source destination apart p r
  transitive p q r h h' = (transitive-Kept source destination p q r h.0 h'.0, h'.1 ∙ h.1)

  abbrev pub Moves : {A : Type 0} → (A → Queues → Type 0) → Broker → Ended A × Broker → Type 0
  Moves Post b r = Runs (Both source destination apart) Post b r

  -- the source is empty, and the destination holds these
  abbrev pub Emptied : List String → ℕ → Queues → Type 0
  Emptied whole n q = (messages_in q source ≡ []) × (messages_in q destination ≡ whole)

  -- what the two queues hold
  abbrev pub Holds : List String → List String → Queues → Type 0
  Holds left there q = (messages_in q source ≡ left) × (messages_in q destination ≡ there)

  -- A message that is acknowledged has its copy in the destination.
  acknowledge-Moves :
      (m : String) (rest there : List String) (d : Broker)
      → Holds (m ∷ rest) (there ++ m ∷ []) d.queues
      → Moves (λ _ q. Holds rest (there ++ m ∷ []) q) d (basic_ack source d)
  unfolding basic_ack
  acknowledge-Moves m rest there d (head, copy) =
      serve-Runs (Both source destination apart) reflexive transitive
        (λ _ q. Holds rest (there ++ m ∷ []) q) _ d
        (ack-Both source destination apart m d.queues (head ∙ ap (λ xs. m ∷ tail xs) (sym head))
          (subst (λ xs. Member m xs) (sym copy) (Member-last m there)))
        (λ a q done.
          subst (λ p. Holds rest (there ++ m ∷ []) p) done.1
            (
              source-drop_first source destination apart d.queues (get d.queues source) refl
                  ∙ ap tail head,
              ap messages_of (
                    other-drop_first source destination apart d.queues (get d.queues source)
                      destination apart)
                  ∙ copy,
            ))

  publish-Moves :
      (m : String) (rest there : List String) (c : Broker)
      → Holds (m ∷ rest) there c.queues
      → Moves (λ _ q. Holds (m ∷ rest) (there ++ m ∷ []) q) c (basic_publish destination m c)
  unfolding basic_publish
  publish-Moves m rest there c (head, old) =
      serve-Runs (Both source destination apart) reflexive transitive
        (λ _ q. Holds (m ∷ rest) (there ++ m ∷ []) q) _ c
        (publish-Both source destination apart m c.queues)
        (λ a q done.
          subst (λ p. Holds (m ∷ rest) (there ++ m ∷ []) p) done.1
            (
              ap messages_of
                    (source-append source destination apart m c.queues (get c.queues destination))
                  ∙ head,
              destination-append source destination apart m c.queues (get c.queues destination)
                    done.0
                  ∙ ap (λ xs. xs ++ m ∷ []) old,
            ))

  -- what basic_get shows of the source
  abbrev Shown : Queues → Option String → Queues → Type 0
  Shown p shown q = (first (get p source) ≡ some shown) × (p ≡ q)

  get-Moves : (b : Broker) → Moves (Shown b.queues) b (basic_get source b)
  unfolding basic_get
  get-Moves b =
      serve-Runs (Both source destination apart) reflexive transitive (Shown b.queues) _ b
        (reflexive b.queues) (λ a q done. done)

  carry-Moves :
      (m : String) (rest there whole : List String) (next : Script ℕ) (c : Broker)
      → Holds (m ∷ rest) there c.queues
      → ((e : Broker) → Holds rest (there ++ m ∷ []) e.queues → Moves (Emptied whole) e (next e))
      → Moves (Emptied whole) c ((basic_publish destination m >> basic_ack source >> next) c)
  carry-Moves m rest there whole next c holds then_next =
      bind-Runs (Both source destination apart) reflexive transitive
        (λ _ q. Holds rest (there ++ m ∷ []) q) (Emptied whole)
        (basic_publish destination m >> basic_ack source) (λ _. next) c
        (bind-Runs (Both source destination apart) reflexive transitive
          (λ _ q. Holds (m ∷ rest) (there ++ m ∷ []) q) (λ _ q. Holds rest (there ++ m ∷ []) q)
          (basic_publish destination m) (λ _. basic_ack source) c
          (publish-Moves m rest there c holds)
          (λ a d rel copied. acknowledge-Moves m rest there d copied))
        (λ a e rel left. then_next e left)

  move_next-Moves :
      (left there : List String) (moved : ℕ) (next : Script ℕ) (p : Queues) (shown : Option String)
      (c : Broker)
      → Holds left there p
      → ((m : String) (rest : List String)
          → left ≡ m ∷ rest
          → (e : Broker) → Holds rest (there ++ m ∷ []) e.queues
          → Moves (Emptied (there ++ left)) e (next e))
      → Shown p shown c.queues
      → Moves (Emptied (there ++ left)) c (
          move_next moved
            (give tt)
            (λ m. basic_publish destination m >> basic_ack source >> next)
            shown
            c)
  move_next-Moves left there moved next p none c (head, old) again (shown, same) =
      give-Runs (Both source destination apart) reflexive transitive (Emptied (there ++ left)) moved
        c
        (subst (λ q. Emptied (there ++ left) moved q) same
          (none_left, old ∙ sym (append-nil there) ∙ ap (λ xs. there ++ xs) (sym none_left ∙ head)))
    where
      none_left : messages_in p source ≡ []
      none_left = first-none source destination apart (get p source) shown
  move_next-Moves left there moved next p (some m) c (head, old) again (shown, same) =
      carry-Moves m (tail left) there (there ++ left) next c
        (subst (λ q. Holds (m ∷ tail left) there q) same (head ∙ starts, old))
        (λ e rest. again m (tail left) starts e rest)
    where
      starts : left ≡ m ∷ tail left
      starts =
          subst (λ xs. xs ≡ m ∷ tail xs) head
            (first-messages source destination apart m (get p source) shown)

  -- All messages go behind those of the destination, in their order.
  pub move-Moves :
      (fuel moved : ℕ) (left there : List String) (b : Broker)
      → Holds left there b.queues
      → length left < fuel
      → Moves (Emptied (there ++ left)) b (move fuel source destination moved b)
  unfolding move
  move-Moves zero moved left there b holds enough = ground arith
  move-Moves (suc fuel) moved left there b holds enough =
      bind-Runs (Both source destination apart) reflexive transitive (Shown b.queues)
        (Emptied (there ++ left)) (basic_get source) _ b (get-Moves b)
        (λ shown c rel seen.
          move_next-Moves left there moved (move fuel source destination (suc moved)) b.queues shown
            c holds
            (λ m rest starts e now.
              subst (λ xs. Moves (Emptied xs) e (move fuel source destination (suc moved) e))
                (append_assoc there (m ∷ []) rest ∙ ap (λ xs. there ++ xs) (sym starts))
                (move-Moves fuel (suc moved) rest (there ++ m ∷ []) e now
                  (omega (arith, ap length starts))))
            seen)
