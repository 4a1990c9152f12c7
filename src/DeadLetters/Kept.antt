-- ===== src/DeadLetters/Kept.antt =====
-- What a run of scripts/replay_dead_letters.py leaves of the messages.
use flow_first.Base.{
  ℕ, zero, suc, ◌+◌, String, Bool, true, false, some, List, [], ◌∷◌, ◌++◌, ◌≡◌, ◌≢◌, refl, subst,
  ap, ◌∙◌, ◌⊎◌, inl, inr, arith, Option-cases, length,
}
use flow_first.Base.Int.{ℤ}
use flow_first.DeadLetters.{
  Letter, Answer, Mode, State, origin_queue, leave, publish, answered_letter, handle_letter,
  next_letter, handle_from, todo_of, start, run,
}
use flow_first.DeadLetters.Held.{held, sent, held-append, sent-append}

module _ (queue body : String) where
  -- the copies of the message that are in the two queues, those that were got included
  abbrev copies : State → ℕ
  copies s = held queue body s.unacked + held queue body s.waiting + sent queue body s.published

  -- a letter that is in hand
  abbrev with_letter : Letter → State → ℕ
  with_letter letter s = held queue body (letter ∷ []) + copies s

  -- No copy is lost, and there is one more only if the connection is lost.
  abbrev Keeps : ℕ → State → Type 0
  Keeps n s = (copies s ≡ n) ⊎ ((s.is_broken ≡ true) × (copies s ≡ suc n))

  copies-leave : (letter : Letter) (s : State) → copies (leave letter s) ≡ with_letter letter s
  copies-leave letter s = omega (arith, held-append queue body s.unacked (letter ∷ []))

  copies-publish :
      (letter : Letter) (q : String) (s : State)
      → origin_queue letter.deaths ≡ some q
      → copies (publish q letter s) ≡ with_letter letter s
  unfolding held sent
  copies-publish letter q s e =
      ground (arith, sent-append queue body s.published ((q, letter.body) ∷ []))

  both_copies :
      (letter : Letter) (q : String) (s : State)
      → origin_queue letter.deaths ≡ some q
      → (copies (leave letter (publish q letter s)) ≡ with_letter letter s)
        ⊎ (copies (leave letter (publish q letter s)) ≡ suc (with_letter letter s))
  unfolding held sent
  both_copies letter q s e = ground (
    arith,
    held-append queue body s.unacked (letter ∷ []),
    sent-append queue body s.published ((q, letter.body) ∷ []),
  )

  answered_letter-Keeps :
      (answer : Answer) (letter : Letter) (q : String) (s : State)
      → origin_queue letter.deaths ≡ some q
      → Keeps (with_letter letter s) (answered_letter answer q letter s)
  answered_letter-Keeps Answer.taken letter q s e = inl (copies-publish letter q s e)
  answered_letter-Keeps Answer.refused letter q s e = inl (copies-leave letter s)
  answered_letter-Keeps Answer.lost letter q s e = inl (copies-leave letter s)
  answered_letter-Keeps Answer.lost_after letter q s e = elim (both_copies letter q s e) [
    | inl same ↦ inl same
    | inr more ↦ inr (refl, more)
  ]

  handle_letter-Keeps :
      (mode : Mode) (answer : Answer) (letter : Letter) (s : State)
      → mode ≢ Mode.discard
      → Keeps (with_letter letter s) (handle_letter mode answer letter s)
  unfolding handle_letter
  handle_letter-Keeps Mode.list answer letter s other = inl (copies-leave letter s)
  handle_letter-Keeps Mode.discard answer letter s other = absurd (other refl)
  handle_letter-Keeps Mode.replay answer letter s other =
      elim (Option-cases (origin_queue letter.deaths)) [
        | inl unknown ↦ rw unknown (inl (copies-leave letter s))
        | inr known ↦ rw known.1 (answered_letter-Keeps answer letter known.0 s known.1)
      ]

  stops :
      (mode : Mode) (answers : ℕ → Answer) (left i : ℕ) (s : State)
      → s.is_broken ≡ true
      → handle_from mode answers left i s ≡ s
  unfolding handle_from
  stops mode answers zero i s broken = refl
  stops mode answers (suc left) i s broken = rw broken refl

  next_letter-Keeps :
      (broken : Bool) (waiting : List Letter) (handle : Letter → List Letter → State) (n : ℕ)
      (s : State)
      → copies s ≡ n
      → s.waiting ≡ waiting
      → ((letter : Letter) (rest : List Letter)
          → s.waiting ≡ letter ∷ rest
          → Keeps n (handle letter rest))
      → Keeps n (next_letter broken waiting handle s)
  next_letter-Keeps true waiting handle n s e w step = inl e
  next_letter-Keeps false [] handle n s e w step = inl e
  next_letter-Keeps false (letter ∷ rest) handle n s e w step = step letter rest w

  -- The letter is counted where it is.
  taken_copies :
      (letter : Letter) (rest : List Letter) (s : State)
      → s.waiting ≡ letter ∷ rest
      → with_letter letter (record s { waiting = rest }) ≡ copies s
  taken_copies letter rest s w =
      omega (arith, ap (held queue body) w, held-append queue body (letter ∷ []) rest)

  module _ (mode : Mode) (other : mode ≢ Mode.discard) (answers : ℕ → Answer) where
    after_letter :
        (left i n : ℕ) (t : State)
        → ((u : State) → copies u ≡ n → Keeps n (handle_from mode answers left i u))
        → Keeps n t
        → Keeps n (handle_from mode answers left i t)
    after_letter left i n t again (inr (broken, more)) =
        rw (stops mode answers left i t broken) (inr (broken, more))
    after_letter left i n t again (inl same) = again t same

    handle_from-Keeps :
        (left i n : ℕ) (s : State) → copies s ≡ n → Keeps n (handle_from mode answers left i s)
    unfolding handle_from
    handle_from-Keeps zero i n s e = inl e
    handle_from-Keeps (suc left) i n s e =
        next_letter-Keeps s.is_broken s.waiting _ n s e refl λ letter rest w.
          after_letter left (suc i) n
            (handle_letter mode (answers i) letter (record s { waiting = rest }))
            (handle_from-Keeps left (suc i) n)
            (subst
              (λ k. Keeps k (handle_letter mode (answers i) letter (record s { waiting = rest })))
              (taken_copies letter rest s w ∙ e)
              (handle_letter-Keeps mode (answers i) letter (record s { waiting = rest }) other))

-- The copies of the message are as many as before, or one more if the connection was lost.
abbrev pub Conserved : String → String → List Letter → List (String × String) → State → Type 0
Conserved queue body waiting published s =
    (held queue body s.waiting + sent queue body s.published
      ≡ held queue body waiting + sent queue body published)
    ⊎ (s.is_broken ≡ true)
      × (held queue body s.waiting + sent queue body s.published
          ≡ suc (held queue body waiting + sent queue body published))

-- A run that lists or replays loses no message, whatever the broker answers: for each queue and each body,
-- as many messages with the body are at the end in the queue or among the dead letters from it as before,
-- or one more if the connection was lost.
pub run-Conserved :
    (queue body : String) (mode : Mode) (limit : ℤ) (answers : ℕ → Answer) (waiting : List Letter)
    (published : List (String × String))
    → mode ≢ Mode.discard
    → Conserved queue body waiting published (run mode limit answers waiting published)
unfolding run
run-Conserved queue body mode limit answers waiting published other =
    released (handle_from mode answers (todo_of limit (length waiting)) 0 (start waiting published))
      (handle_from-Keeps queue body mode other answers (todo_of limit (length waiting)) 0
        (held queue body waiting + sent queue body published) (start waiting published)
        (unfold start held in omega arith))
  where
    released :
        (s : State)
        → Keeps queue body (held queue body waiting + sent queue body published) s
        → Conserved queue body waiting published
            (record s { waiting = s.unacked ++ s.waiting; unacked = [] })
    released s (inl same) = inl (omega (arith, held-append queue body s.unacked s.waiting))
    released s (inr (broken, more)) =
        inr (broken, omega (arith, held-append queue body s.unacked s.waiting))
