-- ===== src/DeadLetters/Held.antt =====
-- How often a message stands in the dead-letter queue and in the queue that it came from.
use flow_first.Base.{
  ℕ, suc, ◌+◌, String, Bool, false, ◌&&◌, Option, none, some, List, [], ◌∷◌, ◌++◌, ◌==◌, ◌≡◌, arith,
  if◌then◌else◌,
}
use flow_first.DeadLetters.{Letter, origin_queue}

abbrev pub is_from : String → Option String → Bool
is_from queue none = false
is_from queue (some q) = q == queue

module _ (queue body : String) where
  -- the letters with the body that come from the queue
  unfoldable pub held : List Letter → ℕ
  held [] = 0
  held (letter ∷ rest) =
      let more = held rest in
      if is_from queue (origin_queue letter.deaths) && letter.body == body then suc more else more

  -- the messages with the body in the queue
  unfoldable pub sent : List (String × String) → ℕ
  sent [] = 0
  sent ((q, b) ∷ rest) = let more = sent rest in if q == queue && b == body then suc more else more

  pub held-append : (xs ys : List Letter) → held (xs ++ ys) ≡ held xs + held ys
  unfolding held
  held-append [] ys = omega arith
  held-append (x ∷ xs) ys = ground (arith, held-append xs ys)

  pub sent-append : (xs ys : List (String × String)) → sent (xs ++ ys) ≡ sent xs + sent ys
  unfolding sent
  sent-append [] ys = omega arith
  sent-append ((q, b) ∷ xs) ys = ground (arith, sent-append xs ys)
