-- ===== src/Greenthreads/Connect.antt =====
-- get_rmq_connection_with_retry of src/gt/gt.py. Whether get_connection succeeds in an attempt is an
-- argument; a connection is known by the attempt that opened it.
use flow_first.Base.{
  ℕ, zero, suc, ◌+◌, ◌-◌, ◌*◌, ◌≤◌, ◌<◌, Bool, true, false, ◌≡◌, refl, ◌⊎◌, inl, inr, arith,
  if◌then◌else◌, Bool-cases,
}
use flow_first.Base.Result.{Result, ok, raise, runtime_error}

-- the outcome, and the seconds slept
pub record Waited : Type 0 where
  pub outcome : Result ℕ
  pub slept_s : ℕ

module _ (connects : ℕ → Bool) where
  -- for attempt in range(attempt, attempt + left)
  unfoldable pub attempt_from : ℕ → ℕ → ℕ → Waited
  attempt_from zero attempt slept_s = record { outcome = raise runtime_error; slept_s = slept_s }
  attempt_from (suc left) attempt slept_s =
      let rest = attempt_from left (suc attempt) (slept_s + 5) in
      if connects attempt then record { outcome = ok attempt; slept_s = slept_s } else rest

  unfoldable pub get_rmq_connection_with_retry : ℕ → Waited
  unfolding attempt_from
  get_rmq_connection_with_retry max_attempts = attempt_from max_attempts 1 0

  -- no attempt from the first to before the second connects
  abbrev pub Refused : ℕ → ℕ → Type 0
  Refused lo hi = (m : ℕ) → lo ≤ m → m < hi → connects m ≡ false

  -- the first of the attempts that connects, or none of them
  abbrev pub ByFirst : ℕ → ℕ → ℕ → Waited → Type 0
  ByFirst lo hi slept_s r =
      ((n : ℕ) × (lo ≤ n)
        × (n < hi)
        × (connects n ≡ true)
        × Refused lo n
        × (r.outcome ≡ ok n)
        × (r.slept_s ≡ slept_s + 5 * (n - lo)))
      ⊎ (Refused lo hi × (r.outcome ≡ raise runtime_error) × (r.slept_s ≡ slept_s + 5 * (hi - lo)))

  Refused-before : (lo hi : ℕ) → connects lo ≡ false → Refused (suc lo) hi → Refused lo hi
  Refused-before lo hi e rest m l h = elim (Bool-cases (connects m)) [
    | inl up ↦ absurd (later (omega arith) up)
    | inr down ↦ down
  ]
    where
      later : (lo < m) ⊎ (lo ≡ m) → connects m ≡ true → ⊥
      later (inl above) up = cc (rest m above h)
      later (inr same) up = cc

  attempt_from-ByFirst :
      (left attempt slept_s hi : ℕ)
      → attempt + left ≡ hi
      → ByFirst attempt hi slept_s (attempt_from left attempt slept_s)
  unfolding attempt_from
  attempt_from-ByFirst zero attempt slept_s hi e =
      inr (λ m l h. absurd (omega arith), refl, omega arith)
  attempt_from-ByFirst (suc left) attempt slept_s hi e = elim (Bool-cases (connects attempt)) [
    | inl up ↦ rw up (
        inl
          (attempt, omega arith, omega arith, up, λ m l h. absurd (omega arith), refl, omega arith))
    | inr down ↦
        rw down
          (shifted down (attempt_from-ByFirst left (suc attempt) (slept_s + 5) hi (omega arith)))
  ]
    where
      shifted :
          connects attempt ≡ false
          → ByFirst (suc attempt) hi (slept_s + 5) (attempt_from left (suc attempt) (slept_s + 5))
          → ByFirst attempt hi slept_s (attempt_from left (suc attempt) (slept_s + 5))
      shifted down (inl (n, l, h, up, refused, o, s)) =
          inl (n, omega arith, h, up, Refused-before attempt n down refused, o, omega arith)
      shifted down (inr (refused, o, s)) =
          inr (Refused-before attempt hi down refused, o, omega arith)

-- The helper returns the connection of the first of the attempts 1 to max_attempts that connects, after 5
-- seconds of sleep for each attempt before it, and raises RuntimeError, after 5 seconds for each attempt,
-- exactly if none of them connects.
pub get_rmq_connection_with_retry-ByFirst :
    (connects : ℕ → Bool) (max_attempts : ℕ)
    → ByFirst connects 1 (suc max_attempts) 0 (get_rmq_connection_with_retry connects max_attempts)
unfolding get_rmq_connection_with_retry
get_rmq_connection_with_retry-ByFirst connects max_attempts =
    attempt_from-ByFirst connects max_attempts 1 0 (suc max_attempts) (omega arith)
