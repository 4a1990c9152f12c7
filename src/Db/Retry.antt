-- ===== src/Db/Retry.antt =====
-- The retry loop that insert_processed_message, upsert_device, soft_delete_device and query_devices of
-- src/db/db.py share: a deadlock or a lock timeout is tried again, three times in all.
use flow_first.Base.{
  ℕ, zero, suc, ◌-◌, Bool, true, false, ◌&&◌, ◌||◌, ◌≡◌, ◌≢◌, sym, ◌∙◌, ◌⊎◌, ◌↔◌, arith, eqb, ltb,
  if◌then◌else◌,
}
use flow_first.Base.Int.{ℤ}

-- one attempt: connect and execute. `operational` is pymysql's OperationalError with its code, `failed` any
-- other exception, a ConnectionError of get_db_connection too.
pub data Attempt : Type 0 where
  returned : ℤ → Attempt
  operational : ℕ → Attempt
  failed : Attempt

-- how the function ends: `fell_through` is the end of the loop with no return
pub data Ending : Type 0 where
  value : ℤ → Ending
  raised fell_through : Ending

abbrev pub max_retries : ℕ
max_retries = 3

abbrev pub is_lock_error : ℕ → Bool
is_lock_error code = eqb code 1213 || eqb code 1205

-- `for attempt in range(max_retries)`, from the given attempt on; `left` is how many there are
unfoldable pub retry : (ℕ → Attempt) → ℕ → ℕ → Ending
retry outcomes zero attempt = Ending.fell_through
retry outcomes (suc left) attempt =
    let rest = retry outcomes left (suc attempt) in
    elim (outcomes attempt) [
      | Attempt.returned n ↦ Ending.value n
      | Attempt.failed ↦ Ending.raised
      | Attempt.operational code ↦
          if is_lock_error code && ltb attempt (max_retries - 1) then rest else Ending.raised
    ]

unfoldable pub execute : (ℕ → Attempt) → Ending
unfolding retry
execute outcomes = retry outcomes max_retries 0

abbrev pub is_locked : Attempt → Bool
is_locked (Attempt.operational code) = is_lock_error code
is_locked _ = false

-- The function returns the value of its first attempt that is not a lock error.
abbrev pub Returns : (ℕ → Attempt) → ℤ → Type 0
Returns outcomes n =
    (outcomes 0 ≡ Attempt.returned n)
    ⊎ (is_locked (outcomes 0) ≡ true) × (outcomes 1 ≡ Attempt.returned n)
    ⊎ (is_locked (outcomes 0) ≡ true)
      × (is_locked (outcomes 1) ≡ true)
      × (outcomes 2 ≡ Attempt.returned n)

-- the loop, by its three attempts
last_try : Attempt → Ending
last_try (Attempt.returned n) = Ending.value n
last_try _ = Ending.raised

earlier_try : Attempt → Ending → Ending
earlier_try (Attempt.returned n) rest = Ending.value n
earlier_try Attempt.failed rest = Ending.raised
earlier_try (Attempt.operational code) rest = if is_lock_error code then rest else Ending.raised

last_try-value : (a : Attempt) (n : ℤ) → last_try a ≡ Ending.value n ↔ (a ≡ Attempt.returned n)
unfolding last_try
last_try-value (Attempt.returned m) n = (λ h. ground arith, λ h. ground arith)
last_try-value (Attempt.operational code) n = (λ h. ground arith, λ h. ground arith)
last_try-value Attempt.failed n = (λ h. ground arith, λ h. ground arith)

earlier_try-value :
    (a : Attempt) (rest : Ending) (n : ℤ)
    → earlier_try a rest ≡ Ending.value n
      ↔ ((a ≡ Attempt.returned n) ⊎ (is_locked a ≡ true) × (rest ≡ Ending.value n))
unfolding earlier_try
earlier_try-value (Attempt.returned m) rest n = (λ h. ground arith, λ h. ground arith)
earlier_try-value (Attempt.operational code) rest n = (λ h. ground arith, λ h. ground arith)
earlier_try-value Attempt.failed rest n = (λ h. ground arith, λ h. ground arith)

retry-tries :
    (outcomes : ℕ → Attempt)
    → execute outcomes ≡ earlier_try (outcomes 0) (earlier_try (outcomes 1) (last_try (outcomes 2)))
unfolding execute earlier_try last_try
retry-tries outcomes = ground arith

tries_end : (a b c : Attempt) → earlier_try a (earlier_try b (last_try c)) ≢ Ending.fell_through
unfolding earlier_try last_try
tries_end a b c h = ground arith

-- The loop never ends without a return or an exception, and it returns a value exactly if one of the three
-- attempts returned it and every attempt before that met a lock error.
pub execute-exact :
    (outcomes : ℕ → Attempt)
    → (execute outcomes ≢ Ending.fell_through)
      × ((n : ℤ) → execute outcomes ≡ Ending.value n ↔ Returns outcomes n)
execute-exact outcomes = (
  λ h. tries_end (outcomes 0) (outcomes 1) (outcomes 2) (sym (retry-tries outcomes) ∙ h),
  λ n. ground (
    arith,
    retry-tries outcomes,
    earlier_try-value (outcomes 0) (earlier_try (outcomes 1) (last_try (outcomes 2))) n,
    earlier_try-value (outcomes 1) (last_try (outcomes 2)) n,
    last_try-value (outcomes 2) n,
  ),
)
