-- ===== src/Db/Examples.antt =====
-- Tests of the retries and of the choice of hosts.
use flow_first.Base.{ℕ, zero, suc, String, Bool, false, [], ◌∷◌, ◌==◌, ◌≡◌, ◌≢◌, refl, ◌↔◌}
use flow_first.Base.Int.{ℤ, pos}
use flow_first.Db.Retry.{Attempt, Ending, execute, Returns, execute-exact}
use flow_first.Db.Hosts.{hosts_to_try}

-- two deadlocks, then the row's number
third_time : ℕ → Attempt
third_time zero = Attempt.operational 1213
third_time (suc zero) = Attempt.operational 1205
third_time (suc (suc n)) = Attempt.returned (pos 42)

execute-exact_example :
    (execute third_time ≢ Ending.fell_through)
    × ((n : ℤ) → execute third_time ≡ Ending.value n ↔ Returns third_time n)
execute-exact_example = execute-exact third_time

third_time_returns : execute third_time ≡ Ending.value (pos 42)
unfolding execute third_time
third_time_returns = refl

-- only the second host accepts, in the second attempt
abbrev accepts_late : ℕ → String → Bool
accepts_late zero host = false
accepts_late (suc n) host = host == "db2"

two_hosts : hosts_to_try "db1" "db1, db2 ,," ≡ "db1" ∷ "db2" ∷ []
unfolding hosts_to_try
two_hosts = refl
