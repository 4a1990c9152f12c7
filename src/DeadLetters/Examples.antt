-- ===== src/DeadLetters/Examples.antt =====
-- Tests of the dead-letter replay.
use flow_first.Base.{ℕ, false, none, some, List, [], ◌∷◌, ◌≡◌, ◌≢◌, refl, arith}
use flow_first.Base.Int.{pos}
use flow_first.DeadLetters.{Letter, Answer, Mode, run}
use flow_first.DeadLetters.Kept.{Conserved, run-Conserved}

-- a letter of flow 4, one of no known queue, and one of flow 1 that came round twice
abbrev letters : List Letter
letters =
    record { deaths = some "flow4_p3_to_p4" ∷ []; body = "m4" }
    ∷ record { deaths = some "other" ∷ none ∷ []; body = "m0" }
    ∷ record { deaths = none ∷ some "flow1_p1_to_p2" ∷ []; body = "m1" }
    ∷ []

abbrev all_taken : ℕ → Answer
all_taken n = Answer.taken

-- the connection is lost after the broker took the first letter
abbrev lost_at_first : ℕ → Answer
lost_at_first n = Answer.lost_after

not_discard : Mode.replay ≢ Mode.discard
not_discard e = ground arith

replayed : run Mode.replay (pos 0) all_taken letters [] ≡ record {
  waiting = record { deaths = some "other" ∷ none ∷ []; body = "m0" } ∷ [];
  unacked = [];
  published = ("flow4_p3_to_p4", "m4") ∷ ("flow1_p1_to_p2", "m1") ∷ [];
  handled = 2;
  skipped = 1;
  is_broken = false;
}
unfolding run
replayed = refl

listed : (run Mode.list (pos 2) all_taken letters []).waiting ≡ letters
unfolding run
listed = refl

run-Conserved_example :
    Conserved "flow4_p3_to_p4" "m4" letters [] (run Mode.replay (pos 0) lost_at_first letters [])
run-Conserved_example =
    run-Conserved "flow4_p3_to_p4" "m4" Mode.replay (pos 0) lost_at_first letters [] not_discard
