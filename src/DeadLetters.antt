-- ===== src/DeadLetters.antt =====
-- scripts/replay_dead_letters.py: the loop of `main` over the dead letters. A letter is known by the queues
-- of its x-death header, and by its body, which is sent on as it is. What it prints is left.
pub mod Held
pub mod Kept
pub mod Examples
use flow_first.Base.{
  ℕ, zero, suc, String, Bool, true, false, Option, none, some, List, [], ◌∷◌, ◌++◌, ltb, length,
  contains, if◌then◌else◌,
}
use flow_first.Base.Int.{ℤ, pos, negsuc}
use flow_first.Queues.{all_queues}

pub record Letter : Type 0 where
  -- death.get("queue"), in the header's order
  pub deaths : List (Option String)
  pub body : String

-- What the broker does with the letter that is handled: it takes it, it refuses it (NackError,
-- UnroutableError), or the connection is lost before or after it took it.
pub data Answer : Type 0 where
  taken refused lost lost_after : Answer

pub data Mode : Type 0 where
  list replay discard : Mode

pub record State : Type 0 where
  -- the dead-letter queue, and the letters that were got from it and not acknowledged
  pub waiting : List Letter
  pub unacked : List Letter
  pub published : List (String × String)
  pub handled : ℕ
  pub skipped : ℕ
  pub is_broken : Bool

abbrev next_origin : Option String → Option String → Option String
next_origin none later = later
next_origin (some queue) later = if contains all_queues queue then some queue else later

-- origin_queue
unfoldable pub origin_queue : List (Option String) → Option String
unfolding contains
origin_queue [] = none
origin_queue (death ∷ deaths) = next_origin death (origin_queue deaths)

-- the letter is not acknowledged
abbrev pub leave : Letter → State → State
leave letter s = record s { unacked = s.unacked ++ letter ∷ [] }

abbrev pub skip : Letter → State → State
skip letter s = record s { unacked = s.unacked ++ letter ∷ []; skipped = suc s.skipped }

abbrev pub publish : String → Letter → State → State
publish queue letter s = record s { published = s.published ++ (queue, letter.body) ∷ [] }

-- basic_publish, and basic_ack after it
abbrev pub answered_letter : Answer → String → Letter → State → State
answered_letter Answer.taken queue letter s =
    let t = publish queue letter s in record t { handled = suc s.handled }
answered_letter Answer.refused queue letter s = skip letter s
answered_letter Answer.lost queue letter s = record (leave letter s) { is_broken = true }
answered_letter Answer.lost_after queue letter s = record (leave letter (publish queue letter s)) {
  is_broken = true;
}

abbrev pub replay_one : Option String → Answer → Letter → State → State
replay_one none answer letter s = skip letter s
replay_one (some queue) answer letter s = answered_letter answer queue letter s

-- basic_ack of a letter that is discarded
abbrev pub discard_one : Answer → Letter → State → State
discard_one Answer.lost letter s = record (leave letter s) { is_broken = true }
discard_one answer letter s = record s { handled = suc s.handled }

unfoldable pub handle_letter : Mode → Answer → Letter → State → State
unfolding origin_queue
handle_letter Mode.list answer letter s = leave letter s
handle_letter Mode.replay answer letter s = replay_one (origin_queue letter.deaths) answer letter s
handle_letter Mode.discard answer letter s = discard_one answer letter s

-- basic_get, unless the connection is lost: the loop ends if no letter is there
abbrev pub next_letter : Bool → List Letter → (Letter → List Letter → State) → State → State
next_letter true waiting body s = s
next_letter false [] body s = s
next_letter false (letter ∷ rest) body s = body letter rest

-- for _ in range(todo), with the answer to each letter
unfoldable pub handle_from : Mode → (ℕ → Answer) → ℕ → ℕ → State → State
unfolding handle_letter
handle_from mode answers zero i s = s
handle_from mode answers (suc left) i s =
    next_letter s.is_broken s.waiting
      (λ letter rest.
        handle_from mode answers left (suc i)
          (handle_letter mode (answers i) letter (record s { waiting = rest })))
      s

-- todo, from --limit
abbrev pub todo_of : ℤ → ℕ → ℕ
todo_of (negsuc n) waiting = waiting
todo_of (pos zero) waiting = waiting
todo_of (pos (suc n)) waiting = if ltb waiting (suc n) then waiting else suc n

unfoldable pub start : List Letter → List (String × String) → State
start waiting published = record {
  waiting = waiting;
  unacked = [];
  published = published;
  handled = 0;
  skipped = 0;
  is_broken = false;
}

-- The letters that are not acknowledged go back to their places, by the last basic_nack, or by the broker
-- as the connection closes.
abbrev pub release : State → State
release s = record s { waiting = s.unacked ++ s.waiting; unacked = [] }

unfoldable pub run : Mode → ℤ → (ℕ → Answer) → List Letter → List (String × String) → State
unfolding handle_from start
run mode limit answers waiting published =
    release (handle_from mode answers (todo_of limit (length waiting)) 0 (start waiting published))
