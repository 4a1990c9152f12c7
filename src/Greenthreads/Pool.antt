-- ===== src/Greenthreads/Pool.antt =====
-- The named greenthreads of src/gt/gt.py: the tables _greenthreads and _restart_policy, the operations
-- spawn, kill and list_greenthreads on them, and what a greenthread's wrapper does when its function ends.
-- A handle is known by its number. The pool's own scheduling is eventlet's, so that what happens is an
-- event, in any order.
use flow_first.Base.{
  ℕ, zero, suc, String, Bool, true, false, not, Option, none, some, List, [], ◌∷◌, eqb,
  if◌then◌else◌, any, keep,
}
use flow_first.Base.Int.{ℤ, pos, negsuc}
use flow_first.Base.Text.{concat}
use flow_first.Numbers.{text_of_int}
use flow_first.Base.Dict.{Dict, get, get_or, put, pop, keys}

pub record Thread : Type 0 where
  pub handle : ℕ
  pub name : String

pub record Pool : Type 0 where
  -- the greenthreads whose wrapper has not ended, and the handles of those that have run
  pub running : List Thread
  pub started : List ℕ
  pub greenthreads : Dict ℕ
  pub restart_policy : Dict Bool
  -- the handles that were given so far
  pub spawned : ℕ

unfoldable pub no_threads : Pool
no_threads = record {
  running = [];
  started = [];
  greenthreads = [];
  restart_policy = [];
  spawned = 0;
}

abbrev pub has_handle : ℕ → Thread → Bool
has_handle h t = eqb t.handle h

-- the pool without one of its greenthreads
abbrev pub without : ℕ → List Thread → List Thread
without h threads = keep (λ t. not (has_handle h t)) threads

abbrev pub find : ℕ → List Thread → Option Thread
find h [] = none
find h (t ∷ rest) = let other = find h rest in if has_handle h t then some t else other

-- spawn(name, fn, restart_on_error=…)
unfoldable pub spawn : String → Bool → Pool → Pool
unfolding put
spawn name restart_on_error pool = record pool {
  running = record { handle = pool.spawned; name = name } ∷ pool.running;
  greenthreads = put pool.greenthreads name pool.spawned;
  restart_policy = put pool.restart_policy name restart_on_error;
  spawned = suc pool.spawned;
}

-- the name of the i-th copy
unfoldable pub consumer_name : String → ℕ → String
unfolding text_of_int concat
consumer_name name i = if eqb i 1 then name else concat (name ∷ "_" ∷ text_of_int (pos i) ∷ [])

-- the copies from the i-th on
unfoldable pub spawn_copies : String → ℕ → ℕ → Pool → Pool
unfolding spawn consumer_name
spawn_copies name zero i pool = pool
spawn_copies name (suc left) i pool =
    spawn_copies name left (suc i) (spawn (consumer_name name i) true pool)

-- range(1, max(1, int(count)) + 1)
abbrev copies : ℤ → ℕ
copies (pos zero) = 1
copies (pos (suc n)) = suc n
copies (negsuc n) = 1

unfoldable pub spawn_consumers : String → ℤ → Pool → Pool
unfolding spawn_copies
spawn_consumers name count pool = spawn_copies name (copies count) 1 pool

-- the end of _wrapper
unfoldable pub leave : Thread → Pool → Pool
unfolding keep pop
leave t pool = record pool {
  running = without t.handle pool.running;
  greenthreads = pop pool.greenthreads t.name;
}

-- `except Exception` in _wrapper: without a restart the loop breaks, with one it goes round after 2 s
unfoldable pub crash : Thread → Pool → Pool
unfolding leave
crash t pool = if get_or pool.restart_policy t.name false then pool else leave t pool

-- the entry that was popped: a greenthread is false in a test while it has not run, and the wrapper does
-- not catch the exception that kills it
abbrev pub kill_entry : Option ℕ → String → Pool → Pool
kill_entry none name pool = pool
kill_entry (some h) name pool = record pool {
  running = if any (eqb h) pool.started then without h pool.running else pool.running;
  greenthreads = pop pool.greenthreads name;
}

unfoldable pub kill : String → Pool → Pool
unfolding get pop keep any
kill name pool = kill_entry (get pool.greenthreads name) name pool

unfoldable pub list_greenthreads : Pool → List String
unfolding keys
list_greenthreads pool = keys pool.greenthreads

pub data Event : Type 0 where
  -- a call of spawn or of kill
  spawned : String → Bool → Event
  killed : String → Event
  -- a greenthread runs for the first time, its function returns, or it raises an Exception
  began returned raised : ℕ → Event

abbrev pub on_thread : Option Thread → (Thread → Pool → Pool) → Pool → Pool
on_thread none act pool = pool
on_thread (some t) act pool = act t pool

unfoldable pub step : Event → Pool → Pool
unfolding spawn kill leave crash
step (Event.spawned name restart_on_error) pool = spawn name restart_on_error pool
step (Event.killed name) pool = kill name pool
step (Event.began h) pool = record pool { started = h ∷ pool.started }
step (Event.returned h) pool = on_thread (find h pool.running) leave pool
step (Event.raised h) pool = on_thread (find h pool.running) crash pool

unfoldable pub run_events : List Event → Pool → Pool
unfolding step
run_events [] pool = pool
run_events (e ∷ events) pool = run_events events (step e pool)
