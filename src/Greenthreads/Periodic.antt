-- ===== src/Greenthreads/Periodic.antt =====
-- The shutdown of src/gt/gt.py: stop_event, _handle_signal and is_stopping, and the loop of `periodic`.
-- What arrives while the function runs and while the loop sleeps afterwards is a list of signals.
use flow_first.Base.{
  ℕ, zero, suc, String, Bool, true, false, Option, none, some, List, [], ◌∷◌, ◌≡◌, refl, any,
  if◌then◌else◌,
}
use flow_first.World.{World, Action}

pub data Signal : Type 0 where
  sigterm sigint : Signal

abbrev sig_name : Signal → String
sig_name Signal.sigterm = "SIGTERM"
sig_name Signal.sigint = "SIGINT"

-- the event's value, `none` before it is sent
abbrev pub StopEvent : Type 0
StopEvent = Option String

-- if not stop_event.ready(): stop_event.send(sig_name)
unfoldable pub handle_signal : Signal → StopEvent → StopEvent
handle_signal s none = some (sig_name s)
handle_signal s (some sent) = some sent

unfoldable pub is_stopping : StopEvent → Bool
is_stopping none = false
is_stopping (some sent) = true

unfoldable pub handle_signals : List Signal → StopEvent → StopEvent
unfolding handle_signal
handle_signals [] stop = stop
handle_signals (s ∷ signals) stop = handle_signals signals (handle_signal s stop)

-- What the loop has done when the last sleep that is given began, or when it ended.
pub record Observed : Type 0 where
  pub has_ended : Bool
  pub stop_event : StopEvent
  pub world : World

module _ (fn : Action (Unit {0})) where
  -- while not is_stopping(): fn(), whatever it raises; sleep
  unfoldable pub periodic_loop : List (List Signal) → StopEvent → World → Observed
  unfolding is_stopping handle_signals
  periodic_loop [] stop w =
      if is_stopping stop
      then record { has_ended = true; stop_event = stop; world = w }
      else record { has_ended = false; stop_event = stop; world = (fn w).1 }
  periodic_loop (signals ∷ sleeps) stop w =
      let next = periodic_loop sleeps (handle_signals signals stop) (fn w).1 in
      if is_stopping stop then record { has_ended = true; stop_event = stop; world = w } else next

  -- periodic(name, fn, interval_s, run_immediately)
  unfoldable pub periodic : Bool → List (List Signal) → StopEvent → World → Observed
  unfolding periodic_loop handle_signals
  periodic true sleeps stop w = periodic_loop sleeps stop w
  periodic false [] stop w = record { has_ended = false; stop_event = stop; world = w }
  periodic false (signals ∷ sleeps) stop w = periodic_loop sleeps (handle_signals signals stop) w

-- the sleeps before the first in which a signal arrived
abbrev pub is_signalled : List Signal → Bool
is_signalled [] = false
is_signalled (s ∷ signals) = true

unfoldable pub quiet : List (List Signal) → ℕ
quiet [] = 0
quiet (signals ∷ sleeps) = let more = quiet sleeps in if is_signalled signals then 0 else suc more

-- n calls, one after the other, whatever they raise
unfoldable pub repeat : ℕ → Action (Unit {0}) → World → World
repeat zero fn w = w
repeat (suc n) fn w = repeat n fn (fn w).1

pub handle_signals-some :
    (signals : List Signal) (s : String) → handle_signals signals (some s) ≡ some s
unfolding handle_signals
handle_signals-some [] s = refl
handle_signals-some (x ∷ signals) s = handle_signals-some signals s

pub is_stopping-handle_signals :
    (signals : List Signal) → is_stopping (handle_signals signals none) ≡ is_signalled signals
unfolding handle_signals is_stopping
is_stopping-handle_signals [] = refl
is_stopping-handle_signals (x ∷ signals) = rw (handle_signals-some signals (sig_name x))

-- Whether the loop has ended, and what it has done.
abbrev pub Ends : Bool → ℕ → Action (Unit {0}) → World → Observed → Type 0
Ends ended calls fn w o = (o.has_ended ≡ ended) × (o.world ≡ repeat calls fn w)

module _ (fn : Action (Unit {0})) where
  stopped_loop :
      (sleeps : List (List Signal)) (stop : StopEvent) (w : World)
      → is_stopping stop ≡ true
      → Ends true 0 fn w (periodic_loop fn sleeps stop w)
  unfolding periodic_loop repeat
  stopped_loop [] stop w h = rw h (refl, refl)
  stopped_loop (signals ∷ sleeps) stop w h = rw h (refl, refl)

  running_loop :
      (sleeps : List (List Signal)) (stop : StopEvent) (w : World)
      → is_stopping stop ≡ false
      → stop ≡ none
      → Ends (any is_signalled sleeps) (suc (quiet sleeps)) fn w (periodic_loop fn sleeps stop w)
  unfolding periodic_loop repeat quiet any
  running_loop [] stop w h n = rw h (refl, refl)
  running_loop ([] ∷ sleeps) stop w h n = rw (h, n) (running_loop sleeps none (fn w).1 refl refl)
  running_loop ((s ∷ signals) ∷ sleeps) stop w h n =
      rw (h, n)
        (stopped_loop sleeps (handle_signals (s ∷ signals) none) (fn w).1
          (is_stopping-handle_signals (s ∷ signals)))

-- If the process was not stopping, the loop has ended exactly if a signal arrived in one of the sleeps, and
-- until then it has called the function once after each sleep, and once more at the start with
-- run_immediately; whatever the calls raise.
pub periodic-Ends :
    (fn : Action (Unit {0})) (run_immediately : Bool) (sleeps : List (List Signal)) (w : World)
    → Ends
        (any is_signalled sleeps)
        (if run_immediately then suc (quiet sleeps) else quiet sleeps)
        fn
        w
        (periodic fn run_immediately sleeps none w)
unfolding periodic quiet any repeat
periodic-Ends fn true sleeps w = running_loop fn sleeps none w refl refl
periodic-Ends fn false [] w = (refl, refl)
periodic-Ends fn false ([] ∷ sleeps) w = running_loop fn sleeps none w refl refl
periodic-Ends fn false ((s ∷ signals) ∷ sleeps) w =
    stopped_loop fn sleeps (handle_signals (s ∷ signals) none) w
      (is_stopping-handle_signals (s ∷ signals))
