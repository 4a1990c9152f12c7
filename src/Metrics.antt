-- ===== src/Metrics.antt =====
-- The text of /metrics in src/metrics/metrics.py: the classes of the counters, the families and their lines.
-- A value is known by its text form, and a key of a counter has no line break.
pub mod Complete
pub mod Examples
use Prim.Native.String.{[], ◌∷◌}
use flow_first.Base.{
  ℕ, String, Bool, true, false, not, ◌&&◌, Option, none, some, List, [], ◌∷◌, ◌++◌, map, Char, code,
  leb, eqb, ◌==◌, if◌then◌else◌,
}
use flow_first.Base.Int.{pos}
use flow_first.Base.Dict.{Dict, get_or, get, keys, put}
use flow_first.Base.Text.{is_empty, after_prefix, concat}
use flow_first.Numbers.{text_of_int}
use flow_first.Greenthreads.Report.{sorted}

abbrev pub Labels : Type 0
Labels = List (String × String)

pub record Sample : Type 0 where
  pub labels : Labels
  pub value : String

-- a gauge: its help text, and what its function returns, or `none` if it raises
pub record Gauge : Type 0 where
  pub name : String
  pub help_text : String
  pub samples : Option (List Sample)

abbrev is_digit : ℕ → Bool
is_digit c = leb b'0' c && leb c b'9'

-- the digits at the start of a text, and what follows them
unfoldable pub digits : String → String × String
digits [] = ([], [])
digits (c ∷ s) =
    let (ds, rest) = digits s in if is_digit (code c) then (c ∷ ds, rest) else ([], c ∷ s)

-- what follows an underscore, if it is not empty
abbrev event_of : Option String → Option String
event_of none = none
event_of (some event) = if is_empty event then none else some event

abbrev with_flow : String × String → Option (String × String)
with_flow (flow, rest) =
    if is_empty flow
    then none
    else elim (event_of (after_prefix "_" rest)) [ none ↦ none | some event ↦ some (flow, event) ]

abbrev flow_of : Option String → Option (String × String)
flow_of none = none
flow_of (some rest) = with_flow (digits rest)

-- _MESSAGES.match
unfoldable pub match_message : String → Option (String × String)
unfolding after_prefix digits is_empty
match_message key = flow_of (after_prefix "flow" key)

abbrev class_of : Option String → Option String
class_of none = none
class_of (some []) = none
class_of (some (c ∷ rest)) = if is_digit (code c) && (rest == "xx") then some (c ∷ rest) else none

-- _HTTP.match
unfoldable pub match_http : String → Option String
unfolding after_prefix
match_http key = class_of (after_prefix "http_" key)

abbrev escaped : Char → String
escaped c =
    if eqb (code c) 92
    then "\\\\"
    else if eqb (code c) b'"'
    then "\\\""
    else if eqb (code c) 10
    then "\\n"
    else c ∷ []

-- _esc
unfoldable pub esc : String → String
unfolding concat
esc [] = []
esc (c ∷ s) = concat (escaped c ∷ esc s ∷ [])

abbrev pair : String → String → String
pair k v = concat (k ∷ "=\"" ∷ esc v ∷ "\"" ∷ [])

-- ",".join
unfoldable pub inner : Labels → String
unfolding concat esc
inner [] = []
inner ((k, v) ∷ []) = pair k v
inner ((k, v) ∷ next ∷ rest) = concat (pair k v ∷ "," ∷ inner (next ∷ rest) ∷ [])

-- {**base, **labels}
unfoldable pub merge_labels : Labels → Labels → Labels
unfolding put
merge_labels base [] = base
merge_labels base ((k, v) ∷ labels) = merge_labels (put base k v) labels

-- _line, with the labels of the process
unfoldable pub line : Labels → String → Sample → String
unfolding concat inner merge_labels
line base name sample =
    concat (name ∷ "{" ∷ inner (merge_labels base sample.labels) ∷ "} " ∷ sample.value ∷ [])

unfoldable pub family : Labels → String → String → String → List Sample → List String
unfolding concat line
family base name kind help_text [] = []
family base name kind help_text (sample ∷ samples) =
    concat ("# HELP " ∷ name ∷ " " ∷ help_text ∷ [])
    ∷ concat ("# TYPE " ∷ name ∷ " " ∷ kind ∷ [])
    ∷ map (line base name) (sample ∷ samples)

pub record Buckets : Type 0 where
  pub messages : List Sample
  pub events : List Sample
  pub http : List Sample

-- where a counter goes
abbrev pub place : Option (String × String) → Option String → String → String → Buckets → Buckets
place (some (flow, event)) h key value buckets = record buckets {
  messages =
      record { labels = ("flow", flow) ∷ ("event", event) ∷ []; value = value } ∷ buckets.messages;
}
place none (some class) key value buckets = record buckets {
  http = record { labels = ("class", class) ∷ []; value = value } ∷ buckets.http;
}
place none none key value buckets = record buckets {
  events = record { labels = ("event", key) ∷ []; value = value } ∷ buckets.events;
}

-- the loop over sorted(gt.metrics_snapshot().items())
unfoldable pub collect : Dict ℕ → List String → Buckets
unfolding match_message match_http get text_of_int
collect counters [] = record { messages = []; events = []; http = [] }
collect counters (key ∷ rest) =
    place (match_message key) (match_http key) key (text_of_int (pos (get_or counters key 0)))
      (collect counters rest)

abbrev pub plain : String → List Sample
plain value = record { labels = []; value = value } ∷ []

-- the gauges in the order in which they are given, without those that raise
unfoldable pub gauges : Labels → List Gauge → List String
unfolding family
gauges base [] = []
gauges base (gauge ∷ rest) =
    elim gauge.samples [
      | none ↦ []
      | some samples ↦ family base gauge.name "gauge" gauge.help_text samples
    ]
    ++ gauges base rest

-- what a process shows of itself
pub record Shown : Type 0 where
  pub node : String
  pub counters : Dict ℕ
  pub start_time : String
  pub greenthreads : String
  pub is_stopping : Bool
  -- _gauges, sorted by their names
  pub registered : List Gauge

module _ (shown : Shown) (process : String) where
  abbrev pub base : Labels
  base = ("node", shown.node) ∷ ("process", process) ∷ []

  abbrev pub buckets : Buckets
  buckets = collect shown.counters (sorted (keys shown.counters))

  abbrev pub own_gauges : List String
  own_gauges =
      family base "flowfirst_up" "gauge" "1 while the process is running and answering scrapes."
        (plain "1")
      ++ family base "flowfirst_start_time_seconds" "gauge" "Unix time the process started."
          (plain shown.start_time)
      ++ family base "flowfirst_greenthreads" "gauge"
          "Greenthreads this process is running. 0 on a standby (not-leader) process."
          (plain shown.greenthreads)
      ++ family base "flowfirst_stopping" "gauge" "1 once the process was asked to stop."
          (plain (if shown.is_stopping then "1" else "0"))

  abbrev pub message_lines : List String
  message_lines =
      family base "flowfirst_messages_total" "counter"
        "Messages handled by this process since it started, by flow and event (published, processed, persisted, failed, ...)."
        buckets.messages

  abbrev pub http_lines : List String
  http_lines =
      family base "flowfirst_http_responses_total" "counter"
        "HTTP responses sent by the REST API by status class (API Gateway (Process 1) only)."
        buckets.http

  abbrev pub event_lines : List String
  event_lines =
      family base "flowfirst_events_total" "counter"
        "Other process events since start (e.g. dedup_reaped)." buckets.events

  abbrev pub gauge_lines : List String
  gauge_lines = own_gauges ++ gauges base shown.registered

  -- the lines of render, which it joins and ends with line breaks
  unfoldable pub render : List String
  unfolding family collect gauges sorted keys
  render = message_lines ++ http_lines ++ event_lines ++ gauge_lines
