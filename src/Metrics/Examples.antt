-- ===== src/Metrics/Examples.antt =====
-- Tests of the text of the metrics.
use flow_first.Base.{
  ℕ, String, Bool, true, false, Option, none, some, List, [], ◌∷◌, ◌≡◌, refl, Member,
}
use flow_first.Base.Dict.{Dict}
use flow_first.Metrics.{Shown, match_message, match_http, esc, render}
use flow_first.Metrics.Complete.{counter_line, render-Member}

message_key : match_message "flow12_dedup_skipped" ≡ some ("12", "dedup_skipped")
unfolding match_message
message_key = refl

no_event : match_message "flow1_" ≡ none
unfolding match_message
no_event = refl

http_key : match_http "http_5xx" ≡ some "5xx"
unfolding match_http
http_key = refl

escaped_text : esc "a\"b\\" ≡ "a\\\"b\\\\"
unfolding esc
escaped_text = refl

-- one gauge raises
abbrev shown : Shown
shown = record {
  node = "n1";
  counters = ("http_2xx", 7) ∷ ("flow1_published", 3) ∷ [];
  start_time = "100";
  greenthreads = "2";
  is_stopping = false;
  registered =
      record { name = "flowfirst_broken"; help_text = "Raises."; samples = none }
      ∷ record { name = "flowfirst_silent"; help_text = "No samples."; samples = some [] }
      ∷ [];
}

published_line :
    counter_line shown "api_gateway" "flow1_published"
    ≡ "flowfirst_messages_total{node=\"n1\",process=\"api_gateway\",flow=\"1\",event=\"published\"} 3"
unfolding match_message flow_first.Metrics.line flow_first.Numbers.text_of_int
    flow_first.Base.Dict.get
published_line = refl

render-Member_example :
    Member (counter_line shown "api_gateway" "http_2xx") (render shown "api_gateway")
unfolding flow_first.Base.Dict.get
render-Member_example = render-Member shown "api_gateway" "http_2xx" 7 refl
