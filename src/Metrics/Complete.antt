-- ===== src/Metrics/Complete.antt =====
-- Every counter is in the text of src/metrics/metrics.py, whatever the gauges do.
use flow_first.Base.{
  ℕ, String, Option, none, some, List, [], ◌∷◌, ◌++◌, ◌≡◌, refl, ap, subst, ◌∙◌, Member, here,
  later, map, Member.here, Member.later, contains-Member,
}
use flow_first.Base.Int.{pos}
use flow_first.Base.Dict.{Dict, get, get_or, keys, is_some, contains-keys}
use flow_first.Numbers.{text_of_int}
use flow_first.Greenthreads.Report.{sorted, contains-sorted}
use flow_first.Metrics.{
  Labels, Sample, Buckets, Shown, match_message, match_http, line, family, place, collect, base,
  buckets, message_lines, http_lines, event_lines, gauge_lines, render,
}

-- the sample of a counter
abbrev pub sample_of : Option (String × String) → Option String → String → String → Sample
sample_of (some (flow, event)) h key value = record {
  labels = ("flow", flow) ∷ ("event", event) ∷ [];
  value = value;
}
sample_of none (some class) key value = record { labels = ("class", class) ∷ []; value = value }
sample_of none none key value = record { labels = ("event", key) ∷ []; value = value }

-- the family of a counter
abbrev pub family_of : Option (String × String) → Option String → String
family_of (some fe) h = "flowfirst_messages_total"
family_of none (some class) = "flowfirst_http_responses_total"
family_of none none = "flowfirst_events_total"

abbrev bucket_of : Option (String × String) → Option String → Buckets → List Sample
bucket_of (some fe) h b = b.messages
bucket_of none (some class) b = b.http
bucket_of none none b = b.events

place-new :
    (m : Option (String × String)) (h : Option String) (key value : String) (b : Buckets)
    → Member (sample_of m h key value) (bucket_of m h (place m h key value b))
place-new (some fe) h key value b = here refl
place-new none (some class) key value b = here refl
place-new none none key value b = here refl

place-old :
    (m n : Option (String × String)) (h i : Option String) (key value : String) (b : Buckets)
    (s : Sample)
    → Member s (bucket_of m h b)
    → Member s (bucket_of m h (place n i key value b))
place-old (some fe) (some x) h i key value b s e = later e
place-old (some fe) none h (some x) key value b s e = e
place-old (some fe) none h none key value b s e = e
place-old none (some x) (some c) i key value b s e = e
place-old none (some x) none i key value b s e = e
place-old none none (some c) (some x) key value b s e = later e
place-old none none (some c) none key value b s e = e
place-old none none none (some x) key value b s e = e
place-old none none none none key value b s e = later e

map-Member :
    {A B : Type 0} (f : A → B) (a : A) (xs : List A) → Member a xs → Member (f a) (map f xs)
map-Member f a [] h = elim h [ ]
map-Member f a (x ∷ xs) (here e) = here (ap f e)
map-Member f a (x ∷ xs) (later h) = later (map-Member f a xs h)

family-Member :
    (labels : Labels) (name kind help_text : String) (s : Sample) (samples : List Sample)
    → Member s samples
    → Member (line labels name s) (family labels name kind help_text samples)
unfolding family
family-Member labels name kind help_text s [] h = elim h [ ]
family-Member labels name kind help_text s (x ∷ samples) h =
    later (later (map-Member (line labels name) s (x ∷ samples) h))

module _ {A : Type 0} where
  Member-left : (a : A) (xs ys : List A) → Member a xs → Member a (xs ++ ys)
  Member-left a [] ys h = elim h [ ]
  Member-left a (x ∷ xs) ys (here e) = here e
  Member-left a (x ∷ xs) ys (later h) = later (Member-left a xs ys h)

  Member-right : (a : A) (xs ys : List A) → Member a ys → Member a (xs ++ ys)
  Member-right a [] ys h = h
  Member-right a (x ∷ xs) ys h = later (Member-right a xs ys h)

module _ (counters : Dict ℕ) (key : String) where
  abbrev pub value_of : String
  value_of = text_of_int (pos (get_or counters key 0))

  -- the key's sample is in its bucket
  abbrev Placed : Buckets → Type 0
  Placed b =
      Member (sample_of (match_message key) (match_http key) key value_of)
        (bucket_of (match_message key) (match_http key) b)

  collect-Placed : (ks : List String) → Member key ks → Placed (collect counters ks)
  unfolding collect
  collect-Placed [] h = elim h [ ]
  collect-Placed (k ∷ ks) (here e) =
      subst
        (λ j. Placed (
          place (match_message j) (match_http j) j (text_of_int (pos (get_or counters j 0)))
            (collect counters ks)))
        e (place-new (match_message key) (match_http key) key value_of (collect counters ks))
  collect-Placed (k ∷ ks) (later h) =
      place-old (match_message key) (match_message k) (match_http key) (match_http k) k _
        (collect counters ks) _ (collect-Placed ks h)

-- the line of a counter
abbrev pub counter_line : Shown → String → String → String
counter_line shown process key =
    line (base shown process) (family_of (match_message key) (match_http key))
      (sample_of (match_message key) (match_http key) key (value_of shown.counters key))

counted-Member :
    (shown : Shown) (process : String) (s : Sample) (m : Option (String × String))
    (h : Option String)
    → Member s (bucket_of m h (buckets shown process))
    → Member
        (line (base shown process) (family_of m h) s)
        (message_lines shown process ++ http_lines shown process ++ event_lines shown process)
counted-Member shown process s (some fe) h e =
    Member-left _ (message_lines shown process ++ http_lines shown process)
      (event_lines shown process)
      (Member-left _ (message_lines shown process) (http_lines shown process)
        (family-Member (base shown process) _ _ _ s (buckets shown process).messages e))
counted-Member shown process s none (some class) e =
    Member-left _ (message_lines shown process ++ http_lines shown process)
      (event_lines shown process)
      (Member-right _ (message_lines shown process) (http_lines shown process)
        (family-Member (base shown process) _ _ _ s (buckets shown process).http e))
counted-Member shown process s none none e =
    Member-right _ (message_lines shown process ++ http_lines shown process)
      (event_lines shown process)
      (family-Member (base shown process) _ _ _ s (buckets shown process).events e)

render-by :
    (shown : Shown) (process : String) (m : Option (String × String)) (h : Option String)
    (s : Sample)
    → Member s (bucket_of m h (buckets shown process))
    → Member (line (base shown process) (family_of m h) s) (render shown process)
unfolding render
render-by shown process m h s e =
    Member-left _
      (message_lines shown process ++ http_lines shown process ++ event_lines shown process)
      (gauge_lines shown process) (counted-Member shown process s m h e)

-- Whatever the gauges return or raise, the text has for each counter the line of its class: the family of
-- the messages by flow and event, that of the answers by class, or that of the other events, with the
-- node, the process and the counter's value.
pub render-Member :
    (shown : Shown) (process key : String) (n : ℕ)
    → get shown.counters key ≡ some n
    → Member (counter_line shown process key) (render shown process)
render-Member shown process key n found =
    render-by shown process (match_message key) (match_http key)
      (sample_of (match_message key) (match_http key) key (value_of shown.counters key))
      (collect-Placed shown.counters key (sorted (keys shown.counters)) (
        contains-Member (sorted (keys shown.counters)) key (
          contains-sorted key (keys shown.counters)
          ∙ contains-keys shown.counters key
          ∙ ap is_some found)))
