-- ===== src/Pipeline/Step.antt =====
-- What one hop does to a message.
use flow_first.Base.{
  ℕ, String, false, Option, none, some, List, [], ◌∷◌, ◌≡◌, refl, sym, ap, ◌∙◌, arith, contains,
}
use flow_first.Base.Result.{Result, ok, raise, ◌>>=◌}
use flow_first.Json.{Json, Fields, end, Items, get_field, put_field, append_item, get-put_field}
use flow_first.Relay.{append_history, append_to}
use flow_first.Base.Int.{pos}
use flow_first.Numbers.{int, float, as_number, plus, product}
use flow_first.Env.{Env, put_fields, field_or, entry_fields, stage, int_setting, float_setting}
use flow_first.Transformer.Changes.{query_changed}
use flow_first.Transformer.Changes
use flow_first.Forwarder
use flow_first.RemoteWorker
use flow_first.Pipeline.{Hop, change, written}

-- Whatever the call returns has the property.
abbrev Gives : {A : Type 0} → (A → Type 0) → Result A → Type 0
Gives {A} P r = (a : A) → r ≡ ok a → P a

bind-Gives :
    {A B : Type 0} {P : B → Type 0} (r : Result A) {rest : A → Result B}
    → ((a : A) → Gives P (rest a))
    → Gives P (r >>= rest)
bind-Gives (ok a) step b h = step a b h
bind-Gives (raise e) step b h = ground arith

keys_written : List (String × Json) → List String
keys_written [] = []
keys_written ((key, v) ∷ rest) = key ∷ keys_written rest

get-put_fields :
    (msg : Fields) (kvs : List (String × Json)) (key : String)
    → contains (keys_written kvs) key ≡ false
    → get_field (put_fields msg kvs) key ≡ get_field msg key
unfolding keys_written contains put_fields
get-put_fields msg [] key h = refl
get-put_fields msg ((k, v) ∷ rest) key h =
    ground (arith, get-put_fields (put_field msg k v) rest key, get-put_field msg k key v)

-- The history has one more entry, at its end and of the node, and every field that is not among `keys`
-- is as it was.
abbrev pub Stepped : Env → List String → Fields → Fields → Type 0
Stepped env keys msg msg' =
    (l : Items) × (entry : Fields) × (get_field msg "history" ≡ some (Json.arr l))
    × (get_field msg' "history" ≡ some (Json.arr (append_item l (Json.obj entry))))
    × (get_field entry "processed_by" ≡ some (Json.str env.node_name))
    × ((key : String)
        → contains ("history" ∷ keys) key ≡ false
        → get_field msg' key ≡ get_field msg key)

pub append_to_cases :
    (msg msg' : Fields) (entry : Json) (history : Option Json)
    → append_to msg entry history ≡ ok msg'
    → (l : Items) × (history ≡ some (Json.arr l))
      × (put_field msg "history" (Json.arr (append_item l entry)) ≡ msg')
append_to_cases msg msg' entry none h = ground arith
append_to_cases msg msg' entry (some (Json.arr l)) h = (l, refl, ground arith)
append_to_cases msg msg' entry (some Json.null) h = ground arith
append_to_cases msg msg' entry (some (Json.bool b)) h = ground arith
append_to_cases msg msg' entry (some (Json.int n)) h = ground arith
append_to_cases msg msg' entry (some (Json.float x)) h = ground arith
append_to_cases msg msg' entry (some (Json.str s)) h = ground arith
append_to_cases msg msg' entry (some (Json.obj d)) h = ground arith

append_history-Stepped :
    (env : Env) (msg : Fields) (kvs : List (String × Json)) (n : ℕ) (name : String)
    (rest : List (String × Json))
    → contains (keys_written kvs) "history" ≡ false
    → Gives
        (Stepped env (keys_written kvs) msg)
        (append_history (put_fields msg kvs) (stage env n name rest))
unfolding append_history contains get_field put_fields stage
append_history-Stepped env msg kvs n name rest fresh msg' h =
    let (l, found, e) = append_to_cases (put_fields msg kvs) msg' (stage env n name rest) _ h in
    (
      l,
      entry_fields env n name rest,
      sym (get-put_fields msg kvs "history" fresh) ∙ found,
      ap (λ m. get_field m "history") (sym e)
          ∙ get-put_field (put_fields msg kvs) "history" "history"
              (Json.arr (append_item l (stage env n name rest))),
      refl,
      λ key other. ground (
        arith,
        get-put_field (put_fields msg kvs) "history" key
            (Json.arr (append_item l (stage env n name rest))),
        get-put_fields msg kvs key,
      ),
    )

module _ (env : Env) (msg : Fields) where
  transform_flow1-Stepped :
      Gives (Stepped env (written Hop.transform_flow1) msg) (Changes.change_flow1 env msg)
  unfolding Changes.change_flow1 keys_written contains
  transform_flow1-Stepped = bind-Gives (int_setting env "flow1_counter_step" (pos 10)) λ step.
      bind-Gives (as_number (field_or msg "counter" (Json.int (pos 0)))) λ counter.
        bind-Gives (plus env.floats counter (int step))
          λ sum. append_history-Stepped env msg _ 0 _ _ refl

  transform_flow2-Stepped :
      Gives (Stepped env (written Hop.transform_flow2) msg) (Changes.change_flow2 env msg)
  unfolding Changes.change_flow2 keys_written contains
  transform_flow2-Stepped =
      bind-Gives (float_setting env "flow2_high_threshold" "30.0") λ threshold.
        bind-Gives (float_setting env "flow2_scale_factor" "1.15") λ factor.
          bind-Gives (as_number (field_or msg "value" (Json.float "0.0"))) λ val.
            bind-Gives (product env.floats val (float factor))
              λ scaled. append_history-Stepped env msg _ 0 _ _ refl

  transform_flow5-Stepped :
      (filters : Json)
      → Gives (Stepped env (written Hop.transform_flow5) msg) (query_changed env msg filters)
  unfolding keys_written contains
  transform_flow5-Stepped (Json.obj filters) = append_history-Stepped env msg _ 1 _ _ refl
  transform_flow5-Stepped Json.null = λ a h. ground arith
  transform_flow5-Stepped (Json.bool b) = λ a h. ground arith
  transform_flow5-Stepped (Json.int n) = λ a h. ground arith
  transform_flow5-Stepped (Json.float x) = λ a h. ground arith
  transform_flow5-Stepped (Json.str s) = λ a h. ground arith
  transform_flow5-Stepped (Json.arr l) = λ a h. ground arith

  remote_flow3-Stepped :
      Gives (Stepped env (written Hop.remote_flow3) msg) (RemoteWorker.change_flow3 env msg)
  unfolding RemoteWorker.change_flow3 keys_written contains
  remote_flow3-Stepped = bind-Gives (int_setting env "flow3_remote_multiplier" (pos 2)) λ step.
      bind-Gives (as_number (field_or msg "remote_metric" (Json.float "50.0"))) λ initial.
        bind-Gives (product env.floats initial (int step)) λ scaled.
          bind-Gives (plus env.floats scaled (float "7.5"))
            λ moved. append_history-Stepped env msg _ 0 _ _ refl

  hop-Stepped : (hop : Hop) → Gives (Stepped env (written hop) msg) (change env hop msg)
  unfolding change Changes.change_flow3 Changes.change_flow4 Changes.change_flow5
      Changes.change_flow6 Changes.change_flow6_remote_return Changes.change_flow7
      Forwarder.change_flow1 Forwarder.change_flow2 Forwarder.change_flow4 Forwarder.change_flow5
      Forwarder.change_flow6 Forwarder.change_flow7 RemoteWorker.change_flow6 keys_written contains
  hop-Stepped Hop.transform_flow1 = transform_flow1-Stepped
  hop-Stepped Hop.transform_flow2 = transform_flow2-Stepped
  hop-Stepped Hop.transform_flow3 = append_history-Stepped env msg _ 0 _ _ refl
  hop-Stepped Hop.transform_flow4 = append_history-Stepped env msg _ 1 _ _ refl
  hop-Stepped Hop.transform_flow5 = transform_flow5-Stepped (field_or msg "filters" (Json.obj end))
  hop-Stepped Hop.transform_flow6 =
      bind-Gives (int_setting env "flow6_update_seq" env.now_ms)
        λ seq. append_history-Stepped env msg _ 0 _ _ refl
  hop-Stepped Hop.transform_flow6_return = append_history-Stepped env msg _ 0 _ _ refl
  hop-Stepped Hop.transform_flow7 =
      bind-Gives (int_setting env "flow7_grace_period_s" (pos 0))
        λ grace. append_history-Stepped env msg _ 0 _ _ refl
  hop-Stepped Hop.forward_flow1 = append_history-Stepped env msg _ 0 _ _ refl
  hop-Stepped Hop.forward_flow2 = append_history-Stepped env msg _ 0 _ _ refl
  hop-Stepped Hop.forward_flow4 = append_history-Stepped env msg _ 0 _ _ refl
  hop-Stepped Hop.forward_flow5 = append_history-Stepped env msg _ 0 _ _ refl
  hop-Stepped Hop.forward_flow6 = append_history-Stepped env msg _ 0 _ _ refl
  hop-Stepped Hop.forward_flow7 = append_history-Stepped env msg _ 0 _ _ refl
  hop-Stepped Hop.remote_flow3 = remote_flow3-Stepped
  hop-Stepped Hop.remote_flow6 = append_history-Stepped env msg _ 0 _ _ refl

  -- A hop that returns adds one entry to the end of the history, in the name of its node, and leaves
  -- every field as it was but the history and those that the table names for it.
  pub change-Stepped :
      (hop : Hop) (msg' : Fields)
      → change env hop msg ≡ ok msg'
      → Stepped env (written hop) msg msg'
  change-Stepped hop msg' h = hop-Stepped hop msg' h
