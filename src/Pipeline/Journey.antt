-- ===== src/Pipeline/Journey.antt =====
-- What a message keeps on its way through any number of hops, on any nodes, in any order.
use flow_first.Base.{
  ℕ, suc, ◌+◌, String, Bool, true, false, some, List, [], ◌∷◌, ◌≡◌, refl, arith, contains, all,
  all-contains, ◌∙◌, not,
}
use flow_first.Base.Result.{ok}
use flow_first.Json.{
  Json, Fields, Items, get_field, append_item, item_count, item_count-append_item,
}
use flow_first.Env.{Env}
use flow_first.Pipeline.{Hop, change, written}
use flow_first.Pipeline.Step.{change-Stepped}

-- `n` hops lead from the first message to the second.
pub data Travels : Fields → ℕ → Fields → Type 0 where
  arrived : {msg : Fields} → Travels msg 0 msg
  hop_on :
      {msg msg' msg'' : Fields} {n : ℕ} (env : Env) (hop : Hop)
      → Travels msg n msg'
      → change env hop msg' ≡ ok msg''
      → Travels msg (suc n) msg''

-- the fields by which the later processes know a message and its device
abbrev pub identity_fields : List String
identity_fields =
    "message_id" ∷ "flow" ∷ "item_id" ∷ "device_id" ∷ "device_name" ∷ "device_type" ∷ "location"
    ∷ "updates" ∷ "remote_metric" ∷ []

abbrev untouched_by : Hop → String → Bool
untouched_by hop key = not (contains ("history" ∷ written hop) key)

never_written : (hop : Hop) → all (untouched_by hop) identity_fields ≡ true
unfolding all contains
never_written Hop.transform_flow1 = refl
never_written Hop.transform_flow2 = refl
never_written Hop.transform_flow3 = refl
never_written Hop.transform_flow4 = refl
never_written Hop.transform_flow5 = refl
never_written Hop.transform_flow6 = refl
never_written Hop.transform_flow6_return = refl
never_written Hop.transform_flow7 = refl
never_written Hop.forward_flow1 = refl
never_written Hop.forward_flow2 = refl
never_written Hop.forward_flow4 = refl
never_written Hop.forward_flow5 = refl
never_written Hop.forward_flow6 = refl
never_written Hop.forward_flow7 = refl
never_written Hop.remote_flow3 = refl
never_written Hop.remote_flow6 = refl

untouched :
    (hop : Hop) (key : String)
    → contains identity_fields key ≡ true
    → contains ("history" ∷ written hop) key ≡ false
untouched hop key m =
    let kept = all-contains (untouched_by hop) identity_fields key (never_written hop) m in
    ground arith

-- However many hops a message makes, in whatever order and on whatever nodes, it keeps the fields that
-- identify it and its device, the updates and the metric, and its history, if it came as a list, has one
-- more entry for each hop.
pub Travels-kept :
    {msg msg' : Fields} {n : ℕ}
    → Travels msg n msg'
    → ((key : String)
        → contains identity_fields key ≡ true
        → get_field msg' key ≡ get_field msg key)
      × ((l : Items)
          → get_field msg "history" ≡ some (Json.arr l)
          → (l' : Items) × (get_field msg' "history" ≡ some (Json.arr l'))
            × (item_count l' ≡ item_count l + n))
Travels-kept arrived = (λ key m. refl, λ l h. (l, h, omega arith))
Travels-kept {msg' = msg''} (hop_on {msg' = msg'} env hop before step) =
    let (same, longer) = Travels-kept before in
    let (l, entry, old, new, node, frame) = change-Stepped env msg' hop msg'' step in
    (
      λ key m. frame key (untouched hop key m) ∙ same key m,
      λ l0 h.
          let (l1, e1, count) = longer l0 h in
          (
            append_item l (Json.obj entry),
            new,
            ground (arith, item_count-append_item l (Json.obj entry)),
          ),
    )
