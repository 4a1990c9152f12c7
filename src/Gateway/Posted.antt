-- ===== src/Gateway/Posted.antt =====
-- What the routes of do_POST publish and write, and whom they let through.
use flow_first.Base.{
  ℕ, zero, suc, ◌+◌, String, Bool, true, false, Option, none, some, List, ltb, ◌≡◌, refl, ◌∙◌, inl,
  inr, arith, Bool-cases,
}
use flow_first.Base.Int.{ℤ, pos, negsuc}
use flow_first.Json.{Json, Fields}
use flow_first.World.{World, Action, basic_publish, count_event}
use flow_first.World.Frames.{Keeps, lift-Keeps, bind-Keeps}
use flow_first.Env.{Env, int_setting, field_or}
use flow_first.Numbers.{int_of}
use flow_first.Gateway.Publish.{
  send, default_value, item_of, publish_flow1_message, publish_flow2_message, publish_flow3_message,
  publish_flow4_message, publish_flow5_message,
}
use flow_first.Gateway.Gates.{
  Server, Call, Reply, answer, require_auth, require_authz, authorized, authenticated, gated,
}
use flow_first.Gateway.Post.{
  Batch, batch_from, batch_answer, run_batch, counted_batch, sent, int_field, float_field, env_at,
  uuid_at, batch_flow1, batch_flow2, empty_batch, null_or, post_flow1, post_flow2, post_flow3,
  post_batch, post_device, post_query,
}

abbrev pub config_of : World → List (String × String)
config_of w = w.config

answer-Keeps : (status : ℕ) (p : Option Fields) → Keeps config_of (answer status p)
unfolding count_event
answer-Keeps status p w = refl

module _ (env : Env) (uuid : ℕ → String) where
  send-Keeps :
      (queue event : String) (payload : Fields)
      → Keeps config_of (send env uuid queue event payload)
  unfolding send basic_publish count_event
  send-Keeps queue event payload w = ground arith

  publish_flow1-Keeps :
      (item counter : Option ℤ) (text : Json)
      → Keeps config_of (publish_flow1_message env uuid item text counter)
  unfolding publish_flow1_message
  publish_flow1-Keeps item counter text =
      lift-Keeps config_of (int_setting env "flow1_counter_step" (pos 10)) _
        (λ step. send-Keeps _ _ _)

  publish_flow2-Keeps :
      (item : Option ℤ) (text : Json) (x : Option String)
      → Keeps config_of (publish_flow2_message env uuid item text x)
  unfolding publish_flow2_message
  publish_flow2-Keeps item text x =
      lift-Keeps config_of (default_value env uuid "25.0" 10 "1.5" (item_of env uuid item) x) _
        (λ v. send-Keeps _ _ _)

  publish_flow3-Keeps :
      (item : Option ℤ) (text : Json) (x : Option String)
      → Keeps config_of (publish_flow3_message env uuid item text x)
  unfolding publish_flow3_message
  publish_flow3-Keeps item text x =
      lift-Keeps config_of (default_value env uuid "45.0" 15 "2.2" (item_of env uuid item) x) _
        (λ v. send-Keeps _ _ _)

module _ (server : Server) (call : Call) where
  pub gated-Keeps :
      (resource : String) (work : Action Reply)
      → Keeps config_of work
      → Keeps config_of (gated server call resource work)
  unfolding gated
  gated-Keeps resource work kept = lift-Keeps config_of (require_auth server call) _ passed
    where
      let_through : (b : Bool) → Keeps config_of (authorized server call work b)
      let_through true = kept
      let_through false = answer-Keeps 403 none

      passed :
          (label : Option String) → Keeps config_of (authenticated server call resource work label)
      passed none = answer-Keeps 401 none
      passed (some label) =
          lift-Keeps config_of (require_authz server call label "publish" resource) _ let_through

  pub sent-Keeps :
      (work : Action Fields) → Keeps config_of work → Keeps config_of (sent server call work)
  sent-Keeps work kept =
      bind-Keeps config_of work (λ p. answer 200 (some p)) kept (λ p. answer-Keeps 200 (some p))

  pub post_flow1-Keeps : (d : Fields) → Keeps config_of (post_flow1 server call d)
  unfolding post_flow1
  post_flow1-Keeps d = lift-Keeps config_of (int_field server call d "item_id") _ (λ item.
      lift-Keeps config_of (int_field server call d "counter") _ (λ counter.
        publish_flow1-Keeps server.env server.uuid item counter
          (null_or server call d "initial_data")))

  pub post_flow2-Keeps : (d : Fields) → Keeps config_of (post_flow2 server call d)
  unfolding post_flow2
  post_flow2-Keeps d = lift-Keeps config_of (int_field server call d "item_id") _ (λ item.
      lift-Keeps config_of (float_field server call d "value") _ (λ x.
        publish_flow2-Keeps server.env server.uuid item (null_or server call d "initial_data") x))

  pub post_flow3-Keeps : (d : Fields) → Keeps config_of (post_flow3 server call d)
  unfolding post_flow3
  post_flow3-Keeps d = lift-Keeps config_of (int_field server call d "item_id") _ (λ item.
      lift-Keeps config_of (float_field server call d "remote_metric") _ (λ x.
        publish_flow3-Keeps server.env server.uuid item (null_or server call d "initial_data") x))

  pub post_device-Keeps : (d : Fields) → Keeps config_of (post_device server call d)
  unfolding post_device publish_flow4_message
  post_device-Keeps d = send-Keeps server.env server.uuid _ _ _

  pub post_query-Keeps : (d : Fields) → Keeps config_of (post_query server call d)
  unfolding post_query publish_flow5_message
  post_query-Keeps d = send-Keeps server.env server.uuid _ _ _

  batch_flow1-Keeps : (i : ℕ) → Keeps config_of (batch_flow1 server call i)
  unfolding batch_flow1
  batch_flow1-Keeps i =
      publish_flow1-Keeps (env_at server call (i + i)) (uuid_at server call (i + i)) (some (pos i))
        none Json.null

  batch_flow2-Keeps : (i : ℕ) → Keeps config_of (batch_flow2 server call i)
  unfolding batch_flow2
  batch_flow2-Keeps i =
      publish_flow2-Keeps (env_at server call (i + i + 1)) (uuid_at server call (i + i + 1))
        (some (pos i)) Json.null none

  batch_from-Keeps :
      (left i : ℕ) (b : Batch) (w : World)
      → config_of (batch_from server call left i b w).1 ≡ config_of w
  unfolding batch_from
  batch_from-Keeps zero i b w = refl
  batch_from-Keeps (suc left) i b w =
      let w1 = (batch_flow1 server call i w).1 in
      batch_from-Keeps left (suc i) _ (batch_flow2 server call i w1).1
      ∙ batch_flow2-Keeps i w1
      ∙ batch_flow1-Keeps i w

  batch_answer-Keeps : (b : Batch) → Keeps config_of (batch_answer b)
  unfolding count_event
  batch_answer-Keeps b w = ground arith

  run_batch-Keeps : (count : ℕ) → Keeps config_of (run_batch server call count)
  unfolding run_batch
  run_batch-Keeps count w =
      batch_answer-Keeps (batch_from server call count 1 empty_batch w).0 _
      ∙ batch_from-Keeps count 1 empty_batch w

  counted_batch-Keeps : (count : ℤ) → Keeps config_of (counted_batch server call count)
  counted_batch-Keeps (negsuc n) = answer-Keeps 400 none
  counted_batch-Keeps (pos zero) = answer-Keeps 400 none
  counted_batch-Keeps (pos (suc n)) = elim (Bool-cases (ltb server.max_batch_count (suc n))) [
    | inl large ↦ rw large (answer-Keeps 400 none)
    | inr fits ↦ rw fits (run_batch-Keeps (suc n))
  ]

  pub post_batch-Keeps : (d : Fields) → Keeps config_of (post_batch server call d)
  unfolding post_batch
  post_batch-Keeps d =
      lift-Keeps config_of (int_of server.env.floats (field_or d "count" (Json.int (pos 3)))) _
        counted_batch-Keeps
