-- ===== src/Pipeline/System.antt =====
-- The gateway, src/application/process1.py, and the workers, process2.py to process5.py, on one broker: what
-- happens is a list of steps, in any order.
use flow_first.Base.{
  ℕ, zero, suc, String, true, Option, none, some, List, [], ◌∷◌, ◌≡◌, refl, sym, ◌∙◌, arith, inl,
  inr, Member, here, later, contains,
}
use flow_first.Json.{Json}
use flow_first.World.{World}
use flow_first.Env.{Env}
use flow_first.Relay.Routes.{same-PublishesTo, more-PublishesTo}
use flow_first.DbUpdater.{Site}
use flow_first.Gateway.Published.{Request, queue_of, publish, publish-Answered}
use flow_first.Greenthreads.Consumer.{Consumer, Session, ConsumerState, wrapper}
use flow_first.Pipeline.Consumed.{workers, consumers_of-workers}
use flow_first.Pipeline.Routed.{HasConsumer, IsRouted, known-HasConsumer, wrapper-IsRouted}

-- A publication of the gateway, with its fresh identifiers; or some sessions of the consumer that has this
-- place among the workers' consumers. A session may be as short as one delivery; the node and its clock are
-- those of the step.
pub data Step : Type 0 where
  requested : Env → (ℕ → String) → Request → Step
  served : Env → Site → ℕ → List Session → Step

abbrev consumer_at : ℕ → List (String × Consumer) → Option (String × Consumer)
consumer_at n [] = none
consumer_at zero (x ∷ xs) = some x
consumer_at (suc n) (x ∷ xs) = consumer_at n xs

abbrev begin : World → ConsumerState
begin w = record { stop_event = none; world = w; opened = 0; closed = 0 }

abbrev consume_at : Option (String × Consumer) → List Session → World → World
consume_at none sessions w = w
consume_at (some (name, consumer)) sessions w = (wrapper consumer true sessions (begin w)).1.world

unfoldable pub take_step : Step → World → World
unfolding publish wrapper
take_step (Step.requested env uuid request) w = (publish env uuid request w).1
take_step (Step.served env site n sessions) w =
    consume_at (consumer_at n (workers env site)) sessions w

unfoldable pub run_steps : List Step → World → World
unfolding take_step
run_steps [] w = w
run_steps (s ∷ steps) w = run_steps steps (take_step s w)

consumer_at-Member :
    (n : ℕ) (xs : List (String × Consumer)) (x : String × Consumer)
    → consumer_at n xs ≡ some x
    → Member x xs
consumer_at-Member n [] x e = absurd (ground arith)
consumer_at-Member zero (y ∷ xs) x e = here (ground arith)
consumer_at-Member (suc n) (y ∷ xs) x e = later (consumer_at-Member n xs x e)

module _ (env : Env) (site : Site) where
  queue_of-HasConsumer : (request : Request) → HasConsumer env site (queue_of request)
  unfolding contains
  queue_of-HasConsumer (Request.telemetry item text counter) =
      known-HasConsumer env site (queue_of (Request.telemetry item text counter)) refl
  queue_of-HasConsumer (Request.metric item text value) =
      known-HasConsumer env site (queue_of (Request.metric item text value)) refl
  queue_of-HasConsumer (Request.remote item text value) =
      known-HasConsumer env site (queue_of (Request.remote item text value)) refl
  queue_of-HasConsumer (Request.create name kind location firmware tags team) =
      known-HasConsumer env site (queue_of (Request.create name kind location firmware tags team))
        refl
  queue_of-HasConsumer (Request.query filters) =
      known-HasConsumer env site (queue_of (Request.query filters)) refl
  queue_of-HasConsumer (Request.update id updates) =
      known-HasConsumer env site (queue_of (Request.update id updates)) refl
  queue_of-HasConsumer (Request.delete id) =
      known-HasConsumer env site (queue_of (Request.delete id)) refl

  publish-IsRouted :
      (uuid : ℕ → String) (request : Request) (w : World)
      → IsRouted env site w
      → IsRouted env site (publish env uuid request w).1
  publish-IsRouted uuid request w i = elim (publish-Answered env uuid request w) [
    | inl (e, failed, same) ↦
        same-PublishesTo (HasConsumer env site) w (publish env uuid request w).1 same i
    | inr (inl (payload, failed, (more, opened))) ↦
        more-PublishesTo (HasConsumer env site) (queue_of request) (Json.obj payload) w
          (publish env uuid request w).1 (queue_of-HasConsumer request) more i
    | inr (inr (payload, returned, (more, opened))) ↦
        more-PublishesTo (HasConsumer env site) (queue_of request) (Json.obj payload) w
          (publish env uuid request w).1 (queue_of-HasConsumer request) more i
  ]

  consume_at-IsRouted :
      (o : Option (String × Consumer)) (sessions : List Session) (w : World)
      → ((x : String × Consumer) → o ≡ some x → Member x (workers env site))
      → IsRouted env site w
      → IsRouted env site (consume_at o sessions w)
  consume_at-IsRouted none sessions w known i = i
  consume_at-IsRouted (some (name, consumer)) sessions w known i =
      wrapper-IsRouted env site name consumer true sessions (begin w) (known (name, consumer) refl)
        i

  -- which queues have a consumer does not depend on the node
  moved-IsRouted :
      (env' : Env) (site' : Site) (w : World) → IsRouted env site w → IsRouted env' site' w
  moved-IsRouted env' site' w i queue body m =
      consumers_of-workers env' site' queue
      ∙ sym (consumers_of-workers env site queue)
      ∙ i queue body m

module _ (env : Env) (site : Site) where
  take_step-IsRouted :
      (s : Step) (w : World) → IsRouted env site w → IsRouted env site (take_step s w)
  unfolding take_step
  take_step-IsRouted (Step.requested env' uuid request) w i =
      moved-IsRouted env' site env site (publish env' uuid request w).1
        (publish-IsRouted env' site uuid request w (moved-IsRouted env site env' site w i))
  take_step-IsRouted (Step.served env' site' n sessions) w i =
      moved-IsRouted env' site' env site
        (consume_at (consumer_at n (workers env' site')) sessions w)
        (consume_at-IsRouted env' site' (consumer_at n (workers env' site')) sessions w
          (consumer_at-Member n (workers env' site')) (moved-IsRouted env site env' site' w i))

-- Whatever the gateway publishes and whatever the workers' consumers receive, in any order, over any
-- sessions, whatever calls fail, no message goes to a queue that is not consumed: if all that was published
-- before went to queues that exactly one consumer of the workers consumes, then so does all that is
-- published after.
pub run_steps-IsRouted :
    (env : Env) (site : Site) (steps : List Step) (w : World)
    → IsRouted env site w
    → IsRouted env site (run_steps steps w)
unfolding run_steps
run_steps-IsRouted env site [] w i = i
run_steps-IsRouted env site (s ∷ steps) w i =
    run_steps-IsRouted env site steps (take_step s w) (take_step-IsRouted env site s w i)
