-- ===== src/Pipeline/Consumed.antt =====
-- The workers of src/application/process2.py to process5.py: which of them consumes each queue.
use flow_first.Base.{
  ℕ, ◌+◌, String, Bool, true, false, not, ◌&&◌, eq_iff, List, [], ◌∷◌, ◌++◌, ◌==◌, ◌≡◌, refl, sym,
  ap, ◌∙◌, inl, inr, arith, Bool-cases, contains, if◌then◌else◌,
}
use flow_first.Queues.{all_queues}
use flow_first.Env.{Env}
use flow_first.DbUpdater.{Site}
use flow_first.Greenthreads.Consumer.{Consumer}
use flow_first.Transformer.Consume as Transformer
use flow_first.Forwarder.Consume as Forwarder
use flow_first.DbUpdater.Consume as DbUpdater
use flow_first.RemoteWorker.Consume as RemoteWorker

-- how many of the consumers consume the queue
unfoldable pub consumers_of : String → List (String × Consumer) → ℕ
consumers_of queue [] = 0
consumers_of queue ((name, consumer) ∷ consumers) =
    (if consumer.queue == queue then 1 else 0) + consumers_of queue consumers

-- how often a name is in the list
unfoldable occurrences : String → List String → ℕ
occurrences queue [] = 0
occurrences queue (q ∷ qs) = (if q == queue then 1 else 0) + occurrences queue qs

consumers_of-append :
    (queue : String) (xs ys : List (String × Consumer))
    → consumers_of queue (xs ++ ys) ≡ consumers_of queue xs + consumers_of queue ys
unfolding consumers_of
consumers_of-append queue [] ys = omega arith
consumers_of-append queue ((name, x) ∷ xs) ys = omega (arith, consumers_of-append queue xs ys)

module _ (env : Env) (site : Site) where
  -- the consumers of the workers
  abbrev pub workers : List (String × Consumer)
  workers =
      Transformer.consumers env
      ++ Forwarder.consumers env
      ++ DbUpdater.consumers site
      ++ RemoteWorker.consumers env

  workers-occurrences : (queue : String) → consumers_of queue workers ≡ occurrences queue all_queues
  unfolding consumers_of occurrences
  workers-occurrences queue = omega arith

-- no name stands in the list twice
unfoldable is_distinct : List String → Bool
unfolding contains
is_distinct [] = true
is_distinct (q ∷ qs) = not (contains qs q) && is_distinct qs

occurrences-contains :
    (queue : String) (qs : List String)
    → is_distinct qs ≡ true
    → occurrences queue qs ≡ (if contains qs queue then 1 else 0)
unfolding occurrences is_distinct contains
occurrences-contains queue [] d = refl
occurrences-contains queue (q ∷ qs) d = elim (Bool-cases (q == queue)) [
  | inl same ↦
      let absent : contains qs queue ≡ false =
        ap (contains qs) (sym ((eq_iff q queue).0 same)) ∙ ground arith in
      ground (arith, occurrences-contains queue qs (ground arith))
  | inr other ↦ ground (arith, occurrences-contains queue qs (ground arith))
]

all_queues-distinct : is_distinct all_queues ≡ true
unfolding is_distinct contains
all_queues-distinct = refl

-- Each of the pipeline's queues is consumed by exactly one of the consumers that the four workers start,
-- and they consume no other queue.
pub consumers_of-workers :
    (env : Env) (site : Site) (queue : String)
    → consumers_of queue (workers env site) ≡ (if contains all_queues queue then 1 else 0)
consumers_of-workers env site queue =
    workers-occurrences env site queue ∙ occurrences-contains queue all_queues all_queues-distinct
