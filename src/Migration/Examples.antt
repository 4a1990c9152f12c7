-- ===== src/Migration/Examples.antt =====
-- Tests of the migration of queues.
use flow_first.Base.{false, [], ◌∷◌, ◌≡◌, refl, arith}
use flow_first.Base.Dict.{get}
use flow_first.Base.Text.{concat}
use flow_first.Migration.{Kind, Queue, Queues, Answer, Broker, Ended}
use flow_first.Migration.Script.{migrate_one}
use flow_first.Migration.Hoare.{Runs}
use flow_first.Migration.Requests.{Kept}
use flow_first.Migration.Whole.{IsMigrated, migrate_one-Kept}

abbrev classic_queue : Queue
classic_queue = record { kind = Kind.classic; messages = "m1" ∷ "m2" ∷ []; consumers = 0 }

-- two messages, and one that an earlier run had carried
abbrev half_way : Queues
half_way =
    ("flow1_p1_to_p2", classic_queue)
    ∷ ("migrate_flow1_p1_to_p2", record { kind = Kind.quorum; messages = "m0" ∷ []; consumers = 0 })
    ∷ []

abbrev answering : Queues → Broker
answering queues = record { answers = []; queues = queues }

-- the confirmation of the first publication does not arrive
abbrev interrupted : Broker
interrupted = record {
  answers =
      Answer.answered ∷ Answer.answered ∷ Answer.answered ∷ Answer.answered ∷ Answer.unanswered
      ∷ [];
  queues = half_way;
}

migrated : migrate_one 4 "flow1_p1_to_p2" Kind.quorum false (answering half_way) ≡ (
  Ended.returned 2,
  answering (
      (
        "flow1_p1_to_p2",
        record { kind = Kind.quorum; messages = "m0" ∷ "m1" ∷ "m2" ∷ []; consumers = 0 },
      )
      ∷ []),
)
unfolding migrate_one concat
migrated = refl

-- The first message is then twice there.
duplicated : migrate_one 4 "flow1_p1_to_p2" Kind.quorum false interrupted ≡ (
  Ended.raised,
  answering (
      ("flow1_p1_to_p2", classic_queue)
      ∷ (
        "migrate_flow1_p1_to_p2",
        record { kind = Kind.quorum; messages = "m0" ∷ "m1" ∷ []; consumers = 0 },
      )
      ∷ []),
)
unfolding migrate_one concat
duplicated = refl

migrate_one-Kept_example :
    Runs
      (Kept "flow1_p1_to_p2" "migrate_flow1_p1_to_p2")
      (λ _ q. IsMigrated "flow1_p1_to_p2" Kind.quorum half_way q)
      interrupted
      (migrate_one 4 "flow1_p1_to_p2" Kind.quorum false interrupted)
unfolding concat
migrate_one-Kept_example =
    migrate_one-Kept "flow1_p1_to_p2" Kind.quorum 4 interrupted (unfold get in omega arith)
