-- ===== src/Migration/Whole.antt =====
-- A migration of one queue by scripts/migrate_queue_type.py as a whole.
use flow_first.Base.{
  ℕ, zero, suc, ◌+◌, ◌<◌, String, false, none, some, List, ◌++◌, ◌≡◌, arith, ◌==◌, length,
  length-append,
}
use flow_first.Base.Dict.{get}
use flow_first.Base.Text.Laws.{distinct-prefixed}
use flow_first.Migration.{Kind, Queues, Broker, Declared, declared}
use flow_first.Migration.Script.{temp_of, migrate_one}
use flow_first.Migration.Hoare.{Runs}
use flow_first.Migration.Requests.{messages_in, kind_in, Kept}
use flow_first.Migration.Carried.{one-Does}

pub distinct-temp_of : (name : String) → (name == temp_of name) ≡ false
distinct-temp_of name = distinct-prefixed "m" "igrate_" name

-- the messages of the queue and of a temporary queue that an earlier run left, in the order in which they are
-- carried
abbrev pub carried_messages : String → Declared → Queues → List String
carried_messages name (Declared.fits messages consumers) p =
    messages_in p name ++ messages_in p (temp_of name)
carried_messages name Declared.mismatch p = messages_in p (temp_of name) ++ messages_in p name

-- the temporary queue is gone, and the queue has the new type and the messages
abbrev pub IsMigrated : String → Kind → Queues → Queues → Type 0
IsMigrated name target p q =
    (get q (temp_of name) ≡ none)
    × (messages_in q name ≡ carried_messages name (declared target (get p name)) p)
    × (kind_in q name ≡ some target)

-- No migration of a queue loses a message: whichever requests the broker refuses or leaves without an answer,
-- every message of the queue or of its temporary queue is still in one of the two, and no other queue
-- is changed. With more fuel than there are messages the script always ends, and if it ends with no
-- exception, the temporary queue is gone, and the queue has the new type and all the messages, in order.
pub migrate_one-Kept :
    (name : String) (target : Kind) (fuel : ℕ) (b : Broker)
    → length (messages_in b.queues name) + length (messages_in b.queues (temp_of name)) < fuel
    → Runs
        (Kept name (temp_of name))
        (λ _ q. IsMigrated name target b.queues q)
        b
        (migrate_one fuel name target false b)
migrate_one-Kept name target zero b enough = ground arith
migrate_one-Kept name target (suc rounds) b enough =
    one-Does name target rounds (distinct-temp_of name) b (
      omega (
        arith,
        enough,
        length-append (messages_in b.queues name) (messages_in b.queues (temp_of name)),
      ))
