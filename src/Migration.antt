-- ===== src/Migration.antt =====
-- The broker as scripts/migrate_queue_type.py asks it, and the requests of the script. A message is its
-- properties and its body, which are carried as they are. A message that was got and is not acknowledged is
-- still in its queue, to which the broker returns it.
pub mod Script
pub mod Hoare
pub mod Requests
pub mod Moves
pub mod Drains
pub mod Declares
pub mod Kept
pub mod Carried
pub mod Whole
pub mod Dry
pub mod Examples
use flow_first.Base.{
  ℕ, zero, suc, ◌+◌, String, Bool, true, false, not, ◌&&◌, Option, none, some, List, [], ◌∷◌, ◌++◌,
  length, ltb, any, if◌then◌else◌,
}
use flow_first.Base.Dict.{Dict, get, put, pop}
use flow_first.Base.Text.{concat}
use flow_first.Queues.{all_queues, queue_dead_letters}

-- x-queue-type
pub data Kind : Type 0 where
  quorum classic : Kind

abbrev same_kind : Kind → Kind → Bool
same_kind Kind.quorum Kind.quorum = true
same_kind Kind.classic Kind.classic = true
same_kind j k = false

pub record Queue : Type 0 where
  pub kind : Kind
  pub messages : List String
  pub consumers : ℕ

abbrev pub Queues : Type 0
Queues = Dict Queue

-- A request is answered, or the connection breaks before or after the broker carried it out.
pub data Answer : Type 0 where
  answered refused unanswered : Answer

pub record Broker : Type 0 where
  -- the answers to the coming requests; past the end, requests are answered
  pub answers : List Answer
  pub queues : Queues

pub data Ended (A : Type 0) : Type 0 where
  returned : A → Ended A
  -- an exception of pika, which ends the script
  raised : Ended A
  -- the fuel of a loop is used up
  unfinished : Ended A

abbrev pub Script : Type 0 → Type 0
Script A = Broker → Ended A × Broker

module _ {A : Type 0} where
  abbrev pub give : A → Script A
  give a b = (Ended.returned a, b)

  abbrev pub out_of_fuel : Script A
  out_of_fuel b = (Ended.unfinished, b)

  -- what the broker answers, if it does not close the channel
  abbrev pub ended_of : Option A → Ended A
  ended_of none = Ended.raised
  ended_of (some a) = Ended.returned a

  abbrev pub request_with : List Answer → (Queues → Option A × Queues) → Script A
  request_with [] work b =
      let (a, queues) = work b.queues in (ended_of a, record b { queues = queues })
  request_with (Answer.answered ∷ rest) work b =
      let (a, queues) = work b.queues in (ended_of a, record { answers = rest; queues = queues })
  request_with (Answer.refused ∷ rest) work b = (Ended.raised, record b { answers = rest })
  request_with (Answer.unanswered ∷ rest) work b =
      (Ended.raised, record { answers = rest; queues = (work b.queues).1 })

  abbrev pub request : (Queues → Option A × Queues) → Script A
  request work b = request_with b.answers work b

module _ {A B : Type 0} where
  infixl 10 ◌>>=◌ ◌>>◌
  abbrev pub after : Ended A × Broker → (A → Script B) → Ended B × Broker
  after (Ended.returned a, b) rest = rest a b
  after (Ended.raised, b) rest = (Ended.raised, b)
  after (Ended.unfinished, b) rest = (Ended.unfinished, b)

  abbrev pub ◌>>=◌ : Script A → (A → Script B) → Script B
  ◌>>=◌ m rest b = after (m b) rest

  abbrev pub ◌>>◌ : Script A → Script B → Script B
  m >> rest = m >>= λ _. rest

-- ("ok", message_count, consumer_count), and "mismatch" for a refusal with 406
pub data Declared : Type 0 where
  fits : ℕ → ℕ → Declared
  mismatch : Declared

abbrev pub declared : Kind → Option Queue → Declared
declared target none = Declared.fits 0 0
declared target (some q) =
    if same_kind q.kind target
    then Declared.fits (length q.messages) q.consumers
    else Declared.mismatch

-- queue_declare creates a queue that is missing
abbrev pub create : Kind → String → Option Queue → Queues → Queues
create target name none queues =
    put queues name (record { kind = target; messages = []; consumers = 0 })
create target name (some q) queues = queues

-- _declare
unfoldable pub declare : String → Kind → Script Declared
unfolding get put
declare name target = request λ queues.
    (some (declared target (get queues name)), create target name (get queues name) queues)

abbrev pub counts : Option Queue → Option (ℕ × ℕ)
counts none = none
counts (some q) = some (length q.messages, q.consumers)

-- _exists
unfoldable pub exists : String → Script (Option (ℕ × ℕ))
unfolding get
exists name = request λ queues. (some (counts (get queues name)), queues)

-- basic_get: it raises if the queue is missing
abbrev pub first : Option Queue → Option (Option String)
first none = none
first (some q) = some (elim q.messages [ [] ↦ none | m ∷ rest ↦ some m ])

unfoldable pub basic_get : String → Script (Option String)
unfolding get
basic_get source = request λ queues. (first (get queues source), queues)

-- basic_publish(mandatory=True) with publisher confirms: it raises if the queue is missing
abbrev pub append : String → String → Option Queue → Queues → Option (Unit {0}) × Queues
append queue m none queues = (none, queues)
append queue m (some q) queues =
    (some tt, put queues queue (record q { messages = q.messages ++ m ∷ [] }))

unfoldable pub basic_publish : String → String → Script (Unit {0})
unfolding get put
basic_publish queue m = request λ queues. append queue m (get queues queue) queues

abbrev pub tail : List String → List String
tail [] = []
tail (m ∷ rest) = rest

-- basic_ack of the message that was got from the queue
abbrev pub drop_first : String → Option Queue → Queues → Queues
drop_first queue none queues = queues
drop_first queue (some q) queues = put queues queue (record q { messages = tail q.messages })

unfoldable pub basic_ack : String → Script (Unit {0})
unfolding get put
basic_ack queue = request λ queues. (some tt, drop_first queue (get queues queue) queues)

unfoldable pub queue_delete : String → Script (Unit {0})
unfolding pop
queue_delete name = request λ queues. (some tt, pop queues name)
