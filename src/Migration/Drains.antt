-- ===== src/Migration/Drains.antt =====
-- The moves of scripts/migrate_queue_type.py until their source can be deleted.
use flow_first.Base.{
  ℕ, zero, suc, ◌<◌, String, Bool, true, false, Option, none, some, List, [], ◌++◌, ◌≡◌, refl, ap,
  subst, ◌∙◌, arith, ◌==◌, length, eq_iff,
}
use flow_first.Base.Dict.{get, get-pop}
use flow_first.Migration.{Queue, Queues, Broker, Script, give, counts, exists, queue_delete}
use flow_first.Migration.Script.{move, deletion, delete_if_empty, drained, drain}
use flow_first.Migration.Hoare.{give-Runs, serve-Runs, bind-Runs}
use flow_first.Migration.Requests.{messages_of, messages_in, Both, get-pop_other, pop-Both}
use flow_first.Migration.Moves.{reflexive, transitive, Moves, Holds, Emptied, move-Moves}

pub counts-none : (o : Option Queue) → counts o ≡ none → o ≡ none
counts-none none h = refl
counts-none (some q) h = ground arith

counts-many : (m n : ℕ) (o : Option Queue) → counts o ≡ some (suc m, n) → messages_of o ≡ [] → ⊥
counts-many m n none h empty = ground arith
counts-many m n (some q) h empty = ground (arith, ap length empty)

module _ (source destination : String) (apart : (source == destination) ≡ false)
    (there : List String) where
  -- the source is gone, and the destination holds these
  abbrev Left : Queues → Type 0
  Left q = (get q source ≡ none) × (messages_in q destination ≡ there)

  abbrev Gone : Bool → Queues → Type 0
  Gone gone q = (gone ≡ true) × Left q

  abbrev pub Drained : ℕ → Queues → Type 0
  Drained n q = Left q

  abbrev Counted : Queues → Option (ℕ × ℕ) → Queues → Type 0
  Counted p found q = (counts (get p source) ≡ found) × (p ≡ q)

  exists-Moves :
      (b : Broker) → Moves source destination apart (Counted b.queues) b (exists source b)
  unfolding exists
  exists-Moves b =
      serve-Runs (Both source destination apart) (reflexive source destination apart)
        (transitive source destination apart) (Counted b.queues) _ b
        (reflexive source destination apart b.queues) (λ a q done. (ground (arith, done.0), done.1))

  pop-Moves :
      (c : Broker)
      → Emptied source destination apart there 0 c.queues
      → Moves source destination apart (λ _ q. Left q) c (queue_delete source c)
  unfolding queue_delete
  pop-Moves c (empty, kept) =
      serve-Runs (Both source destination apart) (reflexive source destination apart)
        (transitive source destination apart) (λ _ q. Left q) _ c
        (pop-Both source destination apart c.queues empty)
        (λ a q done. subst Left done.1 (
          get-pop c.queues source source ∙ rw ((eq_iff source source).1 refl) refl,
          ap messages_of (get-pop_other source destination apart c.queues destination apart) ∙ kept,
        ))

  deletion-Moves :
      (found : Option (ℕ × ℕ)) (p : Queues) (c : Broker)
      → Emptied source destination apart there 0 p
      → Counted p found c.queues
      → Moves source destination apart Gone c (deletion source found c)
  deletion-Moves none p c (empty, kept) (found, same) =
      give-Runs (Both source destination apart) (reflexive source destination apart)
        (transitive source destination apart) Gone true c
        (refl, subst Left same (counts-none (get p source) found, kept))
  deletion-Moves (some (zero, n)) p c emptied (found, same) =
      bind-Runs (Both source destination apart) (reflexive source destination apart)
        (transitive source destination apart) (λ _ q. Left q) Gone (queue_delete source)
        (λ _. give true) c
        (pop-Moves c (subst (λ q. Emptied source destination apart there 0 q) same emptied))
        (λ a d rel left.
          give-Runs (Both source destination apart) (reflexive source destination apart)
            (transitive source destination apart) Gone true d (refl, left))
  deletion-Moves (some (suc m, n)) p c (empty, kept) (found, same) =
      absurd (counts-many m n (get p source) found empty)

  delete-Moves :
      (b : Broker)
      → Emptied source destination apart there 0 b.queues
      → Moves source destination apart Gone b (delete_if_empty source b)
  unfolding delete_if_empty
  delete-Moves b emptied =
      bind-Runs (Both source destination apart) (reflexive source destination apart)
        (transitive source destination apart) (Counted b.queues) Gone (exists source)
        (deletion source) b (exists-Moves b)
        (λ found c rel seen. deletion-Moves found b.queues c emptied seen)

  drained-Moves :
      (again : Script ℕ) (now : ℕ) (gone : Bool) (d : Broker)
      → Gone gone d.queues
      → Moves source destination apart Drained d (drained again now gone d)
  drained-Moves again now true d (is_true, left) =
      give-Runs (Both source destination apart) (reflexive source destination apart)
        (transitive source destination apart) Drained now d left
  drained-Moves again now false d (is_true, left) = ground arith

-- One move is enough, since nobody else publishes to the source.
pub drain-Moves :
    (source destination : String) (apart : (source == destination) ≡ false) (rounds fuel moved : ℕ)
    (left there : List String) (b : Broker)
    → Holds source destination apart left there b.queues
    → length left < fuel
    → Moves source destination apart
        (Drained source destination apart (there ++ left))
        b
        (drain (suc rounds) fuel source destination moved b)
unfolding drain
drain-Moves source destination apart rounds fuel moved left there b holds enough =
    bind-Runs (Both source destination apart) (reflexive source destination apart)
      (transitive source destination apart) (Emptied source destination apart (there ++ left))
      (Drained source destination apart (there ++ left)) (move fuel source destination moved) _ b
      (move-Moves source destination apart fuel moved left there b holds enough)
      (λ now c rel emptied.
        bind-Runs (Both source destination apart) (reflexive source destination apart)
          (transitive source destination apart) (Gone source destination apart (there ++ left))
          (Drained source destination apart (there ++ left)) (delete_if_empty source)
          (drained (drain rounds fuel source destination now) now) c
          (delete-Moves source destination apart (there ++ left) c emptied)
          (λ gone d rel' is_gone.
            drained-Moves source destination apart (there ++ left)
              (drain rounds fuel source destination now) now gone d is_gone))
