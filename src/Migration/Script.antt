-- ===== src/Migration/Script.antt =====
-- scripts/migrate_queue_type.py: every queue is copied to a temporary queue of the new type, deleted, declared
-- again and filled from the copy. What the script prints, its options and setup_queues at its end are left.
use flow_first.Base.{
  ℕ, zero, suc, ◌+◌, String, Bool, true, false, not, ◌&&◌, ◌||◌, Option, none, some, List, [], ◌∷◌,
  ◌++◌, ltb, if◌then◌else◌,
}
use flow_first.Base.Text.{concat}
use flow_first.Queues.{all_queues, queue_dead_letters}
use flow_first.Migration.{
  Kind, Script, give, out_of_fuel, ◌>>=◌, ◌>>◌, Declared, declare, exists, basic_get, basic_publish,
  basic_ack, queue_delete,
}

-- the body of the loop of _move
abbrev pub move_next : ℕ → Script (Unit {0}) → (String → Script ℕ) → Option String → Script ℕ
move_next moved idle carry none = give moved
move_next moved idle carry (some m) = carry m

-- _move, which has carried `moved` messages
unfoldable pub move : ℕ → String → String → ℕ → Script ℕ
unfolding basic_get basic_publish basic_ack
move zero source destination moved = out_of_fuel
move (suc fuel) source destination moved =
    basic_get source
    >>= move_next moved (give tt) λ m.
      basic_publish destination m >> basic_ack source >> move fuel source destination (suc moved)

-- The queue is deleted if it holds no message. The broker of the model has no other client, so that nothing
-- arrives between the request for the state and the deletion.
abbrev pub deletion : String → Option (ℕ × ℕ) → Script Bool
deletion name none = give true
deletion name (some (zero, consumers)) = queue_delete name >> give true
deletion name (some (suc n, consumers)) = give false

-- _delete_if_empty
unfoldable pub delete_if_empty : String → Script Bool
unfolding exists queue_delete
delete_if_empty name = exists name >>= deletion name

abbrev pub drained : Script ℕ → ℕ → Bool → Script ℕ
drained again moved true = give moved
drained again moved false = again

-- the two loops that move until the queue can be deleted
unfoldable pub drain : ℕ → ℕ → String → String → ℕ → Script ℕ
unfolding move delete_if_empty
drain zero fuel source destination moved = out_of_fuel
drain (suc rounds) fuel source destination moved = move fuel source destination moved >>= λ now.
    delete_if_empty source >>= drained (drain rounds fuel source destination now) now

abbrev pub fit : Declared → Declared
fit (Declared.fits messages consumers) = Declared.fits 0 0
fit Declared.mismatch = Declared.mismatch

-- the declaration of _peek, on a queue that is there
abbrev pub peek_present : String → Kind → Option (ℕ × ℕ) → Script Declared
peek_present name target none = give (Declared.fits 0 0)
peek_present name target (some found) = declare name target >>= λ d. give (fit d)

-- _peek
unfoldable pub peek : String → Kind → Script Declared
unfolding exists declare
peek name target = exists name >>= peek_present name target

abbrev pub temp_of : String → String
temp_of name = concat ("migrate_" ∷ name ∷ [])

abbrev pub waiting_count : Option (ℕ × ℕ) → ℕ
waiting_count none = 0
waiting_count (some (messages, consumers)) = messages

-- the copy to the temporary queue, if the queue has the other type
abbrev pub copy_out : ℕ → String → Kind → Declared → Script ℕ
copy_out fuel name target (Declared.fits messages consumers) = give 0
copy_out fuel name target Declared.mismatch =
    declare (temp_of name) target >> drain fuel fuel name (temp_of name) 0

-- the copy back, if the temporary queue is there
abbrev pub copy_back : ℕ → String → Option (ℕ × ℕ) → Script ℕ
copy_back fuel name none = give 0
copy_back fuel name (some found) = drain fuel fuel (temp_of name) name 0

abbrev pub carry_over : ℕ → String → Kind → Declared → Script ℕ
carry_over fuel name target state = copy_out fuel name target state >>= λ moved.
    declare name target >> (exists (temp_of name) >>= copy_back fuel name) >> give moved

abbrev pub migrate_found : ℕ → String → Kind → Bool → Declared → Option (ℕ × ℕ) → Script ℕ
migrate_found fuel name target dry_run (Declared.fits messages consumers) none = give 0
migrate_found fuel name target true state left_over =
    exists name >>= λ old. give (waiting_count old)
migrate_found fuel name target false state left_over = carry_over fuel name target state

unfoldable pub migrate_one : ℕ → String → Kind → Bool → Script ℕ
unfolding declare exists drain peek
migrate_one fuel name target dry_run =
    (if dry_run then peek name target else declare name target) >>= λ state.
    exists (temp_of name) >>= migrate_found fuel name target dry_run state

abbrev pub consumed : Option (ℕ × ℕ) → Bool
consumed none = false
consumed (some (messages, consumers)) = ltb 0 consumers

-- the queues that have consumers
unfoldable pub busy : List String → Script Bool
unfolding exists
busy [] = give false
busy (name ∷ names) = exists name >>= λ state. busy names >>= λ rest. give (consumed state || rest)

unfoldable pub migrate_all : ℕ → List String → Kind → Bool → Script ℕ
unfolding migrate_one
migrate_all fuel [] target dry_run = give 0
migrate_all fuel (name ∷ names) target dry_run = migrate_one fuel name target dry_run >>= λ n.
    migrate_all fuel names target dry_run >>= λ rest. give (n + rest)

-- the status of the script, and what it reports; the loops get the fuel
abbrev pub unless_busy : ℕ → List String → Kind → Bool → Bool → Bool → Script (ℕ × ℕ)
unless_busy fuel names target dry_run force is_busy =
    if is_busy && not force
    then give (1, 0)
    else migrate_all fuel names target dry_run >>= λ total. give (0, total)

unfoldable pub main : ℕ → Kind → Bool → Bool → Script (ℕ × ℕ)
unfolding busy migrate_all
main fuel target dry_run force =
    busy (all_queues ++ queue_dead_letters ∷ [])
    >>= unless_busy fuel (all_queues ++ queue_dead_letters ∷ []) target dry_run force
