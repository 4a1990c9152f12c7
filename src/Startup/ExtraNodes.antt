-- ===== src/Startup/ExtraNodes.antt =====
-- parse_extra_nodes of src/config/config.py.
use Prim.Native.String.{[], ◌∷◌}
use flow_first.Base.{
  ℕ, String, Bool, true, false, not, ◌&&◌, ◌||◌, Option, none, some, List, [], ◌∷◌, code, leb, eqb,
  ◌≡◌, ◌↔◌, refl, arith, contains, keep, map, if◌then◌else◌,
}
use flow_first.Base.Result
use flow_first.Base.Result.{Result, ok, raise, value_error, raise≢ok}
use flow_first.Base.Text.{strip, is_empty, split, split_first, after_prefix, all_chars}

abbrev in_range : ℕ → ℕ → ℕ → Bool
in_range lo hi c = leb lo c && leb c hi

abbrev is_digit : ℕ → Bool
is_digit c = in_range b'0' b'9' c

-- ^extramgmtnode[0-9]+$
unfoldable pub is_extra_name : String → Bool
unfolding after_prefix is_empty all_chars
is_extra_name name = elim (after_prefix "extramgmtnode" name) [
  | none ↦ false
  | some number ↦ not (is_empty number) && all_chars is_digit number
]

-- 25[0-5]|2[0-4][0-9]|1[0-9]{2}|[1-9]?[0-9]
abbrev is_three : ℕ → ℕ → ℕ → Bool
is_three a b c =
    eqb a b'2' && eqb b b'5' && in_range b'0' b'5' c
    || eqb a b'2' && in_range b'0' b'4' b && is_digit c
    || eqb a b'1' && is_digit b && is_digit c

unfoldable pub is_octet : String → Bool
is_octet [] = false
is_octet (a ∷ []) = is_digit (code a)
is_octet (a ∷ b ∷ []) = in_range b'1' b'9' (code a) && is_digit (code b)
is_octet (a ∷ b ∷ c ∷ []) = is_three (code a) (code b) (code c)
is_octet (a ∷ b ∷ c ∷ d ∷ s) = false

abbrev are_octets : List String → Bool
are_octets (a ∷ b ∷ c ∷ d ∷ []) = is_octet a && is_octet b && is_octet c && is_octet d
are_octets _ = false

unfoldable pub is_ipv4 : String → Bool
unfolding is_octet split
is_ipv4 ip = are_octets (split b'.' ip)

abbrev checked : String → String → Option (String × String)
checked name ip = if is_extra_name name && is_ipv4 ip then some (name, ip) else none

abbrev checked_pair : Option (String × String) → Option (String × String)
checked_pair none = none
checked_pair (some (name, ip)) = checked (strip name) (strip ip)

-- name, sep, ip = item.partition(":")
unfoldable pub entry_of : String → Option (String × String)
unfolding split_first strip is_extra_name is_ipv4
entry_of item = checked_pair (split_first b':' item)

abbrev seen_or : Bool → Result (List (String × String)) → Result (List (String × String))
seen_or true rest = raise value_error
seen_or false rest = rest

-- an entry, and what comes after it once its name and address are seen
abbrev pub Nodes : Type 0
Nodes = List (String × String)

abbrev add_entry :
    Option (String × String)
    → List String
    → List String
    → (List String → List String → Result Nodes)
    → Result Nodes
add_entry none names ips rest = raise value_error
add_entry (some (name, ip)) names ips rest =
    seen_or (contains names name || contains ips ip)
      (Result.◌>>=◌ (rest (name ∷ names) (ip ∷ ips)) λ nodes. ok ((name, ip) ∷ nodes))

-- the loop over the items, with seen_names and seen_ips
unfoldable pub parse_items : List String → List String → List String → Result Nodes
unfolding entry_of contains
parse_items [] names ips = ok []
parse_items (item ∷ items) names ips =
    add_entry (entry_of item) names ips
      (λ more_names more_ips. parse_items items more_names more_ips)

unfoldable pub items_of : String → List String
unfolding split strip keep is_empty
items_of raw = keep (λ item. not (is_empty item)) (map strip (split b',' raw))

unfoldable pub parse_extra_nodes : String → Result Nodes
unfolding items_of parse_items
parse_extra_nodes raw = parse_items (items_of raw) [] []

-- no text of the second list is in the first or comes twice
abbrev pub AreNew : List String → List String → Type 0
AreNew seen [] = Unit
AreNew seen (x ∷ xs) = (contains seen x ≡ false) × AreNew (x ∷ seen) xs

abbrev pub names_of : Nodes → List String
names_of nodes = map (λ node. node.0) nodes

abbrev pub ips_of : Nodes → List String
ips_of nodes = map (λ node. node.1) nodes

-- Each item gives the node at its place, and the names and the addresses are new.
abbrev pub Accepted : List String → List String → List String → Nodes → Type 0
Accepted [] names ips [] = Unit
Accepted [] names ips (node ∷ nodes) = ⊥
Accepted (item ∷ items) names ips [] = ⊥
Accepted (item ∷ items) names ips (node ∷ nodes) =
    (entry_of item ≡ some node)
    × (contains names node.0 ≡ false)
    × (contains ips node.1 ≡ false)
    × Accepted items (node.0 ∷ names) (node.1 ∷ ips) nodes

added :
    (b : Bool) (r : Result Nodes) (node : String × String) (ns : Nodes)
    → seen_or b (Result.◌>>=◌ r λ nodes. ok (node ∷ nodes)) ≡ ok ns
    → (b ≡ false) × (rest : Nodes) × (r ≡ ok rest) × (ns ≡ node ∷ rest)
added true r node ns h = absurd (raise≢ok value_error h)
added false (raise e) node ns h = absurd (raise≢ok e h)
added false (ok rest) node ns h = (refl, rest, refl, ground arith)

parse_items-Accepted :
    (items names ips : List String) (nodes : Nodes)
    → parse_items items names ips ≡ ok nodes
    → Accepted items names ips nodes
unfolding parse_items
parse_items-Accepted [] names ips [] h = tt
parse_items-Accepted [] names ips (n ∷ nodes) h = absurd (ground arith)
parse_items-Accepted (item ∷ items) names ips nodes h =
    entry (entry_of item) refl nodes h
      (λ more_names more_ips rest e. parse_items-Accepted items more_names more_ips rest e)
  where
    entry :
        (o : Option (String × String))
        → entry_of item ≡ o
        → (ns : Nodes)
        → add_entry o names ips (λ more_names more_ips. parse_items items more_names more_ips)
          ≡ ok ns
        → ((more_names more_ips : List String) (rest : Nodes)
            → parse_items items more_names more_ips ≡ ok rest
            → Accepted items more_names more_ips rest)
        → Accepted (item ∷ items) names ips ns
    entry none e ns h ih = absurd (raise≢ok value_error h)
    entry (some (name, ip)) e ns h ih =
        let (new, rest, parsed, whole) =
          added (contains names name || contains ips ip)
            (parse_items items (name ∷ names) (ip ∷ ips)) (name, ip) ns h in
        rw whole (e, ground arith, ground arith, ih (name ∷ names) (ip ∷ ips) rest parsed)

Accepted-parse_items :
    (items names ips : List String) (nodes : Nodes)
    → Accepted items names ips nodes
    → parse_items items names ips ≡ ok nodes
unfolding parse_items
Accepted-parse_items [] names ips [] h = refl
Accepted-parse_items [] names ips (n ∷ nodes) h = absurd h
Accepted-parse_items (item ∷ items) names ips [] h = absurd h
Accepted-parse_items (item ∷ items) names ips ((name, ip) ∷ nodes) (e, n, i, rest) =
    rw (e, n, i, Accepted-parse_items items (name ∷ names) (ip ∷ ips) nodes rest) refl

-- The nodes are accepted exactly if they stand, in order, for the items that are not blank, each with a
-- name and an address of the right form, and no name and no address comes twice.
pub parse_extra_nodes-exact :
    (raw : String) (nodes : Nodes)
    → (parse_extra_nodes raw ≡ ok nodes) ↔ Accepted (items_of raw) [] [] nodes
unfolding parse_extra_nodes
parse_extra_nodes-exact raw nodes = (
  parse_items-Accepted (items_of raw) [] [] nodes,
  Accepted-parse_items (items_of raw) [] [] nodes,
)
