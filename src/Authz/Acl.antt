-- ===== src/Authz/Acl.antt =====
-- ACL of src/application/authz.py: the entries and the check.
use flow_first.Base.{
  String, Bool, not, ◌&&◌, Option, none, some, List, [], ◌∷◌, ◌==◌, contains, if◌then◌else◌,
}
use flow_first.Base.Text.{is_empty, strip, split, split_first, split_last}
use flow_first.Authz.Identity.{or_empty, parse_list}
use flow_first.Authz.Glob.{fnmatchcase}

-- a dict with pairs (resource, action) as keys
pub record Entry : Type 0 where
  pub resource : String
  pub action : String
  pub allowed : List String

abbrev pub Acl : Type 0
Acl = List Entry

abbrev same_key : Entry → String → String → Bool
same_key e resource action = e.resource == resource && e.action == action

-- acl.get((resource, action))
unfoldable pub acl_get : Acl → String → String → Option (List String)
acl_get [] resource action = none
acl_get (e ∷ acl) resource action =
    if same_key e resource action then some e.allowed else acl_get acl resource action

-- acl[(resource, action)] = allowed
unfoldable pub acl_put : Acl → Entry → Acl
acl_put [] new = new ∷ []
acl_put (e ∷ acl) new =
    if same_key e new.resource new.action
    then record e { allowed = new.allowed } ∷ acl
    else e ∷ acl_put acl new

put_entry : Acl → String → String → String → Acl
put_entry acl resource action identities =
    if not (is_empty resource) && not (is_empty action)
    then acl_put acl
        (record { resource = resource; action = action; allowed = parse_list identities })
    else acl

-- One round of the loop. The key is split at its last colon; a key with no colon is ignored.
parse_acl_entry : Acl → String → Acl
unfolding put_entry acl_put strip is_empty parse_list
parse_acl_entry acl entry = elim (split_first b'=' (strip entry)) [
  | none ↦ acl
  | some (key, identities) ↦ elim (split_last b':' (strip key)) [
    | none ↦ acl
    | some (resource, action) ↦ put_entry acl (strip resource) (strip action) identities
  ]
]

parse_acl_entries : Acl → List String → Acl
unfolding parse_acl_entry
parse_acl_entries acl [] = acl
parse_acl_entries acl (entry ∷ entries) = parse_acl_entries (parse_acl_entry acl entry) entries

unfoldable pub parse_acl : String → Acl
unfolding parse_acl_entries split
parse_acl raw_acl = parse_acl_entries [] (split b';' raw_acl)

-- the wildcard scan: the first entry that covers the request decides
unfoldable pub wildcard_scan : Acl → String → String → String → Option Bool
unfolding contains
wildcard_scan [] identity action resource = none
wildcard_scan (e ∷ acl) identity action resource =
    if e.action == action && fnmatchcase resource e.resource
    then some (contains e.allowed identity)
    else wildcard_scan acl identity action resource

unfoldable pub acl_check : Option String → String → String → Acl → Option Bool
unfolding wildcard_scan acl_get contains is_empty
acl_check identity action resource acl =
    if is_empty (or_empty identity) then none else elim (acl_get acl resource action) [
      | some allowed ↦ some (contains allowed (or_empty identity))
      | none ↦ wildcard_scan acl (or_empty identity) action resource
    ]
