-- ===== src/Authz/Rbac.antt =====
-- RBAC of src/application/authz.py: the built-in roles, the role definitions and the check.
pub mod Grants
use flow_first.Base.{
  String, Bool, false, ◌&&◌, ◌||◌, Option, none, some, List, [], ◌∷◌, ◌==◌, any, if◌then◌else◌,
}
use flow_first.Base.Text.{is_empty, strip, split, split_first, split_last, concat}
use flow_first.Base.Dict.{Dict, get_or, put}
use flow_first.Authz.Identity.{or_empty, parse_list}
use flow_first.Authz.Glob.{fnmatchcase}

abbrev pub publisher_permissions : List String
publisher_permissions =
    "flow:1:publish" ∷ "flow:2:publish" ∷ "flow:3:publish" ∷ "flow:4:publish" ∷ "flow:5:publish"
    ∷ "flow:6:publish" ∷ "flow:7:publish" ∷ []

abbrev pub reader_permissions : List String
reader_permissions =
    "health:read" ∷ "ready:read" ∷ "gt:status:read" ∷ "zk:health:read" ∷ "zk:config:read"
    ∷ "swift:objects:list" ∷ "swift:object:read" ∷ []

abbrev pub admin_permissions : List String
admin_permissions =
    "health:read" ∷ "ready:read" ∷ "gt:status:read" ∷ "zk:health:read" ∷ "zk:config:read"
    ∷ "zk:config:write" ∷ "swift:objects:list" ∷ "swift:object:read" ∷ []

abbrev pub operator_permissions : List String
operator_permissions =
    "flow:1:publish" ∷ "flow:2:publish" ∷ "flow:3:publish" ∷ "flow:4:publish" ∷ "flow:5:publish"
    ∷ "flow:6:publish" ∷ "flow:7:publish" ∷ admin_permissions

-- _BUILTIN_ROLES
abbrev pub builtin_roles : Dict (List String)
builtin_roles =
    ("publisher", publisher_permissions)
    ∷ ("reader", reader_permissions)
    ∷ ("admin", admin_permissions)
    ∷ ("operator", operator_permissions)
    ∷ []

-- One round of either loop of `parse_roles`: `name=item,item`, ignored with no `=` or no name.
unfoldable pub parse_assignment : Dict (List String) → String → Dict (List String)
unfolding strip is_empty parse_list
parse_assignment result entry = elim (split_first b'=' (strip entry)) [
  | none ↦ result
  | some (name, items) ↦
      if is_empty (strip name) then result else put result (strip name) (parse_list items)
]

unfoldable pub parse_assignments : Dict (List String) → List String → Dict (List String)
unfolding parse_assignment
parse_assignments result [] = result
parse_assignments result (entry ∷ entries) =
    parse_assignments (parse_assignment result entry) entries

unfoldable pub parse_roles : String → String → Dict (List String) × Dict (List String)
unfolding parse_assignments split
parse_roles raw_roles raw_identity_roles = (
  parse_assignments builtin_roles (split b';' raw_roles),
  parse_assignments [] (split b';' raw_identity_roles),
)

-- the body of the loop over permissions
unfoldable pub permission_grants : String → String → String → Bool
unfolding concat
permission_grants action resource perm =
    perm == concat (resource ∷ ":" ∷ action ∷ []) || elim (split_last b':' perm) [
      | none ↦ false
      | some (res_pat, act) ↦ act == action && fnmatchcase resource res_pat
    ]

-- the loop over the permissions of one role
unfoldable pub role_grants : Dict (List String) → String → String → String → Bool
unfolding any permission_grants
role_grants roles action resource role_name =
    any (permission_grants action resource) (get_or roles role_name [])

abbrev decide_roles : Dict (List String) → String → String → List String → Option Bool
decide_roles roles action resource [] = none
decide_roles roles action resource (r ∷ rs) =
    some (any (role_grants roles action resource) (r ∷ rs))

unfoldable pub rbac_check :
    Option String → String → String → Dict (List String) → Dict (List String) → Option Bool
unfolding is_empty role_grants any
rbac_check identity action resource roles identity_roles =
    if is_empty (or_empty identity)
    then none
    else decide_roles roles action resource (get_or identity_roles (or_empty identity) [])
