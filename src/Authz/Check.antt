-- ===== src/Authz/Check.antt =====
-- `check_authz` of src/application/authz.py: the combined decision.
pub mod Spec
pub mod Batch
use flow_first.Base.{
  String, Bool, true, false, not, ◌&&◌, ◌||◌, Option, none, some, List, [], ◌∷◌, ◌==◌, contains,
  if◌then◌else◌,
}
use flow_first.Base.Int.{ℤ}
use flow_first.Base.Dict.{Dict, get_or}
use flow_first.Base.Result.{Result, ok, raise, ◌>>=◌}
use flow_first.Base.Text.{is_empty, lower, split, concat}
use flow_first.Numbers.{Floats}
use flow_first.Authz.Identity.{or_empty}
use flow_first.Authz.Rbac.{rbac_check}
use flow_first.Authz.Acl.{Acl, acl_check}
use flow_first.Authz.Abac.{Rule, Attrs, some_rule_matches, abac_check, with_effect}

-- the tuple (allowed, reason)
pub record Decision : Type 0 where
  pub allowed : Bool
  pub reason : String

abbrev pub allow : List String → Result Decision
allow pieces = ok (record { allowed = true; reason = concat pieces })

abbrev pub deny : List String → Result Decision
deny pieces = ok (record { allowed = false; reason = concat pieces })

-- What a request asks for, and what the process read from its configuration at start.
pub record Request : Type 0 where
  pub identity : Option String
  pub action : String
  pub resource : String
  pub method : String
  pub hour_utc : ℤ

pub record Config : Type 0 where
  pub authz_mode : String
  pub roles : Dict (List String)
  pub identity_roles : Dict (List String)
  pub acl : Acl
  pub policy : List Rule

abbrev pub caller : Request → String
caller req = or_empty req.identity

unfoldable pub attrs_of : Config → Request → Attrs
attrs_of cfg req = record {
  identity = caller req;
  action = req.action;
  resource = req.resource;
  method = req.method;
  roles = get_or cfg.identity_roles (caller req) [];
  hour_utc = req.hour_utc;
}

-- set(authz_mode.lower().split("+"))
unfoldable pub mode_has : Config → String → Bool
unfolding contains lower split
mode_has cfg part = contains (split b'+' (lower cfg.authz_mode)) part

-- `result is True`
abbrev pub is_true : Option Bool → Bool
is_true (some b) = b
is_true none = false

module _ (floats : Floats) (cfg : Config) (req : Request) where
  unfoldable pub rule_with_effect_matches : String → Result Bool
  unfolding attrs_of
  rule_with_effect_matches effect =
      some_rule_matches floats (attrs_of cfg req) (with_effect effect cfg.policy)

  unfoldable pub rbac_result : Option Bool
  rbac_result = rbac_check req.identity req.action req.resource cfg.roles cfg.identity_roles

  unfoldable pub acl_result : Option Bool
  acl_result = acl_check req.identity req.action req.resource cfg.acl

  -- `if "abac" in parts:` over the allow rules, with the reason of the place and the denial that follows
  unfoldable pub allow_rule_or : List String → Result Decision → Result Decision
  unfolding mode_has rule_with_effect_matches
  allow_rule_or reason otherwise =
      if mode_has cfg "abac"
      then elim (rule_with_effect_matches "allow") [
        | raise e ↦ raise e
        | ok b ↦ if b then allow reason else otherwise
      ]
      else otherwise

  -- 4. ABAC allow rules, by `abac_check`, and the default
  unfoldable pub last_chance : Result Decision
  unfolding mode_has attrs_of
  last_chance =
      let default = deny (
        "no authorization rule grants "
        ∷ caller req
        ∷ " for "
        ∷ req.resource
        ∷ ":"
        ∷ req.action
        ∷ []) in
      if mode_has cfg "abac"
      then elim (abac_check floats (attrs_of cfg req) (with_effect "allow" cfg.policy)) [
        | raise e ↦ raise e
        | ok result ↦ if is_true result then allow ("abac: allow rule matched" ∷ []) else default
      ]
      else default

  -- 3. ACL
  unfoldable pub acl_stage : Result Decision
  unfolding mode_has acl_result last_chance allow_rule_or
  acl_stage =
      if mode_has cfg "acl"
      then elim acl_result [
        | none ↦ last_chance
        | some granted ↦
            if granted
            then allow ("acl: explicit grant for " ∷ caller req ∷ [])
            else allow_rule_or ("abac: allow rule overrides acl denial" ∷ []) (
                deny
                  ("acl: identity not in allow-list for " ∷ req.resource ∷ ":" ∷ req.action ∷ []))
      ]
      else last_chance

  -- the branch in which the identity has roles and none of them grants the action
  unfoldable pub rbac_denied : Result Decision
  unfolding mode_has acl_result allow_rule_or
  rbac_denied =
      if mode_has cfg "acl" && is_true acl_result
      then allow ("acl: explicit grant overrides rbac denial" ∷ [])
      else allow_rule_or ("abac: allow rule overrides rbac denial" ∷ [])
          (deny ("rbac: identity has roles but none grant " ∷ req.resource ∷ ":" ∷ req.action ∷ []))

  -- 2. RBAC
  unfoldable pub rbac_stage : Result Decision
  unfolding mode_has rbac_result acl_stage rbac_denied
  rbac_stage =
      if mode_has cfg "rbac"
      then elim rbac_result [
        | none ↦ acl_stage
        | some granted ↦
            if granted
            then allow ("rbac: role grants " ∷ req.resource ∷ ":" ∷ req.action ∷ [])
            else rbac_denied
      ]
      else acl_stage

  -- 1. ABAC explicit deny
  unfoldable pub deny_stage : Result Decision
  unfolding mode_has rule_with_effect_matches rbac_stage
  deny_stage =
      if mode_has cfg "abac"
      then elim (rule_with_effect_matches "deny") [
        | raise e ↦ raise e
        | ok b ↦ if b then deny ("abac: explicit deny rule matched" ∷ []) else rbac_stage
      ]
      else rbac_stage

  unfoldable pub check_authz : Result Decision
  unfolding deny_stage is_empty
  check_authz =
      if is_empty cfg.authz_mode || cfg.authz_mode == "none"
      then allow ("authz disabled" ∷ [])
      else if is_empty (caller req)
      then deny ("no authenticated identity for authorization check" ∷ [])
      else deny_stage
