-- ===== src/Authz/Check/Batch.antt =====
-- The batch endpoint under the built-in roles.
use flow_first.Base.{String, true, false, Option, List, ◌≡◌, refl, arith}
use flow_first.Base.Int.{ℤ}
use flow_first.Base.Dict.{Dict}
use flow_first.Base.Result.{ok}
use flow_first.Numbers.{Floats}
use flow_first.Authz.Rbac.{builtin_roles}
use flow_first.Authz.Rbac.Grants.{rbac_check-no_batch}
use flow_first.Authz.Acl.{Acl}
use flow_first.Authz.Abac.{Rule}
use flow_first.Authz.Check.{
  Request, Config, mode_has, rbac_result, acl_stage, last_chance, rbac_stage, rbac_denied,
  deny_stage, allow_rule_or, check_authz,
}
use flow_first.Authz.Check.Spec.{verdict}

module _ (identity_roles : Dict (List String)) (acl : Acl) (policy : List Rule) where
  -- AUTHZ_MODE=rbac with no AUTHZ_ROLES of its own
  abbrev pub builtin_config : Config
  builtin_config = record {
    authz_mode = "rbac";
    roles = builtin_roles;
    identity_roles = identity_roles;
    acl = acl;
    policy = policy;
  }

  -- `_require_authz("publish", "flow:*")` of the batch endpoint
  abbrev pub batch_request : Option String → ℤ → Request
  batch_request identity hour = record {
    identity = identity;
    action = "publish";
    resource = "flow:*";
    method = "POST";
    hour_utc = hour;
  }

  rbac_only :
      (mode_has builtin_config "rbac" ≡ true)
      × (mode_has builtin_config "acl" ≡ false)
      × (mode_has builtin_config "abac" ≡ false)
  unfolding mode_has
  rbac_only = (refl, refl, refl)

  -- In mode rbac with the built-in roles, the batch endpoint is refused to every caller, a publisher or an
  -- operator too.
  pub check_authz-no_batch :
      (floats : Floats) (identity : Option String) (hour : ℤ)
      → verdict (check_authz floats builtin_config (batch_request identity hour)) ≡ ok false
  unfolding check_authz deny_stage rbac_stage rbac_denied acl_stage last_chance allow_rule_or
      rbac_result
  check_authz-no_batch floats identity hour =
      ground (arith, rbac_only, rbac_check-no_batch identity identity_roles)
