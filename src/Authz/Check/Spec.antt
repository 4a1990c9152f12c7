-- ===== src/Authz/Check/Spec.antt =====
-- What `check_authz` promises: one formula in place of its ladder of tests.
use flow_first.Base.{
  Bool, true, false, not, ◌&&◌, ◌||◌, none, some, List, [], ◌∷◌, ◌==◌, ◌≡◌, arith, keep, ◌⊎◌,
  if◌then◌else◌,
}
use flow_first.Base.Result.{Result, ok, raise}
use flow_first.Base.Text.{is_empty}
use flow_first.Numbers.{Floats}
use flow_first.Authz.Abac.{Rule, Attrs, some_rule_matches, abac_check, with_effect}
use flow_first.Authz.Check.{
  Decision, Request, Config, caller, attrs_of, mode_has, rule_with_effect_matches, rbac_result,
  acl_result, is_true, allow_rule_or, last_chance, acl_stage, rbac_denied, rbac_stage, deny_stage,
  check_authz,
}

-- Among rules that allow, `abac_check` finds one exactly when a rule matches.
abac_check-allow :
    (floats : Floats) (attrs : Attrs) (rules : List Rule) (b : Bool)
    → some_rule_matches floats attrs (with_effect "allow" rules) ≡ ok b
    → abac_check floats attrs (with_effect "allow" rules) ≡ ok (if b then some true else none)
unfolding some_rule_matches abac_check with_effect keep
abac_check-allow floats attrs [] b h = ground arith
abac_check-allow floats attrs (rule ∷ rules) b h =
    ground (arith, abac_check-allow floats attrs rules b)

module _ (floats : Floats) (cfg : Config) (req : Request) where
  -- The decision as one formula, from whether a deny rule and an allow rule match.
  abbrev pub permits : Bool → Bool → Bool
  permits denied allowed =
      is_empty cfg.authz_mode
      || cfg.authz_mode == "none"
      || (not (is_empty (caller req))
          && not (mode_has cfg "abac" && denied)
          && (mode_has cfg "rbac" && is_true (rbac_result floats cfg req)
              || mode_has cfg "acl" && is_true (acl_result floats cfg req)
              || mode_has cfg "abac" && allowed))

-- the first part of the tuple
abbrev pub verdict : Result Decision → Result Bool
verdict (ok r) = ok r.allowed
verdict (raise e) = raise e

module _ (floats : Floats) (cfg : Config) (req : Request) (d a : Bool) where
  last_chance_lem :
      rule_with_effect_matches floats cfg req "allow" ≡ ok a
      → verdict (last_chance floats cfg req) ≡ ok (mode_has cfg "abac" && a)
  unfolding last_chance rule_with_effect_matches
  last_chance_lem h = ground (arith, abac_check-allow floats (attrs_of cfg req) cfg.policy a h)

  acl_stage_lem :
      rule_with_effect_matches floats cfg req "allow" ≡ ok a
      → verdict (acl_stage floats cfg req)
        ≡ ok (mode_has cfg "acl" && is_true (acl_result floats cfg req) || mode_has cfg "abac" && a)
  unfolding acl_stage allow_rule_or
  acl_stage_lem h = ground (arith, last_chance_lem h)

  rbac_denied_lem :
      rule_with_effect_matches floats cfg req "allow" ≡ ok a
      → verdict (rbac_denied floats cfg req)
        ≡ ok (mode_has cfg "acl" && is_true (acl_result floats cfg req) || mode_has cfg "abac" && a)
  unfolding rbac_denied allow_rule_or
  rbac_denied_lem h = ground arith

  rbac_stage_lem :
      rule_with_effect_matches floats cfg req "allow" ≡ ok a
      → verdict (rbac_stage floats cfg req)
        ≡ ok (
            mode_has cfg "rbac" && is_true (rbac_result floats cfg req)
            || mode_has cfg "acl" && is_true (acl_result floats cfg req)
            || mode_has cfg "abac" && a)
  unfolding rbac_stage
  rbac_stage_lem h = ground (arith, acl_stage_lem h, rbac_denied_lem h)

  -- If the conditions of the policy can be evaluated, the caller is let through exactly when the
  -- formula says so: authorization is off, or there is an identity, no deny rule matches, and RBAC, the
  -- ACL or an allow rule grants, each only where the mode names it.
  pub check_authz-permits :
      rule_with_effect_matches floats cfg req "deny" ≡ ok d
      → rule_with_effect_matches floats cfg req "allow" ≡ ok a
      → verdict (check_authz floats cfg req) ≡ ok (permits floats cfg req d a)
  unfolding check_authz deny_stage
  check_authz-permits h k = ground (arith, rbac_stage_lem k)

some_rule_matches-abac_check :
    (floats : Floats) (attrs : Attrs) (rules : List Rule)
    → abac_check floats attrs (with_effect "allow" rules) ≡ ok (some true)
    → some_rule_matches floats attrs (with_effect "allow" rules) ≡ ok true
unfolding some_rule_matches abac_check with_effect keep
some_rule_matches-abac_check floats attrs [] h = cc
some_rule_matches-abac_check floats attrs (rule ∷ rules) h =
    ground (arith, some_rule_matches-abac_check floats attrs rules)

last_chance_allowed :
    (floats : Floats) (cfg : Config) (req : Request)
    → verdict (last_chance floats cfg req) ≡ ok true
    → (mode_has cfg "abac" ≡ true) × (rule_with_effect_matches floats cfg req "allow" ≡ ok true)
unfolding last_chance rule_with_effect_matches
last_chance_allowed floats cfg req h =
    ground (arith, some_rule_matches-abac_check floats (attrs_of cfg req) cfg.policy)

-- Whatever the policy holds, an allowed request is allowed for a reason: authorization is off, or the
-- caller has an identity and RBAC, the ACL or an allow rule of the policy grants it under a mode that
-- names it; and then a mode with abac has seen no deny rule match.
pub check_authz-allowed :
    (floats : Floats) (cfg : Config) (req : Request)
    → verdict (check_authz floats cfg req) ≡ ok true
    → ((is_empty cfg.authz_mode || cfg.authz_mode == "none") ≡ true)
      ⊎ ((is_empty (caller req) ≡ false)
          × ((mode_has cfg "abac" ≡ false)
              ⊎ (rule_with_effect_matches floats cfg req "deny" ≡ ok false))
          × (((mode_has cfg "rbac" && is_true (rbac_result floats cfg req)) ≡ true)
              ⊎ ((mode_has cfg "acl" && is_true (acl_result floats cfg req)) ≡ true)
              ⊎ ((mode_has cfg "abac" ≡ true)
                  × (rule_with_effect_matches floats cfg req "allow" ≡ ok true))))
unfolding check_authz deny_stage rbac_stage acl_stage rbac_denied allow_rule_or
check_authz-allowed floats cfg req h = ground (arith, last_chance_allowed floats cfg req)
