-- ===== src/Authz/Examples.antt =====
-- Runs of src/application/authz.py on small inputs, and its theorems at inputs that meet their
-- hypotheses.
use Prim.Native.String.{count}
use flow_first.Base.{
  String, Bool, true, false, Option, none, some, List, [], ◌∷◌, ◌≡◌, ◌≢◌, ◌↔◌, ◌⊎◌, ◌||◌, ◌&&◌,
  refl, Member, here, later, if◌then◌else◌, ◌==◌,
}
use flow_first.Base.Int.{pos, ◌+ℤ◌}
use flow_first.Base.Dict.{Dict}
use flow_first.Base.Result.{ok, raise, value_error, type_error}
use flow_first.Base.Text.{is_empty, strip, split, concat, has_char}
use flow_first.Json.{Json, Fields}
use flow_first.Numbers.{Floats}
use flow_first.Authz.Identity.{cert_common_name, resolve_identity, parse_list, or_empty}
use flow_first.Authz.Identity.Trust.{Names, resolve_identity-Names}
use flow_first.Authz.Keys.{is_ascii, parse_api_keys, verify_api_key}
use flow_first.Authz.Keys.Lookup.{verify_api_key-parse_api_keys}
use flow_first.Authz.Token.{Claims, object, issue_token, verify_token, token_sign}
use flow_first.Authz.Token.Trip.{Sound, verify_token-issue_token, verify_token-signed}
use flow_first.Authz.Request.{AuthResult, accept, check_request_auth}
use flow_first.Authz.Request.Accepted.{check_request_auth-accepted}
use flow_first.Authz.Glob.{fnmatchcase}
use flow_first.Authz.Rbac.{parse_roles, rbac_check}
use flow_first.Authz.Rbac.Grants.{Granted, rbac_check-Granted}
use flow_first.Authz.Acl.{parse_acl, acl_check}
use flow_first.Authz.Abac.{Rule}
use flow_first.Authz.Check.{
  Config, Request, mode_has, rule_with_effect_matches, rbac_result, acl_result, is_true, caller,
  check_authz,
}
use flow_first.Authz.Check.Spec.{verdict, permits, check_authz-permits, check_authz-allowed}
use flow_first.Authz.Sample.{sample_codec, sample_digests, encode, decode}

abbrev sample_floats : Floats
sample_floats = record {
  truncate = λ x. raise value_error;
  of_int = λ n. ok "0.0";
  of_text = λ s. raise value_error;
  add = λ a b. ok a;
  times = λ a b. ok a;
  is_greater = λ a b. false;
  round2 = λ x. x;
}

parse_list_run : parse_list "a, b ,,c" ≡ "a" ∷ "b" ∷ "c" ∷ []
unfolding parse_list
parse_list_run = refl

globs :
    (fnmatchcase "flow:1" "flow:*" ≡ true)
    × (fnmatchcase "flow:*" "flow:1" ≡ false)
    × (fnmatchcase "b]x" "[!a-]]]?" ≡ false)
    × (fnmatchcase "]x" "[]a-c]?" ≡ true)
    × (fnmatchcase "b" "[!a-c]" ≡ false)
    × (fnmatchcase "[a" "[a" ≡ true)
unfolding fnmatchcase
globs = (refl, refl, refl, refl, refl, refl)

abbrev subject : List (List (String × String))
subject = (("countryName", "SE") ∷ []) ∷ (("commonName", "haproxy") ∷ []) ∷ []

resolve_identity-Names_example :
    (cn : String) × Names (some subject) cn
    × (("alice" ≡ cn)
        ⊎ (("alice" ≡ strip (or_empty (some " alice "))) × Member cn ("haproxy" ∷ [])))
unfolding resolve_identity
resolve_identity-Names_example =
    resolve_identity-Names (some subject) (some " alice ") ("haproxy" ∷ []) "alice" refl

abbrev digest : String
digest = "0123456789abcdef0123456789abcdef0123456789abcdef0123456789abcdef"

keys_run : parse_api_keys (concat ("ci: " ∷ digest ∷ ", bad:12, none" ∷ [])) ≡ ("ci", digest) ∷ []
unfolding parse_api_keys concat
keys_run = refl

abbrev key_text : String
key_text = "ci:0123456789abcdef0123456789abcdef0123456789abcdef0123456789abcdef, :, x"

verify_api_key-parse_api_keys_example :
    ((label : String) × (verify_api_key sample_digests digest (parse_api_keys key_text)
        ≡ ok (some label))
      × Member {A = String × String} (label, digest) (parse_api_keys key_text)
      × (is_empty label ≡ false)
      × (count digest ≡ 64))
    ⊎ ((verify_api_key sample_digests digest (parse_api_keys key_text) ≡ ok none)
        × ((label other : String)
            → Member {A = String × String} (label, other) (parse_api_keys key_text)
            → (other ≢ digest) × (is_ascii other ≡ true)))
    ⊎ ((verify_api_key sample_digests digest (parse_api_keys key_text) ≡ raise type_error)
        × ((label : String) × (other : String) × Member {A = String × String}
              (label, other)
              (parse_api_keys key_text)
            × (is_ascii other ≡ false)))
unfolding is_empty is_ascii
verify_api_key-parse_api_keys_example =
    verify_api_key-parse_api_keys sample_digests digest key_text refl refl

abbrev token : String
token = "ddd-bob.ab12"

token_run : issue_token sample_digests sample_codec (pos 1) "bob" (pos 1) "s" ≡ ok token
unfolding issue_token encode
token_run = refl

verify_token-issue_token_example :
    verify_token sample_digests sample_codec (pos 2) token "s" ≡ ok (some "bob")
unfolding is_empty has_char is_ascii ◌+ℤ◌
verify_token-issue_token_example =
    verify_token-issue_token sample_digests sample_codec (λ secret text. (refl, refl)) (pos 1)
      (pos 2) "bob" (pos 1) "s" token refl token_run

bearer_run : verify_token sample_digests sample_codec (pos 2) token "s" ≡ ok (some "bob")
unfolding verify_token decode
bearer_run = refl

verify_token-signed_example :
    (payload : String) × (claims : Claims) × (split b'.' token
      ≡ payload ∷ token_sign sample_digests sample_codec payload "s" ∷ [])
    × (sample_codec.decode payload ≡ object claims)
    × Sound sample_digests sample_codec (pos 2) "bob" claims
verify_token-signed_example =
    verify_token-signed sample_digests sample_codec (pos 2) token "s" "bob" bearer_run

abbrev by_token : AuthResult
by_token = accept "bob" "valid bearer token"

by_token_run :
    check_request_auth sample_digests sample_codec (pos 2) "token" none (some token) none [] "s"
    ≡ ok by_token
unfolding check_request_auth decode
by_token_run = refl

check_request_auth-accepted_example :
    (◌≡◌ {A = Bool} false true)
    ⊎ ((is_empty "bob" ≡ false)
        × ((◌≡◌ {A = Bool} true true) × (verify_api_key sample_digests "" [] ≡ ok (some "bob"))
            ⊎ (◌≡◌ {A = Bool} true true)
              × (verify_token sample_digests sample_codec (pos 2) token "s" ≡ ok (some "bob"))
            ⊎ (◌≡◌ {A = Bool} false true) × (cert_common_name none ≡ some "bob")))
check_request_auth-accepted_example =
    check_request_auth-accepted sample_digests sample_codec (pos 2) "token" none (some token) none
      [] "s" by_token by_token_run refl

abbrev roles : Dict (List String) × Dict (List String)
roles = parse_roles "ops = flow:*:publish, x" "ann=ops,reader; bob=publisher;eve"

roles_run : roles.1 ≡ ("ann", "ops" ∷ "reader" ∷ []) ∷ ("bob", "publisher" ∷ []) ∷ []
unfolding parse_roles flow_first.Base.Text.split_first flow_first.Base.Dict.put
roles_run = refl

abbrev ann_roles : Dict (List String)
ann_roles = ("ann", "ops" ∷ []) ∷ []

abbrev ops_roles : Dict (List String)
ops_roles = ("ops", "flow:*:publish" ∷ []) ∷ []

rbac_check-Granted_example :
    (rbac_check (some "ann") "publish" "flow:2" ops_roles ann_roles ≡ some true)
    ↔ Granted ops_roles ann_roles "ann" "publish" "flow:2"
unfolding is_empty
rbac_check-Granted_example = rbac_check-Granted ops_roles ann_roles "ann" "publish" "flow:2" refl

acl_run :
    acl_check
      (some "ci")
      "publish"
      "flow:2"
      (parse_acl "flow:*:publish=ci, cd; zk:config:write=root")
    ≡ some true
unfolding acl_check parse_acl flow_first.Base.Text.split_first flow_first.Base.Text.split_last
    fnmatchcase
acl_run = refl

-- an allow rule for publishing, and a deny rule for one identity
abbrev policy : List Rule
policy =
    record {
      when = Json.obj (Fields.field "action" (Json.str "publish") Fields.end);
      effect = Json.str "allow";
    }
    ∷ record {
      when = Json.obj (Fields.field "identity" (Json.str "bad_bot") Fields.end);
      effect = Json.str "deny";
    }
    ∷ []

abbrev config : Config
config = record {
  authz_mode = "rbac+abac";
  roles = ops_roles;
  identity_roles = ann_roles;
  acl = [];
  policy = policy;
}

abbrev request : Request
request = record {
  identity = some "eve";
  action = "publish";
  resource = "flow:2";
  method = "POST";
  hour_utc = pos 12;
}

check_authz-permits_example :
    verdict (check_authz sample_floats config request)
    ≡ ok (permits sample_floats config request false true)
unfolding rule_with_effect_matches flow_first.Authz.Abac.some_rule_matches
    flow_first.Authz.Abac.with_effect flow_first.Authz.Abac.rule_matches
    flow_first.Authz.Abac.condition_holds
check_authz-permits_example = check_authz-permits sample_floats config request false true refl refl

allowed_run : verdict (check_authz sample_floats config request) ≡ ok true
unfolding check_authz flow_first.Authz.Abac.some_rule_matches flow_first.Authz.Abac.with_effect
    flow_first.Authz.Abac.rule_matches flow_first.Authz.Abac.condition_holds rbac_check
    flow_first.Base.Dict.get flow_first.Authz.Abac.abac_check
allowed_run = refl

check_authz-allowed_example :
    ((is_empty config.authz_mode || config.authz_mode == "none") ≡ true)
    ⊎ ((is_empty (caller request) ≡ false)
        × ((mode_has config "abac" ≡ false)
            ⊎ (rule_with_effect_matches sample_floats config request "deny" ≡ ok false))
        × (((mode_has config "rbac" && is_true (rbac_result sample_floats config request)) ≡ true)
            ⊎ ((mode_has config "acl" && is_true (acl_result sample_floats config request)) ≡ true)
            ⊎ ((mode_has config "abac" ≡ true)
                × (rule_with_effect_matches sample_floats config request "allow" ≡ ok true))))
check_authz-allowed_example = check_authz-allowed sample_floats config request allowed_run
