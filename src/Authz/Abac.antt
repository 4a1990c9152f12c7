-- ===== src/Authz/Abac.antt =====
-- ABAC of src/application/authz.py: the inline policy, the test of one rule and the check.
use flow_first.Base.{
  String, Bool, true, false, not, ◌||◌, Option, none, some, List, [], ◌∷◌, ◌==◌, contains, keep,
  if◌then◌else◌,
}
use flow_first.Base.Int.{ℤ, ltb_ℤ}
use flow_first.Base.Result.{Result, ok, raise, type_error, attribute_error}
use flow_first.Base.Text.{is_empty, strip, upper}
use flow_first.Json.{Json, Items, Fields, get_field}
use flow_first.Numbers.{Floats, int_of}
use flow_first.Authz.Glob.{fnmatchcase}

-- a rule dict, by the two keys that `parse_policy` asks for
pub record Rule : Type 0 where
  pub when : Json
  pub effect : Json

-- `attrs`; the hour is that of time.gmtime()
pub record Attrs : Type 0 where
  pub identity : String
  pub action : String
  pub resource : String
  pub method : String
  pub roles : List String
  pub hour_utc : ℤ

-- value == text
abbrev pub is_text : Json → String → Bool
is_text (Json.str s) t = s == t
is_text _ t = false

abbrev rule_of : Option Json → Option Json → List Rule → List Rule
rule_of (some w) (some e) rest = record { when = w; effect = e } ∷ rest
rule_of _ _ rest = rest

-- [r for r in rules if isinstance(r, dict) and "effect" in r and "when" in r]
rules_of : Items → List Rule
unfolding get_field
rules_of Items.nil = []
rules_of (Items.cons (Json.obj r) l) =
    rule_of (get_field r "when") (get_field r "effect") (rules_of l)
rules_of (Items.cons _ l) = rules_of l

abbrev rules_of_value : Option Json → List Rule
rules_of_value (some (Json.arr l)) = rules_of l
rules_of_value _ = []

-- `loads` is json.loads, with `none` where it raises
unfoldable pub parse_policy : (String → Option Json) → String → List Rule
unfolding rules_of is_empty strip
parse_policy loads raw_policy =
    if is_empty raw_policy || is_empty (strip raw_policy)
    then []
    else rules_of_value (loads raw_policy)

-- `val in roles`: a list or a dict cannot be hashed
role_matches : List String → Json → Result Bool
unfolding contains
role_matches roles (Json.str s) = ok (contains roles s)
role_matches roles (Json.arr l) = raise type_error
role_matches roles (Json.obj d) = raise type_error
role_matches roles _ = ok false

resource_matches : String → Json → Result Bool
resource_matches res (Json.str s) = ok (fnmatchcase res s || res == s)
resource_matches res _ = raise type_error

method_matches : String → Json → Result Bool
unfolding upper
method_matches method (Json.str s) = ok (upper method == upper s)
method_matches method _ = raise attribute_error

-- [r for r in policy if r.get("effect") == effect]
unfoldable pub with_effect : String → List Rule → List Rule
unfolding keep
with_effect effect = keep (λ rule. is_text rule.effect effect)

module _ (floats : Floats) where
  abbrev hour_lt : ℤ → Result ℤ → Result Bool
  hour_lt hour (raise e) = raise e
  hour_lt hour (ok n) = ok (ltb_ℤ hour n)

  abbrev hour_gte : ℤ → Result ℤ → Result Bool
  hour_gte hour (raise e) = raise e
  hour_gte hour (ok n) = ok (not (ltb_ℤ hour n))

  -- the body of the loop over rule["when"]: true goes on to the next condition
  unfoldable pub condition_holds : Attrs → String → Json → Result Bool
  unfolding role_matches resource_matches method_matches int_of
  condition_holds attrs key val =
      if key == "identity"
      then ok (is_text val attrs.identity)
      else if key == "role"
      then role_matches attrs.roles val
      else if key == "action"
      then ok (is_text val attrs.action)
      else if key == "resource"
      then resource_matches attrs.resource val
      else if key == "method"
      then method_matches attrs.method val
      else if key == "hour_utc_lt"
      then hour_lt attrs.hour_utc (int_of floats val)
      else if key == "hour_utc_gte"
      then hour_gte attrs.hour_utc (int_of floats val)
      else ok true

  conditions_hold : Attrs → Fields → Result Bool
  conditions_hold attrs Fields.end = ok true
  conditions_hold attrs (Fields.field key val rest) =
      let later = conditions_hold attrs rest in
      elim (condition_holds attrs key val) [
        | raise e ↦ raise e
        | ok b ↦ if b then later else ok false
      ]

  -- _rule_matches; `.items()` of anything but a dict raises
  unfoldable pub rule_matches : Attrs → Json → Result Bool
  unfolding conditions_hold
  rule_matches attrs (Json.obj conditions) = conditions_hold attrs conditions
  rule_matches attrs _ = raise attribute_error

  -- a loop that stops at the first rule that matches
  unfoldable pub some_rule_matches : Attrs → List Rule → Result Bool
  some_rule_matches attrs [] = ok false
  some_rule_matches attrs (rule ∷ rules) =
      let later = some_rule_matches attrs rules in
      elim (rule_matches attrs rule.when) [
        | raise e ↦ raise e
        | ok b ↦ if b then ok true else later
      ]

  unfoldable pub abac_check : Attrs → List Rule → Result (Option Bool)
  abac_check attrs [] = ok none
  abac_check attrs (rule ∷ rules) =
      let later = abac_check attrs rules in
      elim (rule_matches attrs rule.when) [
        | raise e ↦ raise e
        | ok b ↦ if b then ok (some (is_text rule.effect "allow")) else later
      ]
