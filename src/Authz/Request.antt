-- ===== src/Authz/Request.antt =====
-- `check_request_auth` of src/application/authz.py: the authentication of the flow endpoints.
pub mod Accepted
use flow_first.Base.{
  String, Bool, true, false, not, ◌&&◌, ◌||◌, Option, [], ◌∷◌, ◌==◌, if◌then◌else◌,
}
use flow_first.Base.Int.{ℤ}
use flow_first.Base.Dict.{Dict}
use flow_first.Base.Result.{Result, ok, raise}
use flow_first.Base.Text.{is_empty, concat}
use flow_first.Authz.Identity.{PeerCert, or_empty, cert_common_name}
use flow_first.Authz.Keys.{Digests, verify_api_key}
use flow_first.Authz.Token.{Codec, verify_token}

-- the tuple (ok, label, reason)
pub record AuthResult : Type 0 where
  pub allowed : Bool
  pub label : String
  pub reason : String

abbrev pub accept : String → String → AuthResult
accept label reason = record { allowed = true; label = label; reason = reason }

abbrev pub deny : String → AuthResult
deny reason = record { allowed = false; label = ""; reason = reason }

-- the truth value of an optional text
abbrev pub is_given : Option String → Bool
is_given o = not (is_empty (or_empty o))

-- `if label:` after the look-up of a key
abbrev pub key_result : Option String → AuthResult
key_result label =
    if is_given label then accept (or_empty label) "valid api_key" else deny "invalid api_key"

abbrev pub token_result : Option String → AuthResult
token_result subject =
    if is_given subject
    then accept (or_empty subject) "valid bearer token"
    else deny "invalid or expired token"

abbrev pub cert_result : Option String → AuthResult
cert_result cn =
    if is_given cn
    then accept (or_empty cn) (concat ("valid client certificate (CN=" ∷ or_empty cn ∷ ")" ∷ []))
    else deny "no valid client certificate (TLS_API_ENABLED must be true)"

module _ (digests : Digests) (codec : Codec) (now : ℤ) where
  -- the branch of the modes api_key and token
  unfoldable pub key_or_token_auth :
      String → Option String → Option String → Dict String → String → Result AuthResult
  unfolding is_empty verify_api_key verify_token
  key_or_token_auth mode raw_api_key bearer_token api_keys token_secret =
      if is_given raw_api_key
      then elim (verify_api_key digests (or_empty raw_api_key) api_keys) [
        | raise e ↦ raise e
        | ok label ↦ ok (key_result label)
      ]
      else if mode == "token" && is_given bearer_token
      then elim (verify_token digests codec now (or_empty bearer_token) token_secret) [
        | raise e ↦ raise e
        | ok subject ↦ ok (token_result subject)
      ]
      else if mode == "api_key"
      then ok (deny "X-Api-Key header missing")
      else ok (deny "X-Api-Key or Authorization: Bearer header missing")

  unfoldable pub check_request_auth :
      String
      → Option String
      → Option String
      → Option PeerCert
      → Dict String
      → String
      → Result AuthResult
  unfolding key_or_token_auth is_empty cert_common_name concat
  check_request_auth mode raw_api_key bearer_token peer_cert api_keys token_secret =
      if mode == "none"
      then ok (accept "anonymous" "auth disabled")
      else if mode == "api_key" || mode == "token"
      then key_or_token_auth mode raw_api_key bearer_token api_keys token_secret
      else if mode == "cert"
      then ok (cert_result (cert_common_name peer_cert))
      else ok (deny (concat ("unknown AUTH_MODE '" ∷ mode ∷ "'" ∷ [])))
