-- ===== src/Authz/Request/Accepted.antt =====
-- What an accepted request has shown.
use flow_first.Base.{
  String, true, false, ◌&&◌, ◌||◌, Option, none, some, ◌==◌, ◌≡◌, ◌⊎◌, inl, inr, arith, Bool-cases,
}
use flow_first.Base.Int.{ℤ}
use flow_first.Base.Dict.{Dict}
use flow_first.Base.Result.{Result, ok, raise}
use flow_first.Base.Text.{is_empty}
use flow_first.Authz.Identity.{PeerCert, or_empty, cert_common_name}
use flow_first.Authz.Keys.{Digests, verify_api_key}
use flow_first.Authz.Token.{Codec, verify_token}
use flow_first.Authz.Request.{
  AuthResult, is_given, key_result, token_result, cert_result, key_or_token_auth,
  check_request_auth,
}

abbrev Shows : Option String → AuthResult → Type 0
Shows o r = (o ≡ some r.label) × (is_empty r.label ≡ false)

key_result-Shows : (o : Option String) → (key_result o).allowed ≡ true → Shows o (key_result o)
unfolding is_empty
key_result-Shows none h = cc
key_result-Shows (some s) h = ground arith

token_result-Shows :
    (o : Option String) → (token_result o).allowed ≡ true → Shows o (token_result o)
unfolding is_empty
token_result-Shows none h = cc
token_result-Shows (some s) h = ground arith

cert_result-Shows : (o : Option String) → (cert_result o).allowed ≡ true → Shows o (cert_result o)
unfolding is_empty
cert_result-Shows none h = cc
cert_result-Shows (some s) h = ground arith

accept_key :
    (t : Result (Option String)) (r : AuthResult)
    → (elim t [ raise e ↦ raise e | ok label ↦ ok (key_result label) ]) ≡ ok r
    → r.allowed ≡ true
    → (t ≡ ok (some r.label)) × (is_empty r.label ≡ false)
accept_key (raise e) r h a = cc
accept_key (ok label) r h a = ground (arith, key_result-Shows label)

accept_token :
    (t : Result (Option String)) (r : AuthResult)
    → (elim t [ raise e ↦ raise e | ok subject ↦ ok (token_result subject) ]) ≡ ok r
    → r.allowed ≡ true
    → (t ≡ ok (some r.label)) × (is_empty r.label ≡ false)
accept_token (raise e) r h a = cc
accept_token (ok subject) r h a = ground (arith, token_result-Shows subject)

module _ (digests : Digests) (codec : Codec) (now : ℤ) where
  key_or_token_auth-accepted :
      (mode : String) (raw_api_key bearer_token : Option String) (api_keys : Dict String)
      (secret : String) (r : AuthResult)
      → key_or_token_auth digests codec now mode raw_api_key bearer_token api_keys secret ≡ ok r
      → r.allowed ≡ true
      → (is_empty r.label ≡ false)
        × ((verify_api_key digests (or_empty raw_api_key) api_keys ≡ ok (some r.label))
            ⊎ (mode == "token" ≡ true)
              × (verify_token digests codec now (or_empty bearer_token) secret ≡ ok (some r.label)))
  unfolding key_or_token_auth
  key_or_token_auth-accepted mode raw_api_key bearer_token api_keys secret r h a =
      elim (Bool-cases (is_given raw_api_key)) [
        | inl given ↦
            ground (arith, accept_key (verify_api_key digests (or_empty raw_api_key) api_keys) r)
        | inr absent ↦ elim (Bool-cases (mode == "token" && is_given bearer_token)) [
          | inl bearer ↦ ground (
            arith,
            accept_token (verify_token digests codec now (or_empty bearer_token) secret) r,
          )
          | inr nothing ↦ absurd (ground arith)
        ]
      ]

  -- An accepted request names no mode but the four. With authentication on, its label is the label of the
  -- key that it presented in mode api_key or token, the subject of its bearer token in mode token, or
  -- the common name of its certificate in mode cert, and the label is not empty.
  pub check_request_auth-accepted :
      (mode : String) (raw_api_key bearer_token : Option String) (peer_cert : Option PeerCert)
      (api_keys : Dict String) (secret : String) (r : AuthResult)
      → check_request_auth digests codec now mode raw_api_key bearer_token peer_cert api_keys secret
        ≡ ok r
      → r.allowed ≡ true
      → (mode == "none" ≡ true)
        ⊎ ((is_empty r.label ≡ false)
            × (((mode == "api_key" || mode == "token") ≡ true)
                  × (verify_api_key digests (or_empty raw_api_key) api_keys ≡ ok (some r.label))
                ⊎ (mode == "token" ≡ true)
                  × (verify_token digests codec now (or_empty bearer_token) secret
                      ≡ ok (some r.label))
                ⊎ (mode == "cert" ≡ true) × (cert_common_name peer_cert ≡ some r.label)))
  unfolding check_request_auth
  check_request_auth-accepted mode raw_api_key bearer_token peer_cert api_keys secret r h a =
      elim (Bool-cases (mode == "none")) [
        | inl off ↦ inl off
        | inr on ↦ elim (Bool-cases (mode == "api_key" || mode == "token")) [
          | inl keyed ↦
              ground
                (arith, key_or_token_auth-accepted mode raw_api_key bearer_token api_keys secret r)
          | inr other ↦ ground (arith, cert_result-Shows (cert_common_name peer_cert))
        ]
      ]
