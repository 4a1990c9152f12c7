-- ===== src/Authz/Token/Trip.antt =====
-- A token is read back until it expires, and nothing else is accepted.
use flow_first.Base.{
  String, Bool, true, false, ◌≡◌, refl, Option, none, some, List, [], ◌∷◌, arith, if◌then◌else◌,
  eq_iff, eq_refl, inl, inr, ap, sym, Bool-cases,
}
use flow_first.Base.Int.{ℤ, ◌+ℤ◌, ltb_ℤ}
use flow_first.Base.Result.{Result, ok, raise}
use flow_first.Base.Text.{is_empty, split, concat, has_char}
use flow_first.Base.Text.Laws.{split-concat_dot, is_empty-concat_dot}
use flow_first.Authz.Keys.{Digests, is_ascii, compare_digest}
use flow_first.Authz.Token.{
  Codec, Decoded, object, fails, not_an_object, Claims, at, missing, malformed, Expiry, token_sign,
  issue_token, check_claims, check_payload, checked, check_parts, verify_token, expiry, is_version,
}

-- hexdigest() writes hexadecimal digits alone: no dot, and nothing outside of ASCII
abbrev pub HexDigests : Digests → Type 0
HexDigests digests =
    (secret text : String)
    → (has_char b'.' (digests.hmac_hex secret text) ≡ false)
      × (is_ascii (digests.hmac_hex secret text) ≡ true)

compare_digest-same : (s : String) → is_ascii s ≡ true → compare_digest s s ≡ ok true
unfolding compare_digest
compare_digest-same s h = rw (h, eq_refl s) refl

compare_digest-ok : (a b : String) → compare_digest a b ≡ ok true → a ≡ b
unfolding compare_digest
compare_digest-ok a b h = ground (arith, eq_iff a b)

module _ (digests : Digests) (codec : Codec) where
  check_parts-issued :
      (hex : HexDigests digests) (then_s now : ℤ) (subject : String) (ttl_s : ℤ) (secret : String)
      → is_empty subject ≡ false
      → check_parts digests codec now secret (
          codec.encode subject (then_s +ℤ ttl_s)
          ∷ token_sign digests codec (codec.encode subject (then_s +ℤ ttl_s)) secret
          ∷ [])
        ≡ ok (if ltb_ℤ (then_s +ℤ ttl_s) now then none else some subject)
  unfolding check_parts check_payload check_claims token_sign
  check_parts-issued hex then_s now subject ttl_s secret filled =
      rw
        (compare_digest-same (digests.hmac_hex secret (codec.encode subject (then_s +ℤ ttl_s)))
          (hex secret (codec.encode subject (then_s +ℤ ttl_s))).1)
        (ground (arith, codec.decode-encode subject (then_s +ℤ ttl_s)))

  -- A token issued at one time is accepted at another until it has expired, and gives its subject; after
  -- that it gives none.
  pub verify_token-issue_token :
      (hex : HexDigests digests) (then_s now : ℤ) (subject : String) (ttl_s : ℤ) (secret : String)
      (token : String)
      → is_empty subject ≡ false
      → issue_token digests codec then_s subject ttl_s secret ≡ ok token
      → verify_token digests codec now token secret
        ≡ ok (if ltb_ℤ (then_s +ℤ ttl_s) now then none else some subject)
  unfolding verify_token issue_token
  verify_token-issue_token hex then_s now subject ttl_s secret token filled h =
      elim (Bool-cases (is_empty secret)) [
        | inl blank ↦ cc
        | inr kept ↦
            let payload = codec.encode subject (then_s +ℤ ttl_s) in
            let sig = digests.hmac_hex secret payload in
            let made : concat (payload ∷ "." ∷ sig ∷ []) ≡ token = ground arith in
            rw (← made) (
              rw
                (
                  is_empty-concat_dot payload sig,
                  kept,
                  split-concat_dot payload sig (codec.encode-no_dot _ _) (hex secret payload).0,
                )
                (check_parts-issued hex then_s now subject ttl_s secret filled))
      ]

  -- What is asked of the claims of a token that gives a subject.
  abbrev pub Sound : ℤ → String → Claims → Type 0
  Sound now subject claims =
      (is_version claims.v ≡ true)
      × (claims.sub ≡ some subject)
      × ((exp : ℤ) × (expiry claims.exp ≡ ok exp) × (ltb_ℤ exp now ≡ false))

  check_expiry-Sound :
      (now : ℤ) (v sub : Option String) (exp : Expiry) (subject : String)
      → check_claims digests codec now (record { v = v; sub = sub; exp = exp }) ≡ ok (some subject)
      → Sound now subject (record { v = v; sub = sub; exp = exp })
  unfolding check_claims
  check_expiry-Sound now v sub missing subject h =
      (ground arith, ground arith, (ℤ.pos 0, refl, ground arith))
  check_expiry-Sound now v sub (at t) subject h =
      (ground arith, ground arith, (t, refl, ground arith))
  check_expiry-Sound now v sub malformed subject h = ground arith

  check_payload-Sound :
      (now : ℤ) (decoded : Decoded) (subject : String)
      → check_payload digests codec now decoded ≡ ok (some subject)
      → (claims : Claims) × (decoded ≡ object claims) × Sound now subject claims
  unfolding check_payload
  check_payload-Sound now fails subject h = cc
  check_payload-Sound now not_an_object subject h = cc
  check_payload-Sound now (object claims) subject h =
      (claims, refl, check_expiry-Sound now claims.v claims.sub claims.exp subject h)

  checked-passes :
      (r : Result Bool) (next : Result (Option String)) (subject : String)
      → checked digests codec r next ≡ ok (some subject)
      → (r ≡ ok true) × (next ≡ ok (some subject))
  checked-passes (raise e) next subject h = cc
  checked-passes (ok true) next subject h = (refl, h)
  checked-passes (ok false) next subject h = cc

  check_parts-signed :
      (now : ℤ) (secret : String) (parts : List String) (subject : String)
      → check_parts digests codec now secret parts ≡ ok (some subject)
      → (payload : String) × (claims : Claims) × (parts
          ≡ payload ∷ token_sign digests codec payload secret ∷ [])
        × (codec.decode payload ≡ object claims)
        × Sound now subject claims
  unfolding check_parts
  check_parts-signed now secret [] subject h = cc
  check_parts-signed now secret (a ∷ []) subject h = cc
  check_parts-signed now secret (a ∷ b ∷ c ∷ rest) subject h = cc
  check_parts-signed now secret (payload ∷ sig ∷ []) subject h =
      let (same, passed) =
        checked-passes (compare_digest (token_sign digests codec payload secret) sig)
          (check_payload digests codec now (codec.decode payload)) subject h in
      let (claims, e, sound) = check_payload-Sound now (codec.decode payload) subject passed in
      (
        payload,
        claims,
        ap (λ (x : String). payload ∷ x ∷ [])
            (sym (compare_digest-ok (token_sign digests codec payload secret) sig same)),
        e,
        sound,
      )

  -- A token that gives a subject is two parts, the second the signature of the first under the secret,
  -- and the first carries the version, the subject and an expiry that is not past.
  pub verify_token-signed :
      (now : ℤ) (token secret subject : String)
      → verify_token digests codec now token secret ≡ ok (some subject)
      → (payload : String) × (claims : Claims) × (split b'.' token
          ≡ payload ∷ token_sign digests codec payload secret ∷ [])
        × (codec.decode payload ≡ object claims)
        × Sound now subject claims
  unfolding verify_token
  verify_token-signed now token secret subject h =
      check_parts-signed now secret (split b'.' token) subject (ground arith)
