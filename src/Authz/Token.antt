-- ===== src/Authz/Token.antt =====
-- The HMAC token helpers of src/application/authz.py.
pub mod Trip
use flow_first.Base.{
  String, Bool, true, false, not, ◌||◌, ◌≡◌, Option, none, some, List, [], ◌∷◌, ◌==◌, if◌then◌else◌,
}
use flow_first.Base.Int.{ℤ, ◌+ℤ◌, ltb_ℤ}
use flow_first.Base.Result.{Result, ok, raise, value_error, attribute_error}
use flow_first.Base.Text.{is_empty, split, concat, has_char}
use flow_first.Authz.Keys.{Digests, compare_digest}

-- `data.get("exp", 0)`: absent, a number, or a value that `int` refuses
pub data Expiry : Type 0 where
  missing : Expiry
  at : ℤ → Expiry
  malformed : Expiry

-- The fields of a decoded payload that the code reads. A `v` or a `sub` that is no text stands for none:
-- the first differs from every version, the second cannot come from `issue_token`.
pub record Claims : Type 0 where
  pub v : Option String
  pub sub : Option String
  pub exp : Expiry

-- json.loads(base64.urlsafe_b64decode(payload + pad).decode()): it raises, or gives a JSON value
pub data Decoded : Type 0 where
  fails : Decoded
  not_an_object : Decoded
  object : Claims → Decoded

abbrev pub token_version : String
token_version = "ff1"

-- JSON and URL-safe base64 of the standard library: what the payload writer and its reader do.
pub record Codec : Type 0 where
  pub encode : String → ℤ → String
  pub decode : String → Decoded
  -- what was written is read back
  pub decode-encode :
      (sub : String) (exp : ℤ)
      → decode (encode sub exp)
        ≡ object (record { v = some token_version; sub = some sub; exp = at exp })
  -- the alphabet of URL-safe base64 has no dot
  pub encode-no_dot : (sub : String) (exp : ℤ) → has_char b'.' (encode sub exp) ≡ false

-- int(data.get("exp", 0))
abbrev pub expiry : Expiry → Result ℤ
expiry missing = ok (ℤ.pos 0)
expiry (at t) = ok t
expiry malformed = raise value_error

-- `data.get("sub") or None`
abbrev pub non_empty : Option String → Option String
non_empty none = none
non_empty (some s) = if is_empty s then none else some s

abbrev pub is_version : Option String → Bool
is_version none = false
is_version (some v) = v == token_version

module _ (digests : Digests) (codec : Codec) where
  -- `now` is int(time.time())
  unfoldable pub token_payload : ℤ → String → ℤ → String
  unfolding ◌+ℤ◌
  token_payload now subject ttl_s = codec.encode subject (now +ℤ ttl_s)

  unfoldable pub token_sign : String → String → String
  token_sign payload secret = digests.hmac_hex secret payload

  unfoldable pub issue_token : ℤ → String → ℤ → String → Result String
  unfolding token_payload token_sign is_empty concat
  issue_token now subject ttl_s secret =
      if is_empty secret
      then raise value_error
      else let payload = token_payload now subject ttl_s in
        ok (concat (payload ∷ "." ∷ token_sign payload secret ∷ []))

  check_claims : ℤ → Claims → Result (Option String)
  unfolding is_empty
  check_claims now claims =
      if not (is_version claims.v) then ok none else elim (expiry claims.exp) [
        | raise e ↦ raise e
        | ok exp ↦ if ltb_ℤ exp now then ok none else ok (non_empty claims.sub)
      ]

  check_payload : ℤ → Decoded → Result (Option String)
  unfolding check_claims
  check_payload now fails = ok none
  check_payload now not_an_object = raise attribute_error
  check_payload now (object claims) = check_claims now claims

  abbrev checked : Result Bool → Result (Option String) → Result (Option String)
  checked (raise e) subject = raise e
  checked (ok true) subject = subject
  checked (ok false) subject = ok none

  -- the test on the parts of the token: there are two
  check_parts : ℤ → String → List String → Result (Option String)
  unfolding check_payload token_sign compare_digest
  check_parts now secret (payload ∷ sig ∷ []) =
      checked (compare_digest (token_sign payload secret) sig)
        (check_payload now (codec.decode payload))
  check_parts now secret _ = ok none

  unfoldable pub verify_token : ℤ → String → String → Result (Option String)
  unfolding check_parts split is_empty
  verify_token now token secret =
      if is_empty token || is_empty secret
      then ok none
      else check_parts now secret (split b'.' token)
