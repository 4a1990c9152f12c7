-- ===== src/Authz/Keys.antt =====
-- The API-key helpers of src/application/authz.py.
pub mod Lookup
use Prim.Native.String.{[], ◌∷◌, count}
use flow_first.Base.{
  String, Bool, true, false, not, ◌&&◌, ◌||◌, Option, none, some, List, [], ◌∷◌, ◌==◌, eqb, ltb,
  code, if◌then◌else◌,
}
use flow_first.Base.Text.{is_empty, strip, split, split_first}
use flow_first.Base.Dict.{Dict, put}
use flow_first.Base.Result.{Result, ok, raise, type_error}

-- The digests of the standard library, as hexadecimal text: any functions of the right type.
pub record Digests : Type 0 where
  -- hashlib.sha256(text.encode("utf-8")).hexdigest()
  pub sha256_hex : String → String
  -- hmac.new(secret, payload, hashlib.sha256).hexdigest(), the secret first
  pub hmac_hex : String → String → String

-- `result[label] = digest`, under the test on the label and on the digest's length
put_key : Dict String → String → String → Dict String
unfolding is_empty put
put_key result label digest =
    if not (is_empty label) && eqb (count digest) 64 then put result label digest else result

parse_key_entry : Dict String → String → Dict String
unfolding put_key strip is_empty split_first
parse_key_entry result entry = elim (split_first b':' (strip entry)) [
  | none ↦ result
  | some (label, digest) ↦ put_key result (strip label) (strip digest)
]

parse_key_entries : Dict String → List String → Dict String
unfolding parse_key_entry
parse_key_entries result [] = result
parse_key_entries result (entry ∷ entries) =
    parse_key_entries (parse_key_entry result entry) entries

unfoldable pub parse_api_keys : String → Dict String
unfolding parse_key_entries split
parse_api_keys raw = parse_key_entries [] (split b',' raw)

unfoldable pub is_ascii : String → Bool
is_ascii [] = true
is_ascii (c ∷ s) = ltb (code c) 128 && is_ascii s

-- hmac.compare_digest on two texts: it raises TypeError unless both are ASCII
unfoldable pub compare_digest : String → String → Result Bool
unfolding is_ascii
compare_digest a b = if is_ascii a && is_ascii b then ok (a == b) else raise type_error

abbrev found : Result Bool → String → Result (Option String) → Result (Option String)
found (raise e) label rest = raise e
found (ok true) label rest = ok (some label)
found (ok false) label rest = rest

-- the loop over `api_keys.items()`
find_label : Dict String → String → Result (Option String)
unfolding compare_digest
find_label [] candidate = ok none
find_label ((label, digest) ∷ rest) candidate =
    let later = find_label rest candidate in found (compare_digest candidate digest) label later

unfoldable pub is_empty_dict {ℓ} : {V : Type ℓ} → Dict V → Bool
is_empty_dict [] = true
is_empty_dict (_ ∷ _) = false

unfoldable pub verify_api_key : Digests → String → Dict String → Result (Option String)
unfolding find_label is_empty is_empty_dict
verify_api_key digests raw_key api_keys =
    if is_empty raw_key || is_empty_dict api_keys
    then ok none
    else find_label api_keys (digests.sha256_hex raw_key)
