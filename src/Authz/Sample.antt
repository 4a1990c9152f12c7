-- ===== src/Authz/Sample.antt =====
-- A concrete codec and concrete digests, to run the definitions on. The codec writes an expiry in unary
-- and escapes the dots of the subject; the digests are the text itself, and a constant.
use Prim.Native.String.{[], ◌∷◌}
use text.Mathlib.TextEquality.{Char-path}
use flow_first.Base.{
  ℕ, zero, suc, Char, code, String, false, some, ◌≡◌, refl, arith, eqb, if◌then◌else◌, Bool-cases,
  inl, inr, ◌+◌,
}
use native.Mathlib.Nat.{add-zero}
use flow_first.Base.Int.{ℤ, pos, negsuc}
use flow_first.Base.Text.{has_char}
use flow_first.Authz.Keys.{Digests}
use flow_first.Authz.Token.{Codec, Decoded, fails, object, at, token_version}

abbrev dot : Char
dot = "."

abbrev dash : Char
dash = "-"

abbrev letter : Char
letter = "d"

escape : String → String
escape [] = []
escape (c ∷ s) =
    let rest = escape s in
    if eqb (code c) b'.'
    then dash ∷ letter ∷ rest
    else if eqb (code c) b'-'
    then dash ∷ dash ∷ rest
    else c ∷ rest

unescape : String → String
unescape [] = []
unescape (c ∷ []) = c ∷ []
unescape (c ∷ d ∷ s) =
    let rest = unescape s in
    let next = unescape (d ∷ s) in
    if eqb (code c) b'-' then (if eqb (code d) b'-' then dash ∷ rest else dot ∷ rest) else c ∷ next

unescape-plain :
    (c : Char) (s : String) → eqb (code c) b'-' ≡ false → unescape (c ∷ s) ≡ c ∷ unescape s
unfolding unescape
unescape-plain c [] h = refl
unescape-plain c (d ∷ s) h = ground arith

unescape-escape : (s : String) → unescape (escape s) ≡ s
unfolding unescape escape
unescape-escape [] = refl
unescape-escape (c ∷ s) = elim (Bool-cases (eqb (code c) b'.')) [
  | inl is_dot ↦ ground (arith, unescape-escape s, Char-path c dot)
  | inr no_dot ↦ elim (Bool-cases (eqb (code c) b'-')) [
    | inl is_dash ↦ ground (arith, unescape-escape s, Char-path c dash)
    | inr plain ↦ ground (arith, unescape-escape s, unescape-plain c (escape s))
  ]
]

escape-no_dot : (s : String) → has_char b'.' (escape s) ≡ false
unfolding escape has_char
escape-no_dot [] = refl
escape-no_dot (c ∷ s) = ground (arith, escape-no_dot s)

unary : ℕ → String → String
unary zero rest = dash ∷ rest
unary (suc n) rest = letter ∷ unary n rest

unary-no_dot : (n : ℕ) (s : String) → has_char b'.' s ≡ false → has_char b'.' (unary n s) ≡ false
unfolding unary has_char
unary-no_dot zero s h = h
unary-no_dot (suc n) s h = unary-no_dot n s h

read_unary : (ℕ → ℤ) → ℕ → String → Decoded
read_unary sign n [] = fails
read_unary sign n (c ∷ s) =
    let more = read_unary sign (suc n) s in
    if eqb (code c) b'-'
    then object (record { v = some token_version; sub = some (unescape s); exp = at (sign n) })
    else more

add_unary : ℕ → ℕ → ℕ
add_unary zero n = n
add_unary (suc m) n = add_unary m (suc n)

read_unary-unary :
    (sign : ℕ → ℤ) (m n : ℕ) (s : String)
    → read_unary sign n (unary m s)
      ≡ object (record {
        v = some token_version;
        sub = some (unescape s);
        exp = at (sign (add_unary m n));
      })
unfolding read_unary unary add_unary
read_unary-unary sign zero n s = refl
read_unary-unary sign (suc m) n s = read_unary-unary sign m (suc n) s

add_unary-zero : (m n : ℕ) → add_unary m n ≡ m + n
unfolding add_unary
add_unary-zero zero n = omega arith
add_unary-zero (suc m) n = omega (arith, add_unary-zero m (suc n))

unfoldable pub encode : String → ℤ → String
unfolding unary escape
encode sub (pos n) = letter ∷ unary n (escape sub)
encode sub (negsuc n) = dash ∷ unary n (escape sub)

unfoldable pub decode : String → Decoded
unfolding read_unary unescape
decode [] = fails
decode (c ∷ s) = if eqb (code c) b'-' then read_unary negsuc 0 s else read_unary pos 0 s

pub decode-encode :
    (sub : String) (exp : ℤ)
    → decode (encode sub exp)
      ≡ object (record { v = some token_version; sub = some sub; exp = at exp })
unfolding decode encode
decode-encode sub (pos n) =
    rw (read_unary-unary pos n 0 (escape sub), unescape-escape sub, add_unary-zero n 0, add-zero)
decode-encode sub (negsuc n) =
    rw (read_unary-unary negsuc n 0 (escape sub), unescape-escape sub, add_unary-zero n 0, add-zero)

pub encode-no_dot : (sub : String) (exp : ℤ) → has_char b'.' (encode sub exp) ≡ false
unfolding encode has_char
encode-no_dot sub (pos n) = unary-no_dot n (escape sub) (escape-no_dot sub)
encode-no_dot sub (negsuc n) = unary-no_dot n (escape sub) (escape-no_dot sub)

abbrev pub sample_codec : Codec
sample_codec = record {
  encode = encode;
  decode = decode;
  decode-encode = decode-encode;
  encode-no_dot = encode-no_dot;
}

abbrev pub sample_digests : Digests
sample_digests = record { sha256_hex = λ s. s; hmac_hex = λ secret text. "ab12" }
