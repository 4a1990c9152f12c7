-- ===== src/Authz/Keys/Lookup.antt =====
-- Which keys are accepted, and what the parsed key file can hold.
use Prim.Native.String.{count}
use flow_first.Base.{
  String, true, false, Option, ◌≢◌, refl, none, some, List, [], ◌∷◌, ◌==◌, ◌≡◌, arith, Member, here,
  later, inl, inr, ◌⊎◌, Option-cases, sym, ap, ◌∙◌, Bool-cases, eq_iff,
}
use mathlib.Core.Bool.{false≢true}
use flow_first.Base.Result.{Result, ok, raise, type_error}
use flow_first.Base.Text.{is_empty, strip, split, split_first}
use flow_first.Base.Dict.{Dict, put}
use flow_first.Authz.Keys.{
  Digests, is_ascii, compare_digest, put_key, parse_key_entry, parse_key_entries, parse_api_keys,
  find_label, is_empty_dict, verify_api_key,
}

-- The first entry with the digest; or no entry has it, and all are ASCII; or an entry that is not raises.
abbrev pub Looked : Dict String → String → Result (Option String) → Type 0
Looked api_keys candidate r =
    ((label : String) × (r ≡ ok (some label)) × Member (label, candidate) api_keys)
    ⊎ ((r ≡ ok none)
        × ((label digest : String)
            → Member (label, digest) api_keys
            → (digest ≢ candidate) × (is_ascii digest ≡ true)))
    ⊎ ((r ≡ raise type_error)
        × ((label : String) × (digest : String) × Member (label, digest) api_keys
            × (is_ascii digest ≡ false)))

compare_digest_cases :
    (a b : String)
    → is_ascii a ≡ true
    → ((compare_digest a b ≡ ok true) × (a ≡ b))
      ⊎ ((compare_digest a b ≡ ok false) × (b ≢ a) × (is_ascii b ≡ true))
      ⊎ ((compare_digest a b ≡ raise type_error) × (is_ascii b ≡ false))
unfolding compare_digest
compare_digest_cases a b h = elim (Bool-cases (is_ascii b)) [
  | inr odd ↦ inr (inr (rw (h, odd) refl, odd))
  | inl plain ↦ elim (Bool-cases (a == b)) [
    | inl same ↦ inl (rw (h, plain, same) refl, (eq_iff a b).0 same)
    | inr differ ↦ inr (
        inl (
          rw (h, plain, differ) refl,
          λ e. false≢true (sym differ ∙ (eq_iff a b).1 (sym e)),
          plain,
        ))
  ]
]

find_label-Looked :
    (api_keys : Dict String) (candidate : String)
    → is_ascii candidate ≡ true
    → Looked api_keys candidate (find_label api_keys candidate)
unfolding find_label
find_label-Looked [] candidate h = inr (inl (refl, λ label digest m. elim m [ ]))
find_label-Looked ((l, d) ∷ rest) candidate h = elim (compare_digest_cases candidate d h) [
  | inl (e, same) ↦ inl (l, rw e refl, here (ap (λ (x : String). (l, x)) same))
  | inr (inl (e, differ, plain)) ↦ rw e (after (find_label-Looked rest candidate h) differ plain)
  | inr (inr (e, odd)) ↦ inr (inr (rw e refl, (l, d, here refl, odd)))
]
  where
    after :
        Looked rest candidate (find_label rest candidate)
        → d ≢ candidate
        → is_ascii d ≡ true
        → Looked ((l, d) ∷ rest) candidate (find_label rest candidate)
    after (inl (label, e, m)) differ plain = inl (label, e, later m)
    after (inr (inl (e, none_has))) differ plain = inr (inl (e, all_others))
      where
        all_others :
            (label digest : String)
            → Member (label, digest) ((l, d) ∷ rest)
            → (digest ≢ candidate) × (is_ascii digest ≡ true)
        all_others label digest (here f) =
            let same : digest ≡ d = ap (λ (x : String × String). x.1) f in
            (λ g. differ (sym same ∙ g), ap is_ascii same ∙ plain)
        all_others label digest (later m) = none_has label digest m
    after (inr (inr (e, odd_one))) differ plain =
        let (label, digest, m, odd) = odd_one in inr (inr (e, (label, digest, later m, odd)))

-- The invariant of the parsed keys.
abbrev pub AllValid : Dict String → Type 0
AllValid [] = Unit
AllValid ((label, digest) ∷ rest) = (is_empty label ≡ false) × (count digest ≡ 64) × AllValid rest

put-AllValid :
    (keys : Dict String) (label digest : String)
    → AllValid keys
    → is_empty label ≡ false
    → count digest ≡ 64
    → AllValid (put keys label digest)
unfolding put
put-AllValid [] label digest v p q = (p, q, tt)
put-AllValid ((l, d) ∷ rest) label digest v p q = ground (arith, put-AllValid rest label digest)

put_key-AllValid :
    (keys : Dict String) (label digest : String)
    → AllValid keys
    → AllValid (put_key keys label digest)
unfolding put_key
put_key-AllValid keys label digest v = ground (arith, put-AllValid keys label digest v)

parse_key_entry-AllValid :
    (keys : Dict String) (entry : String) → AllValid keys → AllValid (parse_key_entry keys entry)
unfolding parse_key_entry
parse_key_entry-AllValid keys entry v = elim (Option-cases (split_first b':' (strip entry))) [
  | inl absent ↦ rw (absent, parse_key_entry) v
  | inr ((label, digest), e) ↦
      rw (e, parse_key_entry) (put_key-AllValid keys (strip label) (strip digest) v)
]

parse_key_entries-AllValid :
    (keys : Dict String) (entries : List String)
    → AllValid keys
    → AllValid (parse_key_entries keys entries)
unfolding parse_key_entries
parse_key_entries-AllValid keys [] v = v
parse_key_entries-AllValid keys (entry ∷ entries) v =
    parse_key_entries-AllValid (parse_key_entry keys entry) entries
      (parse_key_entry-AllValid keys entry v)

parse_api_keys-AllValid : (raw : String) → AllValid (parse_api_keys raw)
unfolding parse_api_keys
parse_api_keys-AllValid raw = parse_key_entries-AllValid [] (split b',' raw) tt

verify_api_key-Looked :
    (digests : Digests) (raw_key : String) (api_keys : Dict String)
    → is_empty raw_key ≡ false
    → is_ascii (digests.sha256_hex raw_key) ≡ true
    → Looked api_keys (digests.sha256_hex raw_key) (verify_api_key digests raw_key api_keys)
unfolding verify_api_key is_empty_dict
verify_api_key-Looked digests raw_key [] given h =
    rw given (inr (inl (refl, λ label digest m. elim m [ ])))
verify_api_key-Looked digests raw_key (k ∷ keys) given h =
    rw given (find_label-Looked (k ∷ keys) (digests.sha256_hex raw_key) h)

AllValid-Member :
    (label digest : String) (keys : Dict String)
    → AllValid keys
    → Member (label, digest) keys
    → (is_empty label ≡ false) × (count digest ≡ 64)
AllValid-Member label digest [] v m = elim m [ ]
AllValid-Member label digest ((l, d) ∷ keys) v (here e) = (
  ap (λ (p : String × String). is_empty p.0) e ∙ v.0,
  ap (λ (p : String × String). count p.1) e ∙ v.1,
)
AllValid-Member label digest ((l, d) ∷ keys) v (later m) = AllValid-Member label digest keys v.2 m

-- Against the keys of the configuration, whatever its text, one of three things happens to a key, whose
-- digest is ASCII as every hexadecimal text. A label is returned: it is not empty, and it is paired in the
-- table with that digest, of 64 characters. Or none is returned: no entry has the digest, and all entries
-- are ASCII. Or TypeError is raised: an entry of the table is not ASCII.
pub verify_api_key-parse_api_keys :
    (digests : Digests) (raw_key : String) (raw : String)
    → is_empty raw_key ≡ false
    → is_ascii (digests.sha256_hex raw_key) ≡ true
    → ((label : String) × (verify_api_key digests raw_key (parse_api_keys raw) ≡ ok (some label))
        × Member (label, digests.sha256_hex raw_key) (parse_api_keys raw)
        × (is_empty label ≡ false)
        × (count (digests.sha256_hex raw_key) ≡ 64))
      ⊎ ((verify_api_key digests raw_key (parse_api_keys raw) ≡ ok none)
          × ((label digest : String)
              → Member (label, digest) (parse_api_keys raw)
              → (digest ≢ digests.sha256_hex raw_key) × (is_ascii digest ≡ true)))
      ⊎ ((verify_api_key digests raw_key (parse_api_keys raw) ≡ raise type_error)
          × ((label : String) × (digest : String) × Member (label, digest) (parse_api_keys raw)
              × (is_ascii digest ≡ false)))
verify_api_key-parse_api_keys digests raw_key raw given h =
    elim (verify_api_key-Looked digests raw_key (parse_api_keys raw) given h) [
      | inr other ↦ inr other
      | inl (label, e, m) ↦
          let (filled, long) =
            AllValid-Member label (digests.sha256_hex raw_key) (parse_api_keys raw)
              (parse_api_keys-AllValid raw) m in
          inl (label, e, m, filled, long)
    ]
