-- ===== src/Authz/Identity.antt =====
-- The certificate identity helpers of src/application/authz.py, and the gate of the admin endpoint.
pub mod Trust
use flow_first.Base.{
  String, Bool, true, false, not, ◌&&◌, Option, none, some, List, [], ◌∷◌, ◌==◌, if◌then◌else◌,
  contains, keep, map,
}
use flow_first.Base.Text.{is_empty, strip, split, concat}

-- `getpeercert()["subject"]`: relative distinguished names, each of pairs of a key and a value. An
-- empty dict has no subject, and is read as one that is empty.
abbrev pub PeerCert : Type 0
PeerCert = List (List (String × String))

abbrev or_else {ℓ} : {A : Type ℓ} → Option A → Option A → Option A
or_else (some a) other = some a
or_else none other = other

-- the inner loop, over one relative distinguished name
rdn_common_name : List (String × String) → Option String
rdn_common_name [] = none
rdn_common_name ((key, value) ∷ rest) =
    if key == "commonName" && not (is_empty value) then some value else rdn_common_name rest

subject_common_name : PeerCert → Option String
unfolding rdn_common_name is_empty
subject_common_name [] = none
subject_common_name (rdn ∷ rest) = or_else (rdn_common_name rdn) (subject_common_name rest)

unfoldable pub cert_common_name : Option PeerCert → Option String
unfolding subject_common_name
cert_common_name none = none
cert_common_name (some subject) = subject_common_name subject

-- (header_cn or "")
abbrev pub or_empty : Option String → String
or_empty none = ""
or_empty (some s) = s

unfoldable pub resolve_identity : Option PeerCert → Option String → List String → Option String
unfolding cert_common_name strip is_empty contains
resolve_identity peer_cert header_cn trusted_proxy_cns = elim (cert_common_name peer_cert) [
  | none ↦ none
  | some connection_cn ↦
      let header = strip (or_empty header_cn) in
      if not (is_empty header) && contains trusted_proxy_cns connection_cn
      then some header
      else some connection_cn
]

-- The items of a comma list, stripped, the empty ones left out. The program only asks for membership,
-- so the frozenset is the list.
unfoldable pub parse_list : String → List String
unfolding keep is_empty strip split
parse_list text = keep (λ item. not (is_empty item)) (map strip (split b',' text))

unfoldable pub admin_decision : Option String → Bool → List String → Bool → Bool × String
unfolding contains concat
admin_decision identity tls_enabled allowed_cns allow_unauthenticated =
    if not tls_enabled
    then (if allow_unauthenticated
        then (true, "unauthenticated admin allowed (ALLOW_UNAUTHENTICATED_ADMIN=true)")
        else (
          false,
          "TLS is off, so the caller cannot be identified (set TLS_API_ENABLED=true, or ALLOW_UNAUTHENTICATED_ADMIN=true for a dev setup)",
        ))
    else elim identity [
      | none ↦ (false, "no verified client certificate")
      | some name ↦
          if contains allowed_cns name
          then (true, "identity is in ADMIN_ALLOWED_CNS")
          else (false, concat ("identity '" ∷ name ∷ "' is not in ADMIN_ALLOWED_CNS" ∷ []))
    ]
