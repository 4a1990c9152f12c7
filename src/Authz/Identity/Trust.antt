-- ===== src/Authz/Identity/Trust.antt =====
-- What an identity and an admin decision rest on.
use flow_first.Base.{
  String, Bool, true, false, not, ◌&&◌, Option, none, some, List, [], ◌∷◌, ◌==◌, ◌≡◌, refl, ◌⊎◌,
  arith, Member, here, later, contains, contains-Member, if◌then◌else◌, eq_iff, Bool-cases, inl,
  inr, Option-cases, sym,
}
use mathlib.Core.Path.{ap₂}
use flow_first.Base.Text.{is_empty, strip}
use flow_first.Authz.Identity.{
  PeerCert, or_empty, rdn_common_name, subject_common_name, cert_common_name, resolve_identity,
  admin_decision,
}

rdn_common_name-Member :
    (rdn : List (String × String)) (cn : String)
    → rdn_common_name rdn ≡ some cn
    → Member ("commonName", cn) rdn × (is_empty cn ≡ false)
unfolding rdn_common_name is_empty
rdn_common_name-Member [] cn h = cc
rdn_common_name-Member ((key, value) ∷ rest) cn h =
    elim (Bool-cases (key == "commonName" && not (is_empty value))) [
      | inl hit ↦
          let is_key : key == "commonName" ≡ true = ground arith in
          let same : value ≡ cn = ground arith in
          (
            here (
                ap₂ (λ (a b : String). (a, b)) (sym ((eq_iff key "commonName").0 is_key))
                  (sym same)),
            ground arith,
          )
      | inr miss ↦
          let (m, filled) = rdn_common_name-Member rest cn (ground arith) in (later m, filled)
    ]

subject_common_name-Member :
    (subject : PeerCert) (cn : String)
    → subject_common_name subject ≡ some cn
    → (rdn : List (String × String)) × Member rdn subject
      × Member ("commonName", cn) rdn
      × (is_empty cn ≡ false)
unfolding subject_common_name
subject_common_name-Member [] cn h = cc
subject_common_name-Member (rdn ∷ rest) cn h = elim (Option-cases (rdn_common_name rdn)) [
  | inl absent ↦
      let (found, m, n, filled) = subject_common_name-Member rest cn (ground arith) in
      (found, later m, n, filled)
  | inr (name, e) ↦
      let (n, filled) = rdn_common_name-Member rdn cn (ground arith) in (rdn, here refl, n, filled)
]

cert_common_name-Member :
    (subject : PeerCert) (cn : String)
    → cert_common_name (some subject) ≡ some cn
    → (rdn : List (String × String)) × Member rdn subject
      × Member ("commonName", cn) rdn
      × (is_empty cn ≡ false)
unfolding cert_common_name subject_common_name
cert_common_name-Member subject cn h = subject_common_name-Member subject cn h

resolve_identity-trusted :
    (peer_cert : Option PeerCert) (header_cn : Option String) (trusted : List String)
    (name : String)
    → resolve_identity peer_cert header_cn trusted ≡ some name
    → (connection_cn : String) × (cert_common_name peer_cert ≡ some connection_cn)
      × ((name ≡ connection_cn)
          ⊎ ((name ≡ strip (or_empty header_cn)) × Member connection_cn trusted))
unfolding resolve_identity
resolve_identity-trusted peer_cert header_cn trusted name h =
    elim (Option-cases (cert_common_name peer_cert)) [
      | inl absent ↦ cc
      | inr (cn, e) ↦ elim (Bool-cases (contains trusted cn)) [
        | inl proxy ↦ elim (Bool-cases (is_empty (strip (or_empty header_cn)))) [
          | inl blank ↦ (cn, e, inl (ground arith))
          | inr given ↦ (cn, e, inr (ground arith, contains-Member trusted cn proxy))
        ]
        | inr other ↦ (cn, e, inl (ground arith))
      ]
    ]

-- the certificate's subject has a common name of that text, which is not empty
abbrev pub Names : Option PeerCert → String → Type 0
Names peer_cert cn =
    (subject : PeerCert) × (rdn : List (String × String)) × (peer_cert ≡ some subject)
    × Member rdn subject
    × Member ("commonName", cn) rdn
    × (is_empty cn ≡ false)

cert_common_name-Names :
    (peer_cert : Option PeerCert) (cn : String)
    → cert_common_name peer_cert ≡ some cn
    → Names peer_cert cn
cert_common_name-Names none cn h = absurd (unfold cert_common_name in ground arith)
cert_common_name-Names (some subject) cn h =
    let (rdn, m, n, filled) = cert_common_name-Member subject cn h in
    (subject, rdn, refl, m, n, filled)

-- An identity is a common name of the verified certificate's subject, which is not empty, or the stripped
-- header of a connection whose certificate has the common name of a trusted proxy.
pub resolve_identity-Names :
    (peer_cert : Option PeerCert) (header_cn : Option String) (trusted : List String)
    (name : String)
    → resolve_identity peer_cert header_cn trusted ≡ some name
    → (connection_cn : String) × Names peer_cert connection_cn
      × ((name ≡ connection_cn)
          ⊎ ((name ≡ strip (or_empty header_cn)) × Member connection_cn trusted))
resolve_identity-Names peer_cert header_cn trusted name h =
    let (cn, e, from) = resolve_identity-trusted peer_cert header_cn trusted name h in
    (cn, cert_common_name-Names peer_cert cn e, from)

-- An admin action is allowed exactly when TLS is off and the configuration allows that, or TLS is on and
-- the caller's identity is in the list.
pub admin_decision-allowed :
    (identity : Option String) (tls : Bool) (allowed_cns : List String) (unauthenticated : Bool)
    → (admin_decision identity tls allowed_cns unauthenticated).0 ≡ (
        if tls
        then elim identity [ none ↦ false | some name ↦ contains allowed_cns name ]
        else unauthenticated)
unfolding admin_decision
admin_decision-allowed identity tls allowed_cns unauthenticated = ground arith
