-- ===== src/Tls/Verified.antt =====
-- What the contexts of src/tls/tls.py verify.
use flow_first.Base.{
  String, Bool, true, false, not, Option, none, some, List, [], ◌∷◌, ◌++◌, ◌≡◌, refl, sym, ap,
  subst, ◌∙◌, ◌⊎◌, inl, inr, arith, if◌then◌else◌,
}
use flow_first.Base.Text.{is_empty}
use flow_first.Tls.{
  Settings, Host, Tls, VerifyMode, Context, ◌>>=◌, need_file, min_version, with_ciphers, harden,
  load_ca, load_chain, apply_crl, new_context, client_context, mode_of, server_from, server_context,
}

bind-made :
    {A B : Type 0} (m : Tls A) (rest : A → Tls B) (b : B)
    → (m >>= rest) ≡ Tls.made b
    → (a : A) × (m ≡ Tls.made a) × (rest a ≡ Tls.made b)
bind-made (Tls.made a) rest b h = (a, refl, h)
bind-made (Tls.failed e) rest b h = ground arith

module _ (settings : Settings) (host : Host) where
  need_file-made :
      (path given : String)
      → need_file settings host path ≡ Tls.made given
      → (given ≡ path) × (is_empty path ≡ false)
  unfolding need_file
  need_file-made path given h = ground arith

  -- what _harden adds
  abbrev Hardened : Context → Context → Type 0
  Hardened ctx r =
      (r.verify_mode ≡ ctx.verify_mode)
      × (r.check_hostname ≡ ctx.check_hostname)
      × (r.trusted ≡ ctx.trusted)
      × (r.chain ≡ ctx.chain)
      × (r.checks_crl ≡ ctx.checks_crl)
      × (r.has_compression ≡ false)
      × (min_version settings host ≡ Tls.made r.minimum)
      × (r.suites ≡ (if is_empty settings.ciphers then ctx.suites else some settings.ciphers))

  with_ciphers-made :
      (ctx r : Context)
      → with_ciphers settings host ctx ≡ Tls.made r
      → r ≡ record ctx {
        suites = if is_empty settings.ciphers then ctx.suites else some settings.ciphers;
      }
  with_ciphers-made ctx r h = ground arith

  harden-Hardened : (ctx r : Context) → harden settings host ctx ≡ Tls.made r → Hardened ctx r
  unfolding harden
  harden-Hardened ctx r h = ground arith

  -- the context with the revocation list, where one is set
  abbrev WithCrl : Context → Context → Type 0
  WithCrl ctx r =
      ((r ≡ ctx) × (is_empty settings.crl_file ≡ true))
      ⊎ ((r ≡ record ctx { trusted = ctx.trusted ++ settings.crl_file ∷ []; checks_crl = true })
          × (is_empty settings.crl_file ≡ false))

  apply_crl-made : (ctx r : Context) → apply_crl settings host ctx ≡ Tls.made r → WithCrl ctx r
  unfolding apply_crl
  apply_crl-made ctx r h = ground arith

  -- the certificate authorities, and the revocation list where one is set
  abbrev pub roots : List String
  roots =
      if is_empty settings.crl_file
      then settings.ca_file ∷ []
      else settings.ca_file ∷ settings.crl_file ∷ []

  -- what every context has: its certificate, the authorities, the revocation list, and the suites
  abbrev pub Secured : String → String → Context → Type 0
  Secured cert key ctx =
      (ctx.trusted ≡ roots)
      × (ctx.chain ≡ (cert, key))
      × (ctx.checks_crl ≡ not (is_empty settings.crl_file))
      × (ctx.has_compression ≡ false)
      × (min_version settings host ≡ Tls.made ctx.minimum)
      × (ctx.suites ≡ (if is_empty settings.ciphers then none else some settings.ciphers))

  -- the context of an outgoing connection
  abbrev pub VerifiesServer : Context → Type 0
  VerifiesServer ctx =
      (ctx.verify_mode ≡ VerifyMode.required)
      × (ctx.check_hostname ≡ true)
      × Secured settings.client_cert settings.client_key ctx

  -- What follows a step that succeeded goes on from its result.
  need_file-then :
      {A : Type 0} (path : String) (rest : String → Tls A) (a : A)
      → (need_file settings host path >>= rest) ≡ Tls.made a
      → rest path ≡ Tls.made a
  need_file-then path rest a h =
      let (given, same, h) = bind-made (need_file settings host path) rest a h in
      subst (λ p. rest p ≡ Tls.made a) (need_file-made path given same).0 h

  load_ca-then :
      (ctx : Context) (path : String) (rest : Context → Tls Context) (r : Context)
      → (load_ca settings host ctx path >>= rest) ≡ Tls.made r
      → rest (record ctx { trusted = ctx.trusted ++ path ∷ [] }) ≡ Tls.made r
  unfolding load_ca
  load_ca-then ctx path rest r h = ground arith

  load_chain-then :
      (ctx : Context) (cert key : String) (rest : Context → Tls Context) (r : Context)
      → (load_chain settings host ctx cert key >>= rest) ≡ Tls.made r
      → rest (record ctx { chain = (cert, key) }) ≡ Tls.made r
  unfolding load_chain
  load_chain-then ctx cert key rest r h = ground arith

  -- a context with its certificate and the authorities, before the revocation list and the suites
  abbrev Loaded : VerifyMode → Bool → String → String → Context
  Loaded mode names cert key = record (new_context mode names) {
    trusted = settings.ca_file ∷ [];
    chain = (cert, key);
  }

  finish-Secured :
      (mode : VerifyMode) (names : Bool) (cert key : String) (r : Context)
      → (apply_crl settings host (Loaded mode names cert key) >>= harden settings host) ≡ Tls.made r
      → (r.verify_mode ≡ mode) × (r.check_hostname ≡ names) × Secured cert key r
  finish-Secured mode names cert key r h =
      let (c, applied, hardened) =
        bind-made (apply_crl settings host (Loaded mode names cert key)) (harden settings host) r
          h in
      by_crl c (apply_crl-made (Loaded mode names cert key) c applied)
        (harden-Hardened c r hardened)
    where
      by_crl :
          (c : Context)
          → WithCrl (Loaded mode names cert key) c
          → Hardened c r
          → (r.verify_mode ≡ mode) × (r.check_hostname ≡ names) × Secured cert key r
      by_crl c (inl (e, none_set)) hardened =
          let (a, b, d, f, g, i, j, k) = subst (λ x. Hardened x r) e hardened in
          (a, b, (d ∙ rw none_set refl, f, g ∙ rw none_set refl, i, j, k))
      by_crl c (inr (e, is_set)) hardened =
          let (a, b, d, f, g, i, j, k) = subst (λ x. Hardened x r) e hardened in
          (a, b, (d ∙ rw is_set refl, f, g ∙ rw is_set refl, i, j, k))

  pub client_context-VerifiesServer :
      (r : Context) → client_context settings host ≡ Tls.made r → VerifiesServer r
  unfolding client_context
  client_context-VerifiesServer r h =
      let h = need_file-then settings.ca_file _ r h in
      let h = load_ca-then (new_context VerifyMode.required true) settings.ca_file _ r h in
      let h = need_file-then settings.client_cert _ r h in
      let h = need_file-then settings.client_key _ r h in
      finish-Secured VerifyMode.required true settings.client_cert settings.client_key r (
        load_chain-then
          (record (new_context VerifyMode.required true) { trusted = settings.ca_file ∷ [] })
          settings.client_cert settings.client_key _ r h)

  -- the mode of the setting, and everything else as for the other contexts
  abbrev pub AsksCaller : Context → Type 0
  AsksCaller ctx =
      (mode_of settings.api_client_auth ≡ some ctx.verify_mode)
      × Secured settings.api_cert settings.api_key ctx

  server_from-AsksCaller :
      (mode : Option VerifyMode) (r : Context)
      → server_from settings host mode ≡ Tls.made r
      → (mode ≡ some r.verify_mode) × Secured settings.api_cert settings.api_key r
  server_from-AsksCaller none r h = ground arith
  server_from-AsksCaller (some mode) r h =
      let h = need_file-then settings.api_cert _ r h in
      let h = need_file-then settings.api_key _ r h in
      let h =
        load_chain-then (new_context VerifyMode.off false) settings.api_cert settings.api_key _ r
          h in
      let h = need_file-then settings.ca_file _ r h in
      let h = load_ca-then _ settings.ca_file _ r h in
      let (same, names, secured) =
        finish-Secured mode false settings.api_cert settings.api_key r h in
      (ap some (sym same), secured)

  pub server_context-AsksCaller :
      (r : Context) → server_context settings host ≡ Tls.made r → AsksCaller r
  unfolding server_context
  server_context-AsksCaller r h = server_from-AsksCaller (mode_of settings.api_client_auth) r h
