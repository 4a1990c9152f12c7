-- ===== src/Tls/Closed.antt =====
-- No connection of src/tls/tls.py falls back to plaintext or to an unverified peer.
use flow_first.Base.{
  String, Bool, true, false, Option, none, some, ◌≡◌, refl, ◌⊎◌, inl, inr, arith, if◌then◌else◌,
  Bool-cases,
}
use flow_first.Tls.{
  Settings, Host, Tls, TlsError, Context, ZkOptions, SwiftOptions, ◌>>=◌, need_file, client_context,
  server_context, mysql_ssl, zk_kwargs, is_https, swift_kwargs,
}
use flow_first.Tls.Verified.{
  VerifiesServer, AsksCaller, client_context-VerifiesServer, server_context-AsksCaller,
}

-- What a connection gets: nothing if its switch is off, and else a value of which P holds, unless it raises.
abbrev pub Chosen : {A : Type 0} → Bool → (A → Type 0) → Tls (Option A) → Type 0
Chosen enabled P (Tls.made none) = enabled ≡ false
Chosen enabled P (Tls.made (some a)) = (enabled ≡ true) × P a
Chosen enabled P (Tls.failed e) = enabled ≡ true

abbrev pub Served : (Context → Type 0) → Tls Context → Type 0
Served P (Tls.made ctx) = P ctx
Served P (Tls.failed e) = Unit {0}

module _ (settings : Settings) where
  -- over TLS, with the server's certificate and its name verified, and the pipeline's presented
  abbrev pub ZkPinned : ZkOptions → Type 0
  ZkPinned options =
      (options.use_ssl ≡ true)
      × (options.verify_certs ≡ true)
      × (options.check_hostname ≡ true)
      × (options.ca ≡ settings.ca_file)
      × (options.certfile ≡ settings.client_cert)
      × (options.keyfile ≡ settings.client_key)

  -- the server's certificate is verified, the pipeline's is presented, and the password is not sent in
  -- plaintext
  abbrev pub SwiftPinned : SwiftOptions → Type 0
  SwiftPinned options =
      (options.insecure ≡ false)
      × (options.cacert ≡ settings.ca_file)
      × (options.cert ≡ settings.client_cert)
      × (options.cert_key ≡ settings.client_key)
      × (is_https settings.swift_auth_url ≡ true)

  module _ (host : Host) where
    some-Chosen :
        (m : Tls Context)
        → ((r : Context) → m ≡ Tls.made r → VerifiesServer settings host r)
        → Chosen true (VerifiesServer settings host) (m >>= λ ctx. Tls.made (some ctx))
    some-Chosen (Tls.made ctx) h = (refl, h ctx refl)
    some-Chosen (Tls.failed e) h = refl

    mysql_ssl-Chosen :
        Chosen settings.mariadb_enabled (VerifiesServer settings host) (mysql_ssl settings host)
    unfolding mysql_ssl
    mysql_ssl-Chosen = by_switch settings.mariadb_enabled
      where
        by_switch :
            (enabled : Bool)
            → Chosen enabled (VerifiesServer settings host) (
                if enabled
                then (client_context settings host >>= λ ctx. Tls.made (some ctx))
                else Tls.made none)
        by_switch false = refl
        by_switch true =
            some-Chosen (client_context settings host) (client_context-VerifiesServer settings host)

    need_file_cases :
        (path : String)
        → (need_file settings host path ≡ Tls.made path)
          ⊎ ((e : TlsError) × (need_file settings host path ≡ Tls.failed e))
    unfolding need_file
    need_file_cases path = ground arith

    need_file-Chosen :
        {O : Type 0} (P : O → Type 0) (path : String) (rest : String → Tls (Option O))
        → Chosen true P (rest path)
        → Chosen true P (need_file settings host path >>= rest)
    need_file-Chosen P path rest h = elim (need_file_cases path) [
      | inl found ↦ rw found h
      | inr refused ↦ rw refused.1 refl
    ]

    -- the options that are made of the three files
    options-Chosen :
        {O : Type 0} (P : O → Type 0) (options : String → String → String → O)
        → P (options settings.ca_file settings.client_cert settings.client_key)
        → Chosen true P (
            need_file settings host settings.ca_file >>= λ ca.
            need_file settings host settings.client_cert >>= λ cert.
            need_file settings host settings.client_key >>= λ key.
            Tls.made (some (options ca cert key)))
    options-Chosen P options pinned = need_file-Chosen P settings.ca_file _ (
        need_file-Chosen P settings.client_cert _
          (need_file-Chosen P settings.client_key _ (refl, pinned)))

    zk_kwargs-Chosen : Chosen settings.zk_enabled ZkPinned (zk_kwargs settings host)
    unfolding zk_kwargs
    zk_kwargs-Chosen = elim (Bool-cases settings.zk_enabled) [
      | inl on ↦ rw on (
          options-Chosen ZkPinned
            (λ ca cert key. record {
              use_ssl = true;
              ca = ca;
              certfile = cert;
              keyfile = key;
              verify_certs = true;
              check_hostname = true;
            })
            (refl, refl, refl, refl, refl, refl))
      | inr off ↦ rw off refl
    ]

    swift_kwargs-Chosen : Chosen settings.swift_enabled SwiftPinned (swift_kwargs settings host)
    unfolding swift_kwargs
    swift_kwargs-Chosen = elim (Bool-cases settings.swift_enabled) [
      | inl on ↦ elim (Bool-cases (is_https settings.swift_auth_url)) [
        | inl safe ↦
            rw (on, safe)
              (options-Chosen SwiftPinned
                (λ ca cert key. record {
                  cacert = ca;
                  cert = cert;
                  cert_key = key;
                  insecure = false;
                })
                (refl, refl, refl, refl, safe))
        | inr plain ↦ rw (on, plain) refl
      ]
      | inr off ↦ rw off refl
    ]

    server_context-Served : Served (AsksCaller settings host) (server_context settings host)
    server_context-Served = by_result (server_context settings host) refl
      where
        by_result :
            (m : Tls Context)
            → server_context settings host ≡ m
            → Served (AsksCaller settings host) m
        by_result (Tls.made ctx) e = server_context-AsksCaller settings host ctx e
        by_result (Tls.failed x) e = tt

-- TLS fails closed, whatever files are there: with its switch off a connection gets nothing; with it on, it
-- gets an error, or the following. MariaDB: a context that demands the server's certificate and its host
-- name. ZooKeeper: options that switch TLS on and ask for the certificate and the host name to be verified.
-- Swift: options that do not switch verification off, and an https address. All trust the configured
-- authorities alone and present the pipeline's certificate. The contexts also check the revocation list
-- where one is set, and keep to the configured version and suites; so does that of the API, which asks its
-- callers for certificates as TLS_API_CLIENT_AUTH says.
pub contexts-Chosen :
    (settings : Settings) (host : Host)
    → Chosen settings.mariadb_enabled (VerifiesServer settings host) (mysql_ssl settings host)
      × Chosen settings.zk_enabled (ZkPinned settings) (zk_kwargs settings host)
      × Chosen settings.swift_enabled (SwiftPinned settings) (swift_kwargs settings host)
      × Served (AsksCaller settings host) (server_context settings host)
contexts-Chosen settings host = (
  mysql_ssl-Chosen settings host,
  zk_kwargs-Chosen settings host,
  swift_kwargs-Chosen settings host,
  server_context-Served settings host,
)
