-- ===== src/Tls.antt =====
-- src/tls/tls.py: the contexts and options of the connections. A context is a record of what was set on it; the
-- files and the ssl module are parameters.
pub mod Verified
pub mod Closed
pub mod Examples
use flow_first.Base.{
  String, Bool, true, false, not, Option, none, some, List, [], ◌∷◌, ◌++◌, ◌==◌, contains,
  if◌then◌else◌,
}
use flow_first.Base.Text.{is_empty, strip, lower, after_prefix, concat}

-- the settings of src/config/config.py
pub record Settings : Type 0 where
  pub ca_file : String
  pub client_cert : String
  pub client_key : String
  pub api_cert : String
  pub api_key : String
  pub crl_file : String
  pub ciphers : String
  pub min_version : String
  pub api_client_auth : String
  pub api_enabled : Bool
  pub rabbitmq_enabled : Bool
  pub mariadb_enabled : Bool
  pub zk_enabled : Bool
  pub swift_enabled : Bool
  pub swift_auth_url : String

-- os.path.isfile and os.access, and what the ssl module can load
pub record Host : Type 0 where
  pub is_file : String → Bool
  pub is_readable : String → Bool
  pub loads_ca : String → Bool
  pub loads_chain : String → String → Bool
  pub knows_ciphers : String → Bool

-- TLSConfigError, and the errors of the ssl module
pub data TlsError : Type 0 where
  config_error ssl_error : TlsError

pub data Tls (A : Type 0) : Type 0 where
  made : A → Tls A
  failed : TlsError → Tls A

module _ {A B : Type 0} where
  infixl 10 ◌>>=◌
  abbrev pub ◌>>=◌ : Tls A → (A → Tls B) → Tls B
  ◌>>=◌ m rest = elim m [ made a ↦ rest a | failed e ↦ failed e ]

pub data Version : Type 0 where
  tls1_2 tls1_3 : Version

-- CERT_REQUIRED, CERT_OPTIONAL, CERT_NONE
pub data VerifyMode : Type 0 where
  required optional off : VerifyMode

pub record Context : Type 0 where
  pub verify_mode : VerifyMode
  pub check_hostname : Bool
  pub trusted : List String
  pub chain : String × String
  -- VERIFY_CRL_CHECK_LEAF
  pub checks_crl : Bool
  pub minimum : Version
  -- set_ciphers
  pub suites : Option String
  -- OP_NO_COMPRESSION
  pub has_compression : Bool

-- the keyword arguments of KazooClient, and of swiftclient's Connection
pub record ZkOptions : Type 0 where
  pub use_ssl : Bool
  pub ca : String
  pub certfile : String
  pub keyfile : String
  pub verify_certs : Bool
  pub check_hostname : Bool

pub record SwiftOptions : Type 0 where
  pub cacert : String
  pub cert : String
  pub cert_key : String
  pub insecure : Bool

-- ssl.SSLContext
abbrev pub new_context : VerifyMode → Bool → Context
new_context mode names = record {
  verify_mode = mode;
  check_hostname = names;
  trusted = [];
  chain = ("", "");
  checks_crl = false;
  minimum = Version.tls1_2;
  suites = none;
  has_compression = true;
}

abbrev pub mode_of : String → Option VerifyMode
mode_of mode =
    if mode == "required"
    then some VerifyMode.required
    else if mode == "optional"
    then some VerifyMode.optional
    else if mode == "none"
    then some VerifyMode.off
    else none

abbrev pub is_https : String → Bool
is_https url = elim (after_prefix "https://" (lower url)) [ none ↦ false | some rest ↦ true ]

module _ (settings : Settings) (host : Host) where
  -- _need_file
  unfoldable pub need_file : String → Tls String
  unfolding is_empty
  need_file path =
      if is_empty path
      then Tls.failed TlsError.config_error
      else if not (host.is_file path)
      then Tls.failed TlsError.config_error
      else if not (host.is_readable path)
      then Tls.failed TlsError.config_error
      else Tls.made path

  -- _min_version
  unfoldable pub min_version : Tls Version
  unfolding strip
  min_version =
      if strip settings.min_version == "1.2"
      then Tls.made Version.tls1_2
      else if strip settings.min_version == "1.3"
      then Tls.made Version.tls1_3
      else Tls.failed TlsError.config_error

  abbrev pub with_ciphers : Context → Tls Context
  with_ciphers ctx =
      if is_empty settings.ciphers
      then Tls.made ctx
      else if host.knows_ciphers settings.ciphers
      then Tls.made (record ctx { suites = some settings.ciphers })
      else Tls.failed TlsError.config_error

  -- _harden
  unfoldable pub harden : Context → Tls Context
  unfolding min_version is_empty
  harden ctx = min_version >>= λ version.
      with_ciphers (record ctx { minimum = version }) >>= λ hardened.
      Tls.made (record hardened { has_compression = false })

  -- load_verify_locations
  unfoldable pub load_ca : Context → String → Tls Context
  load_ca ctx path =
      if host.loads_ca path
      then Tls.made (record ctx { trusted = ctx.trusted ++ path ∷ [] })
      else Tls.failed TlsError.ssl_error

  -- load_cert_chain
  unfoldable pub load_chain : Context → String → String → Tls Context
  load_chain ctx cert key =
      if host.loads_chain cert key
      then Tls.made (record ctx { chain = (cert, key) })
      else Tls.failed TlsError.ssl_error

  -- _apply_crl
  unfoldable pub apply_crl : Context → Tls Context
  unfolding need_file load_ca is_empty
  apply_crl ctx =
      if is_empty settings.crl_file
      then Tls.made ctx
      else need_file settings.crl_file >>= load_ca ctx >>= λ loaded.
          Tls.made (record loaded { checks_crl = true })

  unfoldable pub client_context : Tls Context
  unfolding need_file load_ca load_chain apply_crl harden
  client_context = need_file settings.ca_file >>= λ ca.
      load_ca (new_context VerifyMode.required true) ca >>= λ ctx.
      need_file settings.client_cert >>= λ cert. need_file settings.client_key >>= λ key.
      load_chain ctx cert key >>= λ ctx. apply_crl ctx >>= harden

  abbrev pub server_from : Option VerifyMode → Tls Context
  server_from none = Tls.failed TlsError.config_error
  server_from (some mode) = need_file settings.api_cert >>= λ cert.
      need_file settings.api_key >>= λ key.
      load_chain (new_context VerifyMode.off false) cert key >>= λ ctx.
      need_file settings.ca_file >>= λ ca.
      load_ca ctx ca >>= λ ctx. apply_crl (record ctx { verify_mode = mode }) >>= harden

  unfoldable pub server_context : Tls Context
  unfolding need_file load_ca load_chain apply_crl harden
  server_context = server_from (mode_of settings.api_client_auth)

  unfoldable pub mysql_ssl : Tls (Option Context)
  unfolding client_context
  mysql_ssl =
      if settings.mariadb_enabled
      then (client_context >>= λ ctx. Tls.made (some ctx))
      else Tls.made none

  unfoldable pub zk_kwargs : Tls (Option ZkOptions)
  unfolding need_file
  zk_kwargs =
      if not settings.zk_enabled
      then Tls.made none
      else need_file settings.ca_file >>= λ ca. need_file settings.client_cert >>= λ cert.
          need_file settings.client_key >>= λ key. Tls.made (
            some (record {
              use_ssl = true;
              ca = ca;
              certfile = cert;
              keyfile = key;
              verify_certs = true;
              check_hostname = true;
            }))

  unfoldable pub swift_kwargs : Tls (Option SwiftOptions)
  unfolding need_file after_prefix lower
  swift_kwargs =
      if not settings.swift_enabled
      then Tls.made none
      else if not (is_https settings.swift_auth_url)
      then Tls.failed TlsError.config_error
      else need_file settings.ca_file >>= λ ca. need_file settings.client_cert >>= λ cert.
          need_file settings.client_key >>= λ key.
          Tls.made (some (record { cacert = ca; cert = cert; cert_key = key; insecure = false }))
