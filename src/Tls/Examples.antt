-- ===== src/Tls/Examples.antt =====
-- Tests of the contexts of TLS.
use flow_first.Base.{true, false, not, some, [], ◌∷◌, ◌==◌, ◌≡◌, refl}
use flow_first.Tls.{
  Settings, Host, Tls, TlsError, Version, VerifyMode, mysql_ssl, zk_kwargs, swift_kwargs,
  server_context,
}
use flow_first.Tls.Verified.{VerifiesServer, AsksCaller}
use flow_first.Tls.Closed.{Chosen, Served, ZkPinned, SwiftPinned, contexts-Chosen}

abbrev secured : Settings
secured = record {
  ca_file = "ca.pem";
  client_cert = "client.pem";
  client_key = "client.key";
  api_cert = "api.pem";
  api_key = "api.key";
  crl_file = "crl.pem";
  ciphers = "ECDHE+AESGCM";
  min_version = "1.2";
  api_client_auth = "optional";
  api_enabled = true;
  rabbitmq_enabled = true;
  mariadb_enabled = true;
  zk_enabled = true;
  swift_enabled = true;
  swift_auth_url = "HTTPS://swift.example/auth";
}

-- a host on which the key of the API is not readable
abbrev plain_host : Host
plain_host = record {
  is_file = λ path. true;
  is_readable = λ path. not (path == "api.key");
  loads_ca = λ path. true;
  loads_chain = λ cert key. true;
  knows_ciphers = λ suites. true;
}

mariadb_context :
    mysql_ssl secured plain_host
    ≡ Tls.made (
        some (record {
          verify_mode = VerifyMode.required;
          check_hostname = true;
          trusted = "ca.pem" ∷ "crl.pem" ∷ [];
          chain = ("client.pem", "client.key");
          checks_crl = true;
          minimum = Version.tls1_2;
          suites = some "ECDHE+AESGCM";
          has_compression = false;
        }))
unfolding mysql_ssl
mariadb_context = refl

unreadable_key : server_context secured plain_host ≡ Tls.failed TlsError.config_error
unfolding server_context
unreadable_key = refl

contexts-Chosen_example :
    Chosen true (VerifiesServer secured plain_host) (mysql_ssl secured plain_host)
    × Chosen true (ZkPinned secured) (zk_kwargs secured plain_host)
    × Chosen true (SwiftPinned secured) (swift_kwargs secured plain_host)
    × Served (AsksCaller secured plain_host) (server_context secured plain_host)
contexts-Chosen_example = contexts-Chosen secured plain_host
