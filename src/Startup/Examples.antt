-- ===== src/Startup/Examples.antt =====
-- Tests of the start of a process.
use flow_first.Base.{String, true, false, [], ◌∷◌, ◌≡◌, ◌↔◌, ◌⊎◌, refl, all}
use flow_first.Base.Int.{pos}
use flow_first.Base.Dict.{Dict}
use flow_first.Base.Result.{ok, raise, runtime_error, value_error}
use flow_first.Startup.{
  Hygiene, Passwords, str_env, int_env, bool_env, check_secrets, required_secrets, broker_addresses,
}
use flow_first.Startup.Secrets.{AllStrong, check_secrets-exact}
use flow_first.Startup.ExtraNodes.{parse_extra_nodes}
use flow_first.Startup.Declared.{
  Broker, setup_queues, queue_arguments, is_free, every_queue, IsSetUp, setup_queues-exact,
}

abbrev environ : Dict String
environ =
    ("RABBITMQ_PORT", " ${RABBITMQ_PORT}")
    ∷ ("API_PORT", " 8081 ")
    ∷ ("ZK_HOSTS", "$ZK")
    ∷ ("TLS_API_ENABLED", "Yes")
    ∷ []

unexpanded : int_env environ "RABBITMQ_PORT" (pos 5672) ≡ ok (pos 5672)
unfolding int_env
unexpanded = refl

expanded : int_env environ "API_PORT" (pos 8080) ≡ ok (pos 8081)
unfolding int_env
expanded = refl

default_hosts : str_env environ "ZK_HOSTS" "localhost" ≡ "localhost"
unfolding str_env
default_hosts = refl

enabled : bool_env environ "TLS_API_ENABLED" false ≡ true
unfolding bool_env
enabled = refl

-- the digest of a text is itself
abbrev plain_hygiene : Hygiene
plain_hygiene = record { hmac12 = λ s. s; known_weak = "flowpassword" ∷ []; min_length = 12 }

abbrev passwords : String → Passwords
passwords key = record {
  rabbitmq_password = "correct-horse-1";
  mariadb_password = "battery-staple-2";
  swift_enabled = true;
  swift_key = key;
  allow_default_secrets = false;
}

weak_key : check_secrets plain_hygiene (passwords " FlowPassword ") ≡ raise runtime_error
unfolding check_secrets
weak_key = refl

check_secrets-exact_example :
    ((check_secrets plain_hygiene (passwords "another-long-key") ≡ ok tt) ↔ (
      (false ≡ true) ⊎ AllStrong plain_hygiene (required_secrets (passwords "another-long-key"))))
    × ((check_secrets plain_hygiene (passwords "another-long-key") ≡ ok tt)
        ⊎ (check_secrets plain_hygiene (passwords "another-long-key") ≡ raise runtime_error))
check_secrets-exact_example = check_secrets-exact plain_hygiene (passwords "another-long-key")

two_nodes :
    parse_extra_nodes "extramgmtnode1:10.0.0.7, extramgmtnode2 : 192.168.1.255,"
    ≡ ok (("extramgmtnode1", "10.0.0.7") ∷ ("extramgmtnode2", "192.168.1.255") ∷ [])
unfolding parse_extra_nodes
two_nodes = refl

bad_address : parse_extra_nodes "extramgmtnode1:10.0.0.256" ≡ raise value_error
unfolding parse_extra_nodes
bad_address = refl

same_address :
    parse_extra_nodes "extramgmtnode1:10.0.0.7,extramgmtnode2:10.0.0.7" ≡ raise value_error
unfolding parse_extra_nodes
same_address = refl

addresses :
    broker_addresses (pos 5672) "vip" "node1:5671, node2"
    ≡ ok (("node1", pos 5671) ∷ ("node2", pos 5672) ∷ [])
unfolding broker_addresses
addresses = refl

abbrev broker_with : Dict String → Broker
broker_with queues = record { confirms = false; queues = queues; exchanges = []; is_bound = false }

quorum_refused :
    (setup_queues "quorum" false "n" (broker_with (("flow1_p1_to_p2", "classic") ∷ []))).0
    ≡ raise runtime_error
unfolding setup_queues flow_first.Startup.Declared.declare_queues queue_arguments
quorum_refused = refl

setup_queues-exact_example :
    ((setup_queues "quorum" false "n" (broker_with [])).0 ≡ ok tt
      ↔ (all (is_free (queue_arguments "quorum") (broker_with []).queues) every_queue ≡ true))
    × ((setup_queues "quorum" false "n" (broker_with [])).0 ≡ ok tt
        → IsSetUp
            (queue_arguments "quorum")
            (broker_with [])
            (setup_queues "quorum" false "n" (broker_with [])).1)
setup_queues-exact_example = setup_queues-exact "quorum" false "n" (broker_with [])
