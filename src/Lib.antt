-- ===== src/Lib.antt =====
-- FlowFirst: a message pipeline of five processes over RabbitMQ, ZooKeeper, MariaDB and Swift, and this
-- model of its code. Paths are from the repository's root.
--
-- Base holds what the modules share: tests, lists, Python's text methods (Base.Text), dictionaries
-- (Base.Dict), integers (Base.Int) and results of calls that may raise (Base.Result). Json is the type
-- of JSON values, Numbers the conversions `int(x)` and `float(x)` and the arithmetic on messages.
--
-- Authz models src/application/authz.py, a child for each section of the file: Identity
-- (cert_common_name, resolve_identity, parse_list, admin_decision), Keys (parse_api_keys,
-- verify_api_key), Token (issue_token, verify_token), Request (check_request_auth), Glob
-- (fnmatch.fnmatchcase of the standard library), Rbac (the built-in roles, parse_roles, rbac_check), Acl
-- (parse_acl, acl_check), Abac (parse_policy, _rule_matches, abac_check) and Check (check_authz). The
-- modules below those hold the proofs. Dictionaries keep the order of insertion; a frozenset is a list
-- that is asked for membership alone.
--
-- World is what a handler shares with the outside, as a record: the queues, the settlement of the
-- delivery, the counters, the dedup znodes, the tables, the object store and the notices. A handler is
-- an Action on it. Each call to a server takes the next of the world's faults, and raises if that says
-- so, with no effect; past the end of the list, calls succeed. A publication is two such calls, the message
-- and the broker's confirm, so that it may raise although the broker took the message.
-- Env is what a handler reads (node, clock, watcher), Queues the names of the queues in
-- src/config/config.py.
--
-- Relay is the shape of the handlers of src/application/process2.py, process3.py and process5.py: decode,
-- validate, change, publish, count, acknowledge, and reject on any exception. Transformer (process2.py),
-- Forwarder (process3.py) and RemoteWorker (process5.py) give it their changes, change_flowN for the
-- body of handle_flowN_message; the Forwarder's handle_flow6_message publishes twice and is written
-- out. Pipeline is the table of all the changes, as the hops of a message.
--
-- DbUpdater models src/application/process4.py: the handlers (DbUpdater.Handlers) decode, pass the dedup
-- barrier (Dedup, from src/zookeeper/zk.py), write their rows (Db, from src/db/db.py), store an object
-- (Swift, from src/swift/swift_storage.py), acknowledge and notify (Notifications, from
-- src/notifications/notifications.py). DbUpdater.Once sends deliveries to them in any order.
--
-- Db.Retry is the loop of attempts in those functions of db.py, Db.Hosts the connection. Gateway.Publish
-- models the publications of src/application/process1.py, from which the messages start, and
-- Gateway.Gates its gates (_require_auth, _require_authz, _read_json_body) with do_PUT and do_DELETE.
-- Gateway.Post is do_POST: serve has a branch for each path, and a batch runs its greenthreads in the
-- order in which they are spawned. Gateway.Get is do_GET, with Gateway.Local for what the process holds
-- itself and Swift.Reads for the object store.
--
-- Tls models src/tls/tls.py, with a context as the record of what was set on it, and the options of the
-- ZooKeeper client and of the Swift client as a record each.
--
-- Greenthreads models src/gt/gt.py: Greenthreads.Pool the table of named greenthreads (spawn, kill and
-- the end of _wrapper), in which what happens is a list of events; Greenthreads.Periodic the stop event
-- and the loop of periodic, observed over a list of sleeps; Greenthreads.Connect
-- get_rmq_connection_with_retry; Greenthreads.Report the throughput reports. Greenthreads.Consumer is the
-- body that the functions _gt_consume_* of the workers share, run by _wrapper over a list of sessions that
-- say what the broker and the network do; the Consume module of each worker has its consumers, by queue
-- and handler, and the greenthreads that its _consume starts. Pipeline.Consumed and Pipeline.Routed put
-- the four workers together, Pipeline.System the gateway's publications and the workers, as a list of
-- steps in any order.
--
-- Leader models the election, register_service and _update_health of src/zookeeper/zk.py, on the requests
-- to ZooKeeper of which each may raise; Leader.Mains is main() of the four workers, Leader.Reporter their
-- _gt_zk_health_reporter. Dedup.Reaper is _gt_dedup_reaper of process4.py.
--
-- Metrics models render of src/metrics/metrics.py, by its lines.
--
-- Config models the ConfigWatcher and write_config of src/zookeeper/zk.py, Config.Client its get_client, which
-- seeds the configuration on a new connection, as the gateway calls it for /zk/health and /zk/config.
--
-- Startup models what src/config/config.py does as a process starts: the readers of the environment and
-- the secrets (Startup, Startup.Secrets), parse_extra_nodes (Startup.ExtraNodes) and setup_queues
-- (Startup.Declared, with the broker as a record of its queues). DeadLetters models the loop of
-- scripts/replay_dead_letters.py over the dead-letter queue.
--
-- Migration models scripts/migrate_queue_type.py: Migration is the broker with the requests, of which each
-- may be refused or lose its answer, and Migration.Script the functions of the script. Migration.Hoare has
-- the rules by which a script is followed from step to step.
--
-- Samples and tests are in Sample and Authz.Sample, and in the modules called Examples.
--
-- Fuel: Authz.Glob.tokens spends one unit for each token, and a pattern has at most one token for each
-- character, so that the length of the pattern is enough.
--
-- The loops of Migration.Script.move and drain are on fuel: more of it than there are messages in the two
-- queues is enough, since every round takes a message away.
--
-- The retries of Db.Retry and Db.Hosts are a recursion on the number of attempts, three in the code. The
-- loops of the handlers go over the fields and items of a message, by structural recursion.
--
-- Parameters: SHA-256 and HMAC (Authz.Keys.Digests) are any functions on texts, with hexadecimal digits as
-- their results where a statement says so; hmac.compare_digest raises TypeError on a text that is not
-- ASCII, as in Python; the payload of a token is
-- written and read by a codec (Authz.Token.Codec) that reads back what it wrote; floating-point
-- arithmetic (Numbers.Floats) is any functions on the text forms of floats; clocks and the environment
-- are arguments.
--
-- The contents of the tables, as far as a SELECT or a row count shows them (Db.Tables), the text form of
-- lists and dicts in f-strings, the size of a JSON text and fresh identifiers are arguments too.
--
-- Not modelled: sockets, TLS handshakes, logging and the demonstration scripts; the
-- server of src/application/process1.py; a call of a handler, other than a publication, that fails after it
-- had its effect; a process that dies inside a handler; the deletion of old dedup marks between the
-- deliveries of DbUpdater.Once; the seeding of the configuration by the workers' calls of get_client; the
-- rows that ON DUPLICATE KEY UPDATE leaves in the tables, of which the writes are listed; and other
-- clients of the broker during scripts/migrate_queue_type.py.
pub mod Authz
pub mod Base
pub mod Config
pub mod Db
pub mod DbUpdater
pub mod DeadLetters
pub mod Dedup
pub mod Env
pub mod Examples
pub mod Forwarder
pub mod Gateway
pub mod Greenthreads
pub mod Json
pub mod Leader
pub mod Metrics
pub mod Migration
pub mod Notifications
pub mod Numbers
pub mod Pipeline
pub mod Queues
pub mod Relay
pub mod RemoteWorker
pub mod Sample
pub mod Startup
pub mod Swift
pub mod Tls
pub mod Transformer
pub mod World
