-- ===== src/Leader.antt =====
-- The leader election, the registration and the health znodes of src/zookeeper/zk.py, and how a worker
-- consumes: as the leader or, without ZooKeeper, alone. Its main() is in Mains.
pub mod Runs
pub mod Mains
pub mod Reporter
pub mod Examples
use flow_first.Base.{String, Bool, true, false, Option, none, some, List, [], ◌∷◌, ◌++◌}
use flow_first.Base.Dict.{Dict, get, put}
use flow_first.Base.Text.{concat}
use flow_first.Base.Result.{Exception, Result, ok, raise, runtime_error, zookeeper_error}

-- how _consume was called: by the election, or in single-node mode
pub data Run : Type 0 where
  elected alone : Run

pub record Cluster : Type 0 where
  -- true: the next request to ZooKeeper raises; past the end, requests succeed
  pub faults : List Bool
  -- true: the next run of _consume raises; past the end, they return
  pub failures : List Bool
  pub runs : List Run
  -- the znodes under /flowfirst/registry and /flowfirst/health, by their paths
  pub registry : Dict String
  pub health : Dict String
  -- _is_leader
  pub is_leader : Bool

abbrev pub Step : Type 0
Step = Cluster → Result (Unit {0}) × Cluster

infixl 10 ◌>>◌
abbrev pub after : Result (Unit {0}) × Cluster → Step → Result (Unit {0}) × Cluster
after (ok t, c) rest = rest c
after (raise e, c) rest = (raise e, c)

abbrev pub ◌>>◌ : Step → Step → Step
◌>>◌ m rest c = after (m c) rest

-- except Exception
abbrev pub rescued : Result (Unit {0}) × Cluster → Step → Result (Unit {0}) × Cluster
rescued (ok t, c) handler = (ok t, c)
rescued (raise e, c) handler = handler c

abbrev pub try_except : Step → Step → Step
try_except m handler c = rescued (m c) handler

-- try: m finally: cleanup, of which an exception takes the place of the first
abbrev pub re_raised : Result (Unit {0}) → Result (Unit {0}) × Cluster → Result (Unit {0}) × Cluster
re_raised first (ok t, c) = (first, c)
re_raised first (raise e, c) = (raise e, c)

abbrev pub finally : Step → Step → Step
finally m cleanup c = let (r, d) = m c in re_raised r (cleanup d)

abbrev pub request_with : List Bool → (Cluster → Cluster) → Step
request_with [] effect c = (ok tt, effect c)
request_with (true ∷ rest) effect c = (raise zookeeper_error, record c { faults = rest })
request_with (false ∷ rest) effect c = (ok tt, effect (record c { faults = rest }))

abbrev pub request : (Cluster → Cluster) → Step
request effect c = request_with c.faults effect c

-- get_client, ensure_path and exists, which change none of these znodes
abbrev pub ask : Step
ask = request (λ c. c)

abbrev pub znode : String → String → String
znode process node = concat (process ∷ "/" ∷ node ∷ [])

module _ (process node : String) where
  abbrev pub write_health : String → Option String → Step
  -- zk.create
  write_health state none =
      request (λ c. record c { health = put c.health (znode process node) state })
  -- zk.set
  write_health state (some old) =
      request (λ c. record c { health = put c.health (znode process node) state })

  -- _update_health
  unfoldable pub update_health : String → Step
  unfolding get put concat
  update_health state =
      ask >> ask >> ask >> λ c. write_health state (get c.health (znode process node)) c

  -- zk.create with ephemeral=True, or zk.set after NodeExistsError
  abbrev pub create_or_set : Option String → Step
  create_or_set none =
      request (λ c. record c { registry = put c.registry (znode process node) node })
  create_or_set (some old) =
      ask >> request (λ c. record c { registry = put c.registry (znode process node) node })

  unfoldable pub register_service : Step
  unfolding get put concat
  register_service = ask >> ask >> λ c. create_or_set (get c.registry (znode process node)) c

  -- _inner of _wrap
  unfoldable pub wrap : Step → Step
  unfolding update_health
  wrap on_elected =
      (λ c. (ok tt, record c { is_leader = true }))
      >> update_health "leader"
      >> finally on_elected
          ((λ c. (ok tt, record c { is_leader = false })) >> update_health "follower")

  -- LeaderElection.run: kazoo's Election wins or raises, calls the function, and gives the lock back
  unfoldable pub run : Step → Step
  unfolding wrap
  run on_elected = ask >> ask >> ask >> wrap on_elected >> ask

  abbrev pub ran : List Bool → Run → Step
  ran [] how c = (ok tt, record c { runs = c.runs ++ how ∷ [] })
  ran (true ∷ rest) how c =
      (raise runtime_error, record c { runs = c.runs ++ how ∷ []; failures = rest })
  ran (false ∷ rest) how c = (ok tt, record c { runs = c.runs ++ how ∷ []; failures = rest })

  -- _consume, by whether it raises
  abbrev pub consume : Run → Step
  consume how c = ran c.failures how c

  -- What the mains of the workers with an election share, after `setup` in its try: close_client reads and
  -- clears the client of the process alone.
  unfoldable pub main_with : Step → Step
  unfolding run
  main_with setup =
      try_except setup (λ c. (ok tt, c))
      >> try_except (run (consume Run.elected)) (consume Run.alone)
