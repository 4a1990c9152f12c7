-- ===== src/Leader/Examples.antt =====
-- Tests of the election and of the health znodes.
use flow_first.Base.{Bool, true, false, List, [], ◌∷◌, ◌≡◌, refl}
use flow_first.Base.Result.{ok, raise, database_error}
use flow_first.Leader.{Run, Cluster}
use flow_first.Leader.Runs.{Consumes}
use flow_first.Leader.Mains.{
  transformer_main, forwarder_main, db_updater_main, remote_worker_main, mains-Consume,
}

abbrev cluster : List Bool → List Bool → Cluster
cluster faults failures = record {
  faults = faults;
  failures = failures;
  runs = [];
  registry = [];
  health = [];
  is_leader = false;
}

led : forwarder_main "n1" (cluster [] []) ≡ (
  ok tt,
  record {
    faults = [];
    failures = [];
    runs = Run.elected ∷ [];
    registry = ("forwarder/n1", "n1") ∷ [];
    health = ("forwarder/n1", "follower") ∷ [];
    is_leader = false;
  },
)
unfolding forwarder_main
led = refl

-- A run as the leader that raises is followed by one in single-node mode.
again : (forwarder_main "n1" (cluster [] (true ∷ []))).1.runs ≡ Run.elected ∷ Run.alone ∷ []
unfolding forwarder_main
again = refl

-- The znode of the leader cannot be written: the process consumes alone, and its flag says that it leads.
flagged :
    (forwarder_main "n1" (
      cluster
        (false ∷ false ∷ false ∷ false ∷ false ∷ false ∷ false ∷ false ∷ false ∷ true ∷ [])
        [])).1.is_leader
    ≡ true
unfolding forwarder_main
flagged = refl

mains-Consume_example :
    Consumes [] (transformer_main "n1" (cluster (true ∷ true ∷ []) []))
    × Consumes [] (forwarder_main "n1" (cluster (true ∷ true ∷ []) []))
    × Consumes [] (db_updater_main "n1" (raise database_error) (cluster (true ∷ true ∷ []) []))
    × ((remote_worker_main "n1" (cluster (true ∷ true ∷ []) [])).1.runs ≡ Run.alone ∷ [])
mains-Consume_example = mains-Consume "n1" (raise database_error) (cluster (true ∷ true ∷ []) [])
