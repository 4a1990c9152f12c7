-- ===== src/Leader/Mains.antt =====
-- main() of the workers, src/application/process2.py to process5.py.
use flow_first.Base.{String, List, [], ◌∷◌, ◌++◌, ◌≡◌, refl, ap, ◌∙◌}
use flow_first.Base.Dict.{keys}
use flow_first.Base.Result.{Result, ok, raise}
use flow_first.Config.{config_defaults}
use flow_first.Leader.{
  Run, Cluster, Step, ◌>>◌, after, rescued, try_except, ask, register_service, consume, main_with,
}
use flow_first.Leader.Runs.{
  Silent, Calm, Consumes, then-Calm, ask-Calm, register_service-Calm, consumed_runs,
  main_with-Consumes,
}

-- The loop of ConfigWatcher over the keys: zk.get, and the watch on the znode. A request that raises here is
-- one whose exception _load lets through.
unfoldable watch_keys : List String → Step
watch_keys [] = λ c. (ok tt, c)
watch_keys (key ∷ rest) = ask >> ask >> watch_keys rest

-- ConfigWatcher(): get_client, and the keys
unfoldable pub config_watcher : Step
unfolding watch_keys keys
config_watcher = ask >> watch_keys (keys config_defaults)

module _ (node : String) where
  -- process2.py
  unfoldable pub transformer_main : Step
  unfolding register_service main_with config_watcher
  transformer_main =
      main_with "transformer" node (register_service "transformer" node >> config_watcher)

  -- process3.py
  unfoldable pub forwarder_main : Step
  unfolding register_service main_with
  forwarder_main = main_with "forwarder" node (register_service "forwarder" node)

  -- process4.py, by whether init_database raises, which writes no znode
  unfoldable pub db_updater_main : Result (Unit {0}) → Step
  unfolding register_service main_with
  db_updater_main init =
      try_except (λ c. (init, c)) (λ c. (ok tt, c))
      >> main_with "db_updater" node (register_service "db_updater" node)

  -- process5.py, which has no election
  unfoldable pub remote_worker_main : Step
  unfolding register_service config_watcher
  remote_worker_main =
      try_except (register_service "remote_worker" node >> config_watcher) (λ c. (ok tt, c))
      >> consume "remote_worker" node Run.alone

watch_keys-Calm : (ks : List String) → Calm (watch_keys ks)
unfolding watch_keys
watch_keys-Calm [] = λ c. (refl, refl)
watch_keys-Calm (key ∷ ks) =
    then-Calm (ask >> ask) (watch_keys ks) (then-Calm ask ask ask-Calm ask-Calm)
      (watch_keys-Calm ks)

config_watcher-Calm : Calm config_watcher
unfolding config_watcher
config_watcher-Calm =
    then-Calm ask (watch_keys (keys config_defaults)) ask-Calm
      (watch_keys-Calm (keys config_defaults))

module _ (node : String) (c : Cluster) where
  watched-Silent : (process : String) → Silent (register_service process node >> config_watcher)
  watched-Silent process d =
      (then-Calm (register_service process node) config_watcher (register_service-Calm process node)
        config_watcher-Calm d).0

  transformer_main-Consumes : Consumes c.runs (transformer_main node c)
  unfolding transformer_main
  transformer_main-Consumes =
      main_with-Consumes "transformer" node (register_service "transformer" node >> config_watcher)
        c (watched-Silent "transformer")

  forwarder_main-Consumes : Consumes c.runs (forwarder_main node c)
  unfolding forwarder_main
  forwarder_main-Consumes =
      main_with-Consumes "forwarder" node (register_service "forwarder" node) c
        (λ d. (register_service-Calm "forwarder" node d).0)

  db_updater_main-Consumes :
      (init : Result (Unit {0})) → Consumes c.runs (db_updater_main node init c)
  unfolding db_updater_main
  db_updater_main-Consumes (ok u) =
      main_with-Consumes "db_updater" node (register_service "db_updater" node) c
        (λ d. (register_service-Calm "db_updater" node d).0)
  db_updater_main-Consumes (raise e) =
      main_with-Consumes "db_updater" node (register_service "db_updater" node) c
        (λ d. (register_service-Calm "db_updater" node d).0)

  alone_once :
      (r : Result (Unit {0}) × Cluster)
      → r.1.runs ≡ c.runs
      → (after (rescued r (λ d. (ok tt, d))) (consume "remote_worker" node Run.alone)).1.runs
        ≡ c.runs ++ Run.alone ∷ []
  alone_once (ok u, d) e =
      consumed_runs "remote_worker" node d.failures Run.alone d ∙ ap (λ rs. rs ++ Run.alone ∷ []) e
  alone_once (raise x, d) e =
      consumed_runs "remote_worker" node d.failures Run.alone d ∙ ap (λ rs. rs ++ Run.alone ∷ []) e

  remote_worker_main-runs : (remote_worker_main node c).1.runs ≡ c.runs ++ Run.alone ∷ []
  unfolding remote_worker_main
  remote_worker_main-runs =
      alone_once ((register_service "remote_worker" node >> config_watcher) c)
        (watched-Silent "remote_worker" c)

-- Whichever requests to ZooKeeper fail, and whether or not the tables can be set up, the Transformer, the
-- Forwarder and the DB Updater consume, once or twice: as the leader; alone, if the election raised before
-- it; or first as the leader and then alone, if the election raised after it. With one run as the leader
-- main returns. After a run as the leader the process no longer counts itself as one. The Remote Worker
-- consumes once, alone.
pub mains-Consume :
    (node : String) (init : Result (Unit {0})) (c : Cluster)
    → Consumes c.runs (transformer_main node c)
      × Consumes c.runs (forwarder_main node c)
      × Consumes c.runs (db_updater_main node init c)
      × ((remote_worker_main node c).1.runs ≡ c.runs ++ Run.alone ∷ [])
mains-Consume node init c = (
  transformer_main-Consumes node c,
  forwarder_main-Consumes node c,
  db_updater_main-Consumes node c init,
  remote_worker_main-runs node c,
)
