-- ===== src/RemoteWorker/Consume.antt =====
-- The consumers of src/application/process5.py, and the greenthreads that `_consume` starts before it waits
-- for the stop event.
use flow_first.Base.{String, List, [], ◌∷◌, false}
use flow_first.Base.Int.{ℤ}
use flow_first.Env.{Env}
use flow_first.Queues.{queue_flow3_p1_to_p5, queue_flow6_p3_to_p5}
use flow_first.Greenthreads.Pool.{Pool, spawn}
use flow_first.Greenthreads.Consumer.{Consumer, spawn_all}
use flow_first.RemoteWorker.{handle_flow3_message, handle_flow6_message}

module _ (env : Env) where
  abbrev pub gt_consume_flow3 : Consumer
  gt_consume_flow3 = record { queue = queue_flow3_p1_to_p5; handler = handle_flow3_message env }

  abbrev pub gt_consume_flow6 : Consumer
  gt_consume_flow6 = record { queue = queue_flow6_p3_to_p5; handler = handle_flow6_message env }

  -- the calls of gt.spawn_consumers
  abbrev pub consumers : List (String × Consumer)
  consumers = ("p5_flow3_consumer", gt_consume_flow3) ∷ ("p5_flow6_consumer", gt_consume_flow6) ∷ []

  -- gt.GT_CONSUMERS_PER_QUEUE copies of each, then the periodic ones
  unfoldable pub consume : ℤ → Pool → Pool
  unfolding spawn_all spawn
  consume gt_consumers_per_queue pool =
      spawn "remote_worker_metrics" false
        (spawn "p5_zk_health" false (spawn_all consumers gt_consumers_per_queue pool))
