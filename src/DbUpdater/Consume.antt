-- ===== src/DbUpdater/Consume.antt =====
-- The consumers of src/application/process4.py, and the greenthreads that `_consume` starts before it waits
-- for the stop event.
use flow_first.Base.{String, List, [], ◌∷◌, true, false}
use flow_first.Base.Int.{ℤ}
use flow_first.DbUpdater.{Site}
use flow_first.Queues.{
  queue_flow1_p3_to_p4, queue_flow2_p3_reflected, queue_flow3_p2_to_p4, queue_flow4_p3_to_p4,
  queue_flow5_p3_to_p4, queue_flow6_p2_to_p4, queue_flow6_p3_to_p4, queue_flow7_p3_to_p4,
}
use flow_first.Greenthreads.Pool.{Pool, spawn}
use flow_first.Greenthreads.Consumer.{Consumer, spawn_all}
use flow_first.DbUpdater.Handlers.{
  handle_flow1_message, handle_flow2_message, handle_flow3_message, handle_flow4_message,
  handle_flow5_message, handle_flow6_direct_message, handle_flow6_remote_message,
  handle_flow7_message,
}

module _ (site : Site) where
  abbrev pub gt_consume_flow1 : Consumer
  gt_consume_flow1 = record { queue = queue_flow1_p3_to_p4; handler = handle_flow1_message site }

  abbrev pub gt_consume_flow2 : Consumer
  gt_consume_flow2 = record {
    queue = queue_flow2_p3_reflected;
    handler = handle_flow2_message site;
  }

  abbrev pub gt_consume_flow3 : Consumer
  gt_consume_flow3 = record { queue = queue_flow3_p2_to_p4; handler = handle_flow3_message site }

  abbrev pub gt_consume_flow4 : Consumer
  gt_consume_flow4 = record { queue = queue_flow4_p3_to_p4; handler = handle_flow4_message site }

  abbrev pub gt_consume_flow5 : Consumer
  gt_consume_flow5 = record { queue = queue_flow5_p3_to_p4; handler = handle_flow5_message site }

  abbrev pub gt_consume_flow6_direct : Consumer
  gt_consume_flow6_direct = record {
    queue = queue_flow6_p3_to_p4;
    handler = handle_flow6_direct_message site;
  }

  abbrev pub gt_consume_flow6_remote : Consumer
  gt_consume_flow6_remote = record {
    queue = queue_flow6_p2_to_p4;
    handler = handle_flow6_remote_message site;
  }

  abbrev pub gt_consume_flow7 : Consumer
  gt_consume_flow7 = record { queue = queue_flow7_p3_to_p4; handler = handle_flow7_message site }

  -- the calls of gt.spawn_consumers
  abbrev pub consumers : List (String × Consumer)
  consumers =
      ("p4_flow1_consumer", gt_consume_flow1)
      ∷ ("p4_flow2_consumer", gt_consume_flow2)
      ∷ ("p4_flow3_consumer", gt_consume_flow3)
      ∷ ("p4_flow4_consumer", gt_consume_flow4)
      ∷ ("p4_flow5_consumer", gt_consume_flow5)
      ∷ ("p4_flow6_direct_consumer", gt_consume_flow6_direct)
      ∷ ("p4_flow6_remote_consumer", gt_consume_flow6_remote)
      ∷ ("p4_flow7_consumer", gt_consume_flow7)
      ∷ []

  -- gt.GT_CONSUMERS_PER_QUEUE copies of each, then the periodic ones
  unfoldable pub consume : ℤ → Pool → Pool
  unfolding spawn_all spawn
  consume gt_consumers_per_queue pool = spawn "db_updater_metrics" false (
      spawn "p4_dedup_reaper" true
        (spawn "p4_zk_health" false (spawn_all consumers gt_consumers_per_queue pool)))
