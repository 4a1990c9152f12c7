-- ===== src/Forwarder/Consume.antt =====
-- The consumers of src/application/process3.py, and the greenthreads that `_consume` starts before it waits
-- for the stop event.
use flow_first.Base.{String, List, [], ◌∷◌, false}
use flow_first.Base.Int.{ℤ}
use flow_first.Env.{Env}
use flow_first.Queues.{
  queue_flow1_p2_to_p3, queue_flow2_p2_to_p3, queue_flow4_p2_to_p3, queue_flow5_p2_to_p3,
  queue_flow6_p2_to_p3, queue_flow7_p2_to_p3,
}
use flow_first.Greenthreads.Pool.{Pool, spawn}
use flow_first.Greenthreads.Consumer.{Consumer, spawn_all}
use flow_first.Forwarder.{
  handle_flow1_message, handle_flow2_message, handle_flow4_message, handle_flow5_message,
  handle_flow6_message, handle_flow7_message,
}

module _ (env : Env) where
  abbrev pub gt_consume_flow1 : Consumer
  gt_consume_flow1 = record { queue = queue_flow1_p2_to_p3; handler = handle_flow1_message env }

  abbrev pub gt_consume_flow2 : Consumer
  gt_consume_flow2 = record { queue = queue_flow2_p2_to_p3; handler = handle_flow2_message env }

  abbrev pub gt_consume_flow4 : Consumer
  gt_consume_flow4 = record { queue = queue_flow4_p2_to_p3; handler = handle_flow4_message env }

  abbrev pub gt_consume_flow5 : Consumer
  gt_consume_flow5 = record { queue = queue_flow5_p2_to_p3; handler = handle_flow5_message env }

  abbrev pub gt_consume_flow6 : Consumer
  gt_consume_flow6 = record { queue = queue_flow6_p2_to_p3; handler = handle_flow6_message env }

  abbrev pub gt_consume_flow7 : Consumer
  gt_consume_flow7 = record { queue = queue_flow7_p2_to_p3; handler = handle_flow7_message env }

  -- the calls of gt.spawn_consumers
  abbrev pub consumers : List (String × Consumer)
  consumers =
      ("p3_flow1_consumer", gt_consume_flow1)
      ∷ ("p3_flow2_consumer", gt_consume_flow2)
      ∷ ("p3_flow4_consumer", gt_consume_flow4)
      ∷ ("p3_flow5_consumer", gt_consume_flow5)
      ∷ ("p3_flow6_consumer", gt_consume_flow6)
      ∷ ("p3_flow7_consumer", gt_consume_flow7)
      ∷ []

  -- gt.GT_CONSUMERS_PER_QUEUE copies of each, then the periodic ones
  unfoldable pub consume : ℤ → Pool → Pool
  unfolding spawn_all spawn
  consume gt_consumers_per_queue pool =
      spawn "forwarder_metrics" false
        (spawn "p3_zk_health" false (spawn_all consumers gt_consumers_per_queue pool))
