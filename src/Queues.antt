-- ===== src/Queues.antt =====
-- The names of the pipeline's queues, from src/config/config.py: flow, sender and receiver.
use flow_first.Base.{String, List, [], ◌∷◌}

abbrev pub queue_flow1_p1_to_p2 : String
queue_flow1_p1_to_p2 = "flow1_p1_to_p2"

abbrev pub queue_flow1_p2_to_p3 : String
queue_flow1_p2_to_p3 = "flow1_p2_to_p3"

abbrev pub queue_flow1_p3_to_p4 : String
queue_flow1_p3_to_p4 = "flow1_p3_to_p4"

abbrev pub queue_flow2_p1_to_p2 : String
queue_flow2_p1_to_p2 = "flow2_p1_to_p2"

abbrev pub queue_flow2_p2_to_p3 : String
queue_flow2_p2_to_p3 = "flow2_p2_to_p3"

abbrev pub queue_flow2_p3_reflected : String
queue_flow2_p3_reflected = "flow2_p3_reflected"

abbrev pub queue_flow3_p1_to_p5 : String
queue_flow3_p1_to_p5 = "flow3_p1_to_p5"

abbrev pub queue_flow3_p5_to_p2 : String
queue_flow3_p5_to_p2 = "flow3_p5_to_p2"

abbrev pub queue_flow3_p2_to_p4 : String
queue_flow3_p2_to_p4 = "flow3_p2_to_p4"

abbrev pub queue_flow4_p1_to_p2 : String
queue_flow4_p1_to_p2 = "flow4_p1_to_p2"

abbrev pub queue_flow4_p2_to_p3 : String
queue_flow4_p2_to_p3 = "flow4_p2_to_p3"

abbrev pub queue_flow4_p3_to_p4 : String
queue_flow4_p3_to_p4 = "flow4_p3_to_p4"

abbrev pub queue_flow5_p1_to_p2 : String
queue_flow5_p1_to_p2 = "flow5_p1_to_p2"

abbrev pub queue_flow5_p2_to_p3 : String
queue_flow5_p2_to_p3 = "flow5_p2_to_p3"

abbrev pub queue_flow5_p3_to_p4 : String
queue_flow5_p3_to_p4 = "flow5_p3_to_p4"

abbrev pub queue_flow6_p1_to_p2 : String
queue_flow6_p1_to_p2 = "flow6_p1_to_p2"

abbrev pub queue_flow6_p2_to_p3 : String
queue_flow6_p2_to_p3 = "flow6_p2_to_p3"

abbrev pub queue_flow6_p3_to_p4 : String
queue_flow6_p3_to_p4 = "flow6_p3_to_p4"

abbrev pub queue_flow6_p3_to_p5 : String
queue_flow6_p3_to_p5 = "flow6_p3_to_p5"

abbrev pub queue_flow6_p5_to_p2 : String
queue_flow6_p5_to_p2 = "flow6_p5_to_p2"

abbrev pub queue_flow6_p2_to_p4 : String
queue_flow6_p2_to_p4 = "flow6_p2_to_p4"

abbrev pub queue_flow7_p1_to_p2 : String
queue_flow7_p1_to_p2 = "flow7_p1_to_p2"

abbrev pub queue_flow7_p2_to_p3 : String
queue_flow7_p2_to_p3 = "flow7_p2_to_p3"

abbrev pub queue_flow7_p3_to_p4 : String
queue_flow7_p3_to_p4 = "flow7_p3_to_p4"

-- ALL_QUEUES
abbrev pub all_queues : List String
all_queues =
    queue_flow1_p1_to_p2 ∷ queue_flow1_p2_to_p3 ∷ queue_flow1_p3_to_p4 ∷ queue_flow2_p1_to_p2
    ∷ queue_flow2_p2_to_p3 ∷ queue_flow2_p3_reflected ∷ queue_flow3_p1_to_p5 ∷ queue_flow3_p5_to_p2
    ∷ queue_flow3_p2_to_p4 ∷ queue_flow4_p1_to_p2 ∷ queue_flow4_p2_to_p3 ∷ queue_flow4_p3_to_p4
    ∷ queue_flow5_p1_to_p2 ∷ queue_flow5_p2_to_p3 ∷ queue_flow5_p3_to_p4 ∷ queue_flow6_p1_to_p2
    ∷ queue_flow6_p2_to_p3 ∷ queue_flow6_p3_to_p4 ∷ queue_flow6_p3_to_p5 ∷ queue_flow6_p5_to_p2
    ∷ queue_flow6_p2_to_p4 ∷ queue_flow7_p1_to_p2 ∷ queue_flow7_p2_to_p3 ∷ queue_flow7_p3_to_p4 ∷ []

abbrev pub queue_dead_letters : String
queue_dead_letters = "flowfirst_dead_letters"

abbrev pub dlx_exchange : String
dlx_exchange = "flowfirst.dlx"
