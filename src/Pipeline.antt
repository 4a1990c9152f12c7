-- ===== src/Pipeline.antt =====
-- The hops that a message takes between the gateway and the database: the changes that the handlers of
-- src/application/process2.py, process3.py and process5.py make, as one table, and the fields that each
-- hop writes besides the history.
pub mod Consumed
pub mod Routed
pub mod System
pub mod Examples
pub mod Step
pub mod Journey
use flow_first.Base.{String, List, [], ◌∷◌}
use flow_first.Base.Result.{Result}
use flow_first.Json.{Fields}
use flow_first.Env.{Env}
use flow_first.Transformer.Changes
use flow_first.Forwarder
use flow_first.RemoteWorker

pub data Hop : Type 0 where
  transform_flow1 transform_flow2 transform_flow3 transform_flow4 transform_flow5 : Hop
  transform_flow6 transform_flow6_return transform_flow7 : Hop
  forward_flow1 forward_flow2 forward_flow4 forward_flow5 forward_flow6 forward_flow7 : Hop
  remote_flow3 remote_flow6 : Hop

unfoldable pub change : Env → Hop → Fields → Result Fields
unfolding Changes.change_flow1 Changes.change_flow2 Changes.change_flow3 Changes.change_flow4
    Changes.change_flow5 Changes.change_flow6 Changes.change_flow6_remote_return
    Changes.change_flow7 Forwarder.change_flow1 Forwarder.change_flow2 Forwarder.change_flow4
    Forwarder.change_flow5 Forwarder.change_flow6 Forwarder.change_flow7 RemoteWorker.change_flow3
    RemoteWorker.change_flow6
change env Hop.transform_flow1 = Changes.change_flow1 env
change env Hop.transform_flow2 = Changes.change_flow2 env
change env Hop.transform_flow3 = Changes.change_flow3 env
change env Hop.transform_flow4 = Changes.change_flow4 env
change env Hop.transform_flow5 = Changes.change_flow5 env
change env Hop.transform_flow6 = Changes.change_flow6 env
change env Hop.transform_flow6_return = Changes.change_flow6_remote_return env
change env Hop.transform_flow7 = Changes.change_flow7 env
change env Hop.forward_flow1 = Forwarder.change_flow1 env
change env Hop.forward_flow2 = Forwarder.change_flow2 env
change env Hop.forward_flow4 = Forwarder.change_flow4 env
change env Hop.forward_flow5 = Forwarder.change_flow5 env
change env Hop.forward_flow6 = Forwarder.change_flow6 env
change env Hop.forward_flow7 = Forwarder.change_flow7 env
change env Hop.remote_flow3 = RemoteWorker.change_flow3 env
change env Hop.remote_flow6 = RemoteWorker.change_flow6 env

abbrev pub written : Hop → List String
written Hop.transform_flow1 = "counter" ∷ "process2_flow1_reflected" ∷ []
written Hop.transform_flow2 = "examined_status" ∷ "value" ∷ []
written Hop.transform_flow3 = "process2_verified_remote" ∷ []
written Hop.transform_flow4 = "device_fingerprint" ∷ "enriched_at" ∷ []
written Hop.transform_flow5 = "filters" ∷ "query_enriched_at" ∷ []
written Hop.transform_flow6 = "update_sequence" ∷ "previous_state_tracked" ∷ []
written Hop.transform_flow6_return = "process2_remote_return_verified" ∷ []
written Hop.transform_flow7 = "deletion_requested_by" ∷ "grace_period_s" ∷ []
written Hop.forward_flow1 = "process3_acknowledged" ∷ []
written Hop.forward_flow2 = "verified_by" ∷ "completed" ∷ []
written Hop.forward_flow4 = "validation_passed" ∷ []
written Hop.forward_flow5 = "query_validated" ∷ []
written Hop.forward_flow6 = "validation_passed" ∷ []
written Hop.forward_flow7 = "deletion_validated" ∷ []
written Hop.remote_flow3 = "remote_processed" ∷ "remote_node" ∷ "remote_computed_value" ∷ []
written Hop.remote_flow6 = "remote_sync_applied" ∷ "edge_sync_token" ∷ "remote_node" ∷ []
