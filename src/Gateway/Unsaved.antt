-- ===== src/Gateway/Unsaved.antt =====
-- The device messages of the gateway at the end of the pipeline.
use flow_first.Base.{ℕ, String, none, some, ◌≡◌, refl, ◌∙◌, contains}
use flow_first.Json.{Json, Fields, get_field}
use flow_first.World.{World}
use flow_first.Env.{Env}
use flow_first.Relay.{load_object}
use flow_first.Pipeline.Journey.{Travels, Travels-kept}
use flow_first.DbUpdater.{Site}
use flow_first.DbUpdater.Once.{Handler}
use flow_first.DbUpdater.Missing.{Unsaved, handle-no_item}
use flow_first.Gateway.Publish.{flow4_payload, flow5_payload, flow6_payload, flow7_payload}

-- the requests on devices, with their arguments
pub data DeviceRequest : Type 0 where
  create : Json → Json → Json → Json → Json → Json → DeviceRequest
  query : Json → DeviceRequest
  update : Json → Json → DeviceRequest
  delete : Json → DeviceRequest

module _ (env : Env) (uuid : ℕ → String) where
  unfoldable pub device_payload : DeviceRequest → Fields
  unfolding flow4_payload flow5_payload flow6_payload flow7_payload
  device_payload (DeviceRequest.create name kind location firmware tags team) =
      flow4_payload env uuid name kind location firmware tags team
  device_payload (DeviceRequest.query filters) = flow5_payload env uuid filters
  device_payload (DeviceRequest.update id updates) = flow6_payload env uuid id updates
  device_payload (DeviceRequest.delete id) = flow7_payload env uuid id

  no_item : (request : DeviceRequest) → get_field (device_payload request) "item_id" ≡ none
  unfolding device_payload get_field
  no_item (DeviceRequest.create name kind location firmware tags team) = refl
  no_item (DeviceRequest.query filters) = refl
  no_item (DeviceRequest.update id updates) = refl
  no_item (DeviceRequest.delete id) = refl

  -- A message of flows 4 to 7 as the gateway makes it, after whatever hops, gets no row from any handler of
  -- the DB Updater, whatever calls fail, and is not acknowledged unless its key was marked before.
  pub device_message-Unsaved :
      (request : DeviceRequest) {msg : Fields} {n : ℕ} (site : Site) (handler : Handler) (w : World)
      → Travels (device_payload request) n msg
      → Unsaved site handler (some (Json.obj msg)) w msg
  unfolding load_object contains
  device_message-Unsaved request {msg = msg} site handler w journey =
      let (same, longer) = Travels-kept journey in
      handle-no_item site handler (some (Json.obj msg)) msg w refl
        (same "item_id" refl ∙ no_item request)
