-- ===== src/Pipeline/Routed.antt =====
-- Where the workers of src/application/process2.py to process5.py publish, against who consumes.
use flow_first.Base.{String, Bool, true, List, ◌++◌, ◌≡◌, ap, ◌∙◌, Member, contains, if◌then◌else◌}
use flow_first.World.{World}
use flow_first.Env.{Env}
use flow_first.Queues.{all_queues}
use flow_first.Relay.Routes.{PublishesTo, AllRoute, AllRoute-append, AllRoute-Member, silent-Routes}
use flow_first.DbUpdater.{Site}
use flow_first.DbUpdater.Once.{Handler, handle}
use flow_first.DbUpdater.Silent.Saves.{handle-IsSilent}
use flow_first.Greenthreads.Consumer.{Consumer, Session, ConsumerState, wrapper}
use flow_first.Greenthreads.Kept.{wrapper-keeps}
use flow_first.Transformer.Routes.{transformer-AllRoute}
use flow_first.Forwarder.Routes.{forwarder-AllRoute}
use flow_first.RemoteWorker.Routes.{remote_worker-AllRoute}
use flow_first.Pipeline.Consumed.{workers, consumers_of, consumers_of-workers}
use flow_first.Transformer.Consume as Transformer
use flow_first.Forwarder.Consume as Forwarder
use flow_first.DbUpdater.Consume as DbUpdater
use flow_first.RemoteWorker.Consume as RemoteWorker

module _ (P : String → Type 0) (site : Site) where
  db_updater-AllRoute : AllRoute P (DbUpdater.consumers site)
  unfolding handle
  db_updater-AllRoute = (
    silent-Routes P (handle site Handler.flow1) (handle-IsSilent site Handler.flow1),
    (
      silent-Routes P (handle site Handler.flow2) (handle-IsSilent site Handler.flow2),
      (
        silent-Routes P (handle site Handler.flow3) (handle-IsSilent site Handler.flow3),
        (
          silent-Routes P (handle site Handler.flow4) (handle-IsSilent site Handler.flow4),
          (
            silent-Routes P (handle site Handler.flow5) (handle-IsSilent site Handler.flow5),
            (
              silent-Routes P (handle site Handler.flow6_direct)
                  (handle-IsSilent site Handler.flow6_direct),
              (
                silent-Routes P (handle site Handler.flow6_remote)
                    (handle-IsSilent site Handler.flow6_remote),
                (
                  silent-Routes P (handle site Handler.flow7) (handle-IsSilent site Handler.flow7),
                  tt,
                ),
              ),
            ),
          ),
        ),
      ),
    ),
  )

module _ (P : String → Type 0)
    (known : (queue : String) → contains all_queues queue ≡ true → P queue) (env : Env)
    (site : Site) where
  workers-AllRoute : AllRoute P (workers env site)
  workers-AllRoute =
      AllRoute-append P
        (Transformer.consumers env ++ Forwarder.consumers env ++ DbUpdater.consumers site)
        (RemoteWorker.consumers env)
        (AllRoute-append P (Transformer.consumers env ++ Forwarder.consumers env)
          (DbUpdater.consumers site)
          (AllRoute-append P (Transformer.consumers env) (Forwarder.consumers env)
            (transformer-AllRoute P known env) (forwarder-AllRoute P known env))
          (db_updater-AllRoute P site))
        (remote_worker-AllRoute P known env)

module _ (env : Env) (site : Site) where
  abbrev pub HasConsumer : String → Type 0
  HasConsumer queue = consumers_of queue (workers env site) ≡ 1

  -- Every message that was published went to a queue that exactly one consumer consumes.
  abbrev pub IsRouted : World → Type 0
  IsRouted w = PublishesTo HasConsumer w

  pub known-HasConsumer : (queue : String) → contains all_queues queue ≡ true → HasConsumer queue
  known-HasConsumer queue h = consumers_of-workers env site queue ∙ ap (λ b. if b then 1 else 0) h

  -- Whatever a worker's consumer receives over its sessions, and whatever calls fail in them, each message
  -- that it publishes goes to a queue that exactly one consumer of the workers consumes: if all that was
  -- published before went to such queues, then all that is published after does.
  pub wrapper-IsRouted :
      (name : String) (consumer : Consumer) (restart : Bool) (sessions : List Session)
      (t : ConsumerState)
      → Member (name, consumer) (workers env site)
      → IsRouted t.world
      → IsRouted (wrapper consumer restart sessions t).1.world
  wrapper-IsRouted name consumer restart sessions t m i =
      wrapper-keeps IsRouted consumer
        (AllRoute-Member HasConsumer name consumer (workers env site)
          (workers-AllRoute HasConsumer known-HasConsumer env site) m)
        restart sessions t i
