-- ===== src/Gateway/Settings.antt =====
-- What a route of do_POST may publish and write, and the route /zk/config of src/application/process1.py.
use flow_first.Base.{
  String, Bool, true, false, not, ◌||◌, Option, none, some, ◌≡◌, refl, sym, subst, ap, ◌∙◌, ◌⊎◌,
  inl, inr, arith, if◌then◌else◌, Bool-cases,
}
use flow_first.Base.Result.{Result, ok, raise}
use flow_first.Json.{Json, Fields, is_truthy}
use flow_first.World.Frames.{Keeps, bind-Keeps}
use flow_first.World.{World, Action, lift, ◌>>=◌, count_event}
use flow_first.Config.{write_config}
use flow_first.Config.Client.{get_client, Seeded, get_client-Grows}
use flow_first.Base.Dict.{Dict}
use flow_first.Env.{str_of}
use flow_first.Gateway.Gates.{Server, Call, Reply, answer, gated}
use flow_first.Gateway.Passed.{Cleared, OnlyCleared, gated-OnlyCleared}
use flow_first.Gateway.Post.{
  Route, require_admin, write_znode, set_znode, set_config, change_config, config_answer,
  post_config, null_or, is_null,
}
use flow_first.Gateway.Posted.{config_of, gated-Keeps}

-- the resource on which a route asks for the action publish
abbrev pub resource_of : Route → Option String
resource_of Route.flow1 = some "flow:1"
resource_of Route.flow2 = some "flow:2"
resource_of Route.flow3 = some "flow:3"
resource_of Route.batch = some "flow:*"
resource_of Route.devices = some "flow:4"
resource_of Route.query = some "flow:5"
resource_of Route.config = none
resource_of Route.unknown = none

-- defaults for absent keys, and then perhaps the text of the key
abbrev pub Overwritten : String → String → Dict String → Dict String → Type 0
Overwritten key text before after =
    (seeded : Dict String) × Seeded before seeded
    × ((after ≡ seeded) ⊎ (after ≡ (write_config seeded key text).0))

pub same-Overwritten :
    (key text : String) (before after later : Dict String)
    → later ≡ after
    → Overwritten key text before after
    → Overwritten key text before later
same-Overwritten key text before after later e = subst (Overwritten key text before) (sym e)

module _ (server : Server) (call : Call) where
  -- nothing was published, or the gates of the route were passed
  abbrev pub Published : Route → World → World → Type 0
  Published route w w' =
      (w'.published ≡ w.published)
      ⊎ ((resource : String) × (resource_of route ≡ some resource) × Cleared server call resource)

  -- The znodes are as they were; or an administrator asked for the write of a known key, and all that was
  -- written are defaults for absent keys, by a new connection, and then perhaps that key.
  abbrev pub Configured : Route → World → World → Type 0
  Configured route w w' =
      (w'.config ≡ w.config)
      ⊎ ((key : String) × (text : String) × (route ≡ Route.config)
          × (require_admin server call ≡ true)
          × ((write_config w.config key text).1 ≡ true)
          × Overwritten key text w.config w'.config)

  abbrev pub Guarded : Route → World → World → Type 0
  Guarded route w w' = Published route w w' × Configured route w w'

  pub flow-Guarded :
      (route : Route) (resource : String) (work : Action Reply) (w : World)
      → resource_of route ≡ some resource
      → Keeps config_of work
      → Guarded route w (gated server call resource work w).1
  flow-Guarded route resource work w e kept = (
    published (gated-OnlyCleared server call resource work w),
    inl (gated-Keeps server call resource work kept w),
  )
    where
      published :
          OnlyCleared server call resource w (gated server call resource work w).1
          → Published route w (gated server call resource work w).1
      published (inl same) = inl same
      published (inr cleared) = inr (resource, e, cleared)

  -- the znodes as one write leaves them
  abbrev Wrote : World → World → Type 0
  Wrote w w' =
      (w'.config ≡ w.config)
      ⊎ ((key : String) × (text : String) × ((write_config w.config key text).1 ≡ true)
          × Overwritten key text w.config w'.config)

  set_znode-published :
      (key text : String) (w : World) → (set_znode server call key text w).1.published ≡ w.published
  set_znode-published key text w = ground arith

  write_znode-published :
      (key text : String) (w : World)
      → (write_znode server call key text w).1.published ≡ w.published
  unfolding write_znode
  write_znode-published key text =
      bind-Keeps (λ w. w.published) (get_client call.zk_is_lost)
        (λ _. set_znode server call key text)
        (λ w. ap (λ (v : World). v.published) (get_client-Grows call.zk_is_lost w).0)
        (λ _. set_znode-published key text)

  set_znode-config :
      (key text : String) (w : World)
      → ((set_znode server call key text w).1.config ≡ w.config)
        ⊎ ((set_znode server call key text w).1.config ≡ (write_config w.config key text).0)
  set_znode-config key text w = ground arith

  after_client :
      (r : Result (Unit {0})) (key text : String) (w v : World)
      → Seeded w.config v.config
      → Overwritten key text w.config ((lift r >>= λ _. set_znode server call key text) v).1.config
  after_client (raise e) key text w v seeded = (v.config, seeded, inl refl)
  after_client (ok u) key text w v seeded = (v.config, seeded, set_znode-config key text v)

  write_znode-config :
      (key text : String) (w : World)
      → Overwritten key text w.config (write_znode server call key text w).1.config
  unfolding write_znode
  write_znode-config key text w =
      let out = get_client call.zk_is_lost w in
      after_client out.0 key text w out.1 (get_client-Grows call.zk_is_lost w).1

  set_config-published :
      (key text : String) (w : World)
      → (set_config server call key text w).1.published ≡ w.published
  set_config-published key text w = ground (arith, write_znode-published key text w)

  set_config-Wrote : (key text : String) (w : World) → Wrote w (set_config server call key text w).1
  set_config-Wrote key text w = elim (Bool-cases (write_config w.config key text).1) [
    | inr unknown ↦ inl (ground arith)
    | inl known ↦ rw known (inr (key, text, known, write_znode-config key text w))
  ]

  change_config-published :
      (key : Json) (text : String) (w : World)
      → (change_config server call key text w).1.published ≡ w.published
  change_config-published (Json.str key) text w = set_config-published key text w
  change_config-published key text w = refl

  change_config-Wrote :
      (key : Json) (text : String) (w : World) → Wrote w (change_config server call key text w).1
  change_config-Wrote (Json.str key) text w = set_config-Wrote key text w
  change_config-Wrote key text w = inl refl

  -- The answer after a write leaves all but the counters.
  config_answered :
      (r : Result Bool) (v : World)
      → (((lift r >>= config_answer server call) v).1.published ≡ v.published)
        × (((lift r >>= config_answer server call) v).1.config ≡ v.config)
  unfolding count_event
  config_answered (raise e) v = (refl, refl)
  config_answered (ok true) v = (refl, refl)
  config_answered (ok false) v = (refl, refl)

  write_answered :
      (key : Json) (text : String) (w : World)
      → require_admin server call ≡ true
      → Guarded Route.config w
          ((change_config server call key text >>= config_answer server call) w).1
  write_answered key text w admin =
      let after = change_config server call key text w in
      let kept = config_answered after.0 after.1 in
      (
        inl (kept.0 ∙ change_config-published key text w),
        written kept.1 (change_config-Wrote key text w),
      )
    where
      written :
          ((change_config server call key text >>= config_answer server call) w).1.config
            ≡ (change_config server call key text w).1.config
          → Wrote w (change_config server call key text w).1
          → Configured Route.config w
              ((change_config server call key text >>= config_answer server call) w).1
      written kept (inl same) = inl (kept ∙ same)
      written kept (inr (k, t, known, new)) =
          inr (k, t, refl, admin, known, same-Overwritten k t w.config _ _ kept new)

  tested_config :
      (incomplete : Bool) (key : Json) (text : String) (w : World)
      → require_admin server call ≡ true
      → Guarded Route.config w
          ((if incomplete
              then answer 400 none
              else change_config server call key text >>= config_answer server call)
            w).1
  unfolding count_event
  tested_config true key text w admin = (inl refl, inl refl)
  tested_config false key text w admin = write_answered key text w admin

  admin_config :
      (admin : Bool) (work : Action Reply) (w : World)
      → (admin ≡ true → Guarded Route.config w (work w).1)
      → Guarded Route.config w ((if admin then work else answer 403 none) w).1
  unfolding count_event
  admin_config true work w passed = passed refl
  admin_config false work w passed = (inl refl, inl refl)

  pub post_config-Guarded :
      (d : Fields) (w : World) → Guarded Route.config w (post_config server call d w).1
  unfolding post_config
  post_config-Guarded d w = admin_config (require_admin server call) _ w (λ admin.
      tested_config
        (not (is_truthy (null_or server call d "key")) || is_null (null_or server call d "value"))
        (null_or server call d "key") (str_of server.env (null_or server call d "value")) w admin)
