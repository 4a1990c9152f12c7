-- ===== src/Gateway/Routed.antt =====
-- Whom the routes of RestApiHandler let through, from the request to what it leaves.
use flow_first.Base.{
  ℕ, String, Bool, true, false, Option, none, some, ◌==◌, ◌≡◌, refl, ◌∙◌, inl, inr, arith,
  if◌then◌else◌,
}
use flow_first.Base.Result.{Result, ok, raise, Exception}
use flow_first.Json.{Json, Fields}
use flow_first.World.{World, Action, lift, ◌>>=◌, count_event}
use flow_first.Env.{field_or}
use flow_first.Base.Text.{is_empty}
use flow_first.Authz.Token.{issue_token}
use flow_first.Gateway.Gates.{
  Server, Call, Reply, Body, answer, read_json_body, with_body, do_put, do_delete,
}
use flow_first.Gateway.Passed.{OnlyCleared, do_put-do_delete-OnlyCleared}
use flow_first.Gateway.Post.{
  Route, route_of, attempt, recovered, sent, post_token, post_flow1, post_flow2, post_flow3,
  post_batch, post_device, post_query, path, serve, do_post, issue_for, token_answer, key_label,
}
use flow_first.Gateway.Settings.{
  Published, Configured, Guarded, same-Overwritten, flow-Guarded, post_config-Guarded,
}
use flow_first.Gateway.Posted.{
  sent-Keeps, post_flow1-Keeps, post_flow2-Keeps, post_flow3-Keeps, post_device-Keeps,
  post_query-Keeps, post_batch-Keeps,
}

module _ (server : Server) (call : Call) where
  serve-Guarded :
      (route : Route) (d : Fields) (w : World)
      → Guarded server call route w (serve server call route d w).1
  unfolding serve count_event
  serve-Guarded Route.flow1 d w =
      flow-Guarded server call Route.flow1 "flow:1" (sent server call (post_flow1 server call d)) w
        refl (sent-Keeps server call (post_flow1 server call d) (post_flow1-Keeps server call d))
  serve-Guarded Route.flow2 d w =
      flow-Guarded server call Route.flow2 "flow:2" (sent server call (post_flow2 server call d)) w
        refl (sent-Keeps server call (post_flow2 server call d) (post_flow2-Keeps server call d))
  serve-Guarded Route.flow3 d w =
      flow-Guarded server call Route.flow3 "flow:3" (sent server call (post_flow3 server call d)) w
        refl (sent-Keeps server call (post_flow3 server call d) (post_flow3-Keeps server call d))
  serve-Guarded Route.batch d w =
      flow-Guarded server call Route.batch "flow:*" (post_batch server call d) w refl
        (post_batch-Keeps server call d)
  serve-Guarded Route.devices d w =
      flow-Guarded server call Route.devices "flow:4" (sent server call (post_device server call d))
        w refl
        (sent-Keeps server call (post_device server call d) (post_device-Keeps server call d))
  serve-Guarded Route.query d w =
      flow-Guarded server call Route.query "flow:5" (sent server call (post_query server call d)) w
        refl (sent-Keeps server call (post_query server call d) (post_query-Keeps server call d))
  serve-Guarded Route.config d w = post_config-Guarded server call d w
  serve-Guarded Route.unknown d w = (inl refl, inl refl)

  recovered_same :
      (r : Result Reply) (v : World)
      → ((recovered r v).1.published ≡ v.published) × ((recovered r v).1.config ≡ v.config)
  unfolding count_event
  recovered_same (ok reply) v = (refl, refl)
  recovered_same (raise Exception.value_error) v = (refl, refl)
  recovered_same (raise Exception.type_error) v = (refl, refl)
  recovered_same (raise e) v = ground arith

  -- What is left is the same to one that looks at the queues and the settings.
  same-Guarded :
      (route : Route) (w v u : World)
      → (u.published ≡ v.published) × (u.config ≡ v.config)
      → Guarded server call route w v
      → Guarded server call route w u
  same-Guarded route w v u same (p, c) = (published p, configured c)
    where
      published : Published server call route w v → Published server call route w u
      published (inl e) = inl (same.0 ∙ e)
      published (inr cleared) = inr cleared

      configured : Configured server call route w v → Configured server call route w u
      configured (inl e) = inl (same.1 ∙ e)
      configured (inr (k, t, r, a, known, e)) =
          inr (k, t, r, a, known, same-Overwritten k t w.config v.config u.config same.1 e)

  attempt-Guarded :
      (route : Route) (d : Fields) (w : World)
      → Guarded server call route w (attempt (serve server call route d) w).1
  unfolding attempt
  attempt-Guarded route d w =
      let out = serve server call route d w in
      same-Guarded route w out.1 (recovered out.0 out.1).1 (recovered_same out.0 out.1)
        (serve-Guarded route d w)

  -- A token changes nothing but the counters.
  abbrev Same : World → World → Type 0
  Same w w' = (w'.published ≡ w.published) × (w'.config ≡ w.config)

  answer-Same : (status : ℕ) (p : Option Fields) (w : World) → Same w (answer status p w).1
  unfolding count_event
  answer-Same status p w = (refl, refl)

  token_answer-Same :
      (label : String) (r : Result String) (w : World)
      → Same w (token_answer server call label r w).1
  token_answer-Same label (raise e) w = answer-Same 500 none w
  token_answer-Same label (ok token) w = answer-Same 200 _ w

  issued-Same :
      (unlabelled : Bool) (label : String) (r : Result String) (w : World)
      → Same w ((if unlabelled then answer 401 none else token_answer server call label r) w).1
  issued-Same true label r w = answer-Same 401 none w
  issued-Same false label r w = token_answer-Same label r w

  issue_for-Same :
      (r : Result (Option String)) (w : World) → Same w ((lift r >>= issue_for server call) w).1
  issue_for-Same (raise e) w = (refl, refl)
  issue_for-Same (ok none) w = answer-Same 401 none w
  issue_for-Same (ok (some label)) w =
      issued-Same (is_empty label) label
        (issue_token server.digests server.codec server.now label server.token_ttl_s
          server.token_secret)
        w

  post_token-Same : (d : Fields) (w : World) → Same w (post_token server call d w).1
  unfolding post_token
  post_token-Same d w =
      issue_for-Same (key_label server call (field_or d "api_key" (Json.str ""))) w

  body-Guarded :
      (route : Route) (work : Fields → Action Reply) (body : Body) (w : World)
      → ((d : Fields) → Guarded server call route w (work d w).1)
      → Guarded server call route w (with_body server call work body w).1
  body-Guarded route work (Body.refused status) w kept =
      let same = answer-Same status none w in (inl same.0, inl same.1)
  body-Guarded route work (Body.accepted d) w kept = kept d

  -- the route is that of the request's path
  routed :
      (token : Bool) (route : Route) (w : World)
      → Guarded server call route w
          ((if token
              then with_body server call (post_token server call) (read_json_body server call)
              else with_body server call
                  (λ d. attempt (serve server call route d))
                  (read_json_body server call))
            w).1
  routed true route w =
      body-Guarded route (post_token server call) (read_json_body server call) w
        (λ d. let same = post_token-Same d w in (inl same.0, inl same.1))
  routed false route w =
      body-Guarded route (λ d. attempt (serve server call route d)) (read_json_body server call) w
        (λ d. attempt-Guarded route d w)

  -- If a request publishes anything, its route asks for the action publish on a resource, authentication is
  -- off or it accepted the request's credential, and authorization is off or check_authz allowed that
  -- action to the caller. If a POST changes the runtime configuration, it is one to /zk/config, the caller
  -- passed the admin gate, and what it did is to write one known key, and before that, on a new connection
  -- to ZooKeeper, the defaults of keys that had no text. Both whatever calls fail.
  pub serve_request-Guarded :
      (w : World)
      → Guarded server call (route_of (path server call)) w (do_post server call w).1
        × OnlyCleared server call "flow:6" w (do_put server call w).1
        × OnlyCleared server call "flow:7" w (do_delete server call w).1
  unfolding do_post
  serve_request-Guarded w = (
    routed (path server call == "/auth/token") (route_of (path server call)) w,
    (do_put-do_delete-OnlyCleared server call w).0,
    (do_put-do_delete-OnlyCleared server call w).1,
  )
