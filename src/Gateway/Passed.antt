-- ===== src/Gateway/Passed.antt =====
-- What the routes on one device publish, and whom they let through.
use flow_first.Base.{
  String, Bool, true, false, ◌||◌, Option, none, some, ◌==◌, ◌≡◌, refl, ◌⊎◌, inl, inr, arith,
  if◌then◌else◌, Bool-cases,
}
use flow_first.Base.Result.{Result, ok, raise, raise≢ok}
use flow_first.Base.Text.{is_empty, after_prefix, rstrip_char}
use flow_first.World.{World, Action, lift, ◌>>=◌, count_event}
use flow_first.Authz.Request.{AuthResult}
use flow_first.Authz.Check.{Decision, check_authz}
use flow_first.Gateway.Gates.{
  Server, Call, Reply, answer, check_auth, auth_label, require_auth, asked, allowed_of,
  require_authz, authorized, authenticated, gated, put_device, delete_device, do_put, do_delete,
}

module _ (server : Server) (call : Call) where
  -- who passed _require_auth: authentication is off, or the request's credential was accepted
  abbrev pub Authenticated : String → Type 0
  Authenticated label =
      (server.auth_mode == "none" ≡ true) × (label ≡ "")
      ⊎ ((r : AuthResult) × (check_auth server call ≡ ok r)
          × (r.allowed ≡ true)
          × (label ≡ r.label))

  -- authorization is off, or check_authz allowed the action for the caller
  abbrev pub Authorized : String → String → Type 0
  Authorized label resource =
      (is_empty server.authz.authz_mode || server.authz.authz_mode == "none" ≡ true)
      ⊎ ((d : Decision) × (check_authz server.env.floats server.authz
              (asked server call label "publish" resource)
            ≡ ok d)
          × (d.allowed ≡ true))

  abbrev pub Cleared : String → Type 0
  Cleared resource = (label : String) × Authenticated label × Authorized label resource

  -- nothing was published, or both gates were passed
  abbrev pub OnlyCleared : String → World → World → Type 0
  OnlyCleared resource w w' = (w'.published ≡ w.published) ⊎ Cleared resource

  auth_label-Authenticated :
      (r : Result AuthResult) (label : String)
      → auth_label server call r ≡ ok (some label)
      → (a : AuthResult) × (r ≡ ok a) × (a.allowed ≡ true) × (label ≡ a.label)
  auth_label-Authenticated (raise e) label h = absurd (raise≢ok e h)
  auth_label-Authenticated (ok a) label h = (a, refl, ground arith, ground arith)

  require_auth-Authenticated :
      (label : String) → require_auth server call ≡ ok (some label) → Authenticated label
  unfolding require_auth
  require_auth-Authenticated label h = elim (Bool-cases (server.auth_mode == "none")) [
    | inl off ↦ inl (off, ground arith)
    | inr on ↦ inr (auth_label-Authenticated (check_auth server call) label (ground arith))
  ]

  allowed_of-true :
      (r : Result Decision)
      → allowed_of server call r ≡ ok true
      → (d : Decision) × (r ≡ ok d) × (d.allowed ≡ true)
  allowed_of-true (raise e) h = absurd (raise≢ok e h)
  allowed_of-true (ok d) h = (d, refl, ground arith)

  require_authz-Authorized :
      (label resource : String)
      → require_authz server call label "publish" resource ≡ ok true
      → Authorized label resource
  unfolding require_authz
  require_authz-Authorized label resource h =
      elim (Bool-cases (is_empty server.authz.authz_mode || server.authz.authz_mode == "none")) [
        | inl off ↦ inl off
        | inr on ↦ inr (allowed_of-true _ (ground arith))
      ]

  after_authz :
      (resource label : String) (work : Action Reply) (r : Result Bool) (w : World)
      → Authenticated label
      → (r ≡ ok true → Authorized label resource)
      → OnlyCleared resource w ((lift r >>= authorized server call work) w).1
  unfolding count_event
  after_authz resource label work (raise e) w known step = inl refl
  after_authz resource label work (ok false) w known step = inl refl
  after_authz resource label work (ok true) w known step = inr (label, known, step refl)

  after_auth :
      (resource : String) (work : Action Reply) (r : Result (Option String)) (w : World)
      → ((label : String) → r ≡ ok (some label) → Authenticated label)
      → OnlyCleared resource w ((lift r >>= authenticated server call resource work) w).1
  unfolding count_event
  after_auth resource work (raise e) w step = inl refl
  after_auth resource work (ok none) w step = inl refl
  after_auth resource work (ok (some label)) w step =
      after_authz resource label work (require_authz server call label "publish" resource) w
        (step label refl) (require_authz-Authorized label resource)

  pub gated-OnlyCleared :
      (resource : String) (work : Action Reply) (w : World)
      → OnlyCleared resource w (gated server call resource work w).1
  unfolding gated
  gated-OnlyCleared resource work w =
      after_auth resource work (require_auth server call) w require_auth-Authenticated

  named-OnlyCleared :
      (resource : String) (nameless : Bool) (work : Action Reply) (w : World)
      → OnlyCleared resource w
          ((if nameless then answer 400 none else gated server call resource work) w).1
  unfolding count_event
  named-OnlyCleared resource true work w = inl refl
  named-OnlyCleared resource false work w = gated-OnlyCleared resource work w

  put_device-OnlyCleared :
      (id : Option String) (w : World) → OnlyCleared "flow:6" w (put_device server call id w).1
  unfolding count_event
  put_device-OnlyCleared none w = inl refl
  put_device-OnlyCleared (some id) w = named-OnlyCleared "flow:6" (is_empty id) _ w

  delete_device-OnlyCleared :
      (id : Option String) (w : World) → OnlyCleared "flow:7" w (delete_device server call id w).1
  unfolding count_event
  delete_device-OnlyCleared none w = inl refl
  delete_device-OnlyCleared (some id) w = named-OnlyCleared "flow:7" (is_empty id) _ w

  -- If the update or the deletion of a device publishes anything, authentication is off or it accepted the
  -- request's credential, and authorization is off or check_authz allowed the caller to publish to the
  -- flow; whatever calls fail.
  pub do_put-do_delete-OnlyCleared :
      (w : World)
      → OnlyCleared "flow:6" w (do_put server call w).1
        × OnlyCleared "flow:7" w (do_delete server call w).1
  unfolding do_put do_delete
  do_put-do_delete-OnlyCleared w = (
    put_device-OnlyCleared (after_prefix "/api/devices/" (rstrip_char b'/' call.path)) w,
    delete_device-OnlyCleared (after_prefix "/api/devices/" (rstrip_char b'/' call.path)) w,
  )
