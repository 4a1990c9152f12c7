-- ===== src/Gateway/Gates.antt =====
-- The gates of RestApiHandler in src/application/process1.py (_read_json_body, _require_auth,
-- _require_authz), and the routes do_PUT and do_DELETE behind them.
use flow_first.Base.{
  ℕ, String, Bool, true, false, not, ◌||◌, Option, none, some, List, ◌==◌, ltb, if◌then◌else◌,
}
use flow_first.Base.Int.{ℤ, pos, negsuc}
use flow_first.Base.Dict.{Dict}
use flow_first.Base.Result.{Result, ok, raise, value_error, type_error}
use flow_first.Base.Text.{is_empty, strip, lower, after_prefix, drop_text, rstrip_char}
use flow_first.Json.{Json, Fields, end}
use flow_first.Numbers.{int_of_text}
use flow_first.World.{Action, give, lift, ◌>>=◌, ◌>>◌, count_event}
use flow_first.Env.{Env}
use flow_first.Authz.Identity.{PeerCert, or_empty, cert_common_name}
use flow_first.Authz.Keys.{Digests}
use flow_first.Authz.Token.{Codec}
use flow_first.Authz.Request.{AuthResult, is_given, check_request_auth}
use flow_first.Authz.Check.{Decision, check_authz}
use flow_first.Authz.Check
use flow_first.Gateway.Publish.{publish_flow6_message, publish_flow7_message}

-- what the process read at its start, and the clocks
pub record Server : Type 0 where
  pub env : Env
  pub uuid : ℕ → String
  pub digests : Digests
  pub codec : Codec
  pub auth_mode : String
  pub api_keys : Dict String
  pub token_secret : String
  pub authz : Check.Config
  pub max_body_bytes : ℕ
  pub now : ℤ
  pub hour_utc : ℤ
  pub token_ttl_s : ℤ
  pub max_batch_count : ℕ
  pub max_list_limit : ℕ
  pub tls_api_enabled : Bool
  pub allow_unauthenticated_admin : Bool
  pub admin_allowed_cns : List String
  pub admin_proxy_cns : List String

-- A request: the path after urlparse, the headers, and the body as json.loads gives it, `none` where the
-- decoding raises.
pub record Call : Type 0 where
  pub method : String
  pub path : String
  pub content_length : Option String
  pub api_key : Option String
  pub authorization : Option String
  pub peer_cert : Option PeerCert
  -- X-SSL-Client-CN
  pub client_cn : Option String
  -- whether zk.get_client finds no connected client
  pub zk_is_lost : Bool
  pub body : Option Json

-- The status of the answer, and the payload of a success. Sending it does not raise.
pub record Reply : Type 0 where
  pub status : ℕ
  pub payload : Option Fields

abbrev status_class : ℕ → String
status_class status =
    if ltb status 300 then "http_2xx" else if ltb status 500 then "http_4xx" else "http_5xx"

-- _send_json and _fail
abbrev pub answer : ℕ → Option Fields → Action Reply
answer status payload =
    count_event (status_class status) >> give (record { status = status; payload = payload })

-- (True, data), or the status that was sent
pub data Body : Type 0 where
  refused : ℕ → Body
  accepted : Fields → Body

abbrev body_of : Option Json → Body
body_of none = Body.refused 400
body_of (some (Json.obj d)) = Body.accepted d
body_of (some _) = Body.refused 400

abbrev by_length : ℕ → Result ℤ → Option Json → Body
by_length limit (raise e) body = Body.refused 400
by_length limit (ok (negsuc n)) body = Body.refused 400
by_length limit (ok (pos ℕ.zero)) body = Body.accepted end
by_length limit (ok (pos (ℕ.suc n))) body =
    if ltb limit (ℕ.suc n) then Body.refused 413 else body_of body

abbrev or_text : Option String → String → String
or_text none default = default
or_text (some s) default = s

abbrev non_empty : String → Option String
non_empty s = if is_empty s then none else some s

-- what `startswith` found
abbrev bearer_value : Option String → String → Option String
bearer_value none auth = none
bearer_value (some rest) auth = non_empty (strip (drop_text 7 auth))

module _ (server : Server) (call : Call) where
  unfoldable pub read_json_body : Body
  unfolding int_of_text
  read_json_body =
      by_length server.max_body_bytes (int_of_text (or_text call.content_length "0")) call.body

  unfoldable pub bearer_token : Option String
  unfolding lower after_prefix strip drop_text is_empty
  bearer_token =
      bearer_value (after_prefix "bearer " (lower (or_text call.authorization "")))
        (or_text call.authorization "")

  -- _require_auth: the label that is kept for _require_authz, or `none` for a denial
  abbrev pub auth_label : Result AuthResult → Result (Option String)
  auth_label (raise e) = raise e
  auth_label (ok r) = if r.allowed then ok (some r.label) else ok none

  unfoldable pub check_auth : Result AuthResult
  unfolding check_request_auth bearer_token
  check_auth =
      check_request_auth server.digests server.codec server.now server.auth_mode call.api_key
        bearer_token call.peer_cert server.api_keys server.token_secret

  unfoldable pub require_auth : Result (Option String)
  unfolding check_auth
  require_auth = if server.auth_mode == "none" then ok (some "") else auth_label check_auth

  -- label, or the common name, or "anonymous"
  unfoldable pub authed_identity : String → String
  unfolding is_empty cert_common_name
  authed_identity label =
      if not (is_empty label)
      then label
      else if is_given (cert_common_name call.peer_cert)
      then or_empty (cert_common_name call.peer_cert)
      else "anonymous"

  abbrev pub asked : String → String → String → Check.Request
  asked label action resource = record {
    identity = some (authed_identity label);
    action = action;
    resource = resource;
    method = call.method;
    hour_utc = server.hour_utc;
  }

  abbrev pub allowed_of : Result Decision → Result Bool
  allowed_of (raise e) = raise e
  allowed_of (ok d) = ok d.allowed

  unfoldable pub require_authz : String → String → String → Result Bool
  unfolding check_authz is_empty authed_identity
  require_authz label action resource =
      if is_empty server.authz.authz_mode || server.authz.authz_mode == "none"
      then ok true
      else allowed_of (check_authz server.env.floats server.authz (asked label action resource))

  abbrev pub authorized : Action Reply → Bool → Action Reply
  authorized work true = work
  authorized work false = answer 403 none

  abbrev pub authenticated : String → Action Reply → Option String → Action Reply
  authenticated resource work none = answer 401 none
  authenticated resource work (some label) =
      lift (require_authz label "publish" resource) >>= authorized work

  -- both gates, then the work
  unfoldable pub gated : String → Action Reply → Action Reply
  unfolding require_auth require_authz count_event
  gated resource work = lift require_auth >>= authenticated resource work

  -- the `except` clauses around a publication
  abbrev answered : Result Fields → Action Reply
  answered (ok payload) = answer 200 (some payload)
  answered (raise value_error) = answer 400 none
  answered (raise type_error) = answer 400 none
  answered (raise _) = answer 500 none

  unfoldable pub publication : Action Fields → Action Reply
  unfolding count_event
  publication publish w = let (r, w') = publish w in answered r w'

  abbrev pub with_body : (Fields → Action Reply) → Body → Action Reply
  with_body work (Body.refused status) = answer status none
  with_body work (Body.accepted d) = work d

  abbrev pub put_device : Option String → Action Reply
  put_device none = answer 404 none
  put_device (some device_id) =
      if is_empty device_id
      then answer 400 none
      else gated "flow:6" (
          with_body
            (λ d.
              publication
                (publish_flow6_message server.env server.uuid (Json.str device_id) (Json.obj d)))
            read_json_body)

  unfoldable pub do_put : Action Reply
  unfolding gated publication read_json_body publish_flow6_message after_prefix rstrip_char is_empty
      count_event
  do_put = put_device (after_prefix "/api/devices/" (rstrip_char b'/' call.path))

  abbrev pub delete_device : Option String → Action Reply
  delete_device none = answer 404 none
  delete_device (some device_id) =
      if is_empty device_id
      then answer 400 none
      else gated "flow:7"
          (publication (publish_flow7_message server.env server.uuid (Json.str device_id)))

  unfoldable pub do_delete : Action Reply
  unfolding gated publication publish_flow7_message after_prefix rstrip_char is_empty count_event
  do_delete = delete_device (after_prefix "/api/devices/" (rstrip_char b'/' call.path))
