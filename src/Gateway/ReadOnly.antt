-- ===== src/Gateway/ReadOnly.antt =====
-- The reads of do_GET in src/application/process1.py: they change nothing and do not raise, but for the
-- reads of ZooKeeper, before which its client may seed the configuration.
use flow_first.Base.{
  ℕ, String, Bool, true, false, ◌||◌, Option, none, some, List, [], ◌∷◌, ◌≡◌, refl, ap, ◌∙◌,
  if◌then◌else◌, ltb,
}
use flow_first.Base.Int.{ℤ, pos, negsuc}
use flow_first.Base.Dict.{get}
use flow_first.Base.Text.{is_empty}
use flow_first.Base.Result.{Result, ok, raise, Exception}
use flow_first.Json.{Json, Items, Fields, end}
use flow_first.Config.Client.{
  get_client, requests, apart_of, Grows-same, AllGrow, bind-Grows, requests-Grows, get_client-Grows,
}
use flow_first.World.{World, Action, give, ◌>>=◌, ◌>>◌, call, try_except, count_event}
use flow_first.World.Frames.{Keeps, bind-Keeps, call-Keeps}
use flow_first.Swift.Reads.{
  Store, read, found, get_enabled, list_enabled, status_enabled, connected, failed, disabled,
  described, get_message_object, list_message_objects, get_swift_status,
}
use flow_first.Gateway.Gates.{Server, Call, answer}
use flow_first.Gateway.Local.{Local}
use flow_first.Gateway.Get.{
  get_zk_health, read_znodes, get_status, status_answer, with_process, register_next, zk_processes,
  zk_answer, registered_health, registrations, listed, list_limited, limit_of, get_objects, fetched,
  get_object,
}

-- all but the counters and the calls that were made
abbrev pub rest_of : World → World
rest_of w = record w { counters = []; faults = [] }

abbrev pub IsOk : {A : Type 0} → Result A → Type 0
IsOk (ok a) = Unit {0}
IsOk (raise e) = ⊥

-- A read: it changes nothing, and it does not raise.
abbrev pub Reads : {A : Type 0} → Action A → Type 0
Reads m = Keeps rest_of m × ((w : World) → IsOk (m w).0)

module _ {A B : Type 0} where
  after-IsOk :
      (r : Result A) (v : World) (rest : A → Action B)
      → IsOk r
      → ((a : A) → Reads (rest a))
      → IsOk (((λ _. (r, v)) >>= rest) v).0
  after-IsOk (ok a) v rest h reads = (reads a).1 v
  after-IsOk (raise e) v rest h reads = absurd h

  bind-Reads :
      (m : Action A) (rest : A → Action B)
      → Reads m
      → ((a : A) → Reads (rest a))
      → Reads (m >>= rest)
  bind-Reads m rest first reads = (
    bind-Keeps rest_of m rest first.0 (λ a. (reads a).0),
    λ w. after-IsOk (m w).0 (m w).1 rest (first.1 w) reads,
  )

pub Reads-Grow : {A : Type 0} (m : Action A) → Reads m → AllGrow m
Reads-Grow m reads w =
    Grows-same w (m w).1 (ap apart_of (reads.0 w)) (ap (λ (v : World). v.config) (reads.0 w))

give-Reads : {A : Type 0} (a : A) → Reads (give a)
give-Reads a = (λ w. refl, λ w. tt)

answer-Reads : (status : ℕ) (payload : Option Fields) → Reads (answer status payload)
unfolding count_event
answer-Reads status payload = (λ w. refl, λ w. tt)

call-Keeps_read : (e : Exception) → Keeps rest_of (call e (λ w. w))
call-Keeps_read e = call-Keeps rest_of e (λ w. w) (λ w fs. refl) (λ w. refl)

module _ {A : Type 0} where
  handled-Keeps :
      (r : Result A) (v w : World) (handler : Action A)
      → rest_of v ≡ rest_of w
      → Reads handler
      → (rest_of (try_except (λ _. (r, v)) handler w).1 ≡ rest_of w)
        × IsOk (try_except (λ _. (r, v)) handler w).0
  handled-Keeps (ok a) v w handler e reads = (e, tt)
  handled-Keeps (raise x) v w handler e reads = (reads.0 v ∙ e, reads.1 v)

  -- A read that is guarded does not raise.
  try_except-Reads :
      (m handler : Action A) → Keeps rest_of m → Reads handler → Reads (try_except m handler)
  try_except-Reads m handler kept reads = (
    λ w. (handled-Keeps (m w).0 (m w).1 w handler (kept w) reads).0,
    λ w. (handled-Keeps (m w).0 (m w).1 w handler (kept w) reads).1,
  )

  read_then-Keeps : (rest : Action A) → Keeps rest_of rest → Keeps rest_of (read >> rest)
  read_then-Keeps rest kept =
      bind-Keeps rest_of read (λ _. rest) (call-Keeps_read Exception.runtime_error) (λ _. kept)

found-Keeps : (r : Result (Json × Fields)) → Keeps rest_of (found r)
found-Keeps (ok a) w = refl
found-Keeps (raise e) w = refl

module _ (store : Store) where
  get_enabled-Reads : (enabled : Bool) (name : String) → Reads (get_enabled store enabled name)
  get_enabled-Reads false name = give-Reads {A = Option (Json × Fields)} none
  get_enabled-Reads true name =
      try_except-Reads (read >> found (store.object_at name)) (give none)
        (read_then-Keeps (found (store.object_at name)) (found-Keeps (store.object_at name)))
        (give-Reads {A = Option (Json × Fields)} none)

  list_enabled-Reads :
      (enabled : Bool) (prefix : Option String) (limit : ℕ)
      → Reads (list_enabled store enabled prefix limit)
  list_enabled-Reads false prefix limit = give-Reads {A = Option Items} none
  list_enabled-Reads true prefix limit =
      try_except-Reads (read >> give (some (store.listing prefix limit))) (give none)
        (read_then-Keeps (give (some (store.listing prefix limit))) (λ w. refl))
        (give-Reads {A = Option Items} none)

  described-Reads : Reads (described store)
  described-Reads =
      bind-Reads (try_except (read >> give store.container_headers) (give end))
        (λ headers. give (connected store headers))
        (try_except-Reads (read >> give store.container_headers) (give end)
          (read_then-Keeps (give store.container_headers) (λ w. refl)) (give-Reads end))
        (λ headers. give-Reads (connected store headers))

  status_enabled-Reads : (enabled : Bool) → Reads (status_enabled store enabled)
  status_enabled-Reads false = give-Reads (disabled store)
  status_enabled-Reads true =
      try_except-Reads (read >> described store) (give (failed store))
        (read_then-Keeps (described store) described-Reads.0) (give-Reads (failed store))

module _ (server : Server) (call_in : Call) (local : Local) where
  listed-Reads :
      (prefix : Option String) (objects : Option Items)
      → Reads (listed server call_in local prefix objects)
  listed-Reads prefix none = answer-Reads 502 none
  listed-Reads prefix (some objects) = answer-Reads 200 _

  within-Reads :
      (outside : Bool) (prefix : Option String) (n : ℕ)
      → Reads (
          if outside
          then answer 400 none
          else list_message_objects local.store prefix n >>= listed server call_in local prefix)
  unfolding list_message_objects
  within-Reads true prefix n = answer-Reads 400 none
  within-Reads false prefix n =
      bind-Reads (list_message_objects local.store prefix n) (listed server call_in local prefix)
        (list_enabled-Reads local.store local.store.enabled prefix n) (listed-Reads prefix)

  limited-Reads :
      (prefix : Option String) (limit : Result ℤ)
      → Reads (list_limited server call_in local prefix limit)
  limited-Reads prefix (raise e) = answer-Reads 400 none
  limited-Reads prefix (ok (negsuc n)) = answer-Reads 400 none
  limited-Reads prefix (ok (pos n)) = within-Reads (ltb n 1 || ltb server.max_list_limit n) prefix n

  pub get_objects-Reads : Reads (get_objects server call_in local)
  unfolding get_objects
  get_objects-Reads =
      limited-Reads (get local.query "prefix")
        (limit_of server call_in local (get local.query "limit"))

  fetched-Reads :
      (name : String) (object : Option (Json × Fields))
      → Reads (fetched server call_in local name object)
  fetched-Reads name none = answer-Reads 404 none
  fetched-Reads name (some object) = answer-Reads 200 _

  named-Reads :
      (absent : Bool) (name : String)
      → Reads (
          if absent
          then answer 400 none
          else get_message_object local.store name >>= fetched server call_in local name)
  unfolding get_message_object
  named-Reads true name = answer-Reads 400 none
  named-Reads false name =
      bind-Reads (get_message_object local.store name) (fetched server call_in local name)
        (get_enabled-Reads local.store local.store.enabled name) (fetched-Reads name)

  pub get_object-Reads : (name : Option String) → Reads (get_object server call_in local name)
  get_object-Reads none = answer-Reads 404 none
  get_object-Reads (some name) = named-Reads (is_empty name) name

  pub get_status-Reads : Reads (get_status server call_in local)
  unfolding get_swift_status
  get_status-Reads =
      bind-Reads (get_swift_status local.store) (status_answer server call_in local)
        (status_enabled-Reads local.store local.store.enabled) (λ status. answer-Reads 200 _)

  read_znodes-Grows : (tree : String) → AllGrow (read_znodes server call_in local tree)
  read_znodes-Grows tree =
      bind-Grows (get_client (local.zk_is_lost tree)) (λ _. requests (local.zk_reads tree))
        (get_client-Grows (local.zk_is_lost tree)) (λ _. requests-Grows (local.zk_reads tree))

  registrations-Grows :
      (processes : List String) → AllGrow (registrations server call_in local processes)
  unfolding registrations
  registrations-Grows [] = λ w. Grows-same w w refl refl
  registrations-Grows (process ∷ processes) =
      bind-Grows (read_znodes server call_in local process)
        (λ _.
          register_next server call_in local process (registrations server call_in local processes))
        (read_znodes-Grows process)
        (λ _.
          bind-Grows (registrations server call_in local processes)
            (with_process server call_in local process) (registrations-Grows processes)
            (λ rest w. Grows-same w w refl refl))

  pub get_zk_health-Grows : AllGrow (get_zk_health server call_in local)
  get_zk_health-Grows =
      bind-Grows (read_znodes server call_in local "health")
        (λ _. registered_health server call_in local) (read_znodes-Grows "health")
        (λ _.
          bind-Grows (registrations server call_in local (zk_processes server call_in local))
            (zk_answer server call_in local)
            (registrations-Grows (zk_processes server call_in local))
            (λ workers. Reads-Grow (answer 200 _) (answer-Reads 200 _)))
