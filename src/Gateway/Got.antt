-- ===== src/Gateway/Got.antt =====
-- What do_GET of src/application/process1.py leaves alone, and when it answers.
use flow_first.Base.{
  some, ℕ, String, Bool, true, false, ◌||◌, Option, ◌==◌, ◌≡◌, refl, sym, ap, subst, ◌⊎◌, inl, inr,
  arith, eq_iff, if◌then◌else◌,
}
use flow_first.Base.Text.{after_prefix}
use flow_first.Base.Result.{Result}
use flow_first.Json.{Fields}
use flow_first.Config.Client.{Grows, Grows-same}
use flow_first.World.{World, Action, count_event}
use flow_first.Gateway.Gates.{Server, Call, Reply, answer}
use flow_first.Gateway.Post.{path}
use flow_first.Gateway.Local.{Local}
use flow_first.Gateway.Get.{
  ready_status, ready_payload, get_health, get_ready, get_gt_status, get_zk_config, get_zk_health,
  get_status, get_objects, get_object, do_get,
}
use flow_first.Gateway.ReadOnly.{
  IsOk, Reads, Reads-Grow, get_status-Reads, get_objects-Reads, get_object-Reads,
  get_zk_health-Grows,
}

-- the paths that are answered from what the process holds
abbrev pub is_local : String → Bool
is_local p = p == "" || p == "/health" || p == "/ready" || p == "/gt/status" || p == "/zk/config"

-- Nothing is changed but the counters and, on /zk/health, the configuration, where defaults are added for
-- absent keys; there is an answer, unless ZooKeeper is asked; and no call is made for a path that is
-- answered from what the process holds.
abbrev pub Answered : String → World → Result Reply × World → Type 0
Answered p w (reply, w') =
    Grows w w'
    × (((p == "/zk/health") ≡ true) ⊎ ((w'.config ≡ w.config) × IsOk reply))
    × ((is_local p ≡ false) ⊎ (w'.faults ≡ w.faults))

choose :
    (b : Bool) (p : String) (m n : Action Reply) (w : World)
    → (b ≡ true → Answered p w (m w))
    → (b ≡ false → Answered p w (n w))
    → Answered p w ((if b then m else n) w)
choose true p m n w h k = h refl
choose false p m n w h k = k refl

silent-Answered :
    (p : String) (m : Action Reply) (w : World) → Reads m → is_local p ≡ false → Answered p w (m w)
silent-Answered p m w reads h =
    (Reads-Grow m reads w, inr (ap (λ (v : World). v.config) (reads.0 w), reads.1 w), inl h)

answer-Answered :
    (p : String) (status : ℕ) (payload : Option Fields) (w : World)
    → Answered p w (answer status payload w)
unfolding count_event
answer-Answered p status payload w =
    (Grows-same w (answer status payload w).1 refl refl, inr (refl, tt), inr refl)

zk_health-remote : (p : String) → (p == "/zk/health") ≡ true → is_local p ≡ false
zk_health-remote p h = subst (λ s. is_local s ≡ false) (sym ((eq_iff p "/zk/health").0 h)) refl

module _ (server : Server) (call_in : Call) (local : Local) (w : World) where
  -- the paths that are not answered locally
  far-Answered :
      (p : String)
      → is_local p ≡ false
      → Answered p w (
          (if p == "/swift/status"
              then get_status server call_in local
              else if p == "/swift/objects"
              then get_objects server call_in local
              else get_object server call_in local (after_prefix "/swift/object/" p))
            w)
  far-Answered p far =
      choose (p == "/swift/status") p (get_status server call_in local) _ w
        (λ _.
          silent-Answered p (get_status server call_in local) w
            (get_status-Reads server call_in local) far)
        (λ _.
          choose (p == "/swift/objects") p (get_objects server call_in local) _ w
            (λ _.
              silent-Answered p (get_objects server call_in local) w
                (get_objects-Reads server call_in local) far)
            (λ _.
              silent-Answered p (get_object server call_in local (after_prefix "/swift/object/" p))
                w (get_object-Reads server call_in local (after_prefix "/swift/object/" p)) far))

  zk-Answered :
      (p : String)
      → (p == "/zk/health") ≡ true
      → Answered p w (get_zk_health server call_in local w)
  zk-Answered p h = (get_zk_health-Grows server call_in local w, inl h, inl (zk_health-remote p h))

  by_path :
      (p : String)
      → Answered p w (
          (if p == "" || p == "/health"
              then get_health server call_in local
              else if p == "/ready"
              then get_ready server call_in local
              else if p == "/gt/status"
              then get_gt_status server call_in local
              else if p == "/zk/health"
              then get_zk_health server call_in local
              else if p == "/zk/config"
              then get_zk_config server call_in local
              else if p == "/swift/status"
              then get_status server call_in local
              else if p == "/swift/objects"
              then get_objects server call_in local
              else get_object server call_in local (after_prefix "/swift/object/" p))
            w)
  by_path p =
      choose (p == "" || p == "/health") p (get_health server call_in local) _ w
        (λ _. answer-Answered p 200 _ w)
        (λ a.
          choose (p == "/ready") p (get_ready server call_in local) _ w
            (λ _.
              answer-Answered p (ready_status server call_in local)
                (some (ready_payload server call_in local)) w)
            (λ b.
              choose (p == "/gt/status") p (get_gt_status server call_in local) _ w
                (λ _. answer-Answered p 200 _ w)
                (λ c.
                  choose (p == "/zk/health") p (get_zk_health server call_in local) _ w
                    (zk-Answered p)
                    (λ _.
                      choose (p == "/zk/config") p (get_zk_config server call_in local) _ w
                        (λ _. answer-Answered p 200 _ w) (λ d. far-Answered p (ground arith))))))

-- Whatever calls fail, do_GET changes nothing but the counters of the answers, and it always answers; but
-- on /zk/health it may raise, and it may add configuration keys that were absent, with their defaults: all
-- other keys keep their texts. On the liveness and readiness probes, /gt/status and /zk/config it makes no
-- call to any server.
pub do_get-Answered :
    (server : Server) (call_in : Call) (local : Local) (w : World)
    → Answered (path server call_in) w (do_get server call_in local w)
unfolding do_get
do_get-Answered server call_in local w = by_path server call_in local w (path server call_in)
