-- ===== src/Forwarder/Dual.antt =====
-- The two publications of `handle_flow6_message`, to the DB Updater and to the Remote Worker.
use flow_first.Base.{Bool, true, false, Option, [], ◌∷◌, ◌++◌, ◌≡◌, refl, ◌⊎◌, inl, inr, arith}
use flow_first.Base.Result.{Result, ok, raise}
use flow_first.Json.{Json, Fields}
use flow_first.World.{World, Action, lift, try_except, ◌>>=◌}
use flow_first.Relay.{load_object, reject}
use flow_first.Relay.Outcome.{Dropped, reject-Dropped}
use flow_first.Relay.Guarded.{reject_twice-Dropped, Admitted}
use flow_first.Env.{Env}
use flow_first.Queues.{queue_flow6_p3_to_p4, queue_flow6_p3_to_p5}
use flow_first.Forwarder.Validation.{valid_flow6}
use flow_first.Forwarder.{change_flow6, dual_publish, validated_flow6, handle_flow6_message}

-- published to the DB Updater, and perhaps to the Remote Worker too
abbrev pub Fanned : Fields → World → World → Type 0
Fanned d w w' =
    (w'.published ≡ w.published ++ (queue_flow6_p3_to_p4, Json.obj d) ∷ [])
    ⊎ (w'.published
        ≡ (w.published ++ (queue_flow6_p3_to_p4, Json.obj d) ∷ [])
          ++ (queue_flow6_p3_to_p5, Json.obj d) ∷ [])

dual_publish_cases :
    (d : Fields) (w : World)
    → Dropped w (try_except (dual_publish d) (reject "flow6_failed") w).1
      ⊎ Fanned d w (try_except (dual_publish d) (reject "flow6_failed") w).1
unfolding dual_publish reject
dual_publish_cases d w = ground arith

attempt : Action (Unit {0}) → Action (Unit {0})
attempt try = try_except try (reject "flow6_failed")

sent_cases :
    (t : Result Fields) (w : World)
    → Dropped w (attempt (lift t >>= dual_publish) w).1
      ⊎ ((d : Fields) × (t ≡ ok d) × Fanned d w (attempt (lift t >>= dual_publish) w).1)
unfolding attempt
sent_cases (raise e) w = inl (reject-Dropped "flow6_failed" w)
sent_cases (ok d) w = elim (dual_publish_cases d w) [
  | inl dropped ↦ inl dropped
  | inr fanned ↦ inr (d, refl, fanned)
]

module _ (env : Env) where
  validated_cases :
      (msg : Fields) (r : Result Bool) (w : World)
      → Dropped w (attempt (lift r >>= validated_flow6 env msg) w).1
        ⊎ ((d : Fields) × (r ≡ ok true)
            × (change_flow6 env msg ≡ ok d)
            × Fanned d w (attempt (lift r >>= validated_flow6 env msg) w).1)
  unfolding attempt
  validated_cases msg (raise e) w = inl (reject-Dropped "flow6_failed" w)
  validated_cases msg (ok false) w = inl (reject_twice-Dropped "flow6_failed" w)
  validated_cases msg (ok true) w = elim (sent_cases (change_flow6 env msg) w) [
    | inl dropped ↦ inl dropped
    | inr (d, changed, fanned) ↦ inr (d, refl, changed, fanned)
  ]

  validate : Result Fields → Action (Unit {0})
  validate r = lift r >>= λ msg. lift (valid_flow6 msg) >>= validated_flow6 env msg

  loaded_cases :
      (r : Result Fields) (w : World)
      → Dropped w (attempt (validate r) w).1
        ⊎ ((d : Fields) × Admitted valid_flow6 (change_flow6 env) r d
            × Fanned d w (attempt (validate r) w).1)
  unfolding attempt validate
  loaded_cases (raise e) w = inl (reject-Dropped "flow6_failed" w)
  loaded_cases (ok msg) w = elim (validated_cases msg (valid_flow6 msg) w) [
    | inl dropped ↦ inl dropped
    | inr (d, valid, changed, fanned) ↦ inr (d, (msg, refl, valid, changed), fanned)
  ]

  abbrev pub Delivered : Option Json → World → World → Type 0
  Delivered body w w' =
      Dropped w w'
      ⊎ ((d : Fields) × Admitted valid_flow6 (change_flow6 env) (load_object body) d
          × Fanned d w w')

  -- Whatever calls fail, an update is dropped without an acknowledgement, with nothing published; or it
  -- was valid and its change went to the DB Updater, and after that perhaps to the Remote Worker. It never
  -- goes to the Remote Worker alone.
  pub handle_flow6_message_cases :
      (body : Option Json) (w : World) → Delivered body w (handle_flow6_message env body w).1
  unfolding handle_flow6_message attempt validate
  handle_flow6_message_cases body w = loaded_cases (load_object body) w
