-- ===== src/Gateway/Batch.antt =====
-- How much a batch of src/application/process1.py publishes.
use flow_first.Base.{
  ℕ, zero, suc, ◌+◌, ◌*◌, ◌≤◌, String, Bool, true, false, Option, none, some, List, [], ◌∷◌, ◌++◌,
  ◌==◌, ltb, ◌≡◌, ◌≢◌, refl, ◌⊎◌, inl, inr, arith, if◌then◌else◌, Bool-cases, length, length-append,
}
use flow_first.Base.Int.{ℤ, pos, negsuc}
use flow_first.Base.Result.{Exception, Result, ok, raise, broker_error}
use flow_first.Json.{Json, Fields}
use flow_first.Numbers.{int_of}
use flow_first.Env.{field_or}
use flow_first.World.{World, lift, ◌>>=◌, count_event}
use flow_first.Queues.{queue_flow1_p1_to_p2, queue_flow2_p1_to_p2}
use flow_first.Gateway.Published.{Request, Answered, publish, publish-Answered}
use flow_first.Gateway.Gates.{Server, Call, Reply, answer}
use flow_first.Gateway.Post.{
  Batch, empty_batch, note_flow1, note_flow2, env_at, uuid_at, batch_flow1, batch_flow2, batch_from,
  batch_answer, run_batch, counted_batch, post_batch,
}

-- how many messages a queue has got
unfoldable pub on_queue : String → List (String × Json) → ℕ
on_queue queue [] = 0
on_queue queue ((q, m) ∷ rest) =
    let more = on_queue queue rest in if q == queue then suc more else more

on_queue-append :
    (queue : String) (xs : List (String × Json)) (q : String) (m : Json)
    → on_queue queue (xs ++ (q, m) ∷ []) ≡ on_queue queue xs + (if q == queue then 1 else 0)
unfolding on_queue
on_queue-append queue [] q m = ground arith
on_queue-append queue ((p, n) ∷ xs) q m = ground (arith, on_queue-append queue xs q m)

abbrev pub is_none : Option Exception → Bool
is_none none = true
is_none (some e) = false

-- From a state of the batch to a later one, after n1 and n2 greenthreads for the two flows.
record Counted (w : World) (b : Batch) (w' : World) (b' : Batch) (n1 : ℕ) (n2 : ℕ) : Type 0 where
  total : length w'.published ≤ length w.published + n1 + n2
  all :
      is_none b'.failed ≡ true
      → (is_none b.failed ≡ true)
        × (on_queue queue_flow1_p1_to_p2 w'.published
            ≡ on_queue queue_flow1_p1_to_p2 w.published + n1)
        × (on_queue queue_flow2_p1_to_p2 w'.published
            ≡ on_queue queue_flow2_p1_to_p2 w.published + n2)

Counted-trans :
    (w : World) (b : Batch) (v : World) (c : Batch) (u : World) (d : Batch) (n1 n2 m1 m2 k1 k2 : ℕ)
    → n1 + m1 ≡ k1
    → n2 + m2 ≡ k2
    → Counted w b v c n1 n2
    → Counted v c u d m1 m2
    → Counted w b u d k1 k2
Counted-trans w b v c u d n1 n2 m1 m2 k1 k2 s1 s2 p q = record {
  total = omega (arith, p.total, q.total);
  all =
      λ h. let (g, e1, e2) = q.all h in let (f, i1, i2) = p.all g in (f, omega arith, omega arith);
}

-- What a greenthread publishes, without what the payload looks like: at most one message, and one if it
-- returns.
abbrev Once : String → World → Result Fields × World → Type 0
Once queue w out =
    ((e : Exception) × (out.0 ≡ raise e) × (length out.1.published ≤ length w.published + 1))
    ⊎ ((payload : Fields) × (out.0 ≡ ok payload)
        × (out.1.published ≡ w.published ++ (queue, Json.obj payload) ∷ []))

module _ (w : World) (b : Batch) (r : Result Fields) (w' : World) where
  Counted-flow1 : Once queue_flow1_p1_to_p2 w (r, w') → Counted w b w' (note_flow1 r b) 1 0
  Counted-flow1 (inl (e, failed, few)) =
      rw failed (record { total = omega (arith, few); all = λ h. ground arith })
  Counted-flow1 (inr (payload, returned, more)) = rw returned (record {
    total = rw more (
        omega
          (arith, length-append {0} w.published ((queue_flow1_p1_to_p2, Json.obj payload) ∷ [])));
    all = λ h.
        (h, rw (more, on_queue-append) (omega arith), rw (more, on_queue-append) (omega arith));
  })

  Counted-flow2 : Once queue_flow2_p1_to_p2 w (r, w') → Counted w b w' (note_flow2 r b) 0 1
  Counted-flow2 (inl (e, failed, few)) =
      rw failed (record { total = omega (arith, few); all = λ h. ground arith })
  Counted-flow2 (inr (payload, returned, more)) = rw returned (record {
    total = rw more (
        omega
          (arith, length-append {0} w.published ((queue_flow2_p1_to_p2, Json.obj payload) ∷ [])));
    all = λ h.
        (h, rw (more, on_queue-append) (omega arith), rw (more, on_queue-append) (omega arith));
  })

published-Once :
    (flow : ℕ) (queue : String) (server : Server) (k : ℕ) (call : Call) (w : World)
    (out : Result Fields × World)
    → Answered (env_at server call k) (uuid_at server call k) flow queue w out
    → Once queue w out
published-Once flow queue server k call w out (inl (e, failed, same)) =
    inl (e, failed, rw same (omega arith))
published-Once flow queue server k call w out (inr (inl (payload, failed, (more, opened)))) = inl (
  broker_error,
  failed,
  rw more (omega (arith, length-append {0} w.published ((queue, Json.obj payload) ∷ []))),
)
published-Once flow queue server k call w out (inr (inr (payload, returned, (more, opened)))) =
    inr (payload, returned, more)

module _ (server : Server) (call : Call) where
  batch_flow1-Counted :
      (i : ℕ) (b : Batch) (w : World)
      → Counted w b
          (batch_flow1 server call i w).1
          (note_flow1 (batch_flow1 server call i w).0 b)
          1
          0
  unfolding batch_flow1 publish
  batch_flow1-Counted i b w =
      Counted-flow1 w b (batch_flow1 server call i w).0 (batch_flow1 server call i w).1 (
        published-Once 1 queue_flow1_p1_to_p2 server (i + i) call w (batch_flow1 server call i w) (
          publish-Answered (env_at server call (i + i)) (uuid_at server call (i + i))
            (Request.telemetry (some (pos i)) Json.null none) w))

  batch_flow2-Counted :
      (i : ℕ) (b : Batch) (w : World)
      → Counted w b
          (batch_flow2 server call i w).1
          (note_flow2 (batch_flow2 server call i w).0 b)
          0
          1
  unfolding batch_flow2 publish
  batch_flow2-Counted i b w =
      Counted-flow2 w b (batch_flow2 server call i w).0 (batch_flow2 server call i w).1 (
        published-Once 2 queue_flow2_p1_to_p2 server (i + i + 1) call w
          (batch_flow2 server call i w)
          (publish-Answered (env_at server call (i + i + 1)) (uuid_at server call (i + i + 1))
            (Request.metric (some (pos i)) Json.null none) w))

  batch_from-Counted :
      (left i : ℕ) (b : Batch) (w : World)
      → Counted w b
          (batch_from server call left i b w).1
          (batch_from server call left i b w).0
          left
          left
  unfolding batch_from
  batch_from-Counted zero i b w = record {
    total = omega arith;
    all = λ h. (h, omega arith, omega arith);
  }
  batch_from-Counted (suc left) i b w =
      let w1 = (batch_flow1 server call i w).1 in
      let b1 = note_flow1 (batch_flow1 server call i w).0 b in
      let w2 = (batch_flow2 server call i w1).1 in
      let b2 = note_flow2 (batch_flow2 server call i w1).0 b1 in
      let rest = batch_from server call left (suc i) b2 w2 in
      Counted-trans w b w1 b1 rest.1 rest.0 1 0 left (suc left) (suc left) (suc left) (omega arith)
        (omega arith) (batch_flow1-Counted i b w)
        (Counted-trans w1 b1 w2 b2 rest.1 rest.0 0 1 left left left (suc left) (omega arith)
          (omega arith) (batch_flow2-Counted i b1 w1) (batch_from-Counted left (suc i) b2 w2))

  -- At most two messages for each item, and one to each queue for each item if the answer is a success.
  abbrev Sized : ℕ → World → Result Reply × World → Type 0
  Sized count w out =
      (length out.1.published ≤ length w.published + 2 * count)
      × ((payload : Option Fields)
          → out.0 ≡ ok (record { status = 200; payload = payload })
          → (on_queue queue_flow1_p1_to_p2 out.1.published
              ≡ on_queue queue_flow1_p1_to_p2 w.published + count)
            × (on_queue queue_flow2_p1_to_p2 out.1.published
                ≡ on_queue queue_flow2_p1_to_p2 w.published + count))

  batch_answer-published : (b : Batch) (v : World) → (batch_answer b v).1.published ≡ v.published
  unfolding count_event
  batch_answer-published b v = ground arith

  batch_answer-success :
      (b : Batch) (v : World) (payload : Option Fields)
      → (batch_answer b v).0 ≡ ok (record { status = 200; payload = payload })
      → is_none b.failed ≡ true
  batch_answer-success b v payload h = ground arith

  run_batch-Sized : (count : ℕ) (w : World) → Sized count w (run_batch server call count w)
  unfolding run_batch
  run_batch-Sized count w =
      let out = batch_from server call count 1 empty_batch w in
      answered out.0 out.1 (batch_from-Counted count 1 empty_batch w)
    where
      answered :
          (b : Batch) (v : World)
          → Counted w empty_batch v b count count
          → Sized count w (batch_answer b v)
      answered b v c = (
        rw (batch_answer-published b v) (omega (arith, c.total)),
        λ payload h.
            let every = c.all (batch_answer-success b v payload h) in
            (rw (batch_answer-published b v) every.1, rw (batch_answer-published b v) every.2),
      )

  -- What a batch does: nothing but the answer, or the publications of a number of items in the bounds.
  abbrev pub InBounds : World → Result Reply × World → Type 0
  InBounds w out =
      ((out.1.published ≡ w.published)
        × ((payload : Option Fields) → out.0 ≢ ok (record { status = 200; payload = payload })))
      ⊎ ((count : ℕ) × (1 ≤ count) × (count ≤ server.max_batch_count) × Sized count w out)

  refused-InBounds : (w : World) → InBounds w (answer 400 none w)
  unfolding count_event
  refused-InBounds w = inl (refl, λ payload h. ground arith)

  counted_batch-InBounds : (count : ℤ) (w : World) → InBounds w (counted_batch server call count w)
  counted_batch-InBounds (negsuc n) w = refused-InBounds w
  counted_batch-InBounds (pos zero) w = refused-InBounds w
  counted_batch-InBounds (pos (suc n)) w = elim (Bool-cases (ltb server.max_batch_count (suc n))) [
    | inl large ↦ rw large (refused-InBounds w)
    | inr fits ↦ rw fits (inr (suc n, omega arith, ground arith, run_batch-Sized (suc n) w))
  ]

  -- A batch publishes nothing and is no success, or its count is between 1 and API_MAX_BATCH_COUNT: it then
  -- publishes at most two messages for each item, and if it is a success, one for each item to the first
  -- queue of flow 1 and one to that of flow 2; whatever calls fail.
  pub post_batch-InBounds : (d : Fields) (w : World) → InBounds w (post_batch server call d w)
  unfolding post_batch
  post_batch-InBounds d w = read (int_of server.env.floats (field_or d "count" (Json.int (pos 3))))
    where
      read : (r : Result ℤ) → InBounds w ((lift r >>= counted_batch server call) w)
      read (raise e) = inl (refl, λ payload h. ground arith)
      read (ok count) = counted_batch-InBounds count w
