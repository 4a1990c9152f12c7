-- ===== src/Relay/Routes.antt =====
-- Where the handlers of src/application/process2.py, process3.py and process5.py publish.
use flow_first.Base.{
  String, Bool, Option, List, [], ◌∷◌, ◌++◌, ◌≡◌, sym, ap, subst, inl, inr, Member, here, later,
}
use flow_first.Base.Result.{Result}
use flow_first.Json.{Json, Fields}
use flow_first.World.{World, Action}
use flow_first.World.Frames.{Keeps}
use flow_first.Relay.{relay, guarded}
use flow_first.Relay.Outcome.{relay_cases}
use flow_first.Relay.Guarded.{guarded_cases}
use flow_first.Greenthreads.Consumer.{Consumer}

-- Every message that was published went to a queue of which the property holds.
abbrev pub PublishesTo : (String → Type 0) → World → Type 0
PublishesTo P w = (queue : String) (body : Json) → Member (queue, body) w.published → P queue

module _ (P : String → Type 0) where
  pub same-PublishesTo :
      (w w' : World) → w'.published ≡ w.published → PublishesTo P w → PublishesTo P w'
  same-PublishesTo w w' e p queue body m = p queue body (subst (Member (queue, body)) e m)

  pub more-PublishesTo :
      (to : String) (sent : Json) (w w' : World)
      → P to
      → w'.published ≡ w.published ++ (to, sent) ∷ []
      → PublishesTo P w
      → PublishesTo P w'
  more-PublishesTo to sent w w' h e p queue body m =
      added w.published (subst (Member (queue, body)) e m) (p queue body)
    where
      added :
          (sent_before : List (String × Json))
          → Member (queue, body) (sent_before ++ (to, sent) ∷ [])
          → (Member (queue, body) sent_before → P queue)
          → P queue
      added [] (here f) before = subst P (sym (ap (λ x. x.0) f)) h
      added [] (later n) before = elim n [ ]
      added (x ∷ xs) (here f) before = before (here f)
      added (x ∷ xs) (later n) before = added xs n (λ o. before (later o))

  -- the calls of a handler keep it
  abbrev pub Routes : (Option Json → Action (Unit {0})) → Type 0
  Routes handler =
      (body : Option Json) (w : World) → PublishesTo P w → PublishesTo P (handler body w).1

  pub relay-Routes :
      (transform : Fields → Result Fields) (queue processed failed : String)
      → P queue
      → Routes (relay transform queue processed failed)
  relay-Routes transform queue processed failed h body w p =
      elim (relay_cases transform queue processed failed body w) [
        | inl dropped ↦
            same-PublishesTo w (relay transform queue processed failed body w).1 dropped.0 p
        | inr (d, changes, passed) ↦
            more-PublishesTo queue (Json.obj d) w (relay transform queue processed failed body w).1
              h passed.0 p
      ]

  pub guarded-Routes :
      (is_valid : Fields → Result Bool) (transform : Fields → Result Fields)
      (queue processed failed : String)
      → P queue
      → Routes (guarded is_valid transform queue processed failed)
  guarded-Routes is_valid transform queue processed failed h body w p =
      elim (guarded_cases is_valid transform queue processed failed body w) [
        | inl dropped ↦
            same-PublishesTo w (guarded is_valid transform queue processed failed body w).1
              dropped.0 p
        | inr (d, admitted, passed) ↦
            more-PublishesTo queue (Json.obj d) w
              (guarded is_valid transform queue processed failed body w).1 h passed.0 p
      ]

  pub silent-Routes :
      (handler : Option Json → Action (Unit {0}))
      → ((body : Option Json) → Keeps (λ (w : World). w.published) (handler body))
      → Routes handler
  silent-Routes handler kept body w p = same-PublishesTo w (handler body w).1 (kept body w) p

  abbrev pub AllRoute : List (String × Consumer) → Type 0
  AllRoute [] = Unit
  AllRoute ((name, consumer) ∷ rest) = Routes consumer.handler × AllRoute rest

  pub AllRoute-append :
      (xs ys : List (String × Consumer)) → AllRoute xs → AllRoute ys → AllRoute (xs ++ ys)
  AllRoute-append [] ys a b = b
  AllRoute-append ((name, x) ∷ xs) ys (r, a) b = (r, AllRoute-append xs ys a b)

  pub AllRoute-Member :
      (name : String) (consumer : Consumer) (xs : List (String × Consumer))
      → AllRoute xs
      → Member (name, consumer) xs
      → Routes consumer.handler
  AllRoute-Member name consumer (x ∷ xs) (r, a) (here e) =
      subst (λ c. Routes (c.1).handler) (sym e) r
  AllRoute-Member name consumer (x ∷ xs) (r, a) (later m) = AllRoute-Member name consumer xs a m
  AllRoute-Member name consumer [] a m = elim m [ ]
