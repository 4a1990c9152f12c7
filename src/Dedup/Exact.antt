-- ===== src/Dedup/Exact.antt =====
-- A round of the reaper of src/application/process4.py in which no call fails: it deletes exactly the
-- expired znodes.
use flow_first.Base.{
  subst, ℕ, zero, suc, String, Bool, true, false, not, ◌&&◌, List, [], ◌∷◌, ◌==◌, ◌≡◌, refl, sym,
  ap, ◌∙◌, inl, inr, arith, eq_iff, Bool-cases, keep, contains, Member, here, later,
  Member-contains,
}
use mathlib.Core.Bool.{false≢true}
use flow_first.Base.Int.{ℤ}
use flow_first.Base.Result.{ok, zookeeper_error}
use flow_first.World.{World, call_with}
use flow_first.Dedup.Reaper.{
  count_reaped, is_expired, after_get, reap_child, reap_children, after_children, reap,
}

eq_sym : (s t : String) → (s == t) ≡ (t == s)
eq_sym s t = elim (Bool-cases (s == t)) [
  | inl same ↦ same ∙ sym ((eq_iff t s).1 (sym ((eq_iff s t).0 same)))
  | inr other ↦ elim (Bool-cases (t == s)) [
    | inl same ↦ absurd (false≢true (sym other ∙ (eq_iff s t).1 (sym ((eq_iff t s).0 same))))
    | inr other' ↦ other ∙ sym other'
  ]
]

keep-all : (p : String → Bool) (xs : List String) → ((x : String) → p x ≡ true) → keep p xs ≡ xs
unfolding keep
keep-all p [] h = refl
keep-all p (x ∷ xs) h = rw (h x) (ap (λ l. x ∷ l) (keep-all p xs h))

keep-keep :
    (p q r : String → Bool) (xs : List String)
    → ((x : String) → q x && p x ≡ r x)
    → keep p (keep q xs) ≡ keep r xs
unfolding keep
keep-keep p q r [] h = refl
keep-keep p q r (x ∷ xs) h = ground (arith, h x, keep-keep p q r xs h)

keep-agree :
    (p q : String → Bool) (xs : List String)
    → ((x : String) → Member x xs → p x ≡ q x)
    → keep p xs ≡ keep q xs
unfolding keep
keep-agree p q [] h = refl
keep-agree p q (x ∷ xs) h = rw (h x (here refl), keep-agree p q xs (λ y m. h y (later m))) refl

module _ (expired : String → Bool) where
  -- the names that are not both expired and in the list
  abbrev spared : List String → String → Bool
  spared children child = not (expired child && contains children child)

  spared-cons :
      (other : String) (children : List String) (x : String)
      → expired other ≡ true
      → not (x == other) && spared children x ≡ spared (other ∷ children) x
  unfolding contains
  spared-cons other children x old = elim (Bool-cases (other == x)) [
    | inl same ↦
        let old' : expired x ≡ true = sym (ap expired ((eq_iff other x).0 same)) ∙ old in
        rw (eq_sym x other, same, old') refl
    | inr differs ↦ rw (eq_sym x other, differs) refl
  ]

  spared-young :
      (other : String) (children : List String) (x : String)
      → expired other ≡ false
      → true && spared children x ≡ spared (other ∷ children) x
  unfolding contains
  spared-young other children x young = elim (Bool-cases (other == x)) [
    | inl same ↦
        let young' : expired x ≡ false = sym (ap expired ((eq_iff other x).0 same)) ∙ young in
        rw (same, young') refl
    | inr differs ↦ rw differs refl
  ]

module _ (age_ms : String → ℤ) (ttl_ms : ℤ) where
  -- the znodes that are left of the children
  abbrev Leaves : List String → World → World → Type 0
  Leaves children w v =
      (v.faults ≡ []) × (v.dedup ≡ keep (spared (is_expired age_ms ttl_ms) children) w.dedup)

  asked_calm :
      (fs : List Bool) (w : World) → fs ≡ [] → call_with fs zookeeper_error (λ v. v) w ≡ (ok tt, w)
  asked_calm fs w calm = rw calm refl

  reap_child-old :
      (other : String) (n : ℕ) (w : World)
      → w.faults ≡ []
      → is_expired age_ms ttl_ms other ≡ true
      → reap_child age_ms ttl_ms other (n, w)
        ≡ (suc n, record w { dedup = keep (λ o. not (o == other)) w.dedup })
  reap_child-old other n w calm old =
      ap (λ r. after_get age_ms ttl_ms r other n) (asked_calm w.faults w calm) ∙ rw (old, calm) refl

  reap_child-young :
      (other : String) (n : ℕ) (w : World)
      → w.faults ≡ []
      → is_expired age_ms ttl_ms other ≡ false
      → reap_child age_ms ttl_ms other (n, w) ≡ (n, w)
  reap_child-young other n w calm young =
      ap (λ r. after_get age_ms ttl_ms r other n) (asked_calm w.faults w calm) ∙ rw young refl

  children-Leaves :
      (children : List String) (n : ℕ) (w : World)
      → w.faults ≡ []
      → Leaves children w (reap_children age_ms ttl_ms children (n, w)).1
  unfolding reap_children contains
  children-Leaves [] n w calm =
      (calm, sym (keep-all (spared (is_expired age_ms ttl_ms) []) w.dedup (λ x. ground arith)))
  children-Leaves (other ∷ children) n w calm = elim (Bool-cases (is_expired age_ms ttl_ms other)) [
    | inl old ↦
        let next = record w { dedup = keep (λ o. not (o == other)) w.dedup } in
        let (f, d) = children-Leaves children (suc n) next calm in
        subst (λ s. Leaves (other ∷ children) w (reap_children age_ms ttl_ms children s).1)
          (sym (reap_child-old other n w calm old))
          (
            f,
            d
                ∙ keep-keep (spared (is_expired age_ms ttl_ms) children) (λ o. not (o == other))
                    (spared (is_expired age_ms ttl_ms) (other ∷ children)) w.dedup
                    (λ x. spared-cons (is_expired age_ms ttl_ms) other children x old),
          )
    | inr young ↦
        let (f, d) = children-Leaves children n w calm in
        subst (λ s. Leaves (other ∷ children) w (reap_children age_ms ttl_ms children s).1)
          (sym (reap_child-young other n w calm young))
          (
            f,
            d
                ∙ keep-agree (spared (is_expired age_ms ttl_ms) children)
                    (spared (is_expired age_ms ttl_ms) (other ∷ children)) w.dedup
                    (λ x m. spared-young (is_expired age_ms ttl_ms) other children x young),
          )
  ]

  counted-dedup : (n : ℕ) (w : World) → (count_reaped (n, w)).dedup ≡ w.dedup
  counted-dedup zero w = refl
  counted-dedup (suc n) w = refl

-- A round of the reaper in which no request fails deletes exactly the dedup znodes that are older than the
-- limit.
pub reap-keep :
    (age_ms : String → ℤ) (ttl_ms : ℤ) (w : World)
    → w.faults ≡ []
    → (reap age_ms ttl_ms w).dedup ≡ keep (λ child. not (is_expired age_ms ttl_ms child)) w.dedup
unfolding reap
reap-keep age_ms ttl_ms w calm =
    ap (λ r. (after_children age_ms ttl_ms r).dedup) (asked_calm age_ms ttl_ms w.faults w calm)
    ∙ counted-dedup age_ms ttl_ms (reap_children age_ms ttl_ms w.dedup (0, w)).0
        (reap_children age_ms ttl_ms w.dedup (0, w)).1
    ∙ (children-Leaves age_ms ttl_ms w.dedup 0 w calm).1
    ∙ keep-agree (spared (is_expired age_ms ttl_ms) w.dedup)
        (λ child. not (is_expired age_ms ttl_ms child)) w.dedup
        (λ x m. all_there x (Member-contains w.dedup x m))
  where
    all_there :
        (x : String)
        → contains w.dedup x ≡ true
        → spared (is_expired age_ms ttl_ms) w.dedup x ≡ not (is_expired age_ms ttl_ms x)
    all_there x there = elim (Bool-cases (is_expired age_ms ttl_ms x)) [
      | inl old ↦ rw (there, old) refl
      | inr young ↦ rw (there, young) refl
    ]
