-- ===== src/Dedup/Expired.antt =====
-- What a round of the reaper of src/application/process4.py leaves of the dedup znodes.
use flow_first.Base.{
  ℕ, zero, suc, String, Bool, true, false, not, List, [], ◌∷◌, ◌==◌, ◌≡◌, refl, sym, ap, ◌∙◌, inl,
  inr, eq_iff, Bool-cases, keep, Member, keep-Member,
}
use mathlib.Core.Bool.{false≢true}
use flow_first.Base.Int.{ℤ}
use flow_first.Base.Result.{Result, ok, raise, zookeeper_error}
use flow_first.World.{World, call_with}
use flow_first.Dedup.Reaper.{
  ask, count_deleted, count_reaped, is_expired, after_get, reap_child, reap_children,
  after_children, reap,
}

abbrev asked_with : List Bool → World → Result (Unit {0}) × World
asked_with fs w = call_with fs zookeeper_error (λ v. v) w

abbrev delete_with : List Bool → String → World → Result (Unit {0}) × World
delete_with fs other w =
    call_with fs zookeeper_error (λ v. record v { dedup = keep (λ o. not (o == other)) v.dedup }) w

module _ (age_ms : String → ℤ) (ttl_ms : ℤ) where
  module _ (child : String) (young : is_expired age_ms ttl_ms child ≡ false) where
    differs : (other : String) → is_expired age_ms ttl_ms other ≡ true → not (child == other) ≡ true
    differs other old = elim (Bool-cases (child == other)) [
      | inl same ↦ absurd (
          false≢true
            (sym young ∙ ap (is_expired age_ms ttl_ms) ((eq_iff child other).0 same) ∙ old))
      | inr other_name ↦ rw other_name refl
    ]

    delete-Member :
        (fs : List Bool) (other : String) (w : World) (n : ℕ)
        → is_expired age_ms ttl_ms other ≡ true
        → Member child w.dedup
        → Member child (count_deleted (delete_with fs other w) n).1.dedup
    delete-Member [] other w n old m =
        keep-Member (λ o. not (o == other)) child w.dedup m (differs other old)
    delete-Member (true ∷ fs) other w n old m = m
    delete-Member (false ∷ fs) other w n old m =
        keep-Member (λ o. not (o == other)) child w.dedup m (differs other old)

    got-Member :
        (r : Result (Unit {0})) (other : String) (w : World) (n : ℕ)
        → Member child w.dedup
        → Member child (after_get age_ms ttl_ms (r, w) other n).1.dedup
    got-Member (raise e) other w n m = m
    got-Member (ok u) other w n m = elim (Bool-cases (is_expired age_ms ttl_ms other)) [
      | inl old ↦ rw old (delete-Member w.faults other w n old m)
      | inr left ↦ rw left m
    ]

    ask-Member :
        (fs : List Bool) (w : World) → Member child w.dedup → Member child (asked_with fs w).1.dedup
    ask-Member [] w m = m
    ask-Member (true ∷ fs) w m = m
    ask-Member (false ∷ fs) w m = m

    children-Member :
        (children : List String) (n : ℕ) (w : World)
        → Member child w.dedup
        → Member child (reap_children age_ms ttl_ms children (n, w)).1.dedup
    unfolding reap_children
    children-Member [] n w m = m
    children-Member (other ∷ children) n w m =
        children-Member children (reap_child age_ms ttl_ms other (n, w)).0
          (reap_child age_ms ttl_ms other (n, w)).1
          (got-Member (ask w).0 other (ask w).1 n (ask-Member w.faults w m))

    counted-Member :
        (n : ℕ) (w : World) → Member child w.dedup → Member child (count_reaped (n, w)).dedup
    counted-Member zero w m = m
    counted-Member (suc n) w m = m

    after-Member :
        (r : Result (Unit {0})) (w : World)
        → Member child w.dedup
        → Member child (after_children age_ms ttl_ms (r, w)).dedup
    after-Member (raise e) w m = m
    after-Member (ok u) w m =
        counted-Member (reap_children age_ms ttl_ms w.dedup (0, w)).0
          (reap_children age_ms ttl_ms w.dedup (0, w)).1 (children-Member w.dedup 0 w m)

    pub reap-Member : (w : World) → Member child w.dedup → Member child (reap age_ms ttl_ms w).dedup
    unfolding reap
    reap-Member w m = after-Member (ask w).0 (ask w).1 (ask-Member w.faults w m)
