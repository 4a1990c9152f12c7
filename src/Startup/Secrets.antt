-- ===== src/Startup/Secrets.antt =====
-- Which secrets let a process of src/config/config.py start.
use Prim.Native.String.{count}
use flow_first.Base.{
  ◌≤◌, String, Bool, true, false, none, some, List, [], ◌∷◌, ◌==◌, ◌≡◌, sym, ap, ◌∙◌, ◌↔◌, ◌⊎◌, inl,
  inr, refl, arith, contains, Option-cases,
}
use flow_first.Base.Result.{ok, raise, runtime_error, raise≢ok}
use flow_first.Base.Text.{strip, is_empty, lower, take_text}
use flow_first.Startup.{
  Hygiene, Passwords, weak_secret_reason, problems, required_secrets, add_problem, refuse_for,
  check_secrets,
}

module _ (hygiene : Hygiene) where
  -- a text that is long enough, and neither it nor its first eight characters are a known sample
  abbrev pub Strong : String → Type 0
  Strong value =
      (is_empty (strip value) ≡ false)
      × (contains hygiene.known_weak (hygiene.hmac12 (lower (strip value))) ≡ false)
      × (hygiene.hmac12 (take_text 8 (lower (strip value))) == hygiene.hmac12 "changeme" ≡ false)
      × (hygiene.min_length ≤ count (strip value))

  abbrev pub AllStrong : List (String × String) → Type 0
  AllStrong [] = Unit
  AllStrong ((name, value) ∷ rest) = Strong value × AllStrong rest

  weak-Strong : (value : String) → (weak_secret_reason hygiene (some value) ≡ none) ↔ Strong value
  unfolding weak_secret_reason
  weak-Strong value = (λ h. ground arith, λ h. ground arith)

  problems-AllStrong :
      (secrets : List (String × String)) → (problems hygiene secrets ≡ []) ↔ AllStrong secrets
  unfolding problems
  problems-AllStrong [] = (λ h. tt, λ h. refl)
  problems-AllStrong ((name, value) ∷ rest) =
      elim (Option-cases (weak_secret_reason hygiene (some value))) [
        | inl strong ↦ (
          λ h. (
            (weak-Strong value).0 strong,
            (problems-AllStrong rest).0
                (ap (λ o. add_problem hygiene name o (problems hygiene rest)) (sym strong) ∙ h),
          ),
          λ h.
              ap (λ o. add_problem hygiene name o (problems hygiene rest)) strong
              ∙ (problems-AllStrong rest).1 h.1,
        )
        | inr weak ↦
            (λ h. absurd (ground arith), λ h. absurd (ground (arith, (weak-Strong value).1 h.0)))
      ]

  refuse_for-exact :
      (allow : Bool) (found : List String)
      → (refuse_for allow found ≡ ok tt) ↔ ((allow ≡ true) ⊎ (found ≡ []))
  refuse_for-exact allow [] = (λ h. inr refl, λ h. refl)
  refuse_for-exact true (x ∷ found) = (λ h. inl refl, λ h. refl)
  refuse_for-exact false (x ∷ found) = (
    λ h. absurd (raise≢ok runtime_error h),
    λ h. elim h [ inl allowed ↦ absurd (ground arith) | inr none_found ↦ absurd (ground arith) ],
  )

  refuse_for-cases :
      (allow : Bool) (found : List String)
      → (refuse_for allow found ≡ ok tt) ⊎ (refuse_for allow found ≡ raise runtime_error)
  refuse_for-cases allow [] = inl refl
  refuse_for-cases true (x ∷ found) = inl refl
  refuse_for-cases false (x ∷ found) = inr refl

  -- A process starts exactly if ALLOW_DEFAULT_SECRETS is set, or every secret that it needs, the key of the
  -- object store among them if that is enabled, is strong: once stripped it is as long as the minimum, and
  -- neither it nor its first eight characters are a known sample. Else RuntimeError is raised.
  pub check_secrets-exact :
      (p : Passwords)
      → ((check_secrets hygiene p ≡ ok tt)
          ↔ ((p.allow_default_secrets ≡ true) ⊎ AllStrong (required_secrets p)))
        × ((check_secrets hygiene p ≡ ok tt) ⊎ (check_secrets hygiene p ≡ raise runtime_error))
  unfolding check_secrets
  check_secrets-exact p =
      let found = problems hygiene (required_secrets p) in
      let strong = problems-AllStrong (required_secrets p) in
      let exact = refuse_for-exact p.allow_default_secrets found in
      (
        (
          λ h. elim (exact.0 h) [ inl allowed ↦ inl allowed | inr good ↦ inr (strong.0 good) ],
          λ h. elim h [
            | inl allowed ↦ exact.1 (inl allowed)
            | inr good ↦ exact.1 (inr (strong.1 good))
          ],
        ),
        refuse_for-cases p.allow_default_secrets found,
      )
