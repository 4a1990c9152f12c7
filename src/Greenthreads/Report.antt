-- ===== src/Greenthreads/Report.antt =====
-- The throughput reports of start_metrics_reporter in src/gt/gt.py.
use Prim.Native.String.{[], ◌∷◌}
use flow_first.Base.{
  ℕ, String, Bool, true, false, ◌||◌, ◌&&◌, List, [], ◌∷◌, ◌++◌, ◌==◌, code, ltb, eqb, ◌≡◌, refl,
  sym, ap, ◌∙◌, ◌⊎◌, inl, inr, arith, eq_iff, if◌then◌else◌, Bool-cases, contains,
}
use flow_first.Base.Int.{
  ℤ, pos, sub_ℕ, ◌+ℤ◌, zero-add_ℤ, add-zero_ℤ, sub_ℕ-add_ℤ, add_ℤ_chain, +ℤ_assoc,
}
use flow_first.Base.Dict.{Dict, get, get_or, put, keys, get-put, is_some, contains-keys}

-- a <= b on texts
unfoldable pub is_sorted_before : String → String → Bool
is_sorted_before [] t = true
is_sorted_before (c ∷ s) [] = false
is_sorted_before (c ∷ s) (d ∷ t) =
    ltb (code c) (code d) || eqb (code c) (code d) && is_sorted_before s t

unfoldable pub insert_sorted : String → List String → List String
unfolding is_sorted_before
insert_sorted x [] = x ∷ []
insert_sorted x (y ∷ ys) =
    let later : List String = y ∷ insert_sorted x ys in
    if is_sorted_before x y then x ∷ y ∷ ys else later

-- sorted(keys)
unfoldable pub sorted : List String → List String
unfolding insert_sorted
sorted [] = []
sorted (x ∷ xs) = insert_sorted x (sorted xs)

pub record Line : Type 0 where
  pub key : String
  pub total : ℕ
  pub delta : ℤ

pub record Reported : Type 0 where
  pub lines : List Line
  pub prev : Dict ℕ

module _ (current : Dict ℕ) where
  -- the loop over the keys: a line, and _prev[key] = current[key]
  unfoldable pub report_keys : List String → Dict ℕ → Reported
  unfolding get put
  report_keys [] prev = record { lines = []; prev = prev }
  report_keys (key ∷ rest) prev =
      let total = get_or current key 0 in
      let more = report_keys rest (put prev key total) in
      record more {
        lines =
            record { key = key; total = total; delta = sub_ℕ total (get_or prev key 0) }
            ∷ more.lines;
      }

  -- _report, on a snapshot of the counters
  unfoldable pub report : Dict ℕ → Reported
  unfolding report_keys sorted keys
  report prev = report_keys (sorted (keys current)) prev

-- the reports on one snapshot after the other, with _prev kept in between
unfoldable pub reports : List (Dict ℕ) → Dict ℕ → Reported
unfolding report
reports [] prev = record { lines = []; prev = prev }
reports (current ∷ rest) prev =
    let first = report current prev in
    let more = reports rest first.prev in record more { lines = first.lines ++ more.lines }

-- the sum of the differences that the lines give for a counter
unfoldable pub delta_sum : String → List Line → ℤ
unfolding ◌+ℤ◌
delta_sum key [] = pos 0
delta_sum key (line ∷ lines) =
    let rest = delta_sum key lines in if line.key == key then line.delta +ℤ rest else rest

delta_sum-append :
    (key : String) (xs ys : List Line)
    → delta_sum key (xs ++ ys) ≡ delta_sum key xs +ℤ delta_sum key ys
unfolding delta_sum
delta_sum-append key [] ys = sym (zero-add_ℤ (delta_sum key ys))
delta_sum-append key (x ∷ xs) ys = elim (Bool-cases (x.key == key)) [
  | inl same ↦
      rw (same, delta_sum-append key xs ys)
        (sym (+ℤ_assoc x.delta (delta_sum key xs) (delta_sum key ys)))
  | inr other ↦ rw (other, delta_sum-append key xs ys)
]

-- what _prev holds for a counter
abbrev before : Dict ℕ → String → ℤ
before prev key = pos (get_or prev key 0)

-- The differences lead from what _prev held to what it holds.
abbrev Telescopes : String → Dict ℕ → Reported → Type 0
Telescopes key prev r = delta_sum key r.lines +ℤ before prev key ≡ before r.prev key

get_or-put :
    (d : Dict ℕ) (k j : String) (v : ℕ)
    → get_or (put d k v) j 0 ≡ (if k == j then v else get_or d j 0)
get_or-put d k j v = ground (arith, get-put d k j v)

line_step :
    (b : Bool) (total old entry : ℕ) (rest after : ℤ)
    → (b ≡ true → entry ≡ old)
    → rest +ℤ pos (if b then total else entry) ≡ after
    → (if b then sub_ℕ total old +ℤ rest else rest) +ℤ pos entry ≡ after
line_step true total old entry rest after same h = rw (same refl) (sub_ℕ-add_ℤ total old rest ∙ h)
line_step false total old entry rest after same h = h

module _ (current : Dict ℕ) (key : String) where
  report_keys-Telescopes :
      (ks : List String) (prev : Dict ℕ) → Telescopes key prev (report_keys current ks prev)
  unfolding report_keys delta_sum
  report_keys-Telescopes [] prev = zero-add_ℤ _
  report_keys-Telescopes (k ∷ ks) prev =
      line_step (k == key) (get_or current k 0) (get_or prev k 0) (get_or prev key 0) _ _
        (λ same. ap (λ j. get_or prev j 0) (sym ((eq_iff k key).0 same)))
        (rw (← get_or-put prev k key (get_or current k 0))
          (report_keys-Telescopes ks (put prev k (get_or current k 0))))

  -- What was reported stays.
  report_keys-last :
      (ks : List String) (prev : Dict ℕ)
      → contains ks key ≡ true ⊎ (get_or prev key 0 ≡ get_or current key 0)
      → get_or (report_keys current ks prev).prev key 0 ≡ get_or current key 0
  unfolding report_keys contains
  report_keys-last [] prev (inl h) = absurd (ground arith)
  report_keys-last [] prev (inr h) = h
  report_keys-last (k ∷ ks) prev h =
      report_keys-last ks (put prev k (get_or current k 0)) (elim (Bool-cases (k == key)) [
        | inl same ↦ inr (
            get_or-put prev k key (get_or current k 0)
            ∙ rw same (ap (λ j. get_or current j 0) ((eq_iff k key).0 same)))
        | inr other ↦ unmoved other h
      ])
    where
      unmoved :
          k == key ≡ false
          → contains (k ∷ ks) key ≡ true ⊎ (get_or prev key 0 ≡ get_or current key 0)
          → contains ks key ≡ true
            ⊎ (get_or (put prev k (get_or current k 0)) key 0 ≡ get_or current key 0)
      unmoved other (inl m) = inl (ground arith)
      unmoved other (inr e) = inr (get_or-put prev k key (get_or current k 0) ∙ rw other e)

contains-insert_sorted :
    (x k : String) (ys : List String) → contains (insert_sorted x ys) k ≡ contains (x ∷ ys) k
unfolding insert_sorted contains
contains-insert_sorted x k [] = refl
contains-insert_sorted x k (y ∷ ys) = ground (arith, contains-insert_sorted x k ys)

pub contains-sorted : (k : String) (xs : List String) → contains (sorted xs) k ≡ contains xs k
unfolding sorted contains
contains-sorted k [] = refl
contains-sorted k (x ∷ xs) =
    contains-insert_sorted x k (sorted xs) ∙ ground (arith, contains-sorted k xs)

reports-Telescopes :
    (key : String) (ss : List (Dict ℕ)) (prev : Dict ℕ) → Telescopes key prev (reports ss prev)
unfolding reports report
reports-Telescopes key [] prev = unfold delta_sum in zero-add_ℤ _
reports-Telescopes key (s ∷ ss) prev =
    rw (delta_sum-append key (report s prev).lines (reports ss (report s prev).prev).lines) (
      add_ℤ_chain (delta_sum key (report s prev).lines) _ _ _ _
        (report_keys-Telescopes s key (sorted (keys s)) prev)
        (reports-Telescopes key ss (report s prev).prev))

reports-last :
    (key : String) (ss : List (Dict ℕ)) (last prev : Dict ℕ)
    → is_some (get last key) ≡ true
    → get_or (reports (ss ++ last ∷ []) prev).prev key 0 ≡ get_or last key 0
unfolding reports report
reports-last key [] last prev h =
    report_keys-last last key (sorted (keys last)) prev
      (inl (contains-sorted key (keys last) ∙ contains-keys last key ∙ h))
reports-last key (s ∷ ss) last prev h = reports-last key ss last (report s prev).prev h

-- The differences for a counter over the reports, and its total.
pub reports-delta_sum :
    (key : String) (ss : List (Dict ℕ)) (last : Dict ℕ)
    → is_some (get last key) ≡ true
    → delta_sum key (reports (ss ++ last ∷ []) []).lines ≡ pos (get_or last key 0)
unfolding get
reports-delta_sum key ss last h =
    add-zero_ℤ _
    ∙ reports-Telescopes key (ss ++ last ∷ []) []
    ∙ ap (λ n. pos n) (reports-last key ss last [] h)
