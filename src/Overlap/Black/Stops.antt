-- ===== src/Overlap/Black/Stops.antt =====
-- Where the loop of checkBlacklineOnmark stops.
use noad.Prelude.{
  ℕ, zero, suc, ◌+◌, ◌≤◌, ◌<◌, ◌≡◌, refl, subst, arith, true, false, ◌&&◌, ltb, if◌then◌else◌,
  if_rule, Bool-cases, inl, inr, ◌⊎◌,
}
use noad.Prelude.Int.{ℤ, pos, negsuc}
use noad.Overlap.{PicInfo}
use noad.Overlap.Black.{BlackLines, pos_ok, not_ok_count, back_loop}

module _ (b : BlackLines) (pics : ℕ → PicInfo) where
  -- Ten pictures behind `k` without black lines.
  abbrev pub Bare : ℕ → Type 0
  Bare k = (j : ℕ) → k < j → j ≤ k + not_ok_count → pos_ok b pics j ≡ false

  -- Where the loop stops: behind ten bare pictures, the last such, or at the front.
  abbrev pub StopsAt : ℕ → ℤ → Type 0
  StopsAt n (negsuc k) = n ≡ 0
  StopsAt n (pos k) =
      (k < n)
      × ((k ≡ 0) ⊎ ((k + not_ok_count ≤ n) × Bare k))
      × ((j : ℕ)
          → k < j
          → j + not_ok_count ≤ n
          → (i : ℕ) × ((j < i) × (i ≤ j + not_ok_count) × (pos_ok b pics i ≡ true)))

  -- Somewhere in the ten pictures behind `j` there are black lines.
  abbrev Lined : ℕ → Type 0
  Lined j = (i : ℕ) × ((j < i) × (i ≤ j + not_ok_count) × (pos_ok b pics i ≡ true))

  -- Before a round at `n`, with `c` bare pictures behind it, of `all`.
  record Counted (all n c : ℕ) : Type 0 where
    within : n + c ≤ all
    short : c < not_ok_count
    bare : (j : ℕ) → n < j → j ≤ n + c → pos_ok b pics j ≡ false
    stopped : (n + c ≡ all) ⊎ (pos_ok b pics (n + c + 1) ≡ true)
    lined : (j : ℕ) → n ≤ j → j + not_ok_count ≤ all → Lined j

  with_lines :
      (all k c : ℕ)
      → (k + c ≡ all) ⊎ (pos_ok b pics (k + c + 1) ≡ true)
      → c < not_ok_count
      → ((j : ℕ) → suc k ≤ j → j + not_ok_count ≤ all → Lined j)
      → (j : ℕ) → k ≤ j
      → j + not_ok_count ≤ all
      → Lined j
  with_lines all k c (inl e) short rest j lo hi = elim (Bool-cases (ltb k j)) [
    | inl on ↦ rest j (ground (arith, on)) hi
    | inr at ↦ absurd (ground (arith, at))
  ]
  with_lines all k c (inr ok) short rest j lo hi = elim (Bool-cases (ltb k j)) [
    | inl on ↦ rest j (ground (arith, on)) hi
    | inr at ↦ let le : j ≤ k = ground (arith, at) in (k + c + 1, (omega arith, omega arith, ok))
  ]

  after_ok : (all k c : ℕ) → Counted all (suc k) c → pos_ok b pics (suc k) ≡ true → Counted all k 0
  after_ok all k c w ok =
      let here : pos_ok b pics (k + 0 + 1) ≡ true =
        subst (λ i. pos_ok b pics i ≡ true) (omega arith) ok in
      record {
        within = omega (arith, w.within);
        short = omega arith;
        bare = λ j lo hi. absurd (omega arith);
        stopped = inr here;
        lined = with_lines all k 0 (inr here) (omega arith) w.lined;
      }

  -- One more bare picture, the last of ten or not.
  one_bare :
      (all k c : ℕ)
      → Counted all (suc k) c
      → pos_ok b pics (suc k) ≡ false
      → (j : ℕ) → k < j
      → j ≤ k + (c + 1)
      → pos_ok b pics j ≡ false
  one_bare all k c w bad j lo hi = elim (Bool-cases (ltb (suc k) j)) [
    | inl on ↦ w.bare j (ground (arith, on)) (omega arith)
    | inr at ↦
        let e : suc k ≡ j = ground (arith, at, lo) in subst (λ i. pos_ok b pics i ≡ false) e bad
  ]

  after_bare :
      (all k c : ℕ)
      → Counted all (suc k) c
      → pos_ok b pics (suc k) ≡ false
      → c + 1 < not_ok_count
      → Counted all k (c + 1)
  after_bare all k c w bad more =
      let far : (k + (c + 1) ≡ all) ⊎ (pos_ok b pics (k + (c + 1) + 1) ≡ true) = elim w.stopped [
        | inl e ↦ inl (omega (arith, e))
        | inr ok ↦ inr (subst (λ i. pos_ok b pics i ≡ true) (omega arith) ok)
      ] in
      record {
        within = omega (arith, w.within);
        short = more;
        bare = one_bare all k c w bad;
        stopped = far;
        lined = with_lines all k (c + 1) far more w.lined;
      }

  -- The test behind a round.
  test-StopsAt :
      (all k c : ℕ)
      → suc k ≤ all
      → ((j : ℕ) → suc k ≤ j → j + not_ok_count ≤ all → Lined j)
      → Counted all k c ⊎ ((c ≡ not_ok_count) × (k + not_ok_count ≤ all) × Bare k)
      → (0 < k → Counted all k c → StopsAt all (back_loop b pics c k))
      → StopsAt all (if ltb 0 k && ltb c not_ok_count then back_loop b pics c k else pos k)
  test-StopsAt all k c below lined (inl w) rest =
      if_rule (StopsAt all) (ltb 0 k && ltb c not_ok_count) (λ on. rest (ground (arith, on)) w)
        (λ off.
          (omega arith, inl (ground (arith, off, w.short)), λ j lo hi. lined j (omega arith) hi))
  test-StopsAt all k c below lined (inr (e, le, bare)) rest =
      if_rule (StopsAt all) (ltb 0 k && ltb c not_ok_count) (λ on. absurd (ground (arith, on, e)))
        (λ off. (omega arith, inr (le, bare), λ j lo hi. lined j (omega arith) hi))

  back_loop-StopsAt :
      (all c n : ℕ) → Counted all n c → (n ≡ 0 → all ≡ 0) → StopsAt all (back_loop b pics c n)
  unfolding back_loop
  back_loop-StopsAt all c zero w z = z refl
  back_loop-StopsAt all c (suc k) w z =
      if_rule
        (λ c'.
          StopsAt all (if ltb 0 k && ltb c' not_ok_count then back_loop b pics c' k else pos k))
        (pos_ok b pics (suc k))
        (λ ok.
          test-StopsAt all k 0 (omega (arith, w.within)) w.lined (inl (after_ok all k c w ok))
            (λ up u. back_loop-StopsAt all 0 k u (λ e. absurd (omega arith))))
        (λ bad.
          test-StopsAt all k (c + 1) (omega (arith, w.within)) w.lined (tenth bad)
            (λ up u. back_loop-StopsAt all (c + 1) k u (λ e. absurd (omega arith))))
    where
      tenth :
          pos_ok b pics (suc k) ≡ false
          → Counted all k (c + 1) ⊎ ((c + 1 ≡ not_ok_count) × (k + not_ok_count ≤ all) × Bare k)
      tenth bad = elim (Bool-cases (ltb (c + 1) not_ok_count)) [
        | inl more ↦ inl (after_bare all k c w bad (ground (arith, more)))
        | inr done ↦
            let ten : c + 1 ≡ not_ok_count = ground (arith, done, w.short) in
            inr (ten, omega (arith, w.within), λ j lo hi. one_bare all k c w bad j lo (omega arith))
      ]

  first_Counted : (n : ℕ) → Counted n n 0
  first_Counted n = record {
    within = omega arith;
    short = omega arith;
    bare = λ j lo hi. absurd (omega arith);
    stopped = inl (omega arith);
    lined = λ j lo hi. absurd (omega arith);
  }

  -- The loop from the start.
  pub back_loop-stops : (n : ℕ) → StopsAt n (back_loop b pics 0 n)
  back_loop-stops n = back_loop-StopsAt n 0 n (first_Counted n) (λ e. e)
