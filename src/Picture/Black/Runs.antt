-- ===== src/Picture/Black/Runs.antt =====
-- What the counts of black lines count.
use noad.Prelude.{
  ℕ, zero, suc, ◌+◌, ◌-◌, ◌*◌, ◌/◌, ◌%◌, ◌≤◌, ◌<◌, ◌≡◌, refl, ◌∙◌, ap, sym, arith, Bool, true,
  false, ◌⊎◌, inl, inr, ltb, ltb→lt, Bool-cases,
}
use noad.Picture.Steps.{any_below, any_below-of}
use noad.Picture.Black.{
  Planes, is_lit, is_non_black, black_run, non_black_top, non_black_bottom, ndetect_black_lines,
  count_vals, cut_val, even_part, detect_black_lines,
}

-- A run of lines as long as it can be, up to `n`.
pub record IsRun (non_black : ℕ → Bool) (n k r : ℕ) : Type 0 where
  pub bound : r ≤ n
  pub black : (i : ℕ) → k ≤ i → i < k + r → non_black i ≡ false
  pub ended : r < n → non_black (k + r) ≡ true

black_run-IsRun : (non_black : ℕ → Bool) (n k : ℕ) → IsRun non_black n k (black_run non_black n k)
unfolding black_run
black_run-IsRun non_black zero k = record {
  bound = omega arith;
  black = λ i l h. absurd (omega arith);
  ended = λ h. absurd (omega arith);
}
black_run-IsRun non_black (suc n) k = elim (Bool-cases (non_black k)) [
  | inl e ↦ rw e (record {
    bound = omega arith;
    black = λ i l h. absurd (omega arith);
    ended = λ h. ap non_black (omega arith) ∙ e;
  })
  | inr e ↦
      let r = black_run-IsRun non_black n (k + 1) in
      rw e (record {
        bound = omega (arith, r.bound);
        black = λ i l h. elim (first_cases k i l) [
          | inl same ↦ ap non_black (sym same) ∙ e
          | inr more ↦ r.black i more (omega arith)
        ];
        ended = λ h. ap non_black (omega arith) ∙ r.ended (omega arith);
      })
]
  where
    first_cases : (k i : ℕ) → k ≤ i → (k ≡ i) ⊎ (k + 1 ≤ i)
    first_cases k i l = omega arith

is_non_black-some :
    (line : ℕ → ℕ) (n j : ℕ)
    → is_non_black line n j ≡ true
    → (i : ℕ) × (i < j + n) × (is_lit (line i) ≡ true)
unfolding is_non_black
is_non_black-some line zero j h = cc
is_non_black-some line (suc n) j h = elim (Bool-cases (is_lit (line j))) [
  | inl e ↦ (j, omega arith, e)
  | inr e ↦ let (i, l, t) = is_non_black-some line n (j + 1) (rw e at h) in (i, omega arith, t)
]

is_non_black-none :
    (line : ℕ → ℕ) (n j : ℕ)
    → is_non_black line n j ≡ false
    → (i : ℕ) → j ≤ i
    → i < j + n
    → is_lit (line i) ≡ false
unfolding is_non_black
is_non_black-none line zero j h i l u = absurd (omega arith)
is_non_black-none line (suc n) j h i l u = elim (Bool-cases (is_lit (line j))) [
  | inl e ↦ let z : true ≡ false = rw e at h in cc
  | inr e ↦ elim (next_cases j i l) [
    | inl same ↦ ap (λ x. is_lit (line x)) (sym same) ∙ e
    | inr more ↦ is_non_black-none line n (j + 1) (rw e at h) i more (omega arith)
  ]
]
  where
    next_cases : (k i : ℕ) → k ≤ i → (k ≡ i) ⊎ (k + 1 ≤ i)
    next_cases k i l = omega arith

is_non_black-eq :
    (line : ℕ → ℕ) (n : ℕ) → is_non_black line n 0 ≡ any_below n (λ i. is_lit (line i))
is_non_black-eq line n = elim (Bool-cases (is_non_black line n 0)) [
  | inl e ↦
      let (i, l, t) = is_non_black-some line n 0 e in
      e ∙ sym (any_below-of n i (λ x. is_lit (line x)) (omega arith) t)
  | inr e ↦
      e
      ∙ sym (
          none_below n (λ x. is_lit (line x))
            (λ i l. is_non_black-none line n 0 e i (omega arith) (omega arith)))
]
  where
    none_below : (n : ℕ) (p : ℕ → Bool) → ((i : ℕ) → i < n → p i ≡ false) → any_below n p ≡ false
    none_below zero p h = refl
    none_below (suc n) p h = rw (h n (omega arith)) (none_below n p (λ i l. h i (omega arith)))

-- A line of the picture shows a pixel that is brighter than 25 and not 255.
abbrev pub is_lit_line : Planes → ℕ → Bool
is_lit_line b i = any_below b.width (λ j. is_lit (b.y_plane (b.y_width * i + j)))

IsRun-cong : (p q : ℕ → Bool) (n k r : ℕ) → ((i : ℕ) → p i ≡ q i) → IsRun p n k r → IsRun q n k r
IsRun-cong p q n k r e h = record {
  bound = h.bound;
  black = λ i l u. sym (e i) ∙ h.black i l u;
  ended = λ l. sym (e (k + r)) ∙ h.ended l;
}

-- NdetectBlackLines counts one line less than there are black ones at the top, within the first
-- quarter, and at the bottom, within the last; a line is black if no pixel is brighter than 25
-- but 255.
pub ndetect_black_lines-IsRun :
    (b : Planes)
    → (t : ℕ) × (d : ℕ) × (ndetect_black_lines b ≡ (t - 1, d - 1))
      × IsRun (is_lit_line b) (b.height / 4) 0 t
      × IsRun (λ k. is_lit_line b (b.height - 1 - k)) (b.height - 1 - b.height / 4 * 3) 0 d
unfolding ndetect_black_lines non_black_top non_black_bottom
ndetect_black_lines-IsRun b = (
  black_run (non_black_top b) (b.height / 4) 0,
  black_run (non_black_bottom b) (b.height - 1 - b.height / 4 * 3) 0,
  refl,
  IsRun-cong _ _ _ _ _ (λ i. is_non_black-eq (λ j. b.y_plane (b.y_width * i + j)) b.width)
      (black_run-IsRun (non_black_top b) (b.height / 4) 0),
  IsRun-cong _ _ _ _ _
      (λ i. is_non_black-eq (λ j. b.y_plane (b.y_width * (b.height - 1 - i) + j)) b.width)
      (black_run-IsRun (non_black_bottom b) (b.height - 1 - b.height / 4 * 3) 0),
)

even_part-cases : (n : ℕ) → (even_part n ≡ n) ⊎ (even_part n + 1 ≡ n)
even_part-cases n = omega arith

even_part-even : (n : ℕ) → even_part n % 2 ≡ 0
even_part-even n = omega arith

-- An even run of lines with small values.
abbrev IsDarkRun : (ℕ → ℕ) → ℕ → ℕ → Type 0
IsDarkRun c n r =
    (r % 2 ≡ 0)
    × (r ≤ n)
    × ((k : ℕ) → k < r → c k ≤ 20)
    × (r + 2 ≤ n → (20 < c r) ⊎ (20 < c (r + 1)))

dark_run : (c : ℕ → ℕ) (n : ℕ) → IsDarkRun c n (even_part (black_run (λ k. ltb cut_val (c k)) n 0))
dark_run c n =
    let run = black_run (λ k. ltb cut_val (c k)) n 0 in
    let is_run = black_run-IsRun (λ k. ltb cut_val (c k)) n 0 in
    (
      even_part-even run,
      omega (arith, is_run.bound),
      λ k l. not_above (c k) (is_run.black k (omega arith) (omega arith)),
      λ l. elim (even_part-cases run) [
        | inl same ↦
            let e : even_part run ≡ 0 + run = omega (arith, same) in
            inl (ltb→lt 20 _ (ap (λ k. ltb 20 (c k)) e ∙ is_run.ended (omega arith)))
        | inr one ↦
            let e : even_part run + 1 ≡ 0 + run = omega (arith, one) in
            inr (ltb→lt 20 _ (ap (λ k. ltb 20 (c k)) e ∙ is_run.ended (omega arith)))
      ],
    )
  where
    not_above : (v : ℕ) → ltb 20 v ≡ false → v ≤ 20
    not_above v h = ground arith

-- For a height of at least 16, detectBlackLines counts an even number of lines at each end, each
-- with a value of countvals of at most 20, and the two counts do not meet; at the top it starts
-- with line 8, stops before the middle, and one of the next two lines has a larger value.
pub detect_black_lines-dark :
    (height : ℕ) (b : Planes)
    → 16 ≤ height
    → let r = detect_black_lines height b in
      (r.0 % 2 ≡ 0)
      × (r.1 % 2 ≡ 0)
      × (r.0 + r.1 + 2 ≤ height)
      × ((k : ℕ) → k < r.0 → count_vals b (8 + k) ≤ 20)
      × ((k : ℕ) → k < r.1 → count_vals b (height - 2 - k) ≤ 20)
      × (r.0 + 2 ≤ height / 2 - 8
          → (20 < count_vals b (8 + r.0)) ⊎ (20 < count_vals b (8 + (r.0 + 1))))
unfolding detect_black_lines
detect_black_lines-dark height b h =
    let (even, le, dark, next) = dark_run (λ k. count_vals b (8 + k)) (height / 2 - 8) in
    let (even', le', dark', _) =
      dark_run (λ k. count_vals b (height - 2 - k))
        (height - 2 - (detect_black_lines height b).0) in
    (even, even', omega (arith, le, le'), dark, dark', next)
