-- ===== src/Overlap/Black/Chosen.antt =====
-- Which black frame checkBlackFrameOnMarks chooses.
use noad.Prelude.{
  ℕ, zero, suc, ◌+◌, ◌-◌, ◌≤◌, ◌<◌, ◌≡◌, ◌≢◌, refl, ap, subst, arith, true, false, Option, none,
  some, ltb, if◌then◌else◌, if_rule, Bool-cases, inl, inr, ◌⊎◌,
}
use noad.Prelude.Int.{ℤ, pos, eqb_ℤ, eq_of_parts, pos_part, neg_part}
use noad.Marks.{Mark}
use noad.Overlap.{PicInfo}
use noad.Overlap.Black.{max_back, place_of, black_loop, best_black}

-- No black frame from `j` on and before `n`, but for frame 0.
abbrev pub NoneFrom : (ℕ → PicInfo) → ℕ → ℕ → Type 0
NoneFrom pics j n =
    (i : ℕ) → j ≤ i → i < n → ((pics i).is_black_frame ≡ false) ⊎ ((pics i).framenum ≡ pos 0)

-- The nearest black frame before `n` and not before `stop`, but frame 0, or 0.
abbrev pub NearestBlack : (ℕ → PicInfo) → ℕ → ℕ → ℤ → Type 0
NearestBlack pics stop n r =
    ((r ≡ pos 0) × NoneFrom pics stop n)
    ⊎ ((j : ℕ) × (stop ≤ j)
        × (j < n)
        × ((pics j).is_black_frame ≡ true)
        × ((pics j).framenum ≡ r)
        × NoneFrom pics (j + 1) n)

NoneFrom-suc :
    (pics : ℕ → PicInfo) (j n : ℕ)
    → NoneFrom pics j n
    → ((pics n).is_black_frame ≡ false) ⊎ ((pics n).framenum ≡ pos 0)
    → NoneFrom pics j (n + 1)
NoneFrom-suc pics j n rest here i lo hi = elim (Bool-cases (ltb i n)) [
  | inl below ↦ rest i lo (ground (arith, below))
  | inr at ↦
      let e : n ≡ i = ground (arith, at, hi) in
      subst (λ i. ((pics i).is_black_frame ≡ false) ⊎ ((pics i).framenum ≡ pos 0)) e here
]

NearestBlack-suc :
    (pics : ℕ → PicInfo) (stop n : ℕ) (r : ℤ)
    → NearestBlack pics stop n r
    → ((pics n).is_black_frame ≡ false) ⊎ ((pics n).framenum ≡ pos 0)
    → NearestBlack pics stop (n + 1) r
NearestBlack-suc pics stop n r (inl (e, rest)) here = inl (e, NoneFrom-suc pics stop n rest here)
NearestBlack-suc pics stop n r (inr (j, lo, hi, black, e, rest)) here =
    inr (j, lo, omega arith, black, e, NoneFrom-suc pics (j + 1) n rest here)

black_loop-NearestBlack :
    (pics : ℕ → PicInfo) (stop k : ℕ) → NearestBlack pics stop (stop + k) (black_loop pics stop k)
unfolding black_loop
black_loop-NearestBlack pics stop zero = inl (refl, λ i lo hi. absurd (omega arith))
black_loop-NearestBlack pics stop (suc k) =
    let n = stop + k in
    let next : n + 1 ≡ stop + suc k = omega arith in
    let rest = black_loop-NearestBlack pics stop k in
    subst (λ m. NearestBlack pics stop m (black_loop pics stop (suc k))) next
      (if_rule
        (λ best.
          NearestBlack pics stop (n + 1)
            (if eqb_ℤ best (pos 0) then black_loop pics stop k else best))
        (pics n).is_black_frame
        (λ black.
          if_rule (λ r. NearestBlack pics stop (n + 1) r) (eqb_ℤ (pics n).framenum (pos 0))
            (λ zero_frame.
              NearestBlack-suc pics stop n _ rest
                (inr (eq_of_parts _ _ (ground (arith, zero_frame)))))
            (λ _. inr (n, omega arith, omega arith, black, refl, λ i lo hi. absurd (omega arith))))
        (λ other. NearestBlack-suc pics stop n _ rest (inl other)))

-- What the two searches choose: the place of the mark, and its nearest black frame.
pub data BlackChoice (rate : ℕ) (pics : ℕ → PicInfo) (num : ℕ) (m : Mark) (r : ℤ) : Type 0 where
  absent :
      r ≡ pos 0
      → ((i : ℕ) → i < num → (pics i).framenum ≢ m.position)
      → BlackChoice rate pics num m r
  present :
      (i : ℕ)
      → i < num
      → (pics i).framenum ≡ m.position
      → NearestBlack pics (i - max_back rate) i r
      → BlackChoice rate pics num m r

-- Whether the mark is among the pictures.
abbrev Placed : ℤ → (ℕ → PicInfo) → ℕ → ℕ → Option ℕ → Type 0
Placed p pics k i none = (j : ℕ) → i ≤ j → j < i + k → (pics j).framenum ≢ p
Placed p pics k i (some j) = (j < i + k) × ((pics j).framenum ≡ p)

place_of-Placed : (p : ℤ) (pics : ℕ → PicInfo) (k i : ℕ) → Placed p pics k i (place_of p pics k i)
unfolding place_of
place_of-Placed p pics zero i = λ j lo hi. absurd (omega arith)
place_of-Placed p pics (suc k) i =
    if_rule (Placed p pics (suc k) i) (eqb_ℤ (pics i).framenum p)
      (λ here. (omega arith, eq_of_parts _ _ (ground (arith, here))))
      (λ other. further (place_of p pics k (i + 1)) other (place_of-Placed p pics k (i + 1)))
  where
    further :
        (o : Option ℕ)
        → eqb_ℤ (pics i).framenum p ≡ false
        → Placed p pics k (i + 1) o
        → Placed p pics (suc k) i o
    further none other h = λ j lo hi. elim (Bool-cases (ltb i j)) [
      | inl on ↦ h j (ground (arith, on)) (omega arith)
      | inr at ↦
          let e : i ≡ j = ground (arith, at, lo) in
          subst (λ j. (pics j).framenum ≢ p) e
            (λ same. ground (arith, other, ap pos_part same, ap neg_part same))
    ]
    further (some j) other (l, e) = (omega arith, e)

-- What best_black chooses.
pub best_black-BlackChoice :
    (rate : ℕ) (pics : ℕ → PicInfo) (num : ℕ) (m : Mark)
    → BlackChoice rate pics num m (best_black rate pics num m)
unfolding best_black
best_black-BlackChoice rate pics num m =
    chosen (place_of m.position pics num 0) refl (place_of-Placed m.position pics num 0)
  where
    chosen :
        (o : Option ℕ)
        → place_of m.position pics num 0 ≡ o
        → Placed m.position pics num 0 o
        → BlackChoice rate pics num m (best_black rate pics num m)
    chosen none e h = rw (best_black, e) (absent refl (λ i l. h i (omega arith) (omega arith)))
    chosen (some i) e (l, at) =
        let low = i - max_back rate in
        let whole : low + (i - low) ≡ i = omega arith in
        rw (best_black, e)
          (present i (omega arith) at (
            subst (λ n. NearestBlack pics low n (black_loop pics low (i - low))) whole
              (black_loop-NearestBlack pics low (i - low))))
