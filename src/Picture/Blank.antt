-- ===== src/Picture/Blank.antt =====
-- The interlaced scan of CheckFrameIsBlank against the pixels of the picture.
use noad.Prelude.{
  ℕ, zero, suc, ◌+◌, ◌*◌, ◌%◌, ◌/◌, ◌≤◌, ◌<◌, ◌≡◌, refl, arith, Bool, true, false, not, Option,
  none, some, List, [], ◌∷◌, ◌&&◌, ◌||◌, leb, if◌then◌else◌, Bool-cases, inl, inr, ◌⊎◌, ◌∙◌, ap,
  sym, drop, ◌==◌,
}
use noad.CheckLogo.{Rect}
use noad.Picture.{
  loop, widen, Gray, is_bright, is_dim, scan_row, scan_rows, Pass, passes, scan_passes,
  get_avg_brightness, check_average, check_frame_is_blank,
}
use noad.Picture.Steps.{
  any, any_below, any_below-of, any_below-some, steps-below, steps-reach, or_true,
}

-- What a scan gives, from whether a bright and whether a dim pixel was met.
abbrev outcome : Bool → Bool → Option Bool
outcome bright dim = if bright then none else some dim

or_assoc : (a b c : Bool) → (a || b) || c ≡ a || (b || c)
or_assoc true b c = refl
or_assoc false b c = refl

or_false : (a : Bool) → a || false ≡ a
or_false true = refl
or_false false = refl

scan_row-eq :
    (g : Gray) (r : Rect) (y : ℕ) (xs : List ℕ) (dim : Bool)
    → scan_row g r y xs dim ≡ outcome (any (is_bright g r y) xs) (dim || any (is_dim g r y) xs)
unfolding scan_row
scan_row-eq g r y [] dim = ap some (sym (or_false dim))
scan_row-eq g r y (x ∷ xs) dim = elim (Bool-cases (is_bright g r y x)) [
  | inl e ↦ rw e refl
  | inr e ↦ rw e (
      scan_row-eq g r y xs (dim || is_dim g r y x)
      ∙ ap (outcome (any (is_bright g r y) xs))
          (or_assoc dim (is_dim g r y x) (any (is_dim g r y) xs)))
]

-- Over the lines `ys` and the columns `xs`.
abbrev any_in : (ℕ → ℕ → Bool) → List ℕ → List ℕ → Bool
any_in q xs ys = any (λ y. any (q y) xs) ys

scan_rows-eq :
    (g : Gray) (r : Rect) (xs ys : List ℕ) (dim : Bool)
    → scan_rows g r xs ys dim
      ≡ outcome (any_in (is_bright g r) xs ys) (dim || any_in (is_dim g r) xs ys)
unfolding scan_rows
scan_rows-eq g r xs [] dim = ap some (sym (or_false dim))
scan_rows-eq g r xs (y ∷ ys) dim = elim (Bool-cases (any (is_bright g r y) xs)) [
  | inl e ↦ rw (scan_row-eq g r y xs dim, e) refl
  | inr e ↦
      rw (scan_row-eq g r y xs dim, e)
        (scan_rows-eq g r xs ys (dim || any (is_dim g r y) xs)
          ∙ ap (outcome (any_in (is_bright g r) xs ys))
              (or_assoc dim (any (is_dim g r y) xs) (any_in (is_dim g r) xs ys)))
]

abbrev any_pass : (ℕ → ℕ → Bool) → ℕ → ℕ → Pass → Bool
any_pass q w h p = any_in q (loop p.start w p.inc) (loop p.ystart h p.yinc)

scan_passes-eq :
    (g : Gray) (r : Rect) (ps : List Pass) (dim : Bool)
    → scan_passes g r ps dim
      ≡ outcome
          (any (any_pass (is_bright g r) g.width g.height) ps)
          (dim || any (any_pass (is_dim g r) g.width g.height) ps)
unfolding scan_passes
scan_passes-eq g r [] dim = ap some (sym (or_false dim))
scan_passes-eq g r (p ∷ ps) dim =
    let xs = loop p.start g.width p.inc in
    let ys = loop p.ystart g.height p.yinc in
    elim (Bool-cases (any_pass (is_bright g r) g.width g.height p)) [
      | inl e ↦ rw (scan_rows-eq g r xs ys dim, e) refl
      | inr e ↦
          rw (scan_rows-eq g r xs ys dim, e)
            (scan_passes-eq g r ps (dim || any_in (is_dim g r) xs ys)
              ∙ ap (outcome (any (any_pass (is_bright g r) g.width g.height) ps)) (
                  or_assoc dim (any_in (is_dim g r) xs ys)
                    (any (any_pass (is_dim g r) g.width g.height) ps)))
    ]

-- Some pixel of the picture.
abbrev pub any_pixel : (ℕ → ℕ → Bool) → ℕ → ℕ → Bool
any_pixel q w h = any_below h (λ y. any_below w (q y))

any_pass-inside :
    (q : ℕ → ℕ → Bool) (w h : ℕ) (ps : List Pass)
    → any (any_pass q w h) ps ≡ true
    → any_pixel q w h ≡ true
unfolding loop
any_pass-inside q w h [] e = cc
any_pass-inside q w h (p ∷ ps) e = elim (or_true (any_pass q w h p) _ e) [
  | inr later ↦ any_pass-inside q w h ps later
  | inl here ↦
      let (y, below_h, t) = steps-below h p.ystart h p.yinc _ here in
      let (x, below_w, t') = steps-below w p.start w p.inc (q y) t in
      any_below-of h y (λ z. any_below w (q z)) below_h (any_below-of w x (q y) below_w t')
]

-- A pass meets the pixel in its column k and its line j.
any_pass-reach :
    (q : ℕ → ℕ → Bool) (w h : ℕ) (p : Pass) (k j x y : ℕ)
    → p.start + k * p.inc ≡ x
    → p.ystart + j * p.yinc ≡ y
    → k ≤ x
    → j ≤ y
    → x < w
    → y < h
    → q y x ≡ true
    → any_pass q w h p ≡ true
unfolding loop
any_pass-reach q w h p k j x y at_x at_y k_x j_y below_w below_h t =
    steps-reach h p.ystart h p.yinc j (λ z. any (q z) (loop p.start w p.inc)) (omega arith)
      (omega (arith, at_y))
      (rw at_y (
        steps-reach w p.start w p.inc k (q y) (omega arith) (omega (arith, at_x))
          (ap (q y) at_x ∙ t)))

any_here : (p : Pass → Bool) (x : Pass) (xs : List Pass) → p x ≡ true → any p (x ∷ xs) ≡ true
any_here p x xs h = rw h refl

any_later : (p : Pass → Bool) (x : Pass) (xs : List Pass) → any p xs ≡ true → any p (x ∷ xs) ≡ true
any_later p x xs h = elim (Bool-cases (p x)) [ inl e ↦ rw e refl | inr e ↦ rw e h ]

any_skip : (p : Pass → Bool) (n : ℕ) (xs : List Pass) → any p (drop n xs) ≡ true → any p xs ≡ true
any_skip p zero xs h = h
any_skip p (suc n) [] h = h
any_skip p (suc n) (x ∷ xs) h = any_later p x xs (any_skip p n xs h)

halves : (n : ℕ) → (n % 2 ≡ 1) ⊎ (n % 2 ≡ 0)
halves n = omega arith

quarters : (n : ℕ) → n % 2 ≡ 0 → (n % 4 ≡ 2) ⊎ (n % 4 ≡ 0)
quarters n h = omega arith

eighths : (n : ℕ) → n % 4 ≡ 0 → (n % 8 ≡ 4) ⊎ (n % 8 ≡ 0)
eighths n h = omega arith

-- Each pixel is met by the pass that the remainders of its place by 8 tell.
module _ (q : ℕ → ℕ → Bool) (w h x y : ℕ) (below_w : x < w) (below_h : y < h)
    (t : q y x ≡ true) where
  met :
      (n k j : ℕ) (p : Pass) (ps : List Pass)
      → drop n passes ≡ p ∷ ps
      → p.start + k * p.inc ≡ x
      → p.ystart + j * p.yinc ≡ y
      → k ≤ x
      → j ≤ y
      → any (any_pass q w h) passes ≡ true
  met n k j p ps e at_x at_y k_x j_y = any_skip (any_pass q w h) n passes (
      rw e (
        any_here (any_pass q w h) p ps
          (any_pass-reach q w h p k j x y at_x at_y k_x j_y below_w below_h t)))

  any_pass-all : any (any_pass q w h) passes ≡ true
  any_pass-all = elim (halves y) [
    | inl y1 ↦ met 6 x (y / 2) _ _ refl (omega arith) (omega arith) (omega arith) (omega arith)
    | inr y0 ↦ elim (halves x) [
      | inl x1 ↦
          met 5 (x / 2) (y / 2) _ _ refl (omega arith) (omega arith) (omega arith) (omega arith)
      | inr x0 ↦ elim (quarters y y0) [
        | inl y2 ↦
            met 4 (x / 2) (y / 4) _ _ refl (omega arith) (omega arith) (omega arith) (omega arith)
        | inr y4 ↦ elim (quarters x x0) [
          | inl x2 ↦
              met 3 (x / 4) (y / 4) _ _ refl (omega arith) (omega arith) (omega arith) (omega arith)
          | inr x4 ↦ elim (eighths y y4) [
            | inl y4' ↦
                met 2 (x / 4) (y / 8) _ _ refl (omega arith) (omega arith) (omega arith)
                  (omega arith)
            | inr y8 ↦ elim (eighths x x4) [
              | inl x4' ↦
                  met 1 (x / 8) (y / 8) _ _ refl (omega arith) (omega arith) (omega arith)
                    (omega arith)
              | inr x8 ↦
                  met 0 (x / 8) (y / 8) _ _ refl (omega arith) (omega arith) (omega arith)
                    (omega arith)
            ]
          ]
        ]
      ]
    ]
  ]

any_pixel-all :
    (q : ℕ → ℕ → Bool) (w h : ℕ) → any_pixel q w h ≡ true → any (any_pass q w h) passes ≡ true
any_pixel-all q w h e =
    let (y, below_h, t) = any_below-some h (λ z. any_below w (q z)) e in
    let (x, below_w, t') = any_below-some w (q y) t in any_pass-all q w h x y below_w below_h t'

Bool-ext : (a b : Bool) → (a ≡ true → b ≡ true) → (b ≡ true → a ≡ true) → a ≡ b
Bool-ext true b f g = sym (f refl)
Bool-ext false true f g = g refl
Bool-ext false false f g = refl

-- The seven passes meet the pixels of the picture, and no others.
any-passes-eq : (q : ℕ → ℕ → Bool) (w h : ℕ) → any (any_pass q w h) passes ≡ any_pixel q w h
any-passes-eq q w h = Bool-ext _ _ (any_pass-inside q w h passes) (any_pixel-all q w h)

check_average-outcome :
    (g : Gray) (bright dim : Bool)
    → check_average g (outcome bright dim)
      ≡ not bright && (not dim || leb (get_avg_brightness g) 35)
unfolding check_average
check_average-outcome g true dim = refl
check_average-outcome g false true = refl
check_average-outcome g false false = refl

-- CheckFrameIsBlank of a picture with at least one pixel: outside of the widened rectangle of the
-- logo no pixel is brighter than 135, and if one is brighter than 80, then the average is at most
-- 35.
pub check_frame_is_blank-eq :
    (g : Gray) (logo : Rect)
    → 0 < g.width
    → 0 < g.height
    → check_frame_is_blank g logo
      ≡ not (any_pixel (is_bright g (widen logo)) g.width g.height)
        && (not (any_pixel (is_dim g (widen logo)) g.width g.height)
            || leb (get_avg_brightness g) 35)
unfolding check_frame_is_blank
check_frame_is_blank-eq g logo pw ph = rw (has_pixels g.width g.height pw ph) (
    rw (scan_passes-eq g (widen logo) passes false) (
      rw (any-passes-eq (is_bright g (widen logo)) g.width g.height) (
        rw (any-passes-eq (is_dim g (widen logo)) g.width g.height) (check_average-outcome g _ _))))
  where
    has_pixels : (w h : ℕ) → 0 < w → 0 < h → w == 0 || h == 0 ≡ false
    has_pixels w h pw ph = ground arith
