-- ===== src/Picture/Steps.antt =====
-- The numbers that a counting loop goes through.
use noad.Prelude.{
  ℕ, zero, suc, ◌+◌, ◌*◌, ◌<◌, ◌≡◌, refl, arith, Bool, true, false, List, [], ◌∷◌, ◌||◌, ltb,
  Bool-cases, inl, inr, ◌⊎◌, ◌∙◌, ap, sym, ltb→lt, lt→ltb,
}
use noad.Picture.{steps}

abbrev pub any {ℓ} : {A : Type ℓ} → (A → Bool) → List A → Bool
any p [] = false
any p (x ∷ xs) = p x || any p xs

-- Some number below `n` meets the test.
abbrev pub any_below : ℕ → (ℕ → Bool) → Bool
any_below zero p = false
any_below (suc n) p = p n || any_below n p

pub or_true : (a b : Bool) → a || b ≡ true → (a ≡ true) ⊎ (b ≡ true)
or_true true b h = inl refl
or_true false b h = inr h

below_suc : (n x : ℕ) → x < suc n → (x ≡ n) ⊎ (x < n)
below_suc n x h = omega arith

pub any_below-of : (n x : ℕ) (p : ℕ → Bool) → x < n → p x ≡ true → any_below n p ≡ true
any_below-of zero x p h k = absurd (omega arith)
any_below-of (suc n) x p h k = elim (Bool-cases (p n)) [
  | inl e ↦ rw e refl
  | inr e ↦ elim (below_suc n x h) [
    | inl same ↦ let z : p n ≡ true = rw (← same) k in cc
    | inr less ↦ rw e (any_below-of n x p less k)
  ]
]

pub any_below-some :
    (n : ℕ) (p : ℕ → Bool) → any_below n p ≡ true → (x : ℕ) × (x < n) × (p x ≡ true)
any_below-some zero p h = cc
any_below-some (suc n) p h = elim (or_true (p n) (any_below n p) h) [
  | inl e ↦ (n, omega arith, e)
  | inr e ↦ let (x, l, t) = any_below-some n p e in (x, omega arith, t)
]

pub steps-below :
    (fuel i limit d : ℕ) (p : ℕ → Bool)
    → any p (steps fuel i limit d) ≡ true
    → (x : ℕ) × (x < limit) × (p x ≡ true)
unfolding steps
steps-below zero i limit d p h = cc
steps-below (suc fuel) i limit d p h = elim (Bool-cases (ltb i limit)) [
  | inr e ↦ let z : false ≡ true = rw e at h in cc
  | inl e ↦ elim (or_true (p i) (any p (steps fuel (i + d) limit d)) (rw e at h)) [
    | inl t ↦ (i, ltb→lt i limit e, t)
    | inr t ↦ steps-below fuel (i + d) limit d p t
  ]
]

steps-suc :
    (fuel i limit d : ℕ) (p : ℕ → Bool)
    → i < limit
    → any p (steps (suc fuel) i limit d) ≡ p i || any p (steps fuel (i + d) limit d)
unfolding steps
steps-suc fuel i limit d p h = rw (lt→ltb i limit h) refl

or_true_right : (a b : Bool) → b ≡ true → a || b ≡ true
or_true_right true b h = refl
or_true_right false b h = h

pub steps-reach :
    (fuel i limit d k : ℕ) (p : ℕ → Bool)
    → k < fuel
    → i + k * d < limit
    → p (i + k * d) ≡ true
    → any p (steps fuel i limit d) ≡ true
steps-reach zero i limit d k p h l e = absurd (omega arith)
steps-reach (suc fuel) i limit d zero p h l e =
    let same : i + 0 * d ≡ i = omega arith in
    let here : p i ≡ true = ap p (sym same) ∙ e in
    rw (steps-suc fuel i limit d p (omega arith), here) refl
steps-reach (suc fuel) i limit d (suc k) p h l e =
    let same : i + suc k * d ≡ i + d + k * d = grind arith in
    rw (steps-suc fuel i limit d p (omega (arith, same))) (
      or_true_right (p i) _ (
        steps-reach fuel (i + d) limit d k p (omega arith) (omega (arith, same))
          (ap p (sym same) ∙ e)))
