-- ===== src/IndexFile/Scan.antt =====
-- The loop of GetNextIFrame in each direction.
use noad.Prelude.{
  ℕ, zero, suc, ◌≡◌, refl, arith, inl, inr, ◌⊎◌, Bool, true, false, Bool-cases, Option, none, some,
  List, ◌&&◌, ◌∙◌,
}
use noad.Prelude.Int.{ℤ, pos, negsuc, ◌+ℤ◌, ◌≤ℤ◌, ◌<ℤ◌, +ℤ_parts, leb_ℤ, ltb_ℤ, eq_of_parts}
use noad.IndexFile.{Entry, entry_at, is_i_frame, i_frame_loop}

abbrev pub i_frame_at : List Entry → ℤ → Bool
i_frame_at es j = is_i_frame (entry_at es j)

-- In the direction `d` from `i` there is no I frame before `j`.
abbrev pub NoneUpTo : List Entry → ℤ → ℤ → Type 0
NoneUpTo es i j = (k : ℤ) → i <ℤ k → k <ℤ j → i_frame_at es k ≡ false

-- The nearest I frame behind `i` and below the bound, or that there is none.
abbrev pub NextIFrame : List Entry → ℤ → ℤ → Option ℤ → Type 0
NextIFrame es i bound none = NoneUpTo es i bound
NextIFrame es i bound (some j) =
    (i <ℤ j) × (j <ℤ bound) × (i_frame_at es j ≡ true) × NoneUpTo es i j

-- The nearest I frame before `i`, or that there is none.
abbrev pub PrevIFrame : List Entry → ℤ → Option ℤ → Type 0
PrevIFrame es i none = NoneUpTo es (negsuc 0) i
PrevIFrame es i (some j) = (pos 0 ≤ℤ j) × (j <ℤ i) × (i_frame_at es j ≡ true) × NoneUpTo es j i

module _ (fuel : ℕ) (d bound : ℤ) (es : List Entry) (i : ℤ) where
  abbrev in_range : Bool
  in_range = leb_ℤ (pos 0) (i +ℤ d) && ltb_ℤ (i +ℤ d) bound

  pub i_frame_loop_out : in_range ≡ false → i_frame_loop (suc fuel) d bound es i ≡ some none
  unfolding i_frame_loop
  i_frame_loop_out e = rw e refl

  i_frame_loop_found :
      in_range ≡ true
      → i_frame_at es (i +ℤ d) ≡ true
      → i_frame_loop (suc fuel) d bound es i ≡ some (some (i +ℤ d))
  unfolding i_frame_loop
  i_frame_loop_found e f = rw e (rw f refl)

  i_frame_loop_other :
      in_range ≡ true
      → i_frame_at es (i +ℤ d) ≡ false
      → i_frame_loop (suc fuel) d bound es i ≡ i_frame_loop fuel d bound es (i +ℤ d)
  unfolding i_frame_loop
  i_frame_loop_other e f = rw e (rw f refl)

suc_cases : (i k : ℤ) → i <ℤ k → (k ≡ i +ℤ pos 1) ⊎ (i +ℤ pos 1 <ℤ k)
suc_cases i k h = elim (Bool-cases (ltb_ℤ (i +ℤ pos 1) k)) [
  | inl l ↦ inr (ground arith)
  | inr g ↦ inl (eq_of_parts k (i +ℤ pos 1) (ground (arith, +ℤ_parts i (pos 1))))
]

pred_cases : (i k : ℤ) → k <ℤ i → (k ≡ i +ℤ negsuc 0) ⊎ (k <ℤ i +ℤ negsuc 0)
pred_cases i k h = elim (Bool-cases (ltb_ℤ k (i +ℤ negsuc 0))) [
  | inl l ↦ inr (ground arith)
  | inr g ↦ inl (eq_of_parts k (i +ℤ negsuc 0) (ground (arith, +ℤ_parts i (negsuc 0))))
]

-- One entry more that is no I frame, at either end.
NoneUpTo-suc :
    (es : List Entry) (i j : ℤ)
    → i_frame_at es (i +ℤ pos 1) ≡ false
    → NoneUpTo es (i +ℤ pos 1) j
    → NoneUpTo es i j
NoneUpTo-suc es i j e h k l u = elim (suc_cases i k l) [ inl z ↦ rw z e | inr g ↦ h k g u ]

NoneUpTo-pred :
    (es : List Entry) (i j : ℤ)
    → i_frame_at es (i +ℤ negsuc 0) ≡ false
    → NoneUpTo es j (i +ℤ negsuc 0)
    → NoneUpTo es j i
NoneUpTo-pred es i j e h k l u = elim (pred_cases i k u) [ inl z ↦ rw z e | inr g ↦ h k l g ]

NextIFrame-suc :
    (es : List Entry) (i bound : ℤ) (r : Option ℤ)
    → i_frame_at es (i +ℤ pos 1) ≡ false
    → NextIFrame es (i +ℤ pos 1) bound r
    → NextIFrame es i bound r
NextIFrame-suc es i bound none e h = NoneUpTo-suc es i bound e h
NextIFrame-suc es i bound (some j) e h =
    (omega (arith, h.0, +ℤ_parts i (pos 1)), h.1, h.2, NoneUpTo-suc es i j e h.3)

PrevIFrame-pred :
    (es : List Entry) (i : ℤ) (r : Option ℤ)
    → i_frame_at es (i +ℤ negsuc 0) ≡ false
    → PrevIFrame es (i +ℤ negsuc 0) r
    → PrevIFrame es i r
PrevIFrame-pred es i none e h = NoneUpTo-pred es i (negsuc 0) e h
PrevIFrame-pred es i (some j) e h =
    (h.0, omega (arith, h.1, +ℤ_parts i (negsuc 0)), h.2, NoneUpTo-pred es i j e h.3)

forward_end :
    (i bound : ℤ)
    → negsuc 0 ≤ℤ i
    → (leb_ℤ (pos 0) (i +ℤ pos 1) && ltb_ℤ (i +ℤ pos 1) bound) ≡ false
    → bound ≤ℤ i +ℤ pos 1
forward_end i bound lo out = ground (arith, +ℤ_parts i (pos 1))

forward_within :
    (i bound : ℤ)
    → (leb_ℤ (pos 0) (i +ℤ pos 1) && ltb_ℤ (i +ℤ pos 1) bound) ≡ true
    → (negsuc 0 ≤ℤ i +ℤ pos 1) × (i <ℤ i +ℤ pos 1) × (i +ℤ pos 1 <ℤ bound)
forward_within i bound h = ground (arith, +ℤ_parts i (pos 1))

abbrev pub Forward : ℕ → ℤ → List Entry → ℤ → Type 0
Forward fuel bound es i =
    (r : Option ℤ) × (i_frame_loop fuel (pos 1) bound es i ≡ some r) × NextIFrame es i bound r

abbrev pub Backward : ℕ → ℤ → List Entry → ℤ → Type 0
Backward fuel bound es i =
    (r : Option ℤ) × (i_frame_loop fuel (negsuc 0) bound es i ≡ some r) × PrevIFrame es i r

Forward-round :
    (fuel : ℕ) (bound : ℤ) (es : List Entry) (i : ℤ)
    → negsuc 0 ≤ℤ i
    → (negsuc 0 ≤ℤ i +ℤ pos 1 → i +ℤ pos 1 <ℤ bound → Forward fuel bound es (i +ℤ pos 1))
    → Forward (suc fuel) bound es i
Forward-round fuel bound es i lo next =
    elim (Bool-cases (leb_ℤ (pos 0) (i +ℤ pos 1) && ltb_ℤ (i +ℤ pos 1) bound)) [
      | inr out ↦ (
        none,
        i_frame_loop_out fuel (pos 1) bound es i out,
        λ k l u. absurd (omega (arith, forward_end i bound lo out, +ℤ_parts i (pos 1))),
      )
      | inl within ↦
          let w = forward_within i bound within in
          elim (Bool-cases (i_frame_at es (i +ℤ pos 1))) [
            | inl found ↦ (
              some (i +ℤ pos 1),
              i_frame_loop_found fuel (pos 1) bound es i within found,
              (w.1, w.2, found, λ k l u. absurd (omega (arith, +ℤ_parts i (pos 1)))),
            )
            | inr other ↦
                let (r, runs, is_next) = next w.0 w.2 in
                (
                  r,
                  i_frame_loop_other fuel (pos 1) bound es i within other ∙ runs,
                  NextIFrame-suc es i bound r other is_next,
                )
          ]
    ]

pub Forward-loop :
    (fuel : ℕ) (bound : ℤ) (es : List Entry) (i : ℤ)
    → negsuc 0 ≤ℤ i
    → bound ≤ℤ i +ℤ pos (suc fuel)
    → Forward (suc fuel) bound es i
Forward-loop zero bound es i lo hi =
    Forward-round zero bound es i lo λ l u. absurd (omega (arith, l, u, hi))
Forward-loop (suc fuel) bound es i lo hi = Forward-round (suc fuel) bound es i lo λ l u.
    Forward-loop fuel bound es (i +ℤ pos 1) l (
      omega (
        arith,
        +ℤ_parts i (pos 1),
        +ℤ_parts i (pos (suc (suc fuel))),
        +ℤ_parts (i +ℤ pos 1) (pos (suc fuel)),
      ))

backward_end :
    (i bound : ℤ)
    → i ≤ℤ bound
    → (leb_ℤ (pos 0) (i +ℤ negsuc 0) && ltb_ℤ (i +ℤ negsuc 0) bound) ≡ false
    → i ≤ℤ pos 0
backward_end i bound lo out = ground (arith, +ℤ_parts i (negsuc 0))

backward_within :
    (i bound : ℤ)
    → (leb_ℤ (pos 0) (i +ℤ negsuc 0) && ltb_ℤ (i +ℤ negsuc 0) bound) ≡ true
    → (pos 0 ≤ℤ i +ℤ negsuc 0) × (i +ℤ negsuc 0 <ℤ i) × (i +ℤ negsuc 0 ≤ℤ bound)
backward_within i bound h = ground (arith, +ℤ_parts i (negsuc 0))

Backward-round :
    (fuel : ℕ) (bound : ℤ) (es : List Entry) (i : ℤ)
    → i ≤ℤ bound
    → (pos 0 ≤ℤ i +ℤ negsuc 0 → i +ℤ negsuc 0 ≤ℤ bound → Backward fuel bound es (i +ℤ negsuc 0))
    → Backward (suc fuel) bound es i
Backward-round fuel bound es i lo next =
    elim (Bool-cases (leb_ℤ (pos 0) (i +ℤ negsuc 0) && ltb_ℤ (i +ℤ negsuc 0) bound)) [
      | inr out ↦ (
        none,
        i_frame_loop_out fuel (negsuc 0) bound es i out,
        λ k l u. absurd (omega (arith, backward_end i bound lo out)),
      )
      | inl within ↦
          let w = backward_within i bound within in
          elim (Bool-cases (i_frame_at es (i +ℤ negsuc 0))) [
            | inl found ↦ (
              some (i +ℤ negsuc 0),
              i_frame_loop_found fuel (negsuc 0) bound es i within found,
              (w.0, w.1, found, λ k l u. absurd (omega (arith, +ℤ_parts i (negsuc 0)))),
            )
            | inr other ↦
                let (r, runs, is_prev) = next w.0 w.2 in
                (
                  r,
                  i_frame_loop_other fuel (negsuc 0) bound es i within other ∙ runs,
                  PrevIFrame-pred es i r other is_prev,
                )
          ]
    ]

pub Backward-loop :
    (fuel : ℕ) (bound : ℤ) (es : List Entry) (i : ℤ)
    → i ≤ℤ bound
    → i ≤ℤ pos fuel
    → Backward (suc fuel) bound es i
Backward-loop zero bound es i lo hi =
    Backward-round zero bound es i lo λ l u. absurd (omega (arith, l, hi, +ℤ_parts i (negsuc 0)))
Backward-loop (suc fuel) bound es i lo hi =
    Backward-round (suc fuel) bound es i lo λ l u.
      Backward-loop fuel bound es (i +ℤ negsuc 0) u (omega (arith, hi, +ℤ_parts i (negsuc 0)))
