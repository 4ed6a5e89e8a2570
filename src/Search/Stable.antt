-- ===== src/Search/Stable.antt =====
-- checkLogoState: what its result says of the pictures.
use noad.Prelude.{
  ℕ, zero, suc, ◌+◌, ◌≤◌, ◌<◌, ◌≡◌, ◌≢◌, refl, sym, subst, arith, Bool, true, false, some, ltb,
  if◌then◌else◌, if_rule, Bool-cases, inl, inr, ◌⊎◌,
}
use noad.Prelude.Int.{pos, ltb_ℤ, ◌<ℤ◌}
use noad.IndexFile.{IndexFile, Frame, noad_get}
use noad.Search.{Machine, Search, independent_at, show_picture, check_round, check_loop, same}

-- The state after some rounds.
unfoldable pub rounds : {S : Type 0} → Machine S → IndexFile → ℕ → ℕ → Bool → Search S → Search S
rounds m s zero current reset v = v
rounds m s (suc k) current reset v =
    rounds m s k (current + 1) false (check_round m s current reset v)

-- Get finds every frame before the last entry.
abbrev pub IsComplete : IndexFile → Type 0
IsComplete s = (i : ℕ) → pos i <ℤ s.last → (f : Frame) × (noad_get s (pos i) ≡ some f)

abbrev pub is_i : IndexFile → ℕ → Bool
is_i s i = independent_at s i false

-- `i` is the last I frame up to `j`, and not before `b`.
abbrev pub IsLastI : IndexFile → ℕ → ℕ → ℕ → Type 0
IsLastI s b i j =
    (b ≤ i) × (i ≤ j) × (is_i s i ≡ true) × ((k : ℕ) → i < k → k ≤ j → is_i s k ≡ false)

module _ {S : Type 0} (m : Machine S) (s : IndexFile) (state : Bool) where
  -- The verdict on the picture of a round.
  abbrev pub shown : ℕ → ℕ → Bool → Search S → Bool
  shown k current reset v = m.is_logo (rounds m s (suc k) current reset v).machine

  abbrev pub Until : ℕ → ℕ → Bool → Search S → Type 0
  Until n current reset v =
      (k : ℕ) → k < n → pos (current + k) <ℤ s.last → shown k current reset v ≡ state

  -- What the loop says from `current` on, where `b` is the first frame of all.
  pub data Checked (b n current : ℕ) (reset : Bool) (v : Search S) (r : ℕ) : Type 0 where
    stable : r ≡ 0 → Until n current reset v → Checked b n current reset v r
    lost :
        (k : ℕ)
        → k < n
        → pos (current + k) <ℤ s.last
        → Until k current reset v
        → shown k current reset v ≢ state
        → IsLastI s b r (current + k)
        → Checked b n current reset v r

  pub same-true : (a c : Bool) → same a c ≡ true → c ≡ a
  same-true true c e = e
  same-true false true e = absurd cc
  same-true false false e = refl

  pub same-false : (a c : Bool) → same a c ≡ false → c ≢ a
  same-false true true e f = cc
  same-false true false e f = cc
  same-false false true e f = cc
  same-false false false e f = cc

  independent-eq :
      IsComplete s → (i : ℕ) (old : Bool) → pos i <ℤ s.last → independent_at s i old ≡ is_i s i
  unfolding independent_at
  independent-eq whole i old h = let (f, e) = whole i h in rw (independent_at, e) refl

  -- The last I frame, up to `current`.
  abbrev pub Before : ℕ → ℕ → ℕ → Type 0
  Before b current last_i =
      (is_i s current ≡ true)
      ⊎ ((b ≤ last_i)
          × (last_i < current)
          × (is_i s last_i ≡ true)
          × ((k : ℕ) → last_i < k → k < current → is_i s k ≡ false))

  last_of :
      (b current last_i : ℕ)
      → b ≤ current
      → Before b current last_i
      → IsLastI s b (if is_i s current then current else last_i) current
  last_of b current last_i h p =
      if_rule (λ i. IsLastI s b i current) (is_i s current)
        (λ on. (h, omega arith, on, λ k lo hi. absurd (omega arith)))
        (λ off. elim p [
          | inl on ↦ absurd cc
          | inr (q0, q1, q2, q3) ↦ (
            q0,
            omega arith,
            q2,
            λ k lo hi. elim (Bool-cases (ltb k current)) [
              | inl below ↦ q3 k lo (ground (arith, below))
              | inr at ↦
                  let e : current ≡ k = ground (arith, at, hi) in
                  subst (λ j. is_i s j ≡ false) e off
            ],
          )
        ])

  next-Before : (b current last_i : ℕ) → IsLastI s b last_i current → Before b (current + 1) last_i
  next-Before b current last_i (h0, h1, h2, h3) =
      inr (h0, omega arith, h2, λ k lo hi. h3 k lo (omega arith))

  Until-suc :
      (n current : ℕ) (reset : Bool) (v : Search S)
      → shown 0 current reset v ≡ state
      → Until n (current + 1) false (check_round m s current reset v)
      → Until (suc n) current reset v
  unfolding rounds
  Until-suc n current reset v e u zero h l = e
  Until-suc n current reset v e u (suc k) h l = u k (omega arith) (omega (arith, l))

  -- The first picture is as it should be.
  Checked-suc :
      (b n current : ℕ) (reset : Bool) (v : Search S) (r : ℕ)
      → shown 0 current reset v ≡ state
      → Checked b n (current + 1) false (check_round m s current reset v) r
      → Checked b (suc n) current reset v r
  unfolding rounds
  Checked-suc b n current reset v r e (stable z u) = stable z (Until-suc n current reset v e u)
  Checked-suc b n current reset v r e (lost k h l u d i) =
      lost (suc k) (omega arith) (omega (arith, l)) (Until-suc k current reset v e u) d
        (subst (IsLastI s b r) (omega arith) i)

  last_round :
      (b current last_i : ℕ) (reset : Bool) (v : Search S)
      → b ≤ current
      → Before b current last_i
      → IsComplete s
      → pos current <ℤ s.last
      → IsLastI s b
          (if (check_round m s current reset v).independent then current else last_i)
          current
  unfolding check_round show_picture
  last_round b current last_i reset v h p whole l =
      subst (λ c. IsLastI s b (if c then current else last_i) current)
        (sym (independent-eq whole current v.independent l)) (last_of b current last_i h p)

  pub check_loop-Checked :
      (n b current : ℕ) (reset : Bool) (last_i : ℕ) (v : Search S)
      → IsComplete s
      → b ≤ current
      → Before b current last_i
      → Checked b n current reset v (check_loop m s state n current reset last_i v).0
  unfolding check_loop rounds
  check_loop-Checked zero b current reset last_i v whole h p =
      stable refl (λ k l. absurd (omega arith))
  check_loop-Checked (suc n) b current reset last_i v whole h p =
      let w = check_round m s current reset v in
      let last = if w.independent then current else last_i in
      if_rule (λ (r : ℕ × Search S). Checked b (suc n) current reset v r.0)
        (ltb_ℤ (pos current) s.last)
        (λ there.
          let i = last_round b current last_i reset v h p whole (ground (arith, there)) in
          if_rule (λ (r : ℕ × Search S). Checked b (suc n) current reset v r.0)
            (same state (m.is_logo w.machine))
            (λ ok. Checked-suc b n current reset v _ (same-true state (m.is_logo w.machine) ok) (
              check_loop-Checked n b (current + 1) false last w whole (omega arith)
                (next-Before b current last i)))
            (λ differ.
              lost 0 (omega arith) (ground (arith, there)) (λ k l. absurd (omega arith))
                (same-false state (m.is_logo w.machine) differ)
                (subst (IsLastI s b last) (omega arith) i)))
        (λ past. stable refl (λ k l g. absurd (ground (arith, past, g))))

  -- With the result 0 the last verdict is the state.
  pub check_loop_final :
      (n b current : ℕ) (reset : Bool) (last_i : ℕ) (v : Search S)
      → IsComplete s
      → 0 < b
      → b ≤ current
      → Before b current last_i
      → m.is_logo v.machine ≡ state
      → let r = check_loop m s state n current reset last_i v in
        r.0 ≡ 0 → m.is_logo r.1.machine ≡ state
  unfolding check_loop
  check_loop_final zero b current reset last_i v whole z h p e = λ _. e
  check_loop_final (suc n) b current reset last_i v whole z h p e =
      let w = check_round m s current reset v in
      let last = if w.independent then current else last_i in
      if_rule (λ (r : ℕ × Search S). r.0 ≡ 0 → m.is_logo r.1.machine ≡ state)
        (ltb_ℤ (pos current) s.last)
        (λ there.
          let i = last_round b current last_i reset v h p whole (ground (arith, there)) in
          if_rule (λ (r : ℕ × Search S). r.0 ≡ 0 → m.is_logo r.1.machine ≡ state)
            (same state (m.is_logo w.machine))
            (λ ok.
              check_loop_final n b (current + 1) false last w whole z (omega arith)
                (next-Before b current last i) (same-true state (m.is_logo w.machine) ok))
            (λ differ e. absurd (omega (arith, i.0, z, e))))
        (λ past _. e)
