-- ===== src/Search/LogoChange/Ends.antt =====
-- findLogoChange ends, and what its answers mean.
use noad.Prelude.{
  ℕ, zero, suc, ◌+◌, ◌≤◌, ◌<◌, ◌≡◌, ◌≢◌, refl, ◌∙◌, ap, subst, arith, Bool, true, false, Option,
  none, some, ◌&&◌, ◌==◌, ltb, if◌then◌else◌, if_rule, elim_rule, Bool-cases, inl, inr, ◌⊎◌, List,
  length,
}
use noad.Prelude.Int.{
  ℤ, pos, negsuc, ltb_ℤ, leb_ℤ, eqb_ℤ, ◌≤ℤ◌, ◌<ℤ◌, ◌+ℤ◌, ◌-ℤ◌, +ℤ_parts, -ℤ_parts,
}
use noad.IndexFile.{IndexFile, Entry, next_i_frame, scan_bound}
use noad.IndexFile.Scan.{NextIFrame}
use noad.IndexFile.NextFrame.{next_i_frame-forward}
use noad.Search.{Machine, Search, check_logo_state}
use noad.Search.Stable.{stable, lost}
use noad.Search.LogoState.{Stated, no_start, started, Answered, check_logo_state-Answered}
use noad.Search.LogoChange.{
  int_of, block_loop, Plan, Change, Next, answered, frame_at, int_of_state, skip_frames, verdict_at,
  judge, change_round, run_out, change_loop,
}
use noad.Search.LogoChange.Block.{block_loop-BlockEnd}

-- From a state in which the logo has turned, checkLogoState answers 0, and what it leaves is what
-- the answer leaves.
pub record HasStayed {S : Type 0} (m : Machine S) (s : IndexFile) (es : List Entry) (p : Plan)
    (logo : Bool) (c : ℕ) (r : Change S) : Type 0 where
  pub before : Search S
  pub after : Search S
  pub turned_before : m.is_logo before.machine ≡ logo
  pub checked : Answered m s es logo (pos c) p.repeat before (0, after)
  pub left : r.search.machine ≡ after.machine

-- What an answer means, for a search from `start` on.
pub data Means {S : Type 0} (m : Machine S) (s : IndexFile) (es : List Entry) (p : Plan) (start : ℕ)
    (r : Change S) : Type 0 where
  -- The recording ends, and the state is the old one.
  kept :
      r.answer ≡ p.state
      → s.last ≤ℤ r.frame +ℤ pos p.skip
      → pos start ≤ℤ r.frame
      → Means m s es p start r
  -- No frame is left.
  run_off :
      r.answer ≡ negsuc 0
      → (r.frame <ℤ pos 0) ⊎ ((s.last ≤ℤ r.frame) × (pos start ≤ℤ r.frame))
      → Means m s es p start r
  -- The end of the search is passed.
  overdue :
      r.answer ≡ negsuc 1
      → p.end_frame ≤ℤ r.frame
      → (r.frame <ℤ pos 0) ⊎ (pos start ≤ℤ r.frame)
      → Means m s es p start r
  -- The logo has come or gone, and stays so for as long as was asked.
  turned :
      (logo : Bool) (c : ℕ)
      → r.answer ≡ int_of_state logo
      → p.state ≢ int_of_state logo
      → r.frame ≡ pos c
      → start < c
      → (p.repeat ≡ 0) ⊎ HasStayed m s es p logo c r
      → Means m s es p start r

pub Means_mono :
    {S : Type 0} (m : Machine S) (s : IndexFile) (es : List Entry) (p : Plan) (a b : ℕ)
    (r : Change S)
    → a ≤ b
    → Means m s es p b r
    → Means m s es p a r
Means_mono m s es p a b r h (kept e l f) = kept e l (omega (arith, h, f))
Means_mono m s es p a b r h (run_off e (inl n)) = run_off e (inl n)
Means_mono m s es p a b r h (run_off e (inr (l, f))) = run_off e (inr (l, omega (arith, h, f)))
Means_mono m s es p a b r h (overdue e l (inl n)) = overdue e l (inl n)
Means_mono m s es p a b r h (overdue e l (inr f)) = overdue e l (inr (omega (arith, h, f)))
Means_mono m s es p a b r h (turned logo c e d f l w) = turned logo c e d f (omega arith) w

-- A round is fine if its answer is, or the next frame is none or further on.
abbrev Fine : {S : Type 0} → Machine S → IndexFile → List Entry → Plan → ℕ → Next S → Type 0
Fine m s es p c (answered r) = Means m s es p c r
Fine m s es p c (frame_at cur reset w) = (cur <ℤ pos 0) ⊎ (pos (suc c) ≤ℤ cur)

module _ {S : Type 0} (m : Machine S) (s : IndexFile) (es : List Entry) (p : Plan) (n : ℕ)
    (index_is : s.index ≡ some es) (held : s.last <ℤ pos (length es)) (few : s.last ≤ℤ pos n)
    (rounds_are : p.rounds ≡ suc n) where
  abbrev IsFine : ℕ → Option (Next S) → Type 0
  IsFine c o = (x : Next S) × (o ≡ some x) × Fine m s es p c x

  pub next_frame :
      (i : ℤ)
      → negsuc 0 ≤ℤ i
      → (o : Option ℤ) × (next_i_frame p.rounds s i true true ≡ some o)
        × ((int_of o <ℤ pos 0) ⊎ (i <ℤ int_of o))
  next_frame i lo =
      let (o, at, next) = next_i_frame-forward s es i true n index_is lo few in
      (o, ap (λ k. next_i_frame k s i true true) rounds_are ∙ at, after o next)
    where
      after :
          (o : Option ℤ)
          → NextIFrame es i (scan_bound s true true) o
          → (int_of o <ℤ pos 0) ⊎ (i <ℤ int_of o)
      after none h = inl (omega arith)
      after (some j) h = inr h.0

  skip_frames-IsFine :
      (c : ℕ) (cur : ℤ) (reset : Bool) (v : Search S)
      → pos (suc c) ≤ℤ cur +ℤ pos p.skip
      → (s.last ≤ℤ cur +ℤ pos p.skip → pos c ≤ℤ cur)
      → (ltb 1 p.skip ≡ false → pos (suc c) ≤ℤ cur)
      → IsFine c (skip_frames m s p cur reset v)
  unfolding skip_frames
  skip_frames-IsFine c cur reset v far at_end near =
      if_rule (IsFine c) (leb_ℤ s.last (cur +ℤ pos p.skip))
        (λ past. (_, refl, kept refl (ground (arith, past)) (at_end (ground (arith, past)))))
        (λ before.
          if_rule (IsFine c) (ltb 1 p.skip)
            (λ wide.
              let (o, at, f) = next_frame (cur +ℤ pos p.skip) (omega (arith, far)) in
              rw at (
                _,
                refl,
                elim f [ inl none_left ↦ inl none_left | inr on ↦ inr (omega (arith, far, on)) ],
              ))
            (λ small. (frame_at cur reset v, refl, inr (near small))))

  -- The test of the verdict against the state.
  state_differs :
      (logo : Bool) → eqb_ℤ p.state (int_of_state logo) ≡ false → p.state ≢ int_of_state logo
  state_differs logo off e = ground (arith, off, e)

  -- The last I frame before a loss stands behind the block and before the end.
  lost_at :
      (logo : Bool) (c : ℕ) (v : Search S) (r : ℕ)
      → Stated m s es logo (pos c) p.repeat v r
      → 0 < r
      → (c < r) × (pos r <ℤ s.last)
  lost_at logo c v r (no_start z _) h = absurd (omega arith)
  lost_at logo c v r (started j l (stable z u)) h = absurd (omega arith)
  lost_at logo c v r (started j l (lost k a b u d (i0, i1, i2, i3))) h =
      (omega (arith, l.0, i0), omega (arith, b, i1))

  small_skip : ltb 1 p.skip ≡ false → p.skip ≤ 1
  small_skip e = ground (arith, e)

  back_and_on : (r : ℕ) → pos r ≤ℤ pos r -ℤ pos p.skip +ℤ pos p.skip
  back_and_on r =
      omega (arith, -ℤ_parts (pos r) (pos p.skip), +ℤ_parts (pos r -ℤ pos p.skip) (pos p.skip))

  on_and_back : (r : ℕ) → pos r -ℤ pos p.skip +ℤ pos p.skip ≤ℤ pos r
  on_and_back r =
      omega (arith, -ℤ_parts (pos r) (pos p.skip), +ℤ_parts (pos r -ℤ pos p.skip) (pos p.skip))

  -- Behind checkLogoState.
  check-IsFine :
      (start c : ℕ) (v : Search S) (r : ℕ × Search S)
      → start < c
      → p.state ≢ int_of_state (m.is_logo v.machine)
      → Answered m s es (m.is_logo v.machine) (pos c) p.repeat v r
      → IsFine start (
          if r.0 == 0
          then some (verdict_at m c r.1)
          else skip_frames m s p (pos r.0 -ℤ pos p.skip) true r.1)
  check-IsFine start c v r h d a =
      if_rule (IsFine start) (r.0 == 0)
        (λ z.
          let zero_result : r.0 ≡ 0 = ground (arith, z) in
          let logo = m.is_logo v.machine in
          (
            _,
            refl,
            turned logo c (ap int_of_state (a.final (omega arith) refl zero_result)) d refl h (
                inr (record {
                  before = v;
                  after = r.1;
                  turned_before = refl;
                  checked =
                      subst (λ k. Answered m s es logo (pos c) p.repeat v (k, r.1)) zero_result a;
                  left = refl;
                })),
          ))
        (λ nz.
          let (on, below) = lost_at (m.is_logo v.machine) c v r.0 a.stated (ground (arith, nz)) in
          skip_frames-IsFine start (pos r.0 -ℤ pos p.skip) true r.1
            (omega (arith, back_and_on r.0, on, h))
            (λ e. absurd (omega (arith, e, on_and_back r.0, below)))
            (λ e. omega (arith, small_skip e, -ℤ_parts (pos r.0) (pos p.skip), on, h)))

  judge-IsFine :
      (start c : ℕ) (reset : Bool) (v : Search S) → start < c → IsFine start (judge m s p c reset v)
  unfolding judge
  judge-IsFine start c reset v h =
      let logo = m.is_logo v.machine in
      if_rule (IsFine start) (eqb_ℤ p.state (int_of_state logo))
        (λ ok.
          skip_frames-IsFine start (pos c) reset v (omega (arith, +ℤ_parts (pos c) (pos p.skip)))
            (λ e. omega arith) (λ e. omega arith))
        (λ differ.
          let turned_to = state_differs logo differ in
          if_rule (IsFine start) (p.repeat == 0)
            (λ once. (_, refl, turned logo c refl turned_to refl h (inl (ground (arith, once)))))
            (λ more.
              let (r, at, a) =
                check_logo_state-Answered m s logo es (pos c) p.repeat n v index_is held
                  (omega arith) few in
              let at' : check_logo_state p.rounds m s logo (pos c) p.repeat v ≡ some r =
                ap (λ k. check_logo_state k m s logo (pos c) p.repeat v) rounds_are ∙ at in
              rw at' (check-IsFine start c v r h turned_to a)))

  change_round-IsFine :
      (c : ℕ) (reset : Bool) (v : Search S)
      → ltb_ℤ (pos c) s.last ≡ true
      → IsFine c (change_round m s p c reset v)
  unfolding change_round
  change_round-IsFine c reset v there =
      let w = record v { machine = m.no_checked_frames v.machine } in
      let ((c', reset', u), at, (e0, e1, e2)) =
        block_loop-BlockEnd m s n c reset w (omega (arith, few)) in
      let at' : block_loop p.rounds m s c reset w ≡ some (c', reset', u) =
        ap (λ k. block_loop k m s c reset w) rounds_are ∙ at in
      rw (change_round, at')
        (judge-IsFine c c' reset' u (e2 (omega (arith, m.none_checked v.machine)) there))

  run_out-overdue :
      (cur : ℤ) (v : Search S) → leb_ℤ p.end_frame cur ≡ true → (run_out p cur v).answer ≡ negsuc 1
  unfolding run_out
  run_out-overdue cur v e = ap (λ b. if b then negsuc 1 else negsuc 0) e

  run_out-off :
      (cur : ℤ) (v : Search S) → leb_ℤ p.end_frame cur ≡ false → (run_out p cur v).answer ≡ negsuc 0
  unfolding run_out
  run_out-off cur v e = ap (λ b. if b then negsuc 1 else negsuc 0) e

  pub run_out-below : (start c : ℕ) (v : Search S) → Means m s es p start (run_out p (negsuc c) v)
  unfolding run_out
  run_out-below start c v = elim (Bool-cases (leb_ℤ p.end_frame (negsuc c))) [
    | inl e ↦ overdue (run_out-overdue (negsuc c) v e) (ground (arith, e)) (inl (omega arith))
    | inr e ↦ run_off (run_out-off (negsuc c) v e) (inl (omega arith))
  ]

  run_out-Means :
      (c : ℕ) (v : Search S)
      → ltb_ℤ (pos c) s.last && ltb_ℤ (pos c) p.end_frame ≡ false
      → Means m s es p c (run_out p (pos c) v)
  unfolding run_out
  run_out-Means c v off = elim (Bool-cases (leb_ℤ p.end_frame (pos c))) [
    | inl e ↦ overdue (run_out-overdue (pos c) v e) (ground (arith, e)) (inr (omega arith))
    | inr e ↦ run_off (run_out-off (pos c) v e) (inr (ground (arith, off, e), omega arith))
  ]

  abbrev pub Ended : ℕ → Option (Change S) → Type 0
  Ended c o = (r : Change S) × (o ≡ some r) × Means m s es p c r

  -- Behind a round, where the rest of the loop ends.
  next-Ended :
      (k c : ℕ) (x : Next S)
      → Fine m s es p c x
      → ((c' : ℕ) (reset : Bool) (w : Search S)
          → c < c'
          → Ended c' (change_loop (suc k) m s p (pos c') reset w))
      → Ended c (elim x [
        | answered r ↦ some r
        | frame_at cur reset w ↦ change_loop (suc k) m s p cur reset w
      ])
  unfolding change_loop
  next-Ended k c (answered r) fine ih = (r, refl, fine)
  next-Ended k c (frame_at (negsuc i) reset w) fine ih = (_, refl, run_out-below c i w)
  next-Ended k c (frame_at (pos i) reset w) (inl none_left) ih = absurd (omega arith)
  next-Ended k c (frame_at (pos i) reset w) (inr on) ih =
      let (r, go, means) = ih i reset w (omega (arith, on)) in
      (r, go, Means_mono m s es p c i r (omega (arith, on)) means)

  -- The loop ends.
  pub change_loop-Ended :
      (k c : ℕ) (reset : Bool) (v : Search S)
      → s.last ≤ℤ pos (c + k)
      → Ended c (change_loop (suc k) m s p (pos c) reset v)
  unfolding change_loop
  change_loop-Ended zero c reset v h =
      elim_rule (Ended c) (ltb_ℤ (pos c) s.last && ltb_ℤ (pos c) p.end_frame)
        (λ on. absurd (ground (arith, on, h))) (λ off. (_, refl, run_out-Means c v off))
  change_loop-Ended (suc k) c reset v h =
      elim_rule (Ended c) (ltb_ℤ (pos c) s.last && ltb_ℤ (pos c) p.end_frame)
        (λ on.
          let (x, at, fine) = change_round-IsFine c reset v (ground (arith, on)) in
          rw at (
            next-Ended k c x fine
              (λ c' reset' w l. change_loop-Ended k c' reset' w (omega (arith, h, l)))))
        (λ off. (_, refl, run_out-Means c v off))
