-- ===== src/IndexFile/NextFrame.antt =====
-- GetNextIFrame of cIndexFile and cNoadIndexFile.
use noad.Prelude.{
  ℕ, suc, ◌≡◌, arith, Bool, true, false, ◌&&◌, Bool-cases, inl, inr, Option, none, some, List,
}
use noad.Prelude.Int.{ℤ, pos, negsuc, ◌+ℤ◌, ◌-ℤ◌, leb_ℤ, ltb_ℤ, ◌≤ℤ◌, +ℤ_parts}
use noad.IndexFile.{Entry, IndexFile, scan_bound, next_i_frame}
use noad.IndexFile.Scan.{NextIFrame, PrevIFrame, i_frame_loop_out, Forward-loop, Backward-loop}

pub scan_bound-le : (s : IndexFile) (f g : Bool) → scan_bound s f g ≤ℤ s.last
unfolding scan_bound ◌-ℤ◌
scan_bound-le s f g = ground arith

scan_bound-eq : (s : IndexFile) (g : Bool) → s.last ≤ℤ scan_bound s false g
unfolding scan_bound ◌-ℤ◌
scan_bound-eq s g = ground arith

-- Behind the last entry the loop does not start.
behind_bound :
    (s : IndexFile) (i : ℤ) (g : Bool)
    → leb_ℤ i s.last ≡ false
    → (leb_ℤ (pos 0) (i +ℤ negsuc 0) && ltb_ℤ (i +ℤ negsuc 0) (scan_bound s false g)) ≡ false
unfolding scan_bound ◌-ℤ◌ ◌+ℤ◌
behind_bound s i g gt = ground (arith, gt)

-- With an index, going forward from -1 or later, with fuel for the number of entries,
-- GetNextIFrame ends and returns the nearest I frame behind the start and before the bound, and
-- -1 if there is none.
pub next_i_frame-forward :
    (s : IndexFile) (es : List Entry) (i : ℤ) (stay : Bool) (fuel : ℕ)
    → s.index ≡ some es
    → negsuc 0 ≤ℤ i
    → s.last ≤ℤ pos fuel
    → (r : Option ℤ) × (next_i_frame (suc fuel) s i true stay ≡ some r)
      × NextIFrame es i (scan_bound s true stay) r
unfolding next_i_frame
next_i_frame-forward s es i stay fuel e lo hi = rw e (
    Forward-loop fuel (scan_bound s true stay) es i lo
      (omega (arith, lo, hi, scan_bound-le s true stay, +ℤ_parts i (pos (suc fuel)))))

-- With an index, going back from no later than the last entry, with fuel for the start,
-- GetNextIFrame ends and returns the nearest I frame before the start, and -1 if there is none.
pub next_i_frame-backward :
    (s : IndexFile) (es : List Entry) (i : ℤ) (stay : Bool) (fuel : ℕ)
    → s.index ≡ some es
    → i ≤ℤ s.last
    → i ≤ℤ pos fuel
    → (r : Option ℤ) × (next_i_frame (suc fuel) s i false stay ≡ some r) × PrevIFrame es i r
unfolding next_i_frame
next_i_frame-backward s es i stay fuel e lo hi =
    rw e (
      Backward-loop fuel (scan_bound s false stay) es i (omega (arith, lo, scan_bound-eq s stay))
        hi)

-- Going back, GetNextIFrame ends from wherever it starts.
pub next_i_frame_back :
    (s : IndexFile) (es : List Entry) (i : ℤ) (stay : Bool) (fuel : ℕ)
    → s.index ≡ some es
    → s.last ≤ℤ pos fuel
    → (r : Option ℤ) × (next_i_frame (suc fuel) s i false stay ≡ some r)
unfolding next_i_frame
next_i_frame_back s es i stay fuel e hi = elim (Bool-cases (leb_ℤ i s.last)) [
  | inl le ↦
      let lo : i ≤ℤ s.last = ground (arith, le) in
      let (r, go, _) = next_i_frame-backward s es i stay fuel e lo (omega (arith, lo, hi)) in
      (r, go)
  | inr gt ↦ (
    none,
    rw e (
        i_frame_loop_out fuel (negsuc 0) (scan_bound s false stay) es i (behind_bound s i stay gt)),
  )
]

before_start :
    (s : IndexFile) (i : ℤ) (g : Bool)
    → leb_ℤ (negsuc 0) i ≡ false
    → (leb_ℤ (pos 0) (i +ℤ pos 1) && ltb_ℤ (i +ℤ pos 1) (scan_bound s true g)) ≡ false
unfolding ◌+ℤ◌
before_start s i g gt = ground (arith, gt)

-- In both directions GetNextIFrame ends from wherever it starts.
pub next_i_frame_ends :
    (s : IndexFile) (es : List Entry) (i : ℤ) (forward stay : Bool) (fuel : ℕ)
    → s.index ≡ some es
    → s.last ≤ℤ pos fuel
    → (r : Option ℤ) × (next_i_frame (suc fuel) s i forward stay ≡ some r)
unfolding next_i_frame
next_i_frame_ends s es i false stay fuel e hi = next_i_frame_back s es i stay fuel e hi
next_i_frame_ends s es i true stay fuel e hi = elim (Bool-cases (leb_ℤ (negsuc 0) i)) [
  | inl le ↦
      let (r, go, _) = next_i_frame-forward s es i stay fuel e (ground (arith, le)) hi in (r, go)
  | inr gt ↦ (
    none,
    rw e (i_frame_loop_out fuel (pos 1) (scan_bound s true stay) es i (before_start s i stay gt)),
  )
]
