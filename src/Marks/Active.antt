-- ===== src/Marks/Active.antt =====
-- cMarks::getActiveFrames against the sum of the parts between an opening and a closing mark.
use noad.Prelude.{
  ◌≡◌, refl, arith, Bool, false, List, [], ◌∷◌, if◌then◌else◌, ◌∙◌, ap, Bool-cases, inl, inr,
}
use noad.Prelude.Int.{ℤ, pos, negsuc, ◌+ℤ◌, ◌-ℤ◌, ◌≤ℤ◌, eqb_ℤ, int_laws}
use noad.Marks.{Mark, active_loop, active_from, get_active_frames, suffix_after}
use noad.Marks.Sorting.{AllFrom}

-- From an opening mark at `start` on: up to the closing mark, or to the end if there is none.
active_part : ℤ → ℤ → List Mark → ℤ
active_part total start [] = total -ℤ start
active_part total start (m ∷ []) = m.position -ℤ start
active_part total start (m ∷ n ∷ ms) = (m.position -ℤ start) +ℤ active_part total n.position ms

pub active_frames : ℤ → List Mark → ℤ
unfolding active_part
active_frames total [] = pos 0
active_frames total (m ∷ ms) = active_part total m.position ms

+ℤ-assoc_right : (a b c : ℤ) → a +ℤ b +ℤ c ≡ a +ℤ (b +ℤ c)
+ℤ-assoc_right a b c = omega int_laws

zero-+ℤ : (a : ℤ) → pos 0 +ℤ a ≡ a
zero-+ℤ a = omega int_laws

active_loop-eq :
    (total ret last : ℤ) (ms : List Mark)
    → pos 1 ≤ℤ last
    → AllFrom (pos 1) ms
    → active_loop total ret last ms ≡ ret +ℤ active_part total last ms
unfolding active_loop active_part
active_loop-eq total ret last [] h k = ground arith
active_loop-eq total ret last (m ∷ []) h k = refl
active_loop-eq total ret last (m ∷ n ∷ ms) h k =
    active_loop-eq total (ret +ℤ (m.position -ℤ last)) n.position ms k.1.0 k.1.1
    ∙ +ℤ-assoc_right ret (m.position -ℤ last) (active_part total n.position ms)

-- The loop may start at frame 0 if a closing mark follows.
active_loop-eq_closed :
    (total last : ℤ) (m : Mark) (ms : List Mark)
    → AllFrom (pos 1) (m ∷ ms)
    → active_loop total (pos 0) last (m ∷ ms) ≡ pos 0 +ℤ active_part total last (m ∷ ms)
unfolding active_loop active_part
active_loop-eq_closed total last m [] k = refl
active_loop-eq_closed total last m (n ∷ ms) k =
    active_loop-eq total (pos 0 +ℤ (m.position -ℤ last)) n.position ms k.1.0 k.1.1
    ∙ +ℤ-assoc_right (pos 0) (m.position -ℤ last) (active_part total n.position ms)

-- One opening mark at frame 0 that is never closed.
abbrev pub is_open_from_start : List Mark → Bool
is_open_from_start [] = false
is_open_from_start (m ∷ []) = eqb_ℤ m.position (pos 0)
is_open_from_start (m ∷ n ∷ ms) = false

suffix_after_all : (ms : List Mark) → AllFrom (pos 0) ms → suffix_after (negsuc 0) ms ≡ ms
unfolding suffix_after
suffix_after_all [] h = refl
suffix_after_all (m ∷ ms) h = ground arith

active_from-eq :
    (total : ℤ) (ms : List Mark) (m : Mark)
    → pos 0 ≤ℤ m.position
    → AllFrom (pos 1) ms
    → active_from total (m ∷ ms)
      ≡ (if is_open_from_start (m ∷ ms) then pos 0 else active_frames total (m ∷ ms))
unfolding active_from active_frames active_part
active_from-eq total [] m h k = elim (Bool-cases (eqb_ℤ m.position (pos 0))) [
  | inl z ↦ rw z refl
  | inr nz ↦ rw nz (zero-+ℤ (total -ℤ m.position))
]
active_from-eq total (n ∷ ms) m h k =
    active_loop-eq_closed total m.position n ms k ∙ zero-+ℤ (active_part total m.position (n ∷ ms))

-- Where no position is negative and only the first can be 0, getActiveFrames is the number of
-- frames between the opening and the closing marks, the last part up to the end if it is open;
-- but for one open mark at frame 0 alone it is 0.
pub get_active_frames-eq :
    (total : ℤ) (m : Mark) (ms : List Mark)
    → AllFrom (pos 0) (m ∷ ms)
    → AllFrom (pos 1) ms
    → get_active_frames total (m ∷ ms)
      ≡ (if is_open_from_start (m ∷ ms) then pos 0 else active_frames total (m ∷ ms))
unfolding get_active_frames
get_active_frames-eq total m ms h k =
    ap (active_from total) (suffix_after_all (m ∷ ms) h) ∙ active_from-eq total ms m h.0 k
