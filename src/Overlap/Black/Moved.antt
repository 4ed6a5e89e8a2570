-- ===== src/Overlap/Black/Moved.antt =====
-- The moves of checkBlacklineOnmark and checkBlackFrameOnMarks.
use noad.Prelude.{
  ℕ, suc, ◌+◌, ◌<◌, ◌≡◌, refl, ◌∙◌, sym, ap, arith, Bool, true, false, Option, none, some, ltb,
  if◌then◌else◌, if_rule, inl, inr, ◌⊎◌, List,
}
use noad.Prelude.Int.{ℤ, pos, negsuc, ◌-ℤ◌, ltb_ℤ, leb_ℤ, ◌≤ℤ◌, ◌<ℤ◌}
use noad.IndexFile.{IndexFile, Entry, next_i_frame, scan_bound}
use noad.IndexFile.Scan.{NextIFrame}
use noad.IndexFile.NextFrame.{next_i_frame_ends, next_i_frame-forward}
use noad.Search.LogoChange.{int_of}
use noad.Marks.{Mark}
use noad.Marks.Session.{Session, move_mark}
use noad.Marks.Session.Invariant.{IsValid}
use noad.Marks.Session.Toggle.{move_mark-IsValid}
use noad.Overlap.{PicInfo}
use noad.Overlap.Moves.{Moves}
use noad.Overlap.Black.{
  BlackLines, back_loop, black_line_move, check_blackline_onmark, best_black,
  check_black_frame_on_marks,
}
use noad.Overlap.Black.Stops.{StopsAt, back_loop-stops}
use noad.Overlap.Black.Chosen.{BlackChoice, best_black-BlackChoice}

-- The mark is moved to a frame.
abbrev pub MovedTo : Moves → Mark → Session → ℤ → Session → Type 0
MovedTo x m t i r = r ≡ move_mark x.mark_comments m i (x.new_comment m i) t

-- What is done at the place where the loop stops.
pub data LineMove (x : Moves) (s : IndexFile) (es : List Entry) (pics : ℕ → PicInfo) (m : Mark)
    (t : Session) (stop : ℤ) (r : Session) : Type 0 where
  at_front : stop ≤ℤ pos 1 → r ≡ t → LineMove x s es pics m t stop r
  no_frame :
      (k : ℕ)
      → stop ≡ pos k
      → 1 < k
      → NextIFrame es (pics (k + 5)).framenum (scan_bound s true true) none
      → r ≡ t
      → LineMove x s es pics m t stop r
  moved :
      (k : ℕ) (i : ℤ)
      → stop ≡ pos k
      → 1 < k
      → NextIFrame es (pics (k + 5)).framenum (scan_bound s true true) (some i)
      → MovedTo x m t i r
      → LineMove x s es pics m t stop r

module _ (x : Moves) (s : IndexFile) (es : List Entry) (n : ℕ) (pics : ℕ → PicInfo) (num : ℕ)
    (m : Mark) (t : Session) (index_is : s.index ≡ some es) (few : s.last ≤ℤ pos n)
    (rounds_are : x.rounds ≡ suc n) (valid : IsValid t.marks) where
  frame_behind : (i : ℤ) → (r : Option ℤ) × (next_i_frame x.rounds s i true true ≡ some r)
  frame_behind i =
      let (r, at) = next_i_frame_ends s es i true true n index_is few in
      (r, ap (λ k. next_i_frame k s i true true) rounds_are ∙ at)

  abbrev place : ℕ → ℤ
  place k = (pics (k + 5)).framenum

  abbrev LineMoves : ℤ → Option Session → Type 0
  LineMoves stop o =
      (r : Session) × (o ≡ some r) × IsValid r.marks × LineMove x s es pics m t stop r

  frame-LineMoves :
      (k : ℕ) (o : Option ℤ)
      → 1 < k
      → pos 0 ≤ℤ place k
      → NextIFrame es (place k) (scan_bound s true true) o
      → LineMoves (pos k) (
          if leb_ℤ (place k) (int_of o)
          then some (move_mark x.mark_comments m (int_of o) (x.new_comment m (int_of o)) t)
          else some t)
  frame-LineMoves k none on lo next =
      if_rule (LineMoves (pos k)) (leb_ℤ (place k) (negsuc 0))
        (λ behind. absurd (ground (arith, behind, lo)))
        (λ _. (t, refl, valid, no_frame k refl on next refl))
  frame-LineMoves k (some i) on lo next =
      if_rule (LineMoves (pos k)) (leb_ℤ (place k) i)
        (λ _. (
          _,
          refl,
          (move_mark-IsValid x.mark_comments m i (x.new_comment m i) t valid).0,
          moved k i refl on next refl,
        ))
        (λ before. absurd (ground (arith, before, next.0)))

  black_line_move-LineMoves :
      (stop : ℤ)
      → ((k : ℕ) → stop ≡ pos k → pos 0 ≤ℤ place k)
      → LineMoves stop (black_line_move x s pics m t stop)
  unfolding black_line_move
  black_line_move-LineMoves (negsuc k) placed = (t, refl, valid, at_front (omega arith) refl)
  black_line_move-LineMoves (pos k) placed =
      let (o, at, next) =
        next_i_frame-forward s es (place k) true n index_is (omega (arith, placed k refl)) few in
      let at' : next_i_frame x.rounds s (place k) true true ≡ some o =
        ap (λ k'. next_i_frame k' s (place k) true true) rounds_are ∙ at in
      if_rule (LineMoves (pos k)) (ltb 1 k)
        (λ on. rw at' (frame-LineMoves k o (ground (arith, on)) (placed k refl) next))
        (λ off. (t, refl, valid, at_front (ground (arith, off)) refl))

  -- With an index, from marks in order with distinct positions and addresses,
  -- checkBlacklineOnmark ends and keeps them so. Going back it stops at the front or before the
  -- last ten pictures on end without the black lines, where the entry one behind the pictures
  -- counts too. With a stop at 1 or before, or without an I frame behind the picture that stands
  -- five behind the stop and before the bound of GetNextIFrame, it leaves the marks as they are;
  -- otherwise it moves the mark to the nearest such I frame. The frame number of that picture
  -- must not be negative.
  pub check_blackline_onmark-Moved :
      (b : BlackLines)
      → ((k : ℕ) → back_loop b pics 0 num ≡ pos k → pos 0 ≤ℤ (pics (k + 5)).framenum)
      → let stop = back_loop b pics 0 num in
        (r : Session) × (check_blackline_onmark x s b pics num m t ≡ some r)
        × StopsAt b pics num stop
        × IsValid r.marks
        × LineMove x s es pics m t stop r
  unfolding check_blackline_onmark
  check_blackline_onmark-Moved b placed =
      let (r, at, v, h) = black_line_move-LineMoves (back_loop b pics 0 num) placed in
      (r, at, back_loop-stops b pics num, v, h)

  -- What is done with the black frame.
  abbrev FrameMoves : ℤ → Option (Session × Bool) → Type 0
  FrameMoves best o =
      (r : Session × Bool) × (o ≡ some r)
      × (r.1 ≡ ltb_ℤ (pos 1) best)
      × IsValid r.0.marks
      × ((r.0 ≡ t) ⊎ ((i : ℤ) × (pos 1 <ℤ best) × (pos 0 <ℤ i) × MovedTo x m t i r.0))

  -- With an index, from marks in order with distinct positions and addresses,
  -- checkBlackFrameOnMarks without the detection of scenes ends and keeps them so; where the mark
  -- is among the pictures it chooses the nearest black frame, other than frame 0, of the 45
  -- seconds before it, and otherwise none; it returns whether it has chosen one behind frame 1,
  -- and only then moves the mark, to a frame behind 0.
  pub check_black_frame_on_marks-Moved :
      (rate : ℕ)
      → let best = best_black rate pics num m in
        BlackChoice rate pics num m best
        × FrameMoves best (check_black_frame_on_marks x s rate pics num m t)
  unfolding check_black_frame_on_marks
  check_black_frame_on_marks-Moved rate =
      let best = best_black rate pics num m in
      let (o, at) = frame_behind (best -ℤ pos 1) in
      (
        best_black-BlackChoice rate pics num m,
        if_rule (FrameMoves best) (ltb_ℤ (pos 1) best)
            (λ on. rw at (
              if_rule (FrameMoves best) (ltb_ℤ (pos 0) (int_of o))
                (λ there. (
                  _,
                  refl,
                  sym on,
                  (move_mark-IsValid x.mark_comments m (int_of o) (x.new_comment m (int_of o)) t
                      valid).0,
                  inr (int_of o, ground (arith, on), ground (arith, there), refl),
                ))
                (λ _. ((t, true), refl, sym on, valid, inl refl))))
            (λ off. ((t, false), refl, sym off, valid, inl refl)),
      )
