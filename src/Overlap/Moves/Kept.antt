-- ===== src/Overlap/Moves/Kept.antt =====
-- doOverlapDetection ends, and what it leaves.
use noad.Prelude.{
  ℕ, suc, ◌+◌, ◌≡◌, ◌≢◌, refl, ◌∙◌, ap, ap₂, arith, Bool, true, false, Option, none, some, not,
  ◌&&◌, if_rule, inl, inr, ◌⊎◌, List,
}
use noad.Prelude.Int.{ℤ, pos, negsuc, ltb_ℤ, eqb_ℤ, ◌≤ℤ◌, ◌<ℤ◌}
use noad.IndexFile.{IndexFile, Entry, next_i_frame, scan_bound}
use noad.IndexFile.Scan.{NextIFrame, PrevIFrame}
use noad.IndexFile.NextFrame.{next_i_frame-forward, next_i_frame-backward}
use noad.Search.LogoChange.{int_of}
use noad.Marks.{Mark, get, get_next}
use noad.Marks.Session.{Session, move_mark}
use noad.Marks.Session.Invariant.{IsValid}
use noad.Marks.Session.Toggle.{move_mark-IsValid}
use noad.Overlap.{Pictures, find_overlap}
use noad.Overlap.Moves.{
  Moves, Moved, moves_to, move_first, Outcome, done, null_mark, move_second, move_marks,
  do_overlap_detection,
}

-- A frame to which a mark at a position is moved, and one to which it is not.
abbrev pub IsTarget : ℤ → ℤ → Type 0
IsTarget i position = (pos 0 <ℤ i) × (i ≢ position)

abbrev pub IsNoTarget : ℤ → ℤ → Type 0
IsNoTarget i position = (i ≤ℤ pos 0) ⊎ (i ≡ position)

-- The session behind moveMark.
abbrev pub session_at : Moves → ℤ → Mark → Session → Session
session_at x i m t = move_mark x.mark_comments m i (x.new_comment m i) t

-- What is done with *m at the frame `i`, and m2.
pub data FirstMove (x : Moves) (i : ℤ) (m : Mark) (t : Moved) (r : Moved) (m2 : Option Mark)
    : Type 0 where
  first_moved :
      IsTarget i m.position
      → r.session ≡ session_at x i m t.session
      → r.mark ≡ get i r.session.marks.items
      → r.has_overlaps ≡ true
      → m2 ≡ get_next i r.session.marks.items
      → FirstMove x i m t r m2
  first_stays :
      IsNoTarget i m.position
      → r ≡ t
      → m2 ≡ get_next m.position t.session.marks.items
      → FirstMove x i m t r m2

-- What is done with m2 at the frame `j`.
pub data SecondMove (x : Moves) (j : ℤ) (r : Moved) (m2 : Option Mark) (y : Outcome) : Type 0 where
  second_moved :
      (q : Mark)
      → m2 ≡ some q
      → IsTarget j q.position
      → y ≡ done (record r { session = session_at x j q r.session })
      → SecondMove x j r m2 y
  second_stays :
      (q : Mark) → m2 ≡ some q → IsNoTarget j q.position → y ≡ done r → SecondMove x j r m2 y
  no_frame : m2 ≡ none → j ≤ℤ pos 0 → y ≡ done r → SecondMove x j r m2 y
  null_used : m2 ≡ none → pos 0 <ℤ j → y ≡ null_mark r → SecondMove x j r m2 y

abbrev pub moved_of : Outcome → Moved
moved_of (done r) = r
moved_of (null_mark r) = r

-- The marks are in order, and nothing has moved, or the file is as they are.
abbrev pub Kept : Session → Session → Type 0
Kept t s = IsValid s.marks × ((s ≡ t) ⊎ (s.saved ≡ s.marks.items))

-- The picture that ends the run in front, and the one that ends it behind.
abbrev pub end_before : Pictures → ℤ
end_before p = let o = find_overlap p in (p.before (o.comp_start + o.most_ok)).framenum

abbrev pub end_after : Pictures → ℤ
end_after p = let o = find_overlap p in (p.after (o.cmp_start + o.most_ok)).framenum

-- The two moves, at the I frames next to the ends of the run.
pub record Done (x : Moves) (s : IndexFile) (es : List Entry) (p : Pictures) (m : Mark) (t : Moved)
    (y : Outcome) : Type 0 where
  pub first_frame : Option ℤ
  pub second_frame : Option ℤ
  pub between : Moved
  pub second_mark : Option Mark
  pub nearest_before : PrevIFrame es (end_before p) first_frame
  pub nearest_behind : NextIFrame es (end_after p) (scan_bound s true true) second_frame
  pub first : FirstMove x (int_of first_frame) m t between second_mark
  pub second : SecondMove x (int_of second_frame) between second_mark y
  pub kept : Kept t.session (moved_of y).session

-- How doOverlapDetection ends.
pub data Ends (x : Moves) (s : IndexFile) (es : List Entry) (p : Pictures) (m : Mark) (t : Moved)
    (r : Bool × Option Outcome) : Type 0 where
  none_found : (find_overlap p).pos_found ≡ false → r ≡ (false, some (done t)) → Ends x s es p m t r
  found :
      (y : Outcome)
      → (find_overlap p).pos_found ≡ true
      → r ≡ (true, some y)
      → Done x s es p m t y
      → Ends x s es p m t r

target : (i q : ℤ) → ltb_ℤ (pos 0) i && not (eqb_ℤ i q) ≡ true → IsTarget i q
target i q e = (ground (arith, e), λ z. ground (arith, e, z))

no_target : (i q : ℤ) → ltb_ℤ (pos 0) i && not (eqb_ℤ i q) ≡ false → IsNoTarget i q
no_target i q e = ground (arith, e)

module _ (x : Moves) (s : IndexFile) (es : List Entry) (n : ℕ) (p : Pictures) (m : Mark) (t : Moved)
    (index_is : s.index ≡ some es) (few : s.last ≤ℤ pos n) (rounds_are : x.rounds ≡ suc n)
    (valid : IsValid t.session.marks) where
  First : ℤ → Moved × Option Mark → Type 0
  First i r = FirstMove x i m t r.0 r.1 × Kept t.session r.0.session

  move_first-First : (i : ℤ) → First i (move_first x i m t)
  unfolding move_first First
  move_first-First i =
      if_rule (First i) (moves_to i m)
        (λ on.
          let (v, saved) =
            move_mark-IsValid x.mark_comments m i (x.new_comment m i) t.session valid in
          (first_moved (target i m.position on) refl refl refl refl, (v, inr saved)))
        (λ off. (first_stays (no_target i m.position off) refl refl, (valid, inl refl)))

  Second : ℤ → Moved → Option Mark → Outcome → Type 0
  Second j r m2 y = SecondMove x j r m2 y × Kept t.session (moved_of y).session

  move_second-Second :
      (j : ℤ) (m2 : Option Mark) (r : Moved)
      → Kept t.session r.session
      → Second j r m2 (move_second x j m2 r)
  unfolding move_second Second
  move_second-Second j none r kept =
      if_rule (Second j r none) (ltb_ℤ (pos 0) j)
        (λ on. (null_used refl (ground (arith, on)) refl, kept))
        (λ off. (no_frame refl (ground (arith, off)) refl, kept))
  move_second-Second j (some q) r kept =
      if_rule (Second j r (some q)) (moves_to j q)
        (λ on.
          let (v, saved) =
            move_mark-IsValid x.mark_comments q j (x.new_comment q j) r.session kept.0 in
          (second_moved q refl (target j q.position on) refl, (v, inr saved)))
        (λ off. (second_stays q refl (no_target j q.position off) refl, kept))

  abbrev AllDone : Option Outcome → Type 0
  AllDone o = (y : Outcome) × (o ≡ some y) × Done x s es p m t y

  move_marks-AllDone :
      end_before p ≤ℤ s.last
      → negsuc 0 ≤ℤ end_after p
      → AllDone (move_marks x s p (find_overlap p) m t)
  unfolding move_marks First Second
  move_marks-AllDone in_index behind =
      let (i, at, prev) =
        next_i_frame-backward s es (end_before p) true n index_is in_index
          (omega (arith, in_index, few)) in
      let (j, at', next) = next_i_frame-forward s es (end_after p) true n index_is behind few in
      let at_i : next_i_frame x.rounds s (end_before p) false true ≡ some i =
        ap (λ k. next_i_frame k s (end_before p) false true) rounds_are ∙ at in
      let at_j : next_i_frame x.rounds s (end_after p) true true ≡ some j =
        ap (λ k. next_i_frame k s (end_after p) true true) rounds_are ∙ at' in
      let u = move_first x (int_of i) m t in
      let (f, kept) = move_first-First (int_of i) in
      let (g, kept') = move_second-Second (int_of j) u.1 u.0 kept in
      rw (move_marks, at_i, at_j)
        (
          move_second x (int_of j) u.1 u.0,
          refl,
          record {
            first_frame = i;
            second_frame = j;
            between = u.0;
            second_mark = u.1;
            nearest_before = prev;
            nearest_behind = next;
            first = f;
            second = g;
            kept = kept';
          },
        )

  -- With an index, from marks in order with distinct positions and addresses, and with the ends
  -- of the run at frame numbers up to the last entry, and not before -1, doOverlapDetection ends.
  -- Where its search finds no overlap it returns false and changes nothing. Otherwise it returns
  -- true. The first mark goes to the nearest I frame before the end of the run in front: if there
  -- is one, not at 0, and the mark is not there, it is moved by moveMark, *m is the mark at that
  -- frame and hasOverlaps is set, and m2 is the mark behind the frame; otherwise nothing changes,
  -- and m2 is the mark behind *m. Then m2 goes likewise to the nearest I frame behind the end of
  -- the run behind, before the bound of GetNextIFrame; with no mark m2, it is used as a null
  -- pointer if that frame is behind 0. The marks are in order again, with distinct positions and
  -- addresses, and the session is as it was, or the file is as the marks are.
  pub do_overlap_detection-Ends :
      end_before p ≤ℤ s.last
      → negsuc 0 ≤ℤ end_after p
      → Ends x s es p m t (do_overlap_detection x s p m t)
  unfolding do_overlap_detection
  do_overlap_detection-Ends in_index behind =
      if_rule (λ o. Ends x s es p m t ((find_overlap p).pos_found, o)) (find_overlap p).pos_found
        (λ on.
          let (y, at, d) = move_marks-AllDone in_index behind in
          found y on (ap₂ (λ b o. (b, o)) on at) d)
        (λ off. none_found off (ap (λ b. (b, some (done t))) off))
