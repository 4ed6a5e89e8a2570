-- ===== src/Overlap/Black.antt =====
-- noad.cpp: the places that checkBlacklineOnmark and checkBlackFrameOnMarks choose among the
-- pictures around a mark. The number of lines is never negative.
pub mod Stops
pub mod Chosen
pub mod Moved
use noad.Prelude.{
  ℕ, zero, suc, ◌+◌, ◌-◌, ◌*◌, ◌/◌, Bool, true, false, Option, none, some, not, ◌&&◌, ltb, leb,
  if◌then◌else◌,
}
use noad.Prelude.Int.{ℤ, pos, negsuc, ◌-ℤ◌, ltb_ℤ, leb_ℤ, eqb_ℤ}
use noad.IndexFile.{IndexFile, next_i_frame}
use noad.Search.LogoChange.{int_of}
use noad.Marks.{Mark}
use noad.Marks.Session.{Session, move_mark}
use noad.Overlap.{PicInfo}
use noad.Overlap.Moves.{Moves}

-- iTopLines and iBottomLines.
pub record BlackLines : Type 0 where
  pub top : ℕ
  pub bottom : ℕ

-- POS_OK, with iTopMin and ibotmin.
unfoldable pub pos_ok : BlackLines → (ℕ → PicInfo) → ℕ → Bool
pos_ok b pics i =
    leb (b.top - b.top * 20 / 100) (pics i).top_blacklines
    && leb (b.bottom - b.bottom * 70 / 100) (pics i).bot_blacklines

-- NOTOKCOUNT.
abbrev pub not_ok_count : ℕ
not_ok_count = 10

-- The `do` loop from iPics back, with notOkCount: iPics behind it.
unfoldable pub back_loop : BlackLines → (ℕ → PicInfo) → ℕ → ℕ → ℤ
unfolding pos_ok
back_loop b pics count zero = negsuc 0
back_loop b pics count (suc k) =
    let count' = if pos_ok b pics (suc k) then 0 else count + 1 in
    let rest = back_loop b pics count' k in
    if ltb 0 k && ltb count' not_ok_count then rest else pos k

-- Behind the loop.
unfoldable pub black_line_move :
    Moves → IndexFile → (ℕ → PicInfo) → Mark → Session → ℤ → Option Session
unfolding move_mark
black_line_move x s pics m t (negsuc k) = some t
black_line_move x s pics m t (pos k) =
    let place = (pics (k + 5)).framenum in
    if ltb 1 k
    then (elim (next_i_frame x.rounds s place true true) [
      | none ↦ none
      | some o ↦
          if leb_ℤ place (int_of o)
          then some (move_mark x.mark_comments m (int_of o) (x.new_comment m (int_of o)) t)
          else some t
    ])
    else some t

-- checkBlacklineOnmark.
unfoldable pub check_blackline_onmark :
    Moves → IndexFile → BlackLines → (ℕ → PicInfo) → ℕ → Mark → Session → Option Session
unfolding back_loop black_line_move
check_blackline_onmark x s b pics num m t = black_line_move x s pics m t (back_loop b pics 0 num)

-- MAXBACK, for framespersec.
abbrev pub max_back : ℕ → ℕ
max_back rate = 45 * rate

-- The index of the mark's picture: `for(i = 0; index < 0 && i < iPics; i++)`, with the rounds left.
unfoldable pub place_of : ℤ → (ℕ → PicInfo) → ℕ → ℕ → Option ℕ
place_of position pics zero i = none
place_of position pics (suc k) i =
    if eqb_ℤ (pics i).framenum position then some i else place_of position pics k (i + 1)

-- `while( index > istop && !iBestPos )`, with the index over istop as the rounds left: iBestPos.
unfoldable pub black_loop : (ℕ → PicInfo) → ℕ → ℕ → ℤ
black_loop pics stop zero = pos 0
black_loop pics stop (suc k) =
    let rest = black_loop pics stop k in
    let best = if (pics (stop + k)).is_black_frame then (pics (stop + k)).framenum else pos 0 in
    if eqb_ℤ best (pos 0) then rest else best

-- checkBlackFrameOnMarks without the detection of scenes: iBestPos.
unfoldable pub best_black : ℕ → (ℕ → PicInfo) → ℕ → Mark → ℤ
unfolding place_of black_loop
best_black rate pics num m = elim (place_of m.position pics num 0) [
  | none ↦ pos 0
  | some index ↦ black_loop pics (index - max_back rate) (index - (index - max_back rate))
]

-- checkBlackFrameOnMarks without the detection of scenes.
unfoldable pub check_black_frame_on_marks :
    Moves → IndexFile → ℕ → (ℕ → PicInfo) → ℕ → Mark → Session → Option (Session × Bool)
unfolding best_black move_mark
check_black_frame_on_marks x s rate pics num m t =
    let best = best_black rate pics num m in
    if ltb_ℤ (pos 1) best
    then (elim (next_i_frame x.rounds s (best -ℤ pos 1) true true) [
      | none ↦ none
      | some o ↦
          if ltb_ℤ (pos 0) (int_of o)
          then some (move_mark x.mark_comments m (int_of o) (x.new_comment m (int_of o)) t, true)
          else some (t, true)
    ])
    else some (t, false)
