-- ===== src/Overlap/Moves.antt =====
-- doOverlapDetection behind its search: the two marks go to the ends of the repeated part.
pub mod Kept
use noad.Prelude.{ℕ, ◌+◌, Bool, true, false, Option, none, some, not, ◌&&◌, if◌then◌else◌}
use noad.Prelude.Int.{ℤ, pos, ltb_ℤ, eqb_ℤ}
use Prim.Native.String.{String}
use noad.IndexFile.{IndexFile, next_i_frame}
use noad.Search.LogoChange.{int_of}
use noad.Marks.{Mark, get, get_next}
use noad.Marks.Session.{Session, move_mark}
use noad.Overlap.{Pictures, Overlap, find_overlap}

-- `markComments`, what asprintf makes of the comment for a mark and its new position, and the rounds
-- of GetNextIFrame.
pub record Moves : Type 0 where
  pub mark_comments : Bool
  pub new_comment : Mark → ℤ → Option String
  pub rounds : ℕ

-- The marks, *m, and hasOverlaps.
pub record Moved : Type 0 where
  pub session : Session
  pub mark : Option Mark
  pub has_overlaps : Bool

abbrev pub moves_to : ℤ → Mark → Bool
moves_to new_index m = ltb_ℤ (pos 0) new_index && not (eqb_ℤ new_index m.position)

-- The move of *m, with m2 behind it.
unfoldable pub move_first : Moves → ℤ → Mark → Moved → Moved × Option Mark
unfolding move_mark get get_next
move_first x new_index m t =
    if moves_to new_index m
    then (let s = move_mark x.mark_comments m new_index (x.new_comment m new_index) t.session in
        (
          record { session = s; mark = get new_index s.marks.items; has_overlaps = true },
          get_next new_index s.marks.items,
        ))
    else (t, get_next m.position t.session.marks.items)

-- How it ends: a null m2 is used where the new index is not 0 or less.
pub data Outcome : Type 0 where
  done : Moved → Outcome
  null_mark : Moved → Outcome

-- The move of m2.
unfoldable pub move_second : Moves → ℤ → Option Mark → Moved → Outcome
unfolding move_mark
move_second x new_index none t = if ltb_ℤ (pos 0) new_index then null_mark t else done t
move_second x new_index (some m2) t =
    if moves_to new_index m2
    then done (record t {
      session = move_mark x.mark_comments m2 new_index (x.new_comment m2 new_index) t.session;
    })
    else done t

-- The two frames that GetNextIFrame gives, and the moves.
unfoldable pub move_marks : Moves → IndexFile → Pictures → Overlap → Mark → Moved → Option Outcome
unfolding move_first move_second
move_marks x s p o m t =
    elim (next_i_frame x.rounds s (p.before (o.comp_start + o.most_ok)).framenum false true) [
      | none ↦ none
      | some i ↦
          let r = move_first x (int_of i) m t in
          elim (next_i_frame x.rounds s (p.after (o.cmp_start + o.most_ok)).framenum true true) [
            | none ↦ none
            | some j ↦ some (move_second x (int_of j) r.1 r.0)
          ]
    ]

-- doOverlapDetection: whether an overlap is found, and how it ends.
unfoldable pub do_overlap_detection :
    Moves → IndexFile → Pictures → Mark → Moved → Bool × Option Outcome
unfolding move_marks find_overlap
do_overlap_detection x s p m t =
    let o = find_overlap p in
    (o.pos_found, if o.pos_found then move_marks x s p o m t else some (done t))
