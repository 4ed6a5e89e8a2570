-- ===== src/Overlap/Tests.antt =====
-- The theorems on the overlap, at two arrays of equal pictures and two marks.
use noad.Prelude.{
  ℕ, ◌+◌, ◌≤◌, ◌≡◌, ◌⊎◌, Bool, ltb, if◌then◌else◌, refl, arith, true, false, none, some, List, [],
  ◌∷◌, replicate,
}
use noad.Prelude.Int.{ℤ, ltb_ℤ, ◌<ℤ◌, ◌+ℤ◌, ◌≤ℤ◌, pos}
use noad.IndexFile.{Entry, IndexFile}
use noad.Marks.{Mark}
use noad.Marks.Session.{Session}
use noad.Marks.Session.Invariant.{IsValid}
use noad.Marks.Count.{count, node_count}
use noad.Overlap.{Pictures, PicInfo, find_overlap}
use noad.Overlap.Exhaustive.{Result, find_overlap-Result}
use noad.Overlap.Moves.{Moves, Moved, do_overlap_detection}
use noad.Overlap.Window.{Reader, read_pictures, frames_before, frames_after}
use noad.Overlap.Window.Within.{
  FramesFrom, NotBefore, EndsBefore, read_pictures-Within, frames-Between,
}
use noad.Overlap.Black.{
  BlackLines, back_loop, check_blackline_onmark, best_black, check_black_frame_on_marks,
}
use noad.Overlap.Black.Stops.{StopsAt}
use noad.Overlap.Black.Chosen.{BlackChoice}
use noad.Overlap.Black.Moved.{
  MovedTo, LineMove, check_blackline_onmark-Moved, check_black_frame_on_marks-Moved,
}
use noad.Overlap.Moves.Kept.{Ends, do_overlap_detection-Ends}

abbrev grey : ℕ → PicInfo
grey i = record {
  framenum = pos i;
  top_blacklines = 0;
  bot_blacklines = 0;
  is_black_frame = false;
  histogram = λ v. pos 4;
}

-- Within the index.
abbrev clamped : ℕ → PicInfo
clamped i = record (grey i) { framenum = pos (if ltb i 599 then i else 599) }

clamped_in : (i : ℕ) → (clamped i).framenum ≤ℤ pos 599
clamped_in i = ground arith

-- Four frames per second.
abbrev repeated : Pictures
repeated = record {
  before = clamped;
  num_before = 88;
  after = λ i. grey (i + 100);
  num_after = 400;
  rate = 4;
  similar_cutoff = 900;
}

abbrev key_frames : List Entry
key_frames = replicate 600 (record { offset = 0; reserved = 0; independent = true; number = 1 })

abbrev indexed : IndexFile
indexed = record {
  index = some key_frames;
  last = pos 599;
  capacity = pos 700;
  is_open = true;
  is_pes = false;
  interval = pos 0;
  last_get_value = pos 0;
}

abbrev first_mark : Mark
first_mark = record { node = 1; position = pos 80; comment = none; checked = false }

abbrev second_mark : Mark
second_mark = record { node = 2; position = pos 400; comment = none; checked = false }

abbrev unmoved : Moved
unmoved = record {
  session = record {
    marks = record { items = first_mark ∷ second_mark ∷ []; next_node = 3 };
    saved = [];
    mark_changed = false;
  };
  mark = some first_mark;
  has_overlaps = false;
}

abbrev silent : Moves
silent = record { mark_comments = false; new_comment = λ m i. none; rounds = 600 }

unmoved-IsValid : IsValid unmoved.session.marks
unfolding count node_count
unmoved-IsValid = record {
  sorted = ((omega arith, tt), (tt, tt));
  unique = λ q. ground arith;
  nodes = λ a. ground arith;
  fresh = λ a h. ground arith;
}

find_overlap-Result_example : Result repeated (find_overlap repeated)
find_overlap-Result_example = find_overlap-Result repeated

do_overlap_detection-Ends_example :
    Ends silent indexed key_frames repeated first_mark unmoved
      (do_overlap_detection silent indexed repeated first_mark unmoved)
do_overlap_detection-Ends_example =
    do_overlap_detection-Ends silent indexed key_frames 599 repeated first_mark unmoved refl
      (omega arith) refl unmoved-IsValid
      (clamped_in ((find_overlap repeated).comp_start + (find_overlap repeated).most_ok))
      (omega arith)

-- A decoder whose pictures are all grey.
abbrev grey_reader : Reader ℕ
grey_reader = record {
  next = λ i reset d. d + 1;
  shown = grey;
  rounds = 600;
  garbage = false;
  rate = 1;
  similar_cutoff = 900;
}

read_pictures-Within_example :
    (r : Pictures × ℕ) × (read_pictures grey_reader indexed grey
        (first_mark ∷ second_mark ∷ [])
        first_mark
        0
      ≡ some r)
    × ((r.0.num_before ≤ 22) × FramesFrom (pos 599) r.0.before r.0.num_before)
    × ((r.0.num_after ≤ 250) × FramesFrom (pos 599) r.0.after r.0.num_after)
read_pictures-Within_example =
    read_pictures-Within grey_reader indexed key_frames 599 refl (omega arith) refl grey
      (first_mark ∷ second_mark ∷ []) first_mark 0

frames-Between_example :
    let w = frames_before 1 none first_mark (some second_mark) in
    let v = frames_after 1 (w.start +ℤ w.count) second_mark none in
    ((pos 0 ≤ℤ w.start) × NotBefore none w.start)
    × ((w.count ≤ℤ pos 22) × EndsBefore (some second_mark) 0 (w.start +ℤ w.count))
    × (w.start +ℤ w.count ≤ℤ v.start)
    × ((v.count ≤ℤ pos 250) × EndsBefore none 25 (v.start +ℤ v.count))
frames-Between_example = frames-Between 1 none first_mark (some second_mark) second_mark none

abbrev bars : BlackLines
bars = record { top = 10; bottom = 10 }

check_blackline_onmark-Moved_example :
    (r : Session) × (check_blackline_onmark silent indexed bars grey 88 second_mark unmoved.session
      ≡ some r)
    × StopsAt bars grey 88 (back_loop bars grey 0 88)
    × IsValid r.marks
    × LineMove silent indexed key_frames grey second_mark unmoved.session
        (back_loop bars grey 0 88)
        r
check_blackline_onmark-Moved_example =
    check_blackline_onmark-Moved silent indexed key_frames 599 grey 88 second_mark unmoved.session
      refl (omega arith) refl unmoved-IsValid bars (λ k e. omega arith)

check_black_frame_on_marks-Moved_example :
    BlackChoice 1 grey 88 first_mark (best_black 1 grey 88 first_mark)
    × ((r : Session × Bool) × (check_black_frame_on_marks silent indexed 1 grey 88 first_mark
            unmoved.session
          ≡ some r)
        × (r.1 ≡ ltb_ℤ (pos 1) (best_black 1 grey 88 first_mark))
        × IsValid r.0.marks
        × ((r.0 ≡ unmoved.session)
            ⊎ ((i : ℤ) × (pos 1 <ℤ best_black 1 grey 88 first_mark)
                × (pos 0 <ℤ i)
                × MovedTo silent first_mark unmoved.session i r.0)))
check_black_frame_on_marks-Moved_example =
    check_black_frame_on_marks-Moved silent indexed key_frames 599 grey 88 first_mark
      unmoved.session refl (omega arith) refl unmoved-IsValid 1
