-- ===== src/Search/Tests.antt =====
-- The theorems on the search at a recording of 220 entries, and a decoder whose pictures show the
-- logo before frame 60.
use noad.Prelude.{
  ℕ, ◌≡◌, refl, arith, Option, Bool, true, false, none, some, ◌&&◌, ◌⊎◌, map, List, [], ◌∷◌,
  replicate, ltb, leb,
}
use noad.Prelude.Int.{ℤ, pos, negsuc, pos_part, ◌+ℤ◌}
use noad.IndexFile.{Entry, IndexFile, noad_get, next_i_frame}
use noad.Search.{Machine, Search, check_callback, check_logo_state, do_logo_detection}
use noad.Search.LogoChange.{Options, find_logo_change}
use noad.Search.DetectLogo.{detect_logo}
use noad.Search.DetectLogo.Tried.{Tried, detect_logo-Settled}
use noad.Search.Scan.{Record, Scan, first_scan, scan_loop, last_mark}
use noad.Search.Scan.Ends.{Stopped}
use noad.Search.Scan.Last.{Paired, scan_loop-Paired}
use noad.Marks.{Marks, get, add}
use noad.Marks.Count.{count, node_count}
use noad.Marks.Session.{Session, comment_at}
use noad.Marks.Session.Invariant.{IsValid}
use noad.Search.LogoState.{Stated, check_logo_state-Stated}
use noad.Search.Detection.{Detected, do_logo_detection-Detected}

abbrev key_frames : List Entry
key_frames = replicate 220 (record { offset = 0; reserved = 0; independent = true; number = 1 })

abbrev recorded : IndexFile
recorded = record {
  index = some key_frames;
  last = pos 219;
  capacity = pos 300;
  is_open = true;
  is_pes = false;
  interval = pos 0;
  last_get_value = pos 0;
}

-- The state is the frame that was shown last.
abbrev early_logo : Machine ℕ
early_logo = record {
  picture = λ callback ext i reset v. pos_part i;
  is_logo = λ v. ltb v 60;
  found = λ v. leb 90 v;
  checked_frames = λ v. v;
  no_checked_frames = λ v. 0;
  ignore_frames = λ n v. v;
  re_init = λ v. 0;
  load_check_data = λ v. (false, v);
  no_logo = λ v. v;
  none_checked = λ v. refl;
}

abbrev at_first : Search ℕ
at_first = record {
  machine = 0;
  ext_logo_search = true;
  callback = check_callback;
  independent = false;
  decoding = 0;
  cur_index = negsuc 0;
  last_i_frame = negsuc 0;
}

check_logo_state-Stated_example :
    (r : ℕ × Search ℕ) × (check_logo_state 220 early_logo recorded true (pos 40) 30 at_first
      ≡ some r)
    × ((r.1.ext_logo_search ≡ true) × (r.1.callback ≡ check_callback))
    × Stated early_logo recorded key_frames true (pos 40) 30 at_first r.0
check_logo_state-Stated_example =
    check_logo_state-Stated early_logo recorded true key_frames (pos 40) 30 219 at_first refl
      (omega arith) (omega arith) (omega arith)

do_logo_detection-Detected_example :
    (r : Bool × Search ℕ) × (do_logo_detection 220 220 early_logo recorded (pos 40) at_first
      ≡ some r)
    × (r.1.callback ≡ check_callback)
    × Detected early_logo recorded key_frames (pos 40) at_first r
do_logo_detection-Detected_example =
    do_logo_detection-Detected early_logo recorded key_frames (pos 40) 219 at_first refl
      (omega arith) (omega arith)

-- One frame per second.
abbrev slow : Options
slow = record {
  rate = 1;
  logo_jump_detection = true;
  is_nelonen = false;
  reuse_logo = true;
  mark_comments = true;
}

abbrev slow_record : Record ℕ
slow_record = record {
  options = slow;
  machine = early_logo;
  index = recorded;
  garbage = false;
  rounds = 220;
}

abbrev no_marks : Session
no_marks = record { marks = record { items = []; next_node = 1 }; saved = []; mark_changed = false }

-- The logo comes with frame 0 and goes with frame 60.
abbrev marked_at : Option (Scan ℕ) → List ℤ
marked_at none = []
marked_at (some sc) = map (λ m. m.position) sc.session.marks.items

scan_marks :
    marked_at (scan_loop 439 slow_record (first_scan at_first no_marks)) ≡ pos 10 ∷ pos 60 ∷ []
unfolding scan_loop find_logo_change noad_get ◌+ℤ◌ next_i_frame get comment_at add
scan_marks = refl

-- A logo that shows only briefly, in a long recording without another one: a mark for a lost logo
-- that was never marked as come.
abbrev brief_logo : Machine ℕ
brief_logo = record early_logo { is_logo = λ v. leb 16 v && ltb v 30; found = λ v. true }

abbrev long_record : Record ℕ
long_record = record slow_record {
  machine = brief_logo;
  index = record recorded {
    index =
        some (replicate 1300 (record { offset = 0; reserved = 0; independent = true; number = 1 }));
    last = pos 1299;
  };
  rounds = 1300;
}

lost_without_start :
    marked_at (scan_loop 439 long_record (first_scan at_first no_marks)) ≡ pos 906 ∷ []
unfolding scan_loop find_logo_change noad_get ◌+ℤ◌ next_i_frame get comment_at add
lost_without_start = refl

detect_logo-Settled_example :
    (r : Bool × Search ℕ) × (detect_logo 220 slow early_logo recorded 30 at_first ≡ some r)
    × ((r.1.callback ≡ check_callback)
        × ((r.0 ≡ false) ⊎ ((r.0 ≡ true) × (w : Search ℕ) × Tried early_logo w r)))
detect_logo-Settled_example =
    detect_logo-Settled slow early_logo recorded key_frames 219 refl (omega arith) 30 at_first

no_marks-IsValid : IsValid no_marks.marks
unfolding count node_count
no_marks-IsValid = record {
  sorted = tt;
  unique = λ q. omega arith;
  nodes = λ a. omega arith;
  fresh = λ a h. refl;
}

scan_loop-Paired_example :
    (sc : Scan ℕ) × (o : Option ℤ) × (ms : Marks) × (scan_loop 439 slow_record
        (first_scan at_first no_marks)
      ≡ some sc)
    × Stopped slow_record sc
    × (next_i_frame 220 recorded (pos 219) false true ≡ some o)
    × (last_mark 220 recorded sc.session.marks ≡ some ms)
    × IsValid ms
    × Paired o sc.session.marks ms
scan_loop-Paired_example =
    scan_loop-Paired slow_record key_frames 219 at_first no_marks refl (omega arith) (omega arith)
      refl (omega arith) (omega arith) no_marks-IsValid
