-- ===== src/Marks/Tests.antt =====
-- The theorems on the marks at concrete lists.
use noad.Prelude.{ℕ, ◌≡◌, refl, arith, ◌+◌, true, false, Option, none, some, List, [], ◌∷◌, map}
use noad.Prelude.Int.{pos}
use mathlib.Core.List.{Perm}
use Prim.Native.String.{String}
use noad.Marks.{Mark, Marks, get, del, sort, get_active_frames}
use noad.Marks.Sorting.{IsSorted, AllFrom, content, fixed_part, sort_lem}
use noad.Marks.Count.{one_at, count, node_count}
use noad.Marks.Session.{Session, mark_toggle, move_mark}
use noad.Marks.Session.Invariant.{IsValid}
use noad.Marks.Session.Toggle.{mark_toggle-count, move_mark_lem}
use noad.Marks.Clean.{Clean, clean_inactive_marks, clean_fuel, min_mark_duration}
use noad.Marks.Clean.Inactive.{IsClean, clean_inactive_marks-IsClean}
use noad.Marks.Active.{get_active_frames-eq, active_frames}

abbrev mark_at : ℕ → ℕ → Option String → Mark
mark_at a p c = record { node = a; position = pos p; comment = c; checked = false }

abbrev unsorted : List Mark
unsorted =
    mark_at 0 9000 (some "logo stop") ∷ mark_at 1 500 none ∷ mark_at 2 700 (some "start") ∷ []

sort_lem_example :
    IsSorted (sort unsorted)
    × Perm (map content (sort unsorted)) (map content unsorted)
    × (map fixed_part (sort unsorted) ≡ (0, false) ∷ (1, false) ∷ (2, false) ∷ [])
sort_lem_example = sort_lem unsorted

abbrev two_marks : Marks
two_marks = record {
  items = mark_at 0 500 none ∷ mark_at 1 9000 (some "logo stop") ∷ [];
  next_node = 2;
}

abbrev two_saved : Session
two_saved = record { marks = two_marks; saved = []; mark_changed = false }

two_marks-IsValid : IsValid two_marks
unfolding count node_count
two_marks-IsValid = record {
  sorted = (((omega arith), tt), (tt, tt));
  unique = λ q. ground arith;
  nodes = λ a. ground arith;
  fresh = λ a h. ground arith;
}

mark_toggle-count_example :
    count (pos 9000) (mark_toggle true (pos 9000) none two_saved).marks.items ≡ 0
unfolding count
mark_toggle-count_example =
    mark_toggle-count true (pos 9000) (pos 9000) none two_saved two_marks-IsValid

move_mark_lem_example :
    let left = del 0 two_marks.items in
    let t = move_mark true (mark_at 0 500 none) (pos 800) none two_saved in
    ((count (pos 800) left + one_at (pos 500) (pos 800) ≡ count (pos 800) two_marks.items)
      × (count (pos 800) t.marks.items ≡ 1))
    × (IsValid t.marks × (t.saved ≡ t.marks.items))
unfolding get
move_mark_lem_example =
    move_mark_lem true (mark_at 0 500 none) (pos 800) (pos 800) none two_saved two_marks-IsValid
      refl

-- An opening mark, a break of four seconds within the recording, and the closing mark.
abbrev short_break : List Mark
short_break =
    mark_at 0 500 none ∷ mark_at 1 9000 none ∷ mark_at 2 9100 none ∷ mark_at 3 20000 none ∷ []

short_break-IsSorted : IsSorted short_break
short_break-IsSorted = ground arith

short_break-AllFrom : AllFrom (pos 0) short_break
short_break-AllFrom = ground arith

clean_inactive_marks-IsClean_example :
    (r : Clean) × (clean_inactive_marks 25 (clean_fuel 4) false short_break ≡ some r)
    × IsClean (min_mark_duration 25) short_break r
clean_inactive_marks-IsClean_example =
    clean_inactive_marks-IsClean 25 false short_break short_break-IsSorted short_break-AllFrom

get_active_frames-eq_example :
    get_active_frames (pos 30000) short_break ≡ active_frames (pos 30000) short_break
get_active_frames-eq_example =
    get_active_frames-eq (pos 30000) (mark_at 0 500 none)
      (mark_at 1 9000 none ∷ mark_at 2 9100 none ∷ mark_at 3 20000 none ∷ []) short_break-AllFrom
      (ground arith)
