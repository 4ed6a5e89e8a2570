-- ===== src/Overlap.antt =====
-- noad.cpp: doOverlapDetection, the search for a part of the recording that is repeated behind the
-- advertisements. An array of pic_info is a function of the index, with whatever it holds behind
-- the entries that were read.
pub mod Exhaustive
pub mod Moves
pub mod Window
pub mod Black
mod Tests
use noad.Prelude.{
  ℕ, zero, suc, ◌+◌, ◌-◌, ◌*◌, Bool, true, false, Option, none, some, not, ◌&&◌, ltb, leb,
  if◌then◌else◌,
}
use noad.Prelude.Int.{ℤ, pos, ltb_ℤ, eqb_ℤ}
use Prim.Native.String.{String}
use noad.IndexFile.{IndexFile, next_i_frame}
use noad.Picture.Histogram.{Histogram, are_similar}
use noad.Marks.{Mark, get, get_next}
use noad.Marks.Session.{Session, move_mark}

pub record PicInfo : Type 0 where
  pub framenum : ℤ
  pub top_blacklines : ℕ
  pub bot_blacklines : ℕ
  pub is_black_frame : Bool
  pub histogram : Histogram

-- The two arrays with the number of entries that were read, framespersec as a whole number, and
-- ndata's cutoff of areSimilar.
pub record Pictures : Type 0 where
  pub before : ℕ → PicInfo
  pub num_before : ℕ
  pub after : ℕ → PicInfo
  pub num_after : ℕ
  pub rate : ℕ
  pub similar_cutoff : ℕ

-- PICS_READ_BEFORE, PICS_BEFORE_ONMARK, MIN_PICS_SIMILAR, OVERLAP_OK_FRAMES.
abbrev pub pics_read_before : Pictures → ℕ
pics_read_before p = 22 * p.rate

abbrev pub pics_before_onmark : Pictures → ℕ
pics_before_onmark p = 60 * p.rate

abbrev pub min_pics_similar : Pictures → ℕ
min_pics_similar p = 2 * p.rate

abbrev pub overlap_ok_frames : ℕ
overlap_ok_frames = 75

unfoldable pub alike : Pictures → ℕ → ℕ → Bool
unfolding are_similar
alike p c i = are_similar (pos p.similar_cutoff) (p.before c).histogram (p.after i).histogram

-- `cmpCount-compstart` behind the `do` loop, with the rounds left behind the first: the comparison
-- that fails is counted too.
unfoldable pub run_from : Pictures → ℕ → ℕ → ℕ → ℕ
unfolding alike
run_from p zero c i = 1
run_from p (suc k) c i =
    let rest = run_from p k (c + 1) (i + 1) in if alike p c i then rest + 1 else 1

abbrev pub run_at : Pictures → ℕ → ℕ → ℕ
run_at p c i = run_from p (pics_read_before p - (c + 1)) c i

-- The variables of the two loops.
pub record Overlap : Type 0 where
  pub most_ok : ℕ
  pub most_ok_comp_start : ℕ
  pub most_ok_cmp_start : ℕ
  pub comp_start : ℕ
  pub cmp_start : ℕ
  pub pos_found : Bool

abbrev pub first_overlap : Pictures → Overlap
first_overlap p = record {
  most_ok = 0;
  most_ok_comp_start = 0;
  most_ok_cmp_start = 0;
  comp_start = 0;
  cmp_start = pics_before_onmark p;
  pos_found = false;
}

-- A round of the inner loop.
unfoldable pub compare_at : Pictures → Overlap → Overlap
unfolding run_from
compare_at p o =
    let n = run_at p o.comp_start o.cmp_start in
    let better = ltb o.most_ok n in
    let most = if better then n else o.most_ok in
    record {
      most_ok = most;
      most_ok_comp_start = if better then o.comp_start else o.most_ok_comp_start;
      most_ok_cmp_start = if better then o.cmp_start else o.most_ok_cmp_start;
      comp_start = o.comp_start;
      cmp_start = o.cmp_start + 1;
      pos_found = if leb overlap_ok_frames most then true else o.pos_found;
    }

-- `while( iCmpStart < (numPicsAfter-numPicsBefore) && !posFound )`, with the rounds left.
unfoldable pub cmp_loop : ℕ → Pictures → Overlap → Overlap
unfolding compare_at
cmp_loop zero p o = o
cmp_loop (suc k) p o =
    let rest = cmp_loop k p (compare_at p o) in
    if ltb (o.cmp_start + p.num_before) p.num_after && not o.pos_found then rest else o

abbrev pub next_start : Overlap → Overlap
next_start o = if o.pos_found then o else record o { comp_start = o.comp_start + 1; cmp_start = 0 }

-- `while( compstart < numPicsBefore-MIN_PICS_SIMILAR && !posFound )`, with the rounds left. The
-- inner loop has a round for each picture behind the mark.
unfoldable pub comp_loop : ℕ → Pictures → Overlap → Overlap
unfolding cmp_loop
comp_loop zero p o = o
comp_loop (suc k) p o =
    let rest = comp_loop k p (next_start (cmp_loop p.num_after p o)) in
    if ltb (o.comp_start + min_pics_similar p) p.num_before && not o.pos_found then rest else o

-- Behind the loops: `if(!posFound && mostOk >= OVERLAP_OK_FRAMES )`.
unfoldable pub best_overlap : Overlap → Overlap
best_overlap o =
    if not o.pos_found && leb overlap_ok_frames o.most_ok
    then record o {
      pos_found = true;
      comp_start = o.most_ok_comp_start;
      cmp_start = o.most_ok_cmp_start;
    }
    else o

unfoldable pub find_overlap : Pictures → Overlap
unfolding comp_loop best_overlap
find_overlap p = best_overlap (comp_loop p.num_before p (first_overlap p))
