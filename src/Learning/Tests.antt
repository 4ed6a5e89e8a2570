-- ===== src/Learning/Tests.antt =====
-- The theorems on learning, for a corner of two lines with stripes.
use noad.Prelude.{
  ℕ, ◌%◌, ◌≡◌, refl, arith, true, false, none, List, [], ◌∷◌, ltb, if◌then◌else◌, All,
}
use noad.Prelude.Int.{pos}
use noad.CheckLogo.{new_check_logo, get_logo_rect}
use noad.CheckLogo.LogoRect.{IsCovered}
use noad.Learning.{
  Buffer, Settings, GetLogo, new_get_logo, set_diversions, set_testlines, couples, accept,
}
use noad.Learning as Learning
use noad.Learning.Mask.{updates, updates-eq}
use noad.Learning.Lines.{LinesOf, set_testlines-LinesOf}
use noad.Learning.Phase.{IsLearning, Outcome, accept-Outcome, reset-IsLearning}
use noad.Learning.Ends.{Ends, accept-Ends}
use noad.Learning.Control.{
  Corner, bot_right, Control, picture, forced, stopped, perform_all, new_control,
}
use noad.Learning.Control.Shared.{IsControl, IsShared}
use noad.Learning.Control.Session.{
  session-IsControl, force_corner-IsShared, new_control-IsControl, pictures,
}

abbrev stripes_in : Settings
stripes_in = record {
  size_x = 24;
  size_y = 2;
  filter_init = 80;
  filter_frames = 1;
  check_frames = 1;
  min_average = pos 5;
  max_average = pos 120;
  dif2_pictures = 1;
}

-- Two columns of 10 and two of `a`.
abbrev stripes : ℕ → Buffer
stripes a i = if ltb (i % 4) 2 then 10 else a

abbrev fresh : GetLogo
fresh = record {
  ref_picture = stripes 10;
  filter_data = stripes 10;
  filtered_corner = 7;
  checked_corner = 7;
  points_left = 0;
  line_hook = [];
}

updates-eq_example :
    updates stripes_in (stripes 90 ∷ stripes 50 ∷ []) (set_diversions stripes_in (stripes 60)) 28
    ≡ 1
updates-eq_example =
    updates-eq stripes_in 4 1 (omega arith) (omega arith) (stripes 60)
      (stripes 90 ∷ stripes 50 ∷ [])

abbrev mask : Buffer
mask = set_diversions stripes_in (stripes 60)

set_testlines-LinesOf_example :
    let lines = (set_testlines stripes_in mask []).0 in
    LinesOf stripes_in mask 0 lines
    × ((set_testlines stripes_in mask []).1 ≡ couples lines)
    × All (IsCovered (get_logo_rect lines)) lines
set_testlines-LinesOf_example = set_testlines-LinesOf stripes_in mask

abbrev at_start : GetLogo
at_start = Learning.reset stripes_in (stripes 10) fresh

at_start-IsLearning : IsLearning stripes_in (λ i. 80) [] at_start
at_start-IsLearning = reset-IsLearning stripes_in (stripes 10) fresh (omega arith)

accept-Outcome_example :
    Outcome stripes_in
      (λ i. 80)
      []
      (stripes 90)
      at_start
      (accept stripes_in (stripes 90) (record at_start { ref_picture = stripes 90 }))
accept-Outcome_example =
    accept-Outcome stripes_in (λ i. 80) [] (stripes 90) at_start at_start-IsLearning

accept-Ends_example : Ends stripes_in at_start (stripes 90 ∷ stripes 100 ∷ [])
unfolding Learning.reset
accept-Ends_example =
    accept-Ends stripes_in (λ i. 80) [] (stripes 90 ∷ stripes 100 ∷ []) at_start at_start-IsLearning
      (omega arith)

abbrev memory : Control
memory = record {
  get_logo = λ k. fresh;
  is_checked = λ k. false;
  picture_counter = 9;
  found = true;
  logo_corner = none;
  data_found = false;
  data_corner = none;
  check_logo = new_check_logo;
  corner_data = none;
  corners = λ k. stripes 10;
}

abbrev start : Control
start = new_control stripes_in memory

start-IsControl : IsControl stripes_in start
start-IsControl = new_control-IsControl stripes_in memory (omega arith) refl

abbrev views : List (Corner → Buffer)
views = (λ k. stripes 20) ∷ (λ k. stripes 30) ∷ (λ k. stripes 90) ∷ (λ k. stripes 100) ∷ []

session-IsControl_example :
    IsControl stripes_in (
      perform_all stripes_in (picture true (λ k. stripes 20) ∷ forced (pos 2) ∷ stopped ∷ []) start)
session-IsControl_example =
    session-IsControl stripes_in memory
      (picture true (λ k. stripes 20) ∷ forced (pos 2) ∷ stopped ∷ []) (omega arith) refl

force_corner-IsShared_example :
    IsShared stripes_in
      (perform_all stripes_in (forced (pos 2) ∷ pictures false views) start)
      bot_right
unfolding perform_all pictures new_control
force_corner-IsShared_example =
    force_corner-IsShared stripes_in false bot_right views start (omega arith) start-IsControl refl
