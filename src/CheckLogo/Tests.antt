-- ===== src/CheckLogo/Tests.antt =====
-- The theorems on the test lines at a concrete logo.
use noad.Prelude.{ℕ, ◌≡◌, ◌⊎◌, refl, true, false, List, [], ◌∷◌, ◌++◌, some, if◌then◌else◌}
use noad.Prelude.Int.{ℤ, pos, eqb_ℤ}
use noad.CheckLogo.{
  CheckLogo, Verdict, logo, no_logo, unsure, new_check_logo, settle, check_testlines, Testline,
}
use noad.CheckLogo.Store.{save, load, load-save}
use noad.CheckLogo.Search.{new_data, IsHit, new_data-offset}
use noad.CheckLogo.Hysteresis.{settle_all, switch_of, observe_all, switch-settle_all}
use noad.CheckLogo.Fitting.{
  pair_count, lines_with, fits, is_hidden, IsVerdict, check_testlines-verdict,
}

-- The logo comes, goes, and one picture with it does not bring it back.
abbrev some_verdicts : List Verdict
some_verdicts = logo ∷ unsure ∷ logo ∷ no_logo ∷ no_logo ∷ logo ∷ []

switch-settle_all_example :
    let d = settle_all some_verdicts new_check_logo in
    switch_of d.is_logo d ≡ observe_all 1 some_verdicts (switch_of false new_check_logo)
switch-settle_all_example = switch-settle_all some_verdicts new_check_logo

back_off : (settle_all some_verdicts new_check_logo).is_logo ≡ false
unfolding settle_all settle
back_off = refl

abbrev seen : CheckLogo
seen = record new_check_logo { is_logo = true; n_logo = 2 }

abbrev two_lines : List Testline
two_lines =
    record { line = pos 1; pairs = record { x_pos = pos 0; x_neg = pos 2 } ∷ [] }
    ∷ record {
      line = pos 2;
      pairs =
          record { x_pos = pos 0; x_neg = pos 2 } ∷ record { x_pos = pos 4; x_neg = pos 6 } ∷ [];
    }
    ∷ []

abbrev dark : ℤ → ℕ
dark i = if eqb_ℤ i (pos 12) then 90 else 30

check_testlines-verdict_example :
    (v : Verdict) × (check_testlines (pos 10) dark two_lines (pos 0) new_check_logo
      ≡ (settle v new_check_logo, lines_with (fits dark) (pos 10) (pos 0) two_lines))
    × IsVerdict
        (pair_count two_lines)
        (lines_with (fits dark) (pos 10) (pos 0) two_lines)
        (lines_with (is_hidden dark) (pos 10) (pos 0) two_lines)
        v
check_testlines-verdict_example = check_testlines-verdict (pos 10) dark two_lines new_check_logo

load-save_example :
    load (save seen ++ pos 7 ∷ []) new_check_logo
    ≡ some (
      record new_check_logo { n_no_logo = 0; n_logo = 2; line_hook = []; line_offset = pos 0 },
      pos 7 ∷ [],
    )
load-save_example = load-save seen new_check_logo (pos 7 ∷ [])

abbrev with_lines : CheckLogo
with_lines = record new_check_logo { line_hook = two_lines }

new_data-offset_example :
    let d = new_data true (pos 10) 20 dark with_lines in
    (d.line_hook ≡ two_lines) × ((d.line_offset ≡ pos 0) ⊎ IsHit (pos 10) dark d)
new_data-offset_example = new_data-offset true (pos 10) 20 dark with_lines

abbrev second_line : Testline
second_line = record { line = pos 2; pairs = record { x_pos = pos 4; x_neg = pos 6 } ∷ [] }
