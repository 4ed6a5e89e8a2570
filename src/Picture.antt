-- ===== src/Picture.antt =====
-- noaddata.cpp: the test whether a picture is blank. A plane of the picture is a function from the
-- index to a byte; the logging is left out.
pub mod Steps
pub mod Blank
pub mod Histogram
pub mod Scene
pub mod CheckData
pub mod Black
mod Tests
use noad.Prelude.{
  ℕ, zero, suc, ◌+◌, ◌*◌, ◌/◌, Bool, true, false, not, Option, none, some, List, [], ◌∷◌, ◌&&◌,
  ◌||◌, ltb, leb, ◌==◌, if◌then◌else◌,
}
use noad.Prelude.Int.{ℤ, pos, ◌+ℤ◌, ◌-ℤ◌, ltb_ℤ, leb_ℤ}
use noad.CheckLogo.{Rect}

-- `for (i = start; i < limit; i += step)`, with fuel.
unfoldable pub steps : ℕ → ℕ → ℕ → ℕ → List ℕ
steps zero i limit step = []
steps (suc fuel) i limit step =
    let rest = steps fuel (i + step) limit step in if ltb i limit then i ∷ rest else []

-- `limit` rounds are enough for a step that is not 0.
unfoldable pub loop : ℕ → ℕ → ℕ → List ℕ
unfolding steps
loop start limit step = steps limit start limit step

unfoldable pub point_in_rect : ℕ → ℕ → Rect → Bool
point_in_rect x y r =
    leb_ℤ r.top (pos y)
    && (leb_ℤ (pos y) r.bottom && (leb_ℤ r.left (pos x) && leb_ℤ (pos x) r.right))

-- Four more pixels on each side, where there is room.
unfoldable pub widen : Rect → Rect
unfolding ◌+ℤ◌ ◌-ℤ◌
widen r = record {
  left = if ltb_ℤ (pos 4) r.left then r.left -ℤ pos 4 else r.left;
  top = if ltb_ℤ (pos 4) r.top then r.top -ℤ pos 4 else r.top;
  right = if ltb_ℤ (pos 0) r.right then r.right +ℤ pos 4 else r.right;
  bottom = if ltb_ℤ (pos 0) r.bottom then r.bottom +ℤ pos 4 else r.bottom;
}

-- The grab size and the brightness plane; a line is as long as the picture is wide.
pub record Gray : Type 0 where
  pub width : ℕ
  pub height : ℕ
  pub bytes : ℕ → ℕ

abbrev pub pixel : Gray → ℕ → ℕ → ℕ
pixel g x y = g.bytes (y * g.width + x)

abbrev pub max_brightness : ℕ
max_brightness = 135

abbrev pub test_brightness : ℕ
test_brightness = 80

unfoldable pub is_bright : Gray → Rect → ℕ → ℕ → Bool
unfolding point_in_rect
is_bright g r y x = not (point_in_rect x y r) && ltb max_brightness (pixel g x y)

unfoldable pub is_dim : Gray → Rect → ℕ → ℕ → Bool
unfolding point_in_rect
is_dim g r y x = not (point_in_rect x y r) && ltb test_brightness (pixel g x y)

-- The inner loop with isDim; `none` is `return(false)`.
unfoldable pub scan_row : Gray → Rect → ℕ → List ℕ → Bool → Option Bool
unfolding is_bright is_dim
scan_row g r y [] dim = some dim
scan_row g r y (x ∷ xs) dim =
    let rest = scan_row g r y xs (dim || is_dim g r y x) in if is_bright g r y x then none else rest

-- `return(false)` ends the loops that are still running.
abbrev pub and_then : Option Bool → (Bool → Option Bool) → Option Bool
and_then none k = none
and_then (some dim) k = k dim

unfoldable pub scan_rows : Gray → Rect → List ℕ → List ℕ → Bool → Option Bool
unfolding scan_row
scan_rows g r xs [] dim = some dim
scan_rows g r xs (y ∷ ys) dim = and_then (scan_row g r y xs dim) (λ dim'. scan_rows g r xs ys dim')

-- One column of the four tables pass_start, pass_inc, pass_ystart and pass_yinc.
pub record Pass : Type 0 where
  pub start : ℕ
  pub inc : ℕ
  pub ystart : ℕ
  pub yinc : ℕ

abbrev pass : ℕ → ℕ → ℕ → ℕ → Pass
pass s i ys yi = record { start = s; inc = i; ystart = ys; yinc = yi }

abbrev pub passes : List Pass
passes =
    pass 0 8 0 8
    ∷ pass 4 8 0 8
    ∷ pass 0 4 4 8
    ∷ pass 2 4 0 4
    ∷ pass 0 2 2 4
    ∷ pass 1 2 0 2
    ∷ pass 0 1 1 2
    ∷ []

unfoldable pub scan_passes : Gray → Rect → List Pass → Bool → Option Bool
unfolding scan_rows loop
scan_passes g r [] dim = some dim
scan_passes g r (p ∷ ps) dim =
    and_then (scan_rows g r (loop p.start g.width p.inc) (loop p.ystart g.height p.yinc) dim)
      (λ dim'. scan_passes g r ps dim')

-- The sums `brightness` and `pixels` over one line and over the picture.
unfoldable pub sum_row : Gray → ℕ → List ℕ → ℕ × ℕ → ℕ × ℕ
sum_row g y [] s = s
sum_row g y (x ∷ xs) s = sum_row g y xs (s.0 + pixel g x y, s.1 + 1)

unfoldable pub sum_rows : Gray → List ℕ → List ℕ → ℕ × ℕ → ℕ × ℕ
unfolding sum_row
sum_rows g xs [] s = s
sum_rows g xs (y ∷ ys) s = sum_rows g xs ys (sum_row g y xs s)

unfoldable pub get_avg_brightness : Gray → ℕ
unfolding sum_rows loop
get_avg_brightness g = let s = sum_rows g (loop 0 g.width 4) (loop 0 g.height 4) (0, 0) in s.0 / s.1

unfoldable pub check_average : Gray → Option Bool → Bool
unfolding get_avg_brightness
check_average g none = false
check_average g (some false) = true
check_average g (some true) = leb (get_avg_brightness g) 35

-- The result; m_isMonoFrame is 1 afterwards if it is true, and else 0.
unfoldable pub check_frame_is_blank : Gray → Rect → Bool
unfolding scan_passes check_average widen
check_frame_is_blank g logo =
    if g.width == 0 || g.height == 0
    then false
    else check_average g (scan_passes g (widen logo) passes false)
