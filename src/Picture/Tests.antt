-- ===== src/Picture/Tests.antt =====
-- The theorems on pictures at concrete ones.
use noad.Prelude.{
  ℕ, ◌+◌, ◌-◌, ◌%◌, ◌≤◌, ◌<◌, ◌⊎◌, ◌≡◌, refl, arith, true, false, not, none, some, [], ◌∷◌, ◌&&◌,
  ◌||◌, leb, ltb, if◌then◌else◌,
}
use noad.Prelude.Int.{pos}
use noad.CheckLogo.{Rect, new_check_logo}
use noad.Picture.{Gray, check_frame_is_blank, is_bright, is_dim, widen, get_avg_brightness}
use noad.Picture.Blank.{any_pixel, check_frame_is_blank-eq}
use noad.Picture.Histogram.{YuvBuf}
use noad.Picture.Scene.{SceneState, reset_scene_change_detection}
use noad.Picture.Scene.Reports.{reports, changes, reports-eq}
use noad.Picture.Black.{Planes, count_vals, ndetect_black_lines, detect_black_lines}
use noad.Picture.Black.Runs.{IsRun, is_lit_line, ndetect_black_lines-IsRun, detect_black_lines-dark}
use noad.Picture.CheckData.{NoadData, init_buffer, load_check_data, save_check_data}
use noad.Picture.CheckData.Restored.{IsFitted, load_check_data-save_check_data}

abbrev small : Gray
small = record { width = 4; height = 3; bytes = λ i. if ltb i 5 then 90 else 20 }

abbrev no_rect : Rect
no_rect = record { left = pos 99999; top = pos 0; right = pos 0; bottom = pos 0 }

check_frame_is_blank-eq_example :
    check_frame_is_blank small no_rect
    ≡ not (any_pixel (is_bright small (widen no_rect)) 4 3)
      && (not (any_pixel (is_dim small (widen no_rect)) 4 3) || leb (get_avg_brightness small) 35)
check_frame_is_blank-eq_example = check_frame_is_blank-eq small no_rect (omega arith) (omega arith)

abbrev bright_picture : YuvBuf
bright_picture = record { bytes = λ i. 200; line_width = 8 }

abbrev dark_picture : YuvBuf
dark_picture = record { bytes = λ i. 30; line_width = 8 }

abbrev start : SceneState
start = record {
  grab_width = 5;
  grab_height = 4;
  similar_cutoff = 4;
  last_frame_was_scene_change = false;
  histogram = λ i. pos 0;
  last_histogram = λ i. pos 0;
  scene_has_changed = false;
}

reports-eq_example :
    reports (dark_picture ∷ dark_picture ∷ bright_picture ∷ []) (reset_scene_change_detection start)
    ≡ false ∷ true ∷ changes 5 4 4 dark_picture (bright_picture ∷ [])
reports-eq_example =
    reports-eq dark_picture dark_picture (bright_picture ∷ []) start (omega arith) (omega arith)

abbrev empty_data : NoadData
empty_data = record {
  filter_init = pos 80;
  filter_frames = pos 15;
  dif2_pictures = pos 0;
  max_average = pos 0;
  time_interval = pos 0;
  size_x = pos 0;
  size_y = pos 0;
  border_x = pos 0;
  border_y_top = pos 0;
  border_y_bot = pos 0;
  min_average = pos 0;
  check_frames = pos 80;
  logo_corner = pos 1;
  found = true;
  top_lines_to_ignore = pos 0;
  bottom_lines_to_ignore = pos 0;
  check_logo = new_check_logo;
  corner_data = none;
  scene = record start { grab_width = 720; grab_height = 576 };
}

empty_data-IsFitted : IsFitted (init_buffer empty_data)
unfolding init_buffer reset_scene_change_detection
empty_data-IsFitted = record {
  size_x_fits = refl;
  size_y_fits = refl;
  border_x_fits = refl;
  border_y_top_fits = refl;
  border_y_bot_fits = refl;
}

load_check_data-save_check_data_example :
    (r : NoadData) × (load_check_data (save_check_data (init_buffer empty_data)) empty_data
      ≡ some r)
    × (save_check_data r ≡ save_check_data (init_buffer empty_data))
    × (r.check_logo.line_hook ≡ (init_buffer empty_data).check_logo.line_hook)
unfolding init_buffer
load_check_data-save_check_data_example =
    load_check_data-save_check_data (init_buffer empty_data) empty_data empty_data-IsFitted refl
      refl

abbrev letterbox : Planes
letterbox = record {
  y_plane = λ i. if ltb i 24 then 16 else 120;
  u_plane = λ i. 128;
  v_plane = λ i. 128;
  y_width = 4;
  uv_width = 2;
  width = 4;
  height = 24;
}

ndetect_black_lines-IsRun_example :
    (t : ℕ) × (d : ℕ) × (ndetect_black_lines letterbox ≡ (t - 1, d - 1))
    × IsRun (is_lit_line letterbox) 6 0 t
    × IsRun (λ k. is_lit_line letterbox (23 - k)) 5 0 d
ndetect_black_lines-IsRun_example = ndetect_black_lines-IsRun letterbox

detect_black_lines-dark_example :
    let r = detect_black_lines 24 letterbox in
    (r.0 % 2 ≡ 0)
    × (r.1 % 2 ≡ 0)
    × (r.0 + r.1 + 2 ≤ 24)
    × ((k : ℕ) → k < r.0 → count_vals letterbox (8 + k) ≤ 20)
    × ((k : ℕ) → k < r.1 → count_vals letterbox (22 - k) ≤ 20)
    × (r.0 + 2 ≤ 4
        → (20 < count_vals letterbox (8 + r.0)) ⊎ (20 < count_vals letterbox (8 + (r.0 + 1))))
detect_black_lines-dark_example = detect_black_lines-dark 24 letterbox (omega arith)
