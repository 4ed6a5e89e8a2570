-- ===== src/Picture/CheckData/Restored.antt =====
-- loadCheckData restores what saveCheckData wrote.
use noad.Prelude.{
  ◌≡◌, refl, ap, Bool, true, false, not, some, List, [], ◌∷◌, ◌++◌, ◌||◌, ◌==◌, if◌then◌else◌,
  Bool-cases, inl, inr, arith,
}
use noad.Prelude.Int.{ℤ, pos, ltb_ℤ}
use mathlib.Core.List.{append-nil}
use noad.CheckLogo.Store.{save, load-save}
use noad.Picture.Scene.{reset_scene_change_detection}
use noad.Picture.CheckData.{
  NoadData, init_buffer, set_grab_size, save_check_data, corner_for, load_logo, load_header,
  load_check_data,
}

-- The sizes are those that initBuffer gives the picture.
pub record IsFitted (d : NoadData) : Type 0 where
  pub size_x_fits : d.size_x ≡ (init_buffer d).size_x
  pub size_y_fits : d.size_y ≡ (init_buffer d).size_y
  pub border_x_fits : d.border_x ≡ (init_buffer d).border_x
  pub border_y_top_fits : d.border_y_top ≡ (init_buffer d).border_y_top
  pub border_y_bot_fits : d.border_y_bot ≡ (init_buffer d).border_y_bot

-- What loadCheckData hands to the logo.
abbrev sized : NoadData → NoadData → NoadData
sized c d = set_grab_size c.scene.grab_width c.scene.grab_height (record d {
  filter_init = c.filter_init;
  filter_frames = c.filter_frames;
  dif2_pictures = c.dif2_pictures;
  max_average = c.max_average;
  time_interval = c.time_interval;
  size_x = c.size_x;
  size_y = c.size_y;
  border_x = c.border_x;
  border_y_top = c.border_y_top;
  border_y_bot = c.border_y_bot;
  min_average = c.min_average;
  check_frames = c.check_frames;
  logo_corner = c.logo_corner;
})

flag-round : (b : Bool) → ltb_ℤ (pos 0) (if b then pos 1 else pos 0) ≡ b
flag-round true = refl
flag-round false = refl

load_logo-save :
    (c d : NoadData)
    → load_logo ((if c.found then pos 1 else pos 0) ∷ save c.check_logo) d
      ≡ some (record d {
        found = c.found;
        check_logo = record d.check_logo {
          n_no_logo = c.check_logo.n_no_logo;
          n_logo = c.check_logo.n_logo;
          line_hook = c.check_logo.line_hook;
          line_offset = pos 0;
        };
        corner_data = corner_for d.logo_corner d.corner_data;
      })
unfolding load_logo
load_logo-save c d =
    rw (← append-nil (save c.check_logo))
      (rw (load-save c.check_logo d.check_logo []) (rw (flag-round c.found) refl))

-- The ints before m_bFound.
abbrev header : NoadData → List ℤ
header d =
    d.filter_init
    ∷ d.filter_frames
    ∷ d.dif2_pictures
    ∷ d.max_average
    ∷ d.time_interval
    ∷ d.size_x
    ∷ d.size_y
    ∷ d.border_x
    ∷ d.border_y_top
    ∷ d.border_y_bot
    ∷ pos d.scene.grab_height
    ∷ pos d.scene.grab_width
    ∷ d.min_average
    ∷ d.check_frames
    ∷ d.logo_corner
    ∷ []

sized-header :
    (c d : NoadData)
    → IsFitted c
    → d.top_lines_to_ignore ≡ c.top_lines_to_ignore
    → d.bottom_lines_to_ignore ≡ c.bottom_lines_to_ignore
    → header (sized c d) ≡ header c
unfolding set_grab_size init_buffer reset_scene_change_detection
sized-header c d v t b =
    elim (Bool-cases (
      not (d.scene.grab_width == c.scene.grab_width)
      || not (d.scene.grab_height == c.scene.grab_height))) [
        | inl e ↦ rw (e, t, b) cc
        | inr e ↦
            let same_w : d.scene.grab_width ≡ c.scene.grab_width = ground arith in
            let same_h : d.scene.grab_height ≡ c.scene.grab_height = ground arith in rw e cc
      ]

-- Where the sizes of the saved data are those that initBuffer computes, and the same number of
-- lines is ignored, what loadCheckData leaves would be saved as the same file, whatever the
-- picture size was before; and the test lines are those that were saved.
pub load_check_data-save_check_data :
    (c d : NoadData)
    → IsFitted c
    → d.top_lines_to_ignore ≡ c.top_lines_to_ignore
    → d.bottom_lines_to_ignore ≡ c.bottom_lines_to_ignore
    → (r : NoadData) × (load_check_data (save_check_data c) d ≡ some r)
      × (save_check_data r ≡ save_check_data c)
      × (r.check_logo.line_hook ≡ c.check_logo.line_hook)
unfolding load_check_data save_check_data load_header save
load_check_data-save_check_data c d v t b = (
  _,
  load_logo-save c (sized c d),
  ap (λ xs. xs ++ ((if c.found then pos 1 else pos 0) ∷ save c.check_logo))
      (sized-header c d v t b),
  refl,
)
