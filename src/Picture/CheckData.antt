-- ===== src/Picture/CheckData.antt =====
-- noaddata.cpp: the sizes of the corners, and the file of what was learnt of a logo. The file is the
-- list of its ints; a short file, or a negative picture size or count in it, gives `none`. The
-- buffers of the corners are left out, but for which of them the logo is looked for in.
pub mod Restored
use noad.Prelude.{
  ℕ, ◌/◌, Bool, not, Option, none, some, List, [], ◌∷◌, ◌||◌, ◌==◌, ltb, if◌then◌else◌, ◌>>=◌,
}
use noad.Prelude.Int.{ℤ, pos, negsuc, ◌-ℤ◌, ltb_ℤ}
use noad.CheckLogo.{CheckLogo, new_check_logo}
use noad.CheckLogo.Store.{load, save}
use noad.Picture.Scene.{SceneState, cutoff, reset_scene_change_detection}

-- The grab size and the cutoff are in `scene`.
pub record NoadData : Type 0 where
  pub filter_init : ℤ
  pub filter_frames : ℤ
  pub dif2_pictures : ℤ
  pub max_average : ℤ
  pub time_interval : ℤ
  pub size_x : ℤ
  pub size_y : ℤ
  pub border_x : ℤ
  pub border_y_top : ℤ
  pub border_y_bot : ℤ
  pub min_average : ℤ
  pub check_frames : ℤ
  pub logo_corner : ℤ
  pub found : Bool
  pub top_lines_to_ignore : ℤ
  pub bottom_lines_to_ignore : ℤ
  pub check_logo : CheckLogo
  pub corner_data : Option ℤ
  pub scene : SceneState

-- `if( lines > border ) border = lines - border`.
unfoldable pub border_for : ℤ → ℤ → ℤ
unfolding ◌-ℤ◌
border_for lines border = if ltb_ℤ border lines then lines -ℤ border else border

unfoldable pub init_buffer : NoadData → NoadData
unfolding border_for
init_buffer d =
    let w = d.scene.grab_width in
    record d {
      border_x = pos (w / 32);
      border_y_top = border_for d.top_lines_to_ignore (pos (w / 32));
      border_y_bot = border_for d.bottom_lines_to_ignore (pos (w / 32));
      size_x = pos (w / 5);
      size_y = pos (d.scene.grab_height / 4);
      check_logo = new_check_logo;
      corner_data = none;
      scene = reset_scene_change_detection d.scene;
    }

unfoldable pub set_grab_size : ℕ → ℕ → NoadData → NoadData
unfolding init_buffer
set_grab_size width height d =
    if not (d.scene.grab_width == width) || not (d.scene.grab_height == height)
    then (let d' =
          init_buffer
            (record d { scene = record d.scene { grab_width = width; grab_height = height } }) in
        record d' { scene = record d'.scene { similar_cutoff = cutoff width height } })
    else d

unfoldable pub save_check_data : NoadData → List ℤ
save_check_data d =
    d.filter_init
    ∷ d.filter_frames
    ∷ d.dif2_pictures
    ∷ d.max_average
    ∷ d.time_interval
    ∷ d.size_x
    ∷ d.size_y
    ∷ d.border_x
    ∷ d.border_y_top
    ∷ d.border_y_bot
    ∷ pos d.scene.grab_height
    ∷ pos d.scene.grab_width
    ∷ d.min_average
    ∷ d.check_frames
    ∷ d.logo_corner
    ∷ (if d.found then pos 1 else pos 0)
    ∷ save d.check_logo

-- The switch on m_nLogoCorner.
unfoldable pub corner_for : ℤ → Option ℤ → Option ℤ
corner_for (pos n) old = if ltb n 4 then some (pos n) else old
corner_for (negsuc n) old = old

-- Behind the sizes: m_bFound, the logo, and its corner.
unfoldable pub load_logo : List ℤ → NoadData → Option NoadData
unfolding corner_for
load_logo [] d = none
load_logo (found ∷ xs) d = do
  (c, rest) ← load xs d.check_logo
  some (record d {
    found = ltb_ℤ (pos 0) found;
    check_logo = c;
    corner_data = corner_for d.logo_corner d.corner_data;
  })

-- The ints up to m_nLogoCorner.
pub record Header : Type 0 where
  pub read_into : NoadData → NoadData
  pub grab_height : ℕ
  pub grab_width : ℕ
  pub behind : List ℤ

unfoldable pub load_header : List ℤ → Option Header
load_header (a ∷ b ∷ c ∷ e ∷ t ∷ sx ∷ sy ∷ bx ∷ bt ∷ bb ∷ pos gh ∷ pos gw ∷ ma ∷ cf ∷ lc ∷ xs) =
    some (record {
      read_into = λ d. record d {
        filter_init = a;
        filter_frames = b;
        dif2_pictures = c;
        max_average = e;
        time_interval = t;
        size_x = sx;
        size_y = sy;
        border_x = bx;
        border_y_top = bt;
        border_y_bot = bb;
        min_average = ma;
        check_frames = cf;
        logo_corner = lc;
      };
      grab_height = gh;
      grab_width = gw;
      behind = xs;
    })
load_header xs = none

unfoldable pub load_check_data : List ℤ → NoadData → Option NoadData
unfolding load_header load_logo
load_check_data xs d = do
  h ← load_header xs
  load_logo h.behind (set_grab_size h.grab_width h.grab_height (h.read_into d))
