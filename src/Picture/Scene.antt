-- ===== src/Picture/Scene.antt =====
-- noaddata.cpp: CheckSceneHasChanged, which compares each picture with the one before.
pub mod Reports
use noad.Prelude.{ℕ, ◌*◌, ◌/◌, Bool, true, false, not, ◌==◌, ◌||◌, if◌then◌else◌}
use noad.Prelude.Int.{pos, negsuc, eqb_ℤ}
use noad.Picture.Histogram.{YuvBuf, Histogram, get_histogram, are_similar}

pub record SceneState : Type 0 where
  pub grab_width : ℕ
  pub grab_height : ℕ
  pub similar_cutoff : ℕ
  pub last_frame_was_scene_change : Bool
  pub histogram : Histogram
  pub last_histogram : Histogram
  pub scene_has_changed : Bool

-- `(int)(m_nGrabWidth * m_nGrabHeight / 4 * .91)`; the product is rounded down.
unfoldable pub cutoff : ℕ → ℕ → ℕ
cutoff width height = width * height / 4 * 91 / 100

-- memset with 0, and then -1 as the first count.
unfoldable pub fresh_histogram : Histogram
fresh_histogram i = if i == 0 then negsuc 0 else pos 0

unfoldable pub reset_scene_change_detection : SceneState → SceneState
unfolding fresh_histogram
reset_scene_change_detection s = record s {
  last_frame_was_scene_change = false;
  last_histogram = fresh_histogram;
  histogram = fresh_histogram;
  scene_has_changed = false;
}

-- From `memcpy(lastHistogram, histogram, …)` on, with the histogram of the current picture.
unfoldable pub compare_scene : SceneState → Histogram → SceneState × Bool
compare_scene s now =
    if s.last_frame_was_scene_change
    then (record s { histogram = now; last_histogram = now; scene_has_changed = false }, false)
    else (if not (are_similar (pos s.similar_cutoff) now s.histogram)
        then (record s { histogram = now; last_histogram = now; scene_has_changed = true }, true)
        else (
          record s { histogram = now; last_histogram = s.histogram; scene_has_changed = false },
          false,
        ))

unfoldable pub check_scene_has_changed : YuvBuf → SceneState → SceneState × Bool
check_scene_has_changed f s =
    let now = get_histogram s.grab_width s.grab_height f in
    if s.grab_width == 0 || s.grab_height == 0
    then (record s { scene_has_changed = false }, false)
    else (if eqb_ℤ (s.last_histogram 0) (negsuc 0)
        then (record s { last_histogram = now; scene_has_changed = false }, false)
        else compare_scene s now)
