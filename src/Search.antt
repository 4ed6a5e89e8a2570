-- ===== src/Search.antt =====
-- noad.cpp: the search for the logo over the frames of a recording. The decoder with its callback is
-- a parameter: what one call of getNextPicture does to everything that the callbacks change.
pub mod Stable
pub mod LogoState
pub mod LogoChange
pub mod DetectLogo
pub mod Scan
pub mod Detection
mod Tests
use noad.Prelude.{
  ℕ, zero, suc, ◌+◌, Bool, true, false, Option, none, some, not, ◌&&◌, ltb, if◌then◌else◌, ◌≡◌,
}
use noad.Prelude.Int.{ℤ, pos, negsuc, ltb_ℤ}
use noad.IndexFile.{IndexFile, Frame, next_i_frame, noad_get}

-- checkCallback and LogoDetectCallback.
pub data Callback : Type 0 where
  check_callback logo_detect_callback : Callback

-- `picture` is getNextPicture with the callback, extLogoSearch, the frame, and whether the demuxer is
-- reset; `is_logo` is m_pCheckLogo->isLogo, `found` is ndata->m_bFound, and `checked_frames` counts
-- the pictures that the callback took, and `ignore_frames` sets iIgnoreFrames; `re_init` is
-- reInitNoad( 0, 0 ), `load_check_data` is loadCheckData of the logo's file, and `no_logo` resets
-- m_pCheckLogo->isLogo.
pub record Machine (S : Type 0) : Type 0 where
  pub picture : Callback → Bool → ℤ → Bool → S → S
  pub is_logo : S → Bool
  pub found : S → Bool
  pub checked_frames : S → ℕ
  pub no_checked_frames : S → S
  pub ignore_frames : ℕ → S → S
  pub re_init : S → S
  pub load_check_data : S → Bool × S
  pub no_logo : S → S
  pub none_checked : (v : S) → checked_frames (no_checked_frames v) ≡ 0

-- The variables of noad.cpp that the functions below set; `decoding` is iCurrentDecodedFrame.
pub record Search (S : Type 0) : Type 0 where
  pub machine : S
  pub ext_logo_search : Bool
  pub callback : Callback
  pub independent : Bool
  pub decoding : ℕ
  pub cur_index : ℤ
  pub last_i_frame : ℤ

-- `Independent` behind a call of Get, which sets it only for a frame that is there.
unfoldable pub independent_at : IndexFile → ℕ → Bool → Bool
independent_at s i old = elim (noad_get s (pos i)) [ none ↦ old | some f ↦ f.is_independent ]

unfoldable pub show_at : {S : Type 0} → Machine S → ℤ → Bool → Search S → Search S
show_at m i reset v = record v {
  machine = m.picture v.callback v.ext_logo_search i reset v.machine;
}

unfoldable pub show_picture : {S : Type 0} → Machine S → ℕ → Bool → Search S → Search S
unfolding show_at
show_picture m i reset v = show_at m (pos i) reset v

-- What one round of checkLogoState leaves, and its iLastIFrame.
unfoldable pub check_round : {S : Type 0} → Machine S → IndexFile → ℕ → Bool → Search S → Search S
unfolding independent_at show_picture
check_round m s current reset v = show_picture m current reset (record v {
  independent = independent_at s current v.independent;
  decoding = current;
  machine = m.no_checked_frames v.machine;
})

abbrev pub same : Bool → Bool → Bool
same true b = b
same false b = not b

-- `while( iCurrentFrame < Last() && FramesToCheck > 0 )`, with the frames to check left.
unfoldable pub check_loop :
    {S : Type 0} → Machine S → IndexFile → Bool → ℕ → ℕ → Bool → ℕ → Search S → ℕ × Search S
unfolding check_round
check_loop m s state zero current reset last_i v = (0, v)
check_loop m s state (suc n) current reset last_i v =
    let w = check_round m s current reset v in
    let last = if w.independent then current else last_i in
    let rest = check_loop m s state n (current + 1) false last w in
    if ltb_ℤ (pos current) s.last
    then (if same state (m.is_logo w.machine) then rest else (last, w))
    else (0, v)

-- The frame that GetNextIFrame gives, if there is one.
abbrev pub frame_number : Option ℤ → Option ℕ
frame_number (some (pos i)) = some i
frame_number (some (negsuc i)) = none
frame_number none = none

-- checkLogoState behind its GetNextIFrame, with extLogoSearch and the callback put back.
unfoldable pub check_from :
    {S : Type 0} → Machine S → IndexFile → Bool → ℕ → Option ℕ → Search S → ℕ × Search S
unfolding check_loop
check_from m s state n none v = (0, v)
check_from m s state n (some i) v =
    let r =
      check_loop m s state n i true 0
        (record v { ext_logo_search = false; callback = check_callback }) in
    (r.0, record r.1 { ext_logo_search = v.ext_logo_search; callback = v.callback })

-- checkLogoState, with the rounds of GetNextIFrame.
unfoldable pub check_logo_state :
    {S : Type 0} → ℕ → Machine S → IndexFile → Bool → ℤ → ℕ → Search S → Option (ℕ × Search S)
unfolding check_from
check_logo_state fuel m s state i n v = elim (next_i_frame fuel s i true true) [
  | none ↦ none
  | some r ↦ some (check_from m s state n (frame_number r) v)
]

abbrev pub frames_to_check : ℕ
frames_to_check = 3000

-- One round of doLogoDetection up to the call of Get.
unfoldable pub detect_round : {S : Type 0} → Machine S → ℕ → Bool → Search S → Search S
unfolding show_picture
detect_round m current reset v = record (show_picture m current reset v) {
  cur_index = pos (current + 1);
}

-- What a frame that is there sets.
unfoldable pub frame_seen : {S : Type 0} → ℕ → Frame → Search S → Search S
frame_seen current f v = record v {
  independent = f.is_independent;
  last_i_frame = if f.is_independent then pos current else v.last_i_frame;
}

-- `while( curIndex >= 0 && !m_bFound && checkedFrames < FRAMES_TO_CHECK )`, with the rounds left.
unfoldable pub detect_loop :
    {S : Type 0} → ℕ → Machine S → IndexFile → ℕ → Bool → Search S → Option (Bool × Search S)
unfolding detect_round frame_seen
detect_loop zero m s current reset v = none
detect_loop (suc n) m s current reset v =
    let w = detect_round m current reset v in
    let rest =
      λ (f : Frame). detect_loop n m s (current + 1) false (frame_seen (current + 1) f w) in
    if not (m.found v.machine) && ltb (m.checked_frames v.machine) frames_to_check
    then (elim (noad_get s (pos (current + 1))) [ none ↦ some (false, w) | some f ↦ rest f ])
    else some (m.found v.machine, v)

-- doLogoDetection behind its GetNextIFrame, with the callback put back.
unfoldable pub detect_from :
    {S : Type 0} → ℕ → Machine S → IndexFile → Option ℕ → Search S → Option (Bool × Search S)
unfolding detect_loop
detect_from n m s none v =
    some (m.found v.machine, record v { cur_index = negsuc 0; last_i_frame = negsuc 0 })
detect_from n m s (some i) v =
    elim (detect_loop n m s i true
      (record v { callback = logo_detect_callback; cur_index = pos i; last_i_frame = pos i })) [
        | none ↦ none
        | some r ↦ some (r.0, record r.1 { callback = v.callback })
      ]

-- doLogoDetection, with the rounds of GetNextIFrame and of the loop.
unfoldable pub do_logo_detection :
    {S : Type 0} → ℕ → ℕ → Machine S → IndexFile → ℤ → Search S → Option (Bool × Search S)
unfolding detect_from
do_logo_detection fuel n m s i v = elim (next_i_frame fuel s i true true) [
  | none ↦ none
  | some r ↦ detect_from n m s (frame_number r) v
]
