-- ===== src/Search/DetectLogo.antt =====
-- checkLogo and detectLogo of noad.cpp: the search for a logo, and the test of it at other places of
-- the recording.
pub mod Tried
use noad.Prelude.{
  ℕ, zero, suc, ◌+◌, ◌*◌, Bool, true, false, Option, none, some, ◌&&◌, ◌==◌, ltb, leb,
  if◌then◌else◌, List, [], ◌∷◌,
}
use noad.Prelude.Int.{ℤ, pos, negsuc, ◌+ℤ◌, ◌-ℤ◌, pos_part}
use noad.IndexFile.{IndexFile, next_i_frame}
use noad.Search.{Machine, Search, check_callback, show_at, do_logo_detection}
use noad.Search.LogoChange.{int_of, Options, frames_per_minute}

-- CHECKLOGO_FRAMES, CHECKLOGO_BLOCKS, CHECKLOGO_BLOCKFRAMES.
abbrev pub logo_frames : ℕ
logo_frames = 250

abbrev pub logo_blocks : ℕ
logo_blocks = 10

abbrev pub block_frames : ℕ
block_frames = 50

-- CHECKLOGO_DIST.
abbrev pub logo_dist : Options → ℕ
logo_dist o = 5 * frames_per_minute o

abbrev pub one_if : Bool → ℕ
one_if true = 1
one_if false = 0

-- One picture of a block; iCurrentDecodedFrame is not negative, since the index is -1 or more.
unfoldable pub logo_picture : {S : Type 0} → Machine S → ℤ → ℕ → Bool → Search S → Search S
unfolding show_at
logo_picture m i ii reset v = record (show_at m (i +ℤ pos ii -ℤ pos 1) reset v) {
  decoding = pos_part (i +ℤ pos ii);
}

-- `for( ii = 1; ii <= CHECKLOGO_BLOCKFRAMES && iLogosFound < CHECKLOGO_FRAMES; ii++ )`, with the
-- rounds left.
unfoldable pub pictures_loop :
    {S : Type 0} → Machine S → ℤ → ℕ → ℕ → Bool → ℕ → Search S → ℕ × Search S
unfolding logo_picture
pictures_loop m i zero ii reset found v = (found, v)
pictures_loop m i (suc k) ii reset found v =
    let w = logo_picture m i ii reset v in
    let rest = pictures_loop m i k (ii + 1) false (found + one_if (m.is_logo w.machine)) w in
    if ltb found logo_frames then rest else (found, v)

-- `for( i = 0; i < CHECKLOGO_BLOCKS && iLogosFound < CHECKLOGO_FRAMES; i++ )`, with the rounds of
-- GetNextIFrame and the blocks left.
unfoldable pub blocks_loop :
    {S : Type 0}
    → ℕ
    → Options
    → Machine S
    → IndexFile
    → ℕ
    → ℤ
    → ℕ
    → Search S
    → Option (ℕ × Search S)
unfolding pictures_loop
blocks_loop fuel o m s zero i found v = some (found, v)
blocks_loop fuel o m s (suc k) i found v = elim (ltb found logo_frames) [
  | false ↦ some (found, v)
  | true ↦
      let r = pictures_loop m i block_frames 1 true found v in
      elim (next_i_frame fuel s (i +ℤ pos (logo_dist o)) true true) [
        | none ↦ none
        | some j ↦ blocks_loop fuel o m s k (int_of j) r.0 r.1
      ]
]

-- Whether enough logos are found, with the callback put back.
abbrev pub enough : {S : Type 0} → Search S → Option (ℕ × Search S) → Option (Bool × Search S)
enough v none = none
enough v (some r) = some (leb logo_frames r.0, record r.1 { callback = v.callback })

-- checkLogo.
unfoldable pub check_logo :
    {S : Type 0} → ℕ → Options → Machine S → IndexFile → ℤ → Search S → Option (Bool × Search S)
unfolding blocks_loop
check_logo fuel o m s i v = elim (next_i_frame fuel s i true true) [
  | none ↦ none
  | some j ↦
      enough v
        (blocks_loop fuel o m s logo_blocks (int_of j) 0 (record v { callback = check_callback }))
]

abbrev pub with_machine : {S : Type 0} → Search S → S → Search S
with_machine v x = record v { machine = x }

-- iAStartpos, in minutes.
abbrev pub start_minutes : List ℕ
start_minutes = 0 ∷ 8 ∷ 16 ∷ 32 ∷ 5 ∷ 10 ∷ 15 ∷ 20 ∷ 25 ∷ 30 ∷ []

-- The loop over the places of iAStartpos.
unfoldable pub detect_parts :
    {S : Type 0}
    → ℕ
    → Options
    → Machine S
    → IndexFile
    → ℕ
    → List ℕ
    → Search S
    → Option (Bool × Search S)
unfolding check_logo do_logo_detection
detect_parts n o m s start [] v = some (false, v)
detect_parts n o m s start (p ∷ ps) v =
    let at = pos (p * frames_per_minute o + start) in
    elim (do_logo_detection n n m s at (with_machine v (m.re_init v.machine))) [
      | none ↦ none
      | some (false, w) ↦ detect_parts n o m s start ps w
      | some (true, w) ↦ elim (check_logo n o m s at w) [
        | none ↦ none
        | some (true, u) ↦ some (true, u)
        | some (false, u) ↦ detect_parts n o m s start ps u
      ]
    ]

-- The new scan for a logo; the sums of black lines are reset in reInitNoad too.
unfoldable pub new_scan :
    {S : Type 0} → ℕ → Options → Machine S → IndexFile → ℕ → Search S → Option (Bool × Search S)
unfolding detect_parts
new_scan n o m s start v =
    detect_parts n o m s start start_minutes (with_machine v (m.no_checked_frames v.machine))

-- Behind loadCheckData: a logo that was loaded is tried, and without success there is a new scan.
unfoldable pub reused :
    {S : Type 0}
    → ℕ
    → Options
    → Machine S
    → IndexFile
    → ℕ
    → Search S
    → Bool × S
    → Option (Bool × Search S)
unfolding new_scan check_logo
reused n o m s start v (false, x) = new_scan n o m s start (with_machine v x)
reused n o m s start v (true, x) = elim (check_logo n o m s (pos 0) (with_machine v x)) [
  | none ↦ none
  | some (true, w) ↦ some (true, w)
  | some (false, w) ↦ new_scan n o m s start w
]

-- detectLogo.
unfoldable pub detect_logo :
    {S : Type 0} → ℕ → Options → Machine S → IndexFile → ℕ → Search S → Option (Bool × Search S)
unfolding new_scan reused
detect_logo n o m s start v =
    let fresh = m.re_init v.machine in
    elim (o.reuse_logo && (start == 0)) [
      | false ↦ new_scan n o m s start (with_machine v fresh)
      | true ↦ reused n o m s start v (m.load_check_data fresh)
    ]
