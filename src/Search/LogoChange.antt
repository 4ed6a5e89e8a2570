-- ===== src/Search/LogoChange.antt =====
-- findLogoChange of noad.cpp: the search for the next frame where the logo comes or goes.
pub mod Block
pub mod Ends
pub mod Answer
use noad.Prelude.{
  ℕ, zero, suc, ◌+◌, ◌*◌, Bool, true, false, Option, none, some, not, ◌&&◌, ◌==◌, ltb,
  if◌then◌else◌,
}
use noad.Prelude.Int.{ℤ, pos, negsuc, ◌+ℤ◌, ◌-ℤ◌, ltb_ℤ, leb_ℤ, eqb_ℤ}
use noad.IndexFile.{IndexFile, Frame, next_i_frame, noad_get}
use noad.Search.{Machine, Search, check_callback, independent_at, show_picture, check_logo_state}

-- The result of GetNextIFrame, which is -1 without a frame.
abbrev pub int_of : Option ℤ → ℤ
int_of none = negsuc 0
int_of (some i) = i

abbrev pub non_negative : ℤ → ℤ
non_negative (pos i) = pos i
non_negative (negsuc i) = pos 0

abbrev pub independence : Bool → Option Frame → Bool
independence old none = old
independence old (some f) = f.is_independent

-- getIFrameFor, with the rounds of GetNextIFrame; `garbage` is what the local Independent holds
-- where Get fails.
unfoldable pub i_frame_for : ℕ → IndexFile → Bool → ℤ → Option ℤ
i_frame_for fuel s garbage i =
    if independence garbage (noad_get s i)
    then some (non_negative i)
    else (elim (next_i_frame fuel s i true true) [ none ↦ none | some o ↦ some (int_of o) ])

abbrev pub frames_of_block : ℕ
frames_of_block = 10

-- One picture of a block.
unfoldable pub block_round : {S : Type 0} → Machine S → IndexFile → ℕ → Bool → Search S → Search S
unfolding show_picture independent_at
block_round m s c reset v =
    let w = show_picture m c reset (record v { decoding = c }) in
    let independent = independent_at s c w.independent in
    record w {
      independent = independent;
      last_i_frame = if independent then pos c else w.last_i_frame;
    }

-- `while( checkedFrames < FRAMESTOCHECK && iCurrentFrame < Last() )`, with the rounds left: the
-- frame, whether the demuxer is reset next, and the rest.
unfoldable pub block_loop :
    {S : Type 0} → ℕ → Machine S → IndexFile → ℕ → Bool → Search S → Option (ℕ × Bool × Search S)
unfolding block_round
block_loop zero m s c reset v = none
block_loop (suc n) m s c reset v =
    elim (ltb (m.checked_frames v.machine) frames_of_block && ltb_ℤ (pos c) s.last) [
      | false ↦ some (c, reset, v)
      | true ↦ block_loop n m s (c + 1) false (block_round m s c reset v)
    ]

-- What does not change in the loop: the state that is left, FramesToSkip, repeatCheckframes, and
-- iEndFrame; `rounds` is for the loops over the frames.
pub record Plan : Type 0 where
  pub state : ℤ
  pub skip : ℕ
  pub repeat : ℕ
  pub end_frame : ℤ
  pub rounds : ℕ

abbrev pub int_of_state : Bool → ℤ
int_of_state true = pos 1
int_of_state false = pos 0

-- The result, the frame that iCurrentFrame refers to, and what else is set.
pub record Change (S : Type 0) : Type 0 where
  pub answer : ℤ
  pub frame : ℤ
  pub search : Search S

-- How a round goes on: with a result, or with a frame and whether the demuxer is reset.
pub data Next (S : Type 0) : Type 0 where
  answered : Change S → Next S
  frame_at : ℤ → Bool → Search S → Next S

-- The end of a round: the end of the recording, or the skip.
unfoldable pub skip_frames :
    {S : Type 0} → Machine S → IndexFile → Plan → ℤ → Bool → Search S → Option (Next S)
skip_frames m s p cur reset v =
    if leb_ℤ s.last (cur +ℤ pos p.skip)
    then some (answered (record { answer = p.state; frame = cur; search = v }))
    else (if ltb 1 p.skip
        then (elim (next_i_frame p.rounds s (cur +ℤ pos p.skip) true true) [
          | none ↦ none
          | some o ↦ some (
              frame_at (int_of o) true (record v {
                last_i_frame = int_of o;
                independent = true;
                machine = m.ignore_frames 5 v.machine;
              }))
        ])
        else some (frame_at cur reset v))

abbrev pub verdict_at : {S : Type 0} → Machine S → ℕ → Search S → Next S
verdict_at m c w =
    answered (record { answer = int_of_state (m.is_logo w.machine); frame = pos c; search = w })

-- The verdict of a block against the state, with the check that the new state is stable.
unfoldable pub judge :
    {S : Type 0} → Machine S → IndexFile → Plan → ℕ → Bool → Search S → Option (Next S)
unfolding skip_frames check_logo_state
judge m s p c reset v =
    let logo = m.is_logo v.machine in
    if eqb_ℤ p.state (int_of_state logo)
    then skip_frames m s p (pos c) reset v
    else (if p.repeat == 0
        then some (verdict_at m c v)
        else (elim (check_logo_state p.rounds m s logo (pos c) p.repeat v) [
          | none ↦ none
          | some r ↦
              if r.0 == 0
              then some (verdict_at m c r.1)
              else skip_frames m s p (pos r.0 -ℤ pos p.skip) true r.1
        ]))

-- A round of the outer loop from a frame that is not negative.
unfoldable pub change_round :
    {S : Type 0} → Machine S → IndexFile → Plan → ℕ → Bool → Search S → Option (Next S)
unfolding block_loop judge
change_round m s p c reset v =
    elim (block_loop p.rounds m s c reset (record v { machine = m.no_checked_frames v.machine })) [
      | none ↦ none
      | some (c', reset', w) ↦ judge m s p c' reset' w
    ]

-- The answers behind the loop.
unfoldable pub run_out : {S : Type 0} → Plan → ℤ → Search S → Change S
run_out p cur v = record {
  answer = if leb_ℤ p.end_frame cur then negsuc 1 else negsuc 0;
  frame = cur;
  search = v;
}

-- `while( iCurrentFrame < Last() && iCurrentFrame >= 0 && iCurrentFrame < iEndFrame )`, with the
-- rounds left.
unfoldable pub change_loop :
    {S : Type 0} → ℕ → Machine S → IndexFile → Plan → ℤ → Bool → Search S → Option (Change S)
unfolding change_round run_out
change_loop zero m s p cur reset v = none
change_loop (suc n) m s p (negsuc c) reset v = some (run_out p (negsuc c) v)
change_loop (suc n) m s p (pos c) reset v =
    elim (ltb_ℤ (pos c) s.last && ltb_ℤ (pos c) p.end_frame) [
      | false ↦ some (run_out p (pos c) v)
      | true ↦ elim (change_round m s p c reset v) [
        | none ↦ none
        | some (answered r) ↦ some r
        | some (frame_at cur reset' w) ↦ change_loop n m s p cur reset' w
      ]
    ]

-- Of the program: framespersec as a whole number, logoJumpDetection, isNelonen, bReUseLogo and
-- markComments.
pub record Options : Type 0 where
  pub rate : ℕ
  pub logo_jump_detection : Bool
  pub is_nelonen : Bool
  pub reuse_logo : Bool
  pub mark_comments : Bool

abbrev pub frames_per_minute : Options → ℕ
frames_per_minute o = o.rate * 60

-- CHANGE_SEARCH_BREAK.
abbrev pub search_break : Options → ℕ
search_break o = frames_per_minute o * 15

abbrev pub plan_for : Options → ℕ → IndexFile → ℤ → ℕ → ℕ → ℤ → Plan
plan_for o n s state skip repeat cur = record {
  state = state;
  skip = skip;
  repeat = repeat;
  end_frame = if eqb_ℤ state (pos 0) then cur +ℤ pos (search_break o) else s.last;
  rounds = n;
}

-- What findLogoChange sets before its loop.
abbrev pub prepared : {S : Type 0} → Options → Machine S → ℤ → ℤ → Search S → Search S
prepared o m state cur v = record v {
  ext_logo_search = if o.logo_jump_detection then not (eqb_ℤ state (pos 1)) else v.ext_logo_search;
  callback = check_callback;
  last_i_frame = cur;
  independent = true;
  machine = m.ignore_frames 5 v.machine;
}

-- The callback is put back.
abbrev pub put_back : {S : Type 0} → Search S → Option (Change S) → Option (Change S)
put_back v none = none
put_back v (some r) = some (record r { search = record r.search { callback = v.callback } })

-- findLogoChange from the frame that getIFrameFor gives.
unfoldable pub change_from :
    {S : Type 0}
    → Options
    → ℕ
    → Machine S
    → IndexFile
    → ℤ
    → ℕ
    → ℕ
    → ℤ
    → Search S
    → Option (Change S)
unfolding change_loop
change_from o n m s state skip repeat cur v =
    put_back v
      (change_loop n m s (plan_for o n s state skip repeat cur) cur true (prepared o m state cur v))

-- findLogoChange.
unfoldable pub find_logo_change :
    {S : Type 0}
    → Options
    → ℕ
    → Machine S
    → IndexFile
    → Bool
    → ℤ
    → ℤ
    → ℕ
    → ℕ
    → Search S
    → Option (Change S)
unfolding i_frame_for change_from
find_logo_change o n m s garbage state i skip repeat v = elim (i_frame_for n s garbage i) [
  | none ↦ none
  | some cur ↦ change_from o n m s state skip repeat cur v
]
