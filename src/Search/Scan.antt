-- ===== src/Search/Scan.antt =====
-- The main loop of scanRecord of noad.cpp: the search from change to change, and the marks it sets.
pub mod Round
pub mod Ends
pub mod Last
use noad.Prelude.{
  ℕ, zero, suc, ◌+◌, ◌*◌, ◌/◌, ◌%◌, Bool, true, false, Option, none, some, not, ◌&&◌, ◌==◌,
  if◌then◌else◌, length,
}
use noad.Prelude.Int.{ℤ, pos, negsuc, ◌+ℤ◌, ◌-ℤ◌, ltb_ℤ, leb_ℤ, eqb_ℤ, pos_part}
use Prim.Native.String.{String}
use noad.IndexFile.{IndexFile, next_i_frame}
use noad.Search.{Machine, Search}
use noad.Search.LogoChange.{
  int_of, Options, frames_per_minute, search_break, Change, find_logo_change,
}
use noad.Search.DetectLogo.{with_machine, detect_logo}
use noad.Marks.{Marks, add}
use noad.Marks.Session.{Session, mark_toggle}

-- What the loop does not change; `garbage` is for getIFrameFor, `rounds` for the loops below.
pub record Record (S : Type 0) : Type 0 where
  pub options : Options
  pub machine : Machine S
  pub index : IndexFile
  pub garbage : Bool
  pub rounds : ℕ

-- iCurrentFrame, iStopFrame, iRestartFrame, iState, and what the calls change.
pub record Scan (S : Type 0) : Type 0 where
  pub cur : ℤ
  pub stop : ℤ
  pub restart : ℤ
  pub state : ℤ
  pub search : Search S
  pub session : Session

-- BIGSTEP, SMALLSTEP, LOGOSTABLETIME.
abbrev pub big_step : Options → ℕ
big_step o = 15 * o.rate

abbrev pub small_step : ℕ
small_step = 1

abbrev pub stable_time : Options → ℕ
stable_time o = 40 * o.rate

-- findLogoChange with the variables of the loop.
abbrev pub find_change : {S : Type 0} → Record S → ℤ → ℤ → ℕ → ℕ → Search S → Option (Change S)
find_change r state cur skip repeat v =
    find_logo_change r.options r.rounds r.machine r.index r.garbage state cur skip repeat v

-- Back from a change: two big steps, half a step on again before iStopFrame, and not before it.
unfoldable pub stepped_back : Options → ℤ → ℤ → ℤ
stepped_back o stop cur =
    let a = cur -ℤ pos (big_step o * 2) in
    let b = if ltb_ℤ a stop then a +ℤ pos (big_step o / 2) else a in
    if ltb_ℤ b stop then stop else b

-- For how many frames a new state must be stable.
unfoldable pub time_for : Options → ℤ → ℕ
time_for o state =
    if o.is_nelonen
    then (if eqb_ℤ state (pos 1) then stable_time o else stable_time o / 2)
    else (if eqb_ℤ state (pos 1) then stable_time o else 0)

-- iLastLogoFrame.
unfoldable pub last_logo_frame : {S : Type 0} → Record S → ℤ → ℤ → Option ℤ
last_logo_frame r state last_i =
    if r.options.is_nelonen
    then (elim (next_i_frame r.rounds r.index
        (if eqb_ℤ state (pos 0) then last_i +ℤ pos 72 else last_i -ℤ pos 1) false true) [
          | none ↦ none
          | some o ↦ some (int_of o)
        ])
    else some last_i

abbrev pub comment_for : ℤ → Option String
comment_for state = if eqb_ℤ state (pos 0) then some "Logo lost" else some "Logo start"

-- The mark for a change that the search in small steps confirms.
unfoldable pub toggled : {S : Type 0} → Record S → ℤ → ℤ → ℤ → Session → Option Session
unfolding last_logo_frame mark_toggle
toggled r old state last_i s =
    if leb_ℤ (pos 0) state && not (eqb_ℤ state old)
    then (elim (last_logo_frame r state last_i) [
      | none ↦ none
      | some p ↦ some (mark_toggle r.options.mark_comments p (comment_for state) s)
    ])
    else some s

-- `iStopFrame = iCurrentFrame = iCurrentFrame+1`.
unfoldable pub next_scan : {S : Type 0} → ℤ → ℤ → Search S → Session → Scan S → Scan S
next_scan cur state v marks sc = record {
  cur = cur +ℤ pos 1;
  stop = cur +ℤ pos 1;
  restart = sc.restart;
  state = state;
  search = v;
  session = marks;
}

-- The search in small steps, after a change to `state`.
unfoldable pub narrowed : {S : Type 0} → Record S → Scan S → ℤ → ℤ → Search S → Option (Scan S)
unfolding stepped_back time_for toggled next_scan
narrowed r sc state cur v =
    elim (find_change r sc.state (stepped_back r.options sc.stop cur) small_step
      (time_for r.options state) v) [
        | none ↦ none
        | some c ↦ elim (toggled r sc.state c.answer c.search.last_i_frame sc.session) [
          | none ↦ none
          | some marks ↦ some (next_scan c.frame c.answer c.search marks sc)
        ]
      ]

-- `iState != iOldState && iState != -1`, and the end of a round.
unfoldable pub judged : {S : Type 0} → Record S → Scan S → ℤ → ℤ → Search S → Option (Scan S)
unfolding narrowed
judged r sc state cur v =
    if not (eqb_ℤ state sc.state) && not (eqb_ℤ state (negsuc 0))
    then narrowed r sc state cur v
    else some (next_scan cur state v sc.session sc)

-- A logo was found again: the loop goes on from the same frame.
unfoldable pub restarted : {S : Type 0} → Record S → Scan S → Search S → Scan S
restarted r sc v = record {
  cur = sc.cur;
  stop = sc.stop;
  restart = sc.cur;
  state = pos 0;
  search = with_machine v (r.machine.no_logo v.machine);
  session = sc.session;
}

-- No logo for a long time, with the frame of the search: a jump, or the search for another logo.
unfoldable pub long_without : {S : Type 0} → Record S → Scan S → ℕ → ℤ → Search S → Option (Scan S)
unfolding judged restarted detect_logo
long_without r sc start cur v =
    if eqb_ℤ sc.restart sc.cur
    then judged r sc sc.state (sc.cur +ℤ pos (search_break r.options)) v
    else (elim (detect_logo r.rounds r.options r.machine r.index
        (start + frames_per_minute r.options * 5) v) [
          | none ↦ none
          | some (false, w) ↦ judged r sc (negsuc 0) cur w
          | some (true, w) ↦ some (restarted r sc w)
        ])

-- A round from the frame `start`.
unfoldable pub scan_round : {S : Type 0} → Record S → Scan S → ℕ → Option (Scan S)
unfolding long_without judged
scan_round r sc start = elim (find_change r sc.state sc.cur (big_step r.options) 0 sc.search) [
  | none ↦ none
  | some c ↦
      if eqb_ℤ c.answer (negsuc 1)
      then long_without r sc start c.frame c.search
      else judged r sc c.answer c.frame c.search
]

abbrev pub goes_on : {S : Type 0} → Record S → Scan S → Bool
goes_on r sc = ltb_ℤ sc.cur r.index.last && leb_ℤ (pos 0) sc.cur && not (eqb_ℤ sc.state (negsuc 0))

-- `while( iCurrentFrame < Last() && iCurrentFrame >= 0 && iState != -1 )`, with the rounds left.
unfoldable pub scan_loop : {S : Type 0} → ℕ → Record S → Scan S → Option (Scan S)
unfolding scan_round
scan_loop zero r sc = none
scan_loop (suc n) r sc = elim (goes_on r sc) [
  | false ↦ some sc
  | true ↦ elim (scan_round r sc (pos_part sc.cur)) [ none ↦ none | some sc' ↦ scan_loop n r sc' ]
]

-- The loop from the start.
abbrev pub first_scan : {S : Type 0} → Search S → Session → Scan S
first_scan v marks = record {
  cur = pos 0;
  stop = pos 0;
  restart = pos 0;
  state = pos 0;
  search = v;
  session = marks;
}

-- `if( pmarks->Count() & 1 )`: a mark on the last I frame. The comment that it gets with
-- `markComments` is left out.
unfoldable pub last_mark : ℕ → IndexFile → Marks → Option Marks
unfolding add
last_mark n s ms =
    if (length ms.items % 2) == 1
    then (elim (next_i_frame n s s.last false true) [
      | none ↦ none
      | some o ↦ some ((add (int_of o) ms).0)
    ])
    else some ms
