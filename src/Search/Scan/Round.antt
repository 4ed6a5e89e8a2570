-- ===== src/Search/Scan/Round.antt =====
-- A round of the main loop of scanRecord goes on.
use noad.Prelude.{
  ℕ, suc, ◌+◌, ◌*◌, ◌/◌, ◌≤◌, ◌<◌, ◌≡◌, refl, ◌∙◌, sym, ap, subst, arith, Bool, true, false, Option,
  none, some, not, ◌&&◌, if◌then◌else◌, length, if_rule, inl, inr, ◌⊎◌, List,
}
use noad.Prelude.Int.{
  ℤ, pos, negsuc, ◌+ℤ◌, ◌-ℤ◌, ltb_ℤ, leb_ℤ, eqb_ℤ, ◌≤ℤ◌, ◌<ℤ◌, +ℤ_parts, eq_of_parts,
}
use noad.IndexFile.{Entry, next_i_frame}
use noad.IndexFile.NextFrame.{next_i_frame_back}
use noad.Search.{Search}
use noad.Search.LogoChange.{
  int_of, Options, frames_per_minute, search_break, plan_for, Change, find_logo_change,
}
use noad.Search.LogoChange.Ends.{Means, kept, run_off, overdue, turned}
use noad.Search.LogoChange.Answer.{find_logo_change-Means}
use noad.Search.DetectLogo.{detect_logo}
use noad.Search.DetectLogo.Tried.{detect_logo-Settled}
use noad.Search.Scan.{
  Record, Scan, big_step, small_step, find_change, stepped_back, time_for, last_logo_frame,
  comment_for, toggled, next_scan, narrowed, judged, restarted, long_without, scan_round,
}
use noad.Marks.Session.{Session}
use noad.Marks.Session.Invariant.{IsValid}
use noad.Marks.Session.Toggle.{mark_toggle-IsValid}

-- Before iStopFrame the steps back do not go.
stepped_back-from : (o : Options) (stop cur : ℤ) → stop ≤ℤ stepped_back o stop cur
unfolding stepped_back
stepped_back-from o stop cur =
    let a = cur -ℤ pos (big_step o * 2) in
    let b = if ltb_ℤ a stop then a +ℤ pos (big_step o / 2) else a in
    if_rule (λ c. stop ≤ℤ c) (ltb_ℤ b stop) (λ _. omega arith) (λ off. ground (arith, off))

-- The answers of findLogoChange, for the loop.
data Went {S : Type 0} (start : ℕ) (c : Change S) : Type 0 where
  on : pos start ≤ℤ c.frame → Went start c
  over : c.answer ≡ negsuc 0 → Went start c

-- How a round from `start` leaves the loop: with the state -1, further on, or at the same frame,
-- once, with another logo.
pub data Left {S : Type 0} (sc : Scan S) (start : ℕ) (sc' : Scan S) : Type 0 where
  finished : sc'.state ≡ negsuc 0 → Left sc start sc'
  forward : (c : ℕ) → sc'.cur ≡ pos c → sc'.stop ≡ pos c → start < c → Left sc start sc'
  again :
      eqb_ℤ sc.restart sc.cur ≡ false
      → sc'.cur ≡ sc.cur
      → sc'.stop ≡ sc.stop
      → sc'.restart ≡ sc.cur
      → Left sc start sc'

abbrev pub Leaves : {S : Type 0} → Scan S → ℕ → Option (Scan S) → Type 0
Leaves {S = S} sc start x =
    (sc' : Scan S) × (x ≡ some sc') × Left sc start sc' × IsValid sc'.session.marks

module _ {S : Type 0} (r : Record S) (es : List Entry) (n : ℕ) (index_is : r.index.index ≡ some es)
    (held : r.index.last <ℤ pos (length es)) (few : r.index.last ≤ℤ pos n)
    (rounds_are : r.rounds ≡ suc n) (frames : 0 < r.options.rate)
    (starts : pos 0 ≤ℤ r.index.last) where
  end_frame_from :
      (state : ℤ) (skip repeat start : ℕ) (cur : ℤ)
      → (cur ≡ negsuc 0) ⊎ (pos start ≤ℤ cur)
      → pos 0 ≤ℤ (plan_for r.options (suc n) r.index state skip repeat cur).end_frame
  end_frame_from state skip repeat start cur h =
      if_rule (λ e. pos 0 ≤ℤ e) (eqb_ℤ state (pos 0)) (λ _. later h) (λ _. starts)
    where
      later : (cur ≡ negsuc 0) ⊎ (pos start ≤ℤ cur) → pos 0 ≤ℤ cur +ℤ pos (search_break r.options)
      later (inl e) =
          subst (λ c. pos 0 ≤ℤ c +ℤ pos (search_break r.options)) (sym e)
            (omega (arith, +ℤ_parts (negsuc 0) (pos (search_break r.options))))
      later (inr le) = omega (arith, le, +ℤ_parts cur (pos (search_break r.options)))

  Means-Went :
      (state : ℤ) (skip repeat start : ℕ) (cur : ℤ) (c : Change S)
      → (cur ≡ negsuc 0) ⊎ (pos start ≤ℤ cur)
      → Means r.machine r.index es
          (plan_for r.options (suc n) r.index state skip repeat cur)
          start
          c
      → Went start c
  Means-Went state skip repeat start cur c h (kept e l f) = on f
  Means-Went state skip repeat start cur c h (run_off e f) = over e
  Means-Went state skip repeat start cur c h (overdue e l (inr f)) = on f
  Means-Went state skip repeat start cur c h (overdue e l (inl f)) =
      absurd (omega (arith, l, f, end_frame_from state skip repeat start cur h))
  Means-Went state skip repeat start cur c h (turned logo k e d f l w) =
      on (subst (λ z. pos start ≤ℤ z) (sym f) (omega arith))

  find_change-Went :
      (state : ℤ) (start skip repeat : ℕ) (v : Search S)
      → (c : Change S) × (find_change r state (pos start) skip repeat v ≡ some c) × Went start c
  find_change-Went state start skip repeat v =
      let (cur, c, _, h, at, _, means) =
        find_logo_change-Means r.options r.machine r.index es n state skip repeat v index_is held
          few r.garbage start in
      let at' : find_change r state (pos start) skip repeat v ≡ some c =
        ap
          (λ k.
            find_logo_change r.options k r.machine r.index r.garbage state (pos start) skip repeat
              v)
          rounds_are
        ∙ at in
      (c, at', Means-Went state skip repeat start cur c h means)

  last_logo_frame-some : (state last_i : ℤ) → (p : ℤ) × (last_logo_frame r state last_i ≡ some p)
  unfolding last_logo_frame
  last_logo_frame-some state last_i =
      if_rule (λ (x : Option ℤ). (p : ℤ) × (x ≡ some p)) r.options.is_nelonen
        (λ on.
          let i = if eqb_ℤ state (pos 0) then last_i +ℤ pos 72 else last_i -ℤ pos 1 in
          let (o, at) = next_i_frame_back r.index es i true n index_is few in
          let at' : next_i_frame r.rounds r.index i false true ≡ some o =
            ap (λ k. next_i_frame k r.index i false true) rounds_are ∙ at in
          rw at' (int_of o, refl))
        (λ off. (last_i, refl))

  toggled-IsValid :
      (old state last_i : ℤ) (s : Session)
      → IsValid s.marks
      → (s' : Session) × (toggled r old state last_i s ≡ some s') × IsValid s'.marks
  unfolding toggled
  toggled-IsValid old state last_i s v =
      if_rule (λ (x : Option Session). (s' : Session) × (x ≡ some s') × IsValid s'.marks)
        (leb_ℤ (pos 0) state && not (eqb_ℤ state old))
        (λ on.
          let (p, at) = last_logo_frame-some state last_i in
          rw at
            (_, refl, (mark_toggle-IsValid r.options.mark_comments p (comment_for state) s v).0))
        (λ off. (s, refl, v))

  next_scan-Left :
      (sc : Scan S) (start : ℕ) (cur state : ℤ) (v : Search S) (marks : Session)
      → pos start ≤ℤ cur
      → Left sc start (next_scan cur state v marks sc)
  unfolding next_scan
  next_scan-Left sc start (negsuc k) state v marks h = absurd (omega arith)
  next_scan-Left sc start (pos k) state v marks h =
      let one : pos k +ℤ pos 1 ≡ pos (k + 1) =
        eq_of_parts _ _ (omega (arith, +ℤ_parts (pos k) (pos 1))) in
      forward (k + 1) one one (omega (arith, h))

  next_scan-finished :
      (sc : Scan S) (start : ℕ) (cur state : ℤ) (v : Search S) (marks : Session)
      → state ≡ negsuc 0
      → Left sc start (next_scan cur state v marks sc)
  unfolding next_scan
  next_scan-finished sc start cur state v marks e = finished e

  Went-le : (a b : ℕ) (c : Change S) → a ≤ b → Went b c → Went a c
  Went-le a b c h (on l) = on (omega (arith, h, l))
  Went-le a b c h (over e) = over e

  moved_on :
      (sc : Scan S) (start : ℕ) (c : Change S) (marks : Session)
      → Went start c
      → Left sc start (next_scan c.frame c.answer c.search marks sc)
  moved_on sc start c marks (on h) = next_scan-Left sc start c.frame c.answer c.search marks h
  moved_on sc start c marks (over e) = next_scan-finished sc start c.frame c.answer c.search marks e

  narrowed-Leaves :
      (sc : Scan S) (start : ℕ) (state cur : ℤ) (v : Search S)
      → sc.stop ≡ pos start
      → IsValid sc.session.marks
      → Leaves sc start (narrowed r sc state cur v)
  unfolding narrowed
  narrowed-Leaves sc start state cur v e valid =
      let from = stepped_back-from r.options sc.stop cur in
      at_step (stepped_back r.options sc.stop cur) refl
        (subst (λ z. z ≤ℤ stepped_back r.options sc.stop cur) e from)
    where
      at_step :
          (b : ℤ)
          → stepped_back r.options sc.stop cur ≡ b
          → pos start ≤ℤ b
          → Leaves sc start (narrowed r sc state cur v)
      at_step (negsuc k) f l = absurd (omega (arith, l))
      at_step (pos k) f l =
          let (c, at, went) = find_change-Went sc.state k small_step (time_for r.options state) v in
          let (marks, go, valid') =
            toggled-IsValid sc.state c.answer c.search.last_i_frame sc.session valid in
          rw (narrowed, f, at, go)
            (_, refl, moved_on sc start c marks (Went-le start k c (omega (arith, l)) went), valid')

  judged-Leaves :
      (sc : Scan S) (start : ℕ) (state cur : ℤ) (v : Search S)
      → sc.stop ≡ pos start
      → IsValid sc.session.marks
      → (pos start ≤ℤ cur) ⊎ (state ≡ negsuc 0)
      → Leaves sc start (judged r sc state cur v)
  unfolding judged
  judged-Leaves sc start state cur v e valid h =
      if_rule (Leaves sc start) (not (eqb_ℤ state sc.state) && not (eqb_ℤ state (negsuc 0)))
        (λ changed. narrowed-Leaves sc start state cur v e valid)
        (λ same. (_, refl, after h, valid))
    where
      after :
          (pos start ≤ℤ cur) ⊎ (state ≡ negsuc 0)
          → Left sc start (next_scan cur state v sc.session sc)
      after (inl l) = next_scan-Left sc start cur state v sc.session l
      after (inr z) = next_scan-finished sc start cur state v sc.session z

  long_without-Leaves :
      (sc : Scan S) (start : ℕ) (cur : ℤ) (v : Search S)
      → sc.cur ≡ pos start
      → sc.stop ≡ pos start
      → IsValid sc.session.marks
      → Leaves sc start (long_without r sc start cur v)
  unfolding long_without restarted
  long_without-Leaves sc start cur v at e valid =
      if_rule (Leaves sc start) (eqb_ℤ sc.restart sc.cur)
        (λ twice.
          judged-Leaves sc start sc.state (sc.cur +ℤ pos (search_break r.options)) v e valid (
            inl (
              subst (λ c. pos start ≤ℤ c +ℤ pos (search_break r.options)) (sym at)
                (omega (arith, +ℤ_parts (pos start) (pos (search_break r.options)))))))
        (λ first.
          let i = start + frames_per_minute r.options * 5 in
          let (x, go, _) = detect_logo-Settled r.options r.machine r.index es n index_is few i v in
          let go' : detect_logo r.rounds r.options r.machine r.index i v ≡ some x =
            ap (λ k. detect_logo k r.options r.machine r.index i v) rounds_are ∙ go in
          rw go' (searched first x))
    where
      searched :
          eqb_ℤ sc.restart sc.cur ≡ false
          → (x : Bool × Search S)
          → Leaves sc start (elim (some x) [
            | none ↦ none
            | some (false, w) ↦ judged r sc (negsuc 0) cur w
            | some (true, w) ↦ some (restarted r sc w)
          ])
      searched f (false, w) = judged-Leaves sc start (negsuc 0) cur w e valid (inr refl)
      searched f (true, w) = (_, refl, again f refl refl refl, valid)

  pub scan_round-Leaves :
      (sc : Scan S) (start : ℕ)
      → sc.cur ≡ pos start
      → sc.stop ≡ pos start
      → IsValid sc.session.marks
      → Leaves sc start (scan_round r sc start)
  unfolding scan_round
  scan_round-Leaves sc start at e valid =
      let (c, go, went) = find_change-Went sc.state start (big_step r.options) 0 sc.search in
      let go' : find_change r sc.state sc.cur (big_step r.options) 0 sc.search ≡ some c =
        ap (λ z. find_change r sc.state z (big_step r.options) 0 sc.search) at ∙ go in
      rw (scan_round, go')
        (if_rule (Leaves sc start) (eqb_ℤ c.answer (negsuc 1))
          (λ long. long_without-Leaves sc start c.frame c.search at e valid)
          (λ other. judged-Leaves sc start c.answer c.frame c.search e valid (split c went)))
    where
      split : (c : Change S) → Went start c → (pos start ≤ℤ c.frame) ⊎ (c.answer ≡ negsuc 0)
      split c (on l) = inl l
      split c (over z) = inr z
