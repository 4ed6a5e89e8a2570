-- ===== src/Search/Scan/Ends.antt =====
-- The main loop of scanRecord ends, and keeps the marks in order.
use noad.Prelude.{
  ℕ, zero, suc, ◌+◌, ◌*◌, ◌≤◌, ◌<◌, ◌≡◌, refl, ◌∙◌, sym, ap, arith, true, false, Option, some,
  if◌then◌else◌, length, if_rule, elim_rule, Bool-cases, inl, inr, ◌⊎◌, List,
}
use noad.Prelude.Int.{pos, negsuc, eqb_ℤ, ◌≤ℤ◌, ◌<ℤ◌, eq_of_parts, pos_part, neg_part}
use noad.IndexFile.{Entry}
use noad.Search.{Search}
use noad.Search.Scan.{Record, Scan, scan_round, goes_on, scan_loop, first_scan}
use noad.Marks.Session.{Session}
use noad.Marks.Session.Invariant.{IsValid}
use noad.Search.Scan.Round.{Left, finished, forward, again, scan_round-Leaves}

-- Where the loop may stop.
abbrev pub Stopped : {S : Type 0} → Record S → Scan S → Type 0
Stopped r sc = (sc.state ≡ negsuc 0) ⊎ (r.index.last ≤ℤ sc.cur)

module _ {S : Type 0} (r : Record S) (es : List Entry) (n : ℕ) (index_is : r.index.index ≡ some es)
    (held : r.index.last <ℤ pos (length es)) (few : r.index.last ≤ℤ pos n)
    (rounds_are : r.rounds ≡ suc n) (frames : 0 < r.options.rate)
    (starts : pos 0 ≤ℤ r.index.last) where
  abbrev Stops : Option (Scan S) → Type 0
  Stops x = (sc : Scan S) × (x ≡ some sc) × Stopped r sc × IsValid sc.session.marks

  -- 1 before a frame from which another logo may still be searched.
  abbrev to_restart : Scan S → ℕ
  to_restart sc = if eqb_ℤ sc.restart sc.cur then 0 else 1

  to_restart_le : (sc : Scan S) → to_restart sc ≤ 1
  to_restart_le sc =
      if_rule (λ k. k ≤ 1) (eqb_ℤ sc.restart sc.cur) (λ _. omega arith) (λ _. omega arith)

  -- With the state -1 the loop stops at once.
  stop_at : (k : ℕ) (sc : Scan S) → sc.state ≡ negsuc 0 → scan_loop (suc k) r sc ≡ some sc
  unfolding scan_loop
  stop_at k sc e =
      let over : eqb_ℤ sc.state (negsuc 0) ≡ true = ap (λ z. eqb_ℤ z (negsuc 0)) e in
      elim_rule (λ x. x ≡ some sc) (goes_on r sc) (λ go. absurd (ground (arith, go, over)))
        (λ _. refl)

  restart_here : (sc : Scan S) → sc.restart ≡ sc.cur → to_restart sc ≡ 0
  restart_here sc e =
      if_rule (λ k. k ≡ 0) (eqb_ℤ sc.restart sc.cur) (λ _. refl)
        (λ off. absurd (ground (arith, off, ap pos_part e, ap neg_part e)))

  off_Stopped : (sc : Scan S) (c : ℕ) → sc.cur ≡ pos c → goes_on r sc ≡ false → Stopped r sc
  off_Stopped sc c e off = elim (Bool-cases (eqb_ℤ sc.state (negsuc 0))) [
    | inl z ↦ inl (eq_of_parts _ _ (ground (arith, z)))
    | inr z ↦ inr (ground (arith, off, z, ap pos_part e, ap neg_part e))
  ]

  -- Behind a round, where the rest of the loop stops.
  round-Stops :
      (k c : ℕ) (sc sc' : Scan S)
      → sc.cur ≡ pos c
      → sc.stop ≡ pos c
      → IsValid sc'.session.marks
      → 2 * n + to_restart sc ≤ suc (suc k) + 2 * c
      → ((d : ℕ)
          → sc'.cur ≡ pos d
          → sc'.stop ≡ pos d
          → 2 * n + to_restart sc' ≤ suc k + 2 * d
          → Stops (scan_loop (suc (suc k)) r sc'))
      → Left sc c sc'
      → Stops (scan_loop (suc (suc k)) r sc')
  round-Stops k c sc sc' at e valid h rest (finished z) = (sc', stop_at (suc k) sc' z, inl z, valid)
  round-Stops k c sc sc' at e valid h rest (forward d f g l) =
      rest d f g (omega (arith, h, l, to_restart_le sc'))
  round-Stops k c sc sc' at e valid h rest (again off f g i) =
      rest c (f ∙ at) (g ∙ e)
        (omega (arith, h, restart_here sc' (i ∙ sym f), ap {B = ℕ} (λ b. if b then 0 else 1) off))

  scan_loop-Stops :
      (k c : ℕ) (sc : Scan S)
      → sc.cur ≡ pos c
      → sc.stop ≡ pos c
      → IsValid sc.session.marks
      → 2 * n + to_restart sc ≤ k + 2 * c
      → Stops (scan_loop (suc k) r sc)
  unfolding scan_loop
  scan_loop-Stops zero c sc at e valid h =
      elim_rule Stops (goes_on r sc)
        (λ on. absurd (ground (arith, on, few, ap pos_part at, ap neg_part at, h)))
        (λ off. (sc, refl, off_Stopped sc c at off, valid))
  scan_loop-Stops (suc zero) c sc at e valid h =
      elim_rule Stops (goes_on r sc)
        (λ on. absurd (ground (arith, on, few, ap pos_part at, ap neg_part at, h)))
        (λ off. (sc, refl, off_Stopped sc c at off, valid))
  scan_loop-Stops (suc (suc k)) c sc at e valid h =
      elim_rule Stops (goes_on r sc)
        (λ on.
          let (x, go, left, valid') =
            scan_round-Leaves r es n index_is held few rounds_are frames starts sc c at e valid in
          let go' : scan_round r sc (pos_part sc.cur) ≡ some x =
            ap (λ z. scan_round r sc z) (ap pos_part at) ∙ go in
          rw go' (
            round-Stops k c sc x at e valid' h (λ d f g l. scan_loop-Stops (suc k) d x f g valid' l)
              left))
        (λ off. (sc, refl, off_Stopped sc c at off, valid))

  -- The loop from its start.
  pub first_scan-Stops :
      (v : Search S) (marks : Session)
      → IsValid marks.marks
      → (sc : Scan S) × (scan_loop (suc (2 * n)) r (first_scan v marks) ≡ some sc)
        × Stopped r sc
        × IsValid sc.session.marks
  first_scan-Stops v marks valid =
      scan_loop-Stops (2 * n) 0 (first_scan v marks) refl refl valid
        (omega (arith, restart_here (first_scan v marks) refl))
