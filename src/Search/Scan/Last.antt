-- ===== src/Search/Scan/Last.antt =====
-- The mark that scanRecord adds at the end where the number of marks is odd.
use noad.Prelude.{
  ℕ, suc, ◌*◌, ◌<◌, ◌%◌, ◌≡◌, refl, arith, true, false, Option, some, List, length, ◌==◌, if_rule,
  Option-cases, inl, inr, ◌⊎◌,
}
use noad.Prelude.Int.{ℤ, pos, ◌≤ℤ◌, ◌<ℤ◌}
use noad.IndexFile.{IndexFile, Entry, next_i_frame}
use noad.IndexFile.NextFrame.{next_i_frame_back}
use noad.Search.LogoChange.{int_of}
use noad.Search.{Search}
use noad.Search.Scan.{Record, Scan, scan_loop, first_scan, last_mark}
use noad.Search.Scan.Ends.{Stopped, first_scan-Stops}
use noad.Marks.Session.{Session}
use noad.Marks.{Mark, Marks, get, add}
use noad.Marks.Session.Invariant.{IsValid, add-IsValid, add-some, length-add}

-- Afterwards the number is even, or a mark stood at the last I frame already.
abbrev pub Paired : Option ℤ → Marks → Marks → Type 0
Paired o ms r =
    (length r.items % 2 ≡ 0) ⊎ ((m : Mark) × (get (int_of o) ms.items ≡ some m) × (r ≡ ms))

-- The mark at the end.
last_mark-Paired :
    (s : IndexFile) (es : List Entry) (n : ℕ) (ms : Marks)
    → s.index ≡ some es
    → s.last ≤ℤ pos n
    → IsValid ms
    → (o : Option ℤ) × (r : Marks) × (next_i_frame (suc n) s s.last false true ≡ some o)
      × (last_mark (suc n) s ms ≡ some r)
      × IsValid r
      × Paired o ms r
unfolding last_mark
last_mark-Paired s es n ms e few valid =
    let (o, at) = next_i_frame_back s es s.last true n e few in
    let (r, go, v, paired) =
      if_rule (λ (x : Option Marks). (r : Marks) × (x ≡ some r) × IsValid r × Paired o ms r)
        (length ms.items % 2 == 1)
        (λ odd. rw at (_, refl, add-IsValid (int_of o) ms valid, added o (ground (arith, odd))))
        (λ even. (ms, refl, valid, inl (ground (arith, even)))) in
    (o, r, at, go, v, paired)
  where
    added : (o : Option ℤ) → length ms.items % 2 ≡ 1 → Paired o ms (add (int_of o) ms).0
    added o odd = elim (Option-cases (get (int_of o) ms.items)) [
      | inl e ↦ inl (rw (length-add (int_of o) ms e) (omega arith))
      | inr (m, e) ↦ inr (m, e, add-some (int_of o) ms e)
    ]

-- On an index that holds its entries, with a whole rate of at least one frame in a second,
-- whatever the decoder shows, and from marks in order, with distinct positions and addresses, the
-- main loop of scanRecord ends within twice as many rounds as there are frames and one more, with
-- the state -1 or at the last frame or behind it, and the marks, with the one that is then added
-- for an odd number of them, are so again; their number is even, or a mark stood already on the
-- frame that GetNextIFrame gives from the end.
pub scan_loop-Paired :
    {S : Type 0} (r : Record S) (es : List Entry) (n : ℕ) (v : Search S) (start : Session)
    → r.index.index ≡ some es
    → r.index.last <ℤ pos (length es)
    → r.index.last ≤ℤ pos n
    → r.rounds ≡ suc n
    → 0 < r.options.rate
    → pos 0 ≤ℤ r.index.last
    → IsValid start.marks
    → (sc : Scan S) × (o : Option ℤ) × (ms : Marks) × (scan_loop
          (suc (2 * n))
          r
          (first_scan v start)
        ≡ some sc)
      × Stopped r sc
      × (next_i_frame (suc n) r.index r.index.last false true ≡ some o)
      × (last_mark (suc n) r.index sc.session.marks ≡ some ms)
      × IsValid ms
      × Paired o sc.session.marks ms
scan_loop-Paired r es n v start e held few rounds_are frames starts valid =
    let (sc, go, stopped, valid') =
      first_scan-Stops r es n e held few rounds_are frames starts v start valid in
    let (o, ms, at, last, valid'', paired) =
      last_mark-Paired r.index es n sc.session.marks e few valid' in
    (sc, o, ms, go, stopped, at, last, valid'', paired)
