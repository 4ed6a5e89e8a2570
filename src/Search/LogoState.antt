-- ===== src/Search/LogoState.antt =====
-- checkLogoState from its GetNextIFrame on.
use noad.Prelude.{
  ℕ, zero, suc, ◌+◌, ◌<◌, ◌≡◌, refl, ◌∙◌, sym, ap, subst, arith, Bool, true, false, Option, none,
  some, ◌&&◌, if_rule, List, [], ◌∷◌, ap₂, inl, length, get_elem?,
}
use noad.Prelude.Int.{ℤ, pos, negsuc, ltb_ℤ, leb_ℤ, ◌+ℤ◌, +ℤ_parts, eq_of_parts, ◌≤ℤ◌, ◌<ℤ◌}
use noad.IndexFile.{
  IndexFile, Frame, Entry, entries, entry_at, frame_of, is_i_frame, noad_get, scan_bound,
}
use noad.IndexFile.Scan.{NextIFrame, i_frame_at}
use noad.IndexFile.NextFrame.{next_i_frame-forward, scan_bound-le}
use noad.Search.{
  check_callback, Machine, Search, frame_number, independent_at, check_from, check_logo_state,
}
use noad.Search.Stable.{IsComplete, is_i, Checked, check_loop-Checked, check_loop_final}

get_elem?-below :
    {A : Type 0} (xs : List A) (i : ℕ) → i < length xs → (x : A) × (get_elem? xs i ≡ some x)
get_elem?-below [] i h = absurd (omega arith)
get_elem?-below (x ∷ xs) zero h = (x, refl)
get_elem?-below (x ∷ xs) (suc i) h = get_elem?-below xs i (omega arith)

-- With one entry behind the last frame Get finds them all.
pub length-IsComplete :
    (s : IndexFile) (es : List Entry) → s.index ≡ some es → s.last <ℤ pos (length es) → IsComplete s
unfolding noad_get frame_of entry_at
length-IsComplete s es e h i l =
    if_rule (λ (r : Option Frame). (f : Frame) × (r ≡ some f))
      (leb_ℤ (pos 0) (pos i) && ltb_ℤ (pos i) s.last)
      (λ on.
        subst
          (λ o.
            (f : Frame) × (frame_of (entry_at (entries o) (pos i))
                (entry_at (entries o) (pos i +ℤ pos 1))
              ≡ some f))
          (sym e)
          (let (a, at) = get_elem?-below es i (omega (arith, h, l)) in
            let (b, behind) = get_elem?-below es (i + 1) (omega (arith, h, l)) in
            let one : pos i +ℤ pos 1 ≡ pos (i + 1) =
              eq_of_parts _ _ (omega (arith, +ℤ_parts (pos i) (pos 1))) in
            (_, ap₂ frame_of at (ap (entry_at es) one ∙ behind))))
      (λ off. absurd (ground (arith, off, l)))

-- The flag of a frame is that of its entry.
frame_of-entry :
    (o o' : Option Entry) (f : Frame) → frame_of o o' ≡ some f → f.is_independent ≡ is_i_frame o
unfolding frame_of
frame_of-entry none o' f e = absurd cc
frame_of-entry (some a) none f e = absurd cc
frame_of-entry (some a) (some b) f e =
    sym (ap (λ o. elim o [ none ↦ false | some g ↦ g.is_independent ]) e)

noad_get-frame_of :
    (s : IndexFile) (i : ℕ) (f : Frame)
    → noad_get s (pos i) ≡ some f
    → frame_of (entry_at (entries s.index) (pos i)) (entry_at (entries s.index) (pos i +ℤ pos 1))
      ≡ some f
unfolding noad_get
noad_get-frame_of s i f =
    if_rule
      (λ r.
        r ≡ some f
        → frame_of (entry_at (entries s.index) (pos i))
            (entry_at (entries s.index) (pos i +ℤ pos 1))
          ≡ some f)
      (leb_ℤ (pos 0) (pos i) && ltb_ℤ (pos i) s.last) (λ _ e. e) (λ _ e. absurd cc)

is_i-entry :
    (s : IndexFile) (es : List Entry) (i : ℕ)
    → s.index ≡ some es
    → IsComplete s
    → pos i <ℤ s.last
    → i_frame_at es (pos i) ≡ true
    → is_i s i ≡ true
unfolding independent_at
is_i-entry s es i e whole l h =
    let (f, g) = whole i l in
    let same_flag = frame_of-entry _ _ f (noad_get-frame_of s i f g) in
    let at = ap (λ x. is_i_frame (entry_at (entries x) (pos i))) e in
    rw (independent_at, g) (same_flag ∙ at ∙ h)

-- What checkLogoState says: no I frame is left to start with, or the loop from the nearest one
-- behind `i`.
pub data Stated {S : Type 0} (m : Machine S) (s : IndexFile) (es : List Entry) (state : Bool)
    (i : ℤ) (n : ℕ) (v : Search S) (r : ℕ) : Type 0 where
  no_start : r ≡ 0 → NextIFrame es i (scan_bound s true true) none → Stated m s es state i n v r
  started :
      (j : ℕ)
      → NextIFrame es i (scan_bound s true true) (some (pos j))
      → Checked m s state j n j true
          (record v { ext_logo_search = false; callback = check_callback })
          r
      → Stated m s es state i n v r

check_from-Stated :
    {S : Type 0} (m : Machine S) (s : IndexFile) (state : Bool) (es : List Entry) (i : ℤ) (n : ℕ)
    (v : Search S) (o : Option ℤ)
    → s.index ≡ some es
    → IsComplete s
    → negsuc 0 ≤ℤ i
    → NextIFrame es i (scan_bound s true true) o
    → Stated m s es state i n v (check_from m s state n (frame_number o) v).0
unfolding check_from
check_from-Stated m s state es i n v none e whole lo h = no_start refl h
check_from-Stated m s state es i n v (some (negsuc j)) e whole lo h =
    absurd (omega (arith, h.0, lo))
check_from-Stated m s state es i n v (some (pos j)) e whole lo (h0, h1, h2, h3) =
    let l : pos j <ℤ s.last = omega (arith, h1, scan_bound-le s true true) in
    started j (h0, h1, h2, h3)
      (check_loop-Checked m s state n j j true 0
        (record v { ext_logo_search = false; callback = check_callback }) whole (omega arith)
        (inl (is_i-entry s es j e whole l h2)))

check_from-restored :
    {S : Type 0} (m : Machine S) (s : IndexFile) (state : Bool) (n : ℕ) (o : Option ℕ)
    (v : Search S)
    → let w = (check_from m s state n o v).1 in
      (w.ext_logo_search ≡ v.ext_logo_search) × (w.callback ≡ v.callback)
unfolding check_from
check_from-restored m s state n none v = (refl, refl)
check_from-restored m s state n (some i) v = (refl, refl)

-- With the result 0, from an I frame behind 0, the last verdict is the state.
check_from_final :
    {S : Type 0} (m : Machine S) (s : IndexFile) (state : Bool) (es : List Entry) (i : ℤ)
    (stay : Bool) (n : ℕ) (v : Search S) (o : Option ℤ)
    → s.index ≡ some es
    → IsComplete s
    → NextIFrame es i (scan_bound s true stay) o
    → pos 0 ≤ℤ i
    → m.is_logo v.machine ≡ state
    → let r = check_from m s state n (frame_number o) v in r.0 ≡ 0 → m.is_logo r.1.machine ≡ state
unfolding check_from
check_from_final m s state es i stay n v none e whole h lo on = λ _. on
check_from_final m s state es i stay n v (some (negsuc j)) e whole h lo on = λ _. on
check_from_final m s state es i stay n v (some (pos j)) e whole (h0, h1, h2, h3) lo on =
    let l : pos j <ℤ s.last = omega (arith, h1, scan_bound-le s true stay) in
    check_loop_final m s state n j j true 0
      (record v { ext_logo_search = false; callback = check_callback }) whole
      (omega (arith, h0, lo)) (omega arith) (inl (is_i-entry s es j e whole l h2)) on

-- What the result stands for, and what is put back.
pub record Answered {S : Type 0} (m : Machine S) (s : IndexFile) (es : List Entry) (state : Bool)
    (i : ℤ) (n : ℕ) (v : Search S) (r : ℕ × Search S) : Type 0 where
  pub restored : (r.1.ext_logo_search ≡ v.ext_logo_search) × (r.1.callback ≡ v.callback)
  pub stated : Stated m s es state i n v r.0
  pub final : pos 0 ≤ℤ i → m.is_logo v.machine ≡ state → r.0 ≡ 0 → m.is_logo r.1.machine ≡ state

-- All of it.
pub check_logo_state-Answered :
    {S : Type 0} (m : Machine S) (s : IndexFile) (state : Bool) (es : List Entry) (i : ℤ)
    (n fuel : ℕ) (v : Search S)
    → s.index ≡ some es
    → s.last <ℤ pos (length es)
    → negsuc 0 ≤ℤ i
    → s.last ≤ℤ pos fuel
    → (r : ℕ × Search S) × (check_logo_state (suc fuel) m s state i n v ≡ some r)
      × Answered m s es state i n v r
unfolding check_logo_state
check_logo_state-Answered m s state es i n fuel v e held lo hi =
    let whole = length-IsComplete s es e held in
    let (o, at, next) = next_i_frame-forward s es i true fuel e lo hi in
    (
      check_from m s state n (frame_number o) v,
      ap
          (λ (o : Option (Option ℤ)). elim o [
            | none ↦ none
            | some f ↦ some (check_from m s state n (frame_number f) v)
          ])
          at,
      record {
        restored = check_from-restored m s state n (frame_number o) v;
        stated = check_from-Stated m s state es i n v o e whole lo next;
        final = check_from_final m s state es i true n v o e whole next;
      },
    )

-- With an index that holds all its entries, and from -1 or later, checkLogoState ends, puts
-- extLogoSearch and the callback back; and there is no I frame behind the given one and before the
-- bound of GetNextIFrame, and the result is 0; or from the nearest such I frame all the pictures
-- that were to be checked, up to the end, show the state, and the result is 0; or the result is
-- the last I frame up to the first of these pictures that does not show it, and not before the I
-- frame at the start.
pub check_logo_state-Stated :
    {S : Type 0} (m : Machine S) (s : IndexFile) (state : Bool) (es : List Entry) (i : ℤ)
    (n fuel : ℕ) (v : Search S)
    → s.index ≡ some es
    → s.last <ℤ pos (length es)
    → negsuc 0 ≤ℤ i
    → s.last ≤ℤ pos fuel
    → (r : ℕ × Search S) × (check_logo_state (suc fuel) m s state i n v ≡ some r)
      × ((r.1.ext_logo_search ≡ v.ext_logo_search) × (r.1.callback ≡ v.callback))
      × Stated m s es state i n v r.0
check_logo_state-Stated m s state es i n fuel v e held lo hi =
    let (r, go, a) = check_logo_state-Answered m s state es i n fuel v e held lo hi in
    (r, go, a.restored, a.stated)
