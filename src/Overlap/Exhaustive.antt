-- ===== src/Overlap/Exhaustive.antt =====
-- The search of doOverlapDetection finds the first run that is long enough.
use noad.Prelude.{
  ℕ, zero, suc, ◌+◌, ◌-◌, ◌≤◌, ◌<◌, ◌≡◌, refl, ◌∙◌, sym, ap₂, subst, arith, Bool, true, false, not,
  ◌&&◌, ltb, leb, if◌then◌else◌, if_rule, Bool-cases, inl, inr, ◌⊎◌,
}
use noad.Overlap.{
  Pictures, pics_read_before, pics_before_onmark, min_pics_similar, overlap_ok_frames, alike,
  run_from, run_at, Overlap, first_overlap, compare_at, cmp_loop, next_start, comp_loop,
  best_overlap, find_overlap,
}

-- The pairs of places that the search looks at.
abbrev pub InRange : Pictures → ℕ → ℕ → Type 0
InRange p c i =
    (c + min_pics_similar p < p.num_before)
    × (i + p.num_before < p.num_after)
    × (c ≡ 0 → pics_before_onmark p ≤ i)

abbrev Earlier : ℕ → ℕ → ℕ → ℕ → Type 0
Earlier c i d j = (c < d) ⊎ ((c ≡ d) × (i < j))

-- No run before (c, i) is long enough.
abbrev pub NoneBefore : Pictures → ℕ → ℕ → Type 0
NoneBefore p c i =
    (d j : ℕ) → InRange p d j → (d < c) ⊎ ((d ≡ c) × (j < i)) → run_at p d j < overlap_ok_frames

-- A run from (c, i) is long enough, the first such.
pub record Hit (p : Pictures) (o : Overlap) (i : ℕ) : Type 0 where
  pub found : o.pos_found ≡ true
  pub next : o.cmp_start ≡ i + 1
  pub in_range : InRange p o.comp_start i
  pub length_is : o.most_ok ≡ run_at p o.comp_start i
  pub enough : overlap_ok_frames ≤ o.most_ok
  pub first : NoneBefore p o.comp_start i
  pub all_alike : (j : ℕ) → j + 1 < o.most_ok → alike p (o.comp_start + j) (i + j) ≡ true
  pub reach : o.comp_start < pics_read_before p → o.comp_start + o.most_ok ≤ pics_read_before p

-- Nothing is found yet.
record Open (p : Pictures) (o : Overlap) : Type 0 where
  searching : o.pos_found ≡ false
  few : o.most_ok < overlap_ok_frames
  none_yet : NoneBefore p o.comp_start o.cmp_start
  behind : o.comp_start ≡ 0 → pics_before_onmark p ≤ o.cmp_start

better_long :
    (m n : ℕ) → m < overlap_ok_frames → overlap_ok_frames ≤ n → (if ltb m n then n else m) ≡ n
better_long m n few long = ground arith

better_short :
    (m n : ℕ)
    → m < overlap_ok_frames
    → n < overlap_ok_frames
    → (if ltb m n then n else m) < overlap_ok_frames
better_short m n few short = ground arith

flag_set :
    (b : Bool) (n : ℕ)
    → overlap_ok_frames ≤ n
    → (if leb overlap_ok_frames n then true else b) ≡ true
flag_set b n long =
    if_rule (λ x. x ≡ true) (leb overlap_ok_frames n) (λ _. refl)
      (λ off. absurd (ground (arith, off)))

flag_kept :
    (b : Bool) (n : ℕ) → n < overlap_ok_frames → (if leb overlap_ok_frames n then true else b) ≡ b
flag_kept b n short =
    if_rule (λ x. x ≡ b) (leb overlap_ok_frames n) (λ on. absurd (ground (arith, on))) (λ _. refl)

-- All pictures of a run but the last one are alike.
run_from-alike :
    (p : Pictures) (k c i j : ℕ) → j + 1 < run_from p k c i → alike p (c + j) (i + j) ≡ true
unfolding run_from
run_from-alike p zero c i j h = absurd (omega arith)
run_from-alike p (suc k) c i j h =
    step (Bool-cases (alike p c i)) j h (run_from-alike p k (c + 1) (i + 1))
  where
    step :
        (alike p c i ≡ true) ⊎ (alike p c i ≡ false)
        → (j : ℕ) → j + 1 < (if alike p c i then run_from p k (c + 1) (i + 1) + 1 else 1)
        → ((l : ℕ) → l + 1 < run_from p k (c + 1) (i + 1) → alike p (c + 1 + l) (i + 1 + l) ≡ true)
        → alike p (c + j) (i + j) ≡ true
    step (inr other) j h rest =
        let short : j + 1 < 1 =
          subst (λ b. j + 1 < (if b then run_from p k (c + 1) (i + 1) + 1 else 1)) other h in
        absurd (omega arith)
    step (inl same) zero h rest =
        let at : c + 0 ≡ c = omega arith in
        let at' : i + 0 ≡ i = omega arith in ap₂ (alike p) at at' ∙ same
    step (inl same) (suc j) h rest =
        let more : suc j + 1 < run_from p k (c + 1) (i + 1) + 1 =
          subst (λ b. suc j + 1 < (if b then run_from p k (c + 1) (i + 1) + 1 else 1)) same h in
        let at : c + suc j ≡ c + 1 + j = omega arith in
        let at' : i + suc j ≡ i + 1 + j = omega arith in ap₂ (alike p) at at' ∙ rest j (omega arith)

run_from-le : (p : Pictures) (k c i : ℕ) → run_from p k c i ≤ k + 1
unfolding run_from
run_from-le p zero c i = omega arith
run_from-le p (suc k) c i =
    if_rule (λ n. n ≤ suc k + 1) (alike p c i) (λ _. omega (arith, run_from-le p k (c + 1) (i + 1)))
      (λ _. omega arith)

module _ (p : Pictures) where
  one_more :
      (c i : ℕ) → NoneBefore p c i → run_at p c i < overlap_ok_frames → NoneBefore p c (i + 1)
  one_more c i none_yet short d j r (inl l) = none_yet d j r (inl l)
  one_more c i none_yet short d j r (inr (e, l)) = elim (Bool-cases (ltb j i)) [
    | inl below ↦ none_yet d j r (inr (e, ground (arith, below)))
    | inr at ↦ let z : j ≡ i = ground (arith, at, l) in rw (e, z) short
  ]

  abbrev Searched : Overlap → Type 0
  Searched o = ((i : ℕ) × Hit p o i) ⊎ Open p o

  compare_at-Searched :
      (o : Overlap) → Open p o → InRange p o.comp_start o.cmp_start → Searched (compare_at p o)
  unfolding compare_at
  compare_at-Searched o w r =
      let n = run_at p o.comp_start o.cmp_start in
      let most : ℕ = if ltb o.most_ok n then n else o.most_ok in
      elim (Bool-cases (leb overlap_ok_frames n)) [
        | inl long ↦
            let far : overlap_ok_frames ≤ n = ground (arith, long) in
            let same : most ≡ n = better_long o.most_ok n w.few far in
            inl (
              o.cmp_start,
              record {
                found = flag_set o.pos_found most (omega (arith, same, far));
                next = refl;
                in_range = r;
                length_is = same;
                enough = omega (arith, same, far);
                first = w.none_yet;
                all_alike = λ j l.
                    run_from-alike p (pics_read_before p - (o.comp_start + 1)) o.comp_start
                      o.cmp_start j (omega (arith, same, l));
                reach = λ l. omega (
                  arith,
                  same,
                  l,
                  run_from-le p (pics_read_before p - (o.comp_start + 1)) o.comp_start o.cmp_start,
                );
              },
            )
        | inr short ↦
            let near : n < overlap_ok_frames = ground (arith, short) in
            let below = better_short o.most_ok n w.few near in
            inr (record {
              searching = flag_kept o.pos_found most below ∙ w.searching;
              few = below;
              none_yet = one_more o.comp_start o.cmp_start w.none_yet near;
              behind = λ z. omega (arith, w.behind z);
            })
      ]

  -- A row that is done: a hit, or no pair left in it.
  abbrev Row : ℕ → Overlap → Type 0
  Row c o =
      ((i : ℕ) × Hit p o i)
      ⊎ (Open p o × (o.comp_start ≡ c) × (p.num_after ≤ o.cmp_start + p.num_before))

  stopped_Row :
      (o : Overlap)
      → Searched o
      → (o.pos_found ≡ false → p.num_after ≤ o.cmp_start + p.num_before)
      → Row o.comp_start o
  stopped_Row o (inl h) past = inl h
  stopped_Row o (inr w) past = inr (w, refl, past w.searching)

  -- A hit ends the loop.
  cmp_loop_hit : (k : ℕ) (o : Overlap) → o.pos_found ≡ true → cmp_loop k p o ≡ o
  unfolding cmp_loop
  cmp_loop_hit zero o e = refl
  cmp_loop_hit (suc k) o e =
      if_rule (λ x. x ≡ o) (ltb (o.cmp_start + p.num_before) p.num_after && not o.pos_found)
        (λ on. absurd (ground (arith, on, e))) (λ _. refl)

  cmp_loop-Row :
      (k : ℕ) (o : Overlap)
      → Searched o
      → o.comp_start + min_pics_similar p < p.num_before
      → p.num_after ≤ k + o.cmp_start + p.num_before
      → Row o.comp_start (cmp_loop k p o)
  unfolding cmp_loop compare_at
  cmp_loop-Row zero o w l h = stopped_Row o w (λ _. omega (arith, h))
  cmp_loop-Row (suc k) o (inl (i, hit)) l h = inl (i, rw (cmp_loop_hit (suc k) o hit.found) hit)
  cmp_loop-Row (suc k) o (inr w) l h =
      if_rule (Row o.comp_start) (ltb (o.cmp_start + p.num_before) p.num_after && not o.pos_found)
        (λ on.
          cmp_loop-Row k (compare_at p o)
            (compare_at-Searched o w (l, ground (arith, on), w.behind)) l (omega (arith, h)))
        (λ off. stopped_Row o (inr w) (λ e. ground (arith, off, e)))

  next_row :
      (o : Overlap)
      → Open p o
      → p.num_after ≤ o.cmp_start + p.num_before
      → NoneBefore p (o.comp_start + 1) 0
  next_row o w past d j r (inr (e, l)) = absurd (omega arith)
  next_row o w past d j r (inl l) = elim (Bool-cases (ltb d o.comp_start)) [
    | inl below ↦ w.none_yet d j r (inl (ground (arith, below)))
    | inr at ↦ w.none_yet d j r (inr (ground (arith, at, l), omega (arith, r.1, past)))
  ]

  -- What the search says.
  abbrev pub Result : Overlap → Type 0
  Result o =
      ((i : ℕ) × Hit p o i)
      ⊎ ((o.pos_found ≡ false)
          × (o.most_ok < overlap_ok_frames)
          × ((c i : ℕ) → InRange p c i → run_at p c i < overlap_ok_frames))

  stopped_Result :
      (o : Overlap)
      → Searched o
      → (o.pos_found ≡ false → p.num_before ≤ o.comp_start + min_pics_similar p)
      → Result o
  stopped_Result o (inl h) past = inl h
  stopped_Result o (inr w) past =
      inr
        (w.searching, w.few, λ c i r. w.none_yet c i r (inl (omega (arith, past w.searching, r.0))))

  next_start-Searched : (c : ℕ) (o : Overlap) → Row c o → Searched (next_start o)
  next_start-Searched c o (inl (i, h)) =
      if_rule Searched o.pos_found (λ _. inl (i, h)) (λ off. let z = sym h.found ∙ off in absurd cc)
  next_start-Searched c o (inr (w, e, past)) =
      if_rule Searched o.pos_found (λ on. let z = sym on ∙ w.searching in absurd cc)
        (λ _. inr (record {
          searching = w.searching;
          few = w.few;
          none_yet = next_row o w past;
          behind = λ z. absurd (omega arith);
        }))

  -- How far the next row is.
  next_start-far :
      (c : ℕ) (o : Overlap)
      → Row c o
      → (next_start o).pos_found ≡ false
      → (next_start o).comp_start ≡ c + 1
  next_start-far c o (inl (i, h)) =
      if_rule (λ (x : Overlap). x.pos_found ≡ false → x.comp_start ≡ c + 1) o.pos_found
        (λ on e. let z = sym on ∙ e in absurd cc) (λ off. let z = sym h.found ∙ off in absurd cc)
  next_start-far c o (inr (w, e, past)) =
      if_rule (λ (x : Overlap). x.pos_found ≡ false → x.comp_start ≡ c + 1) o.pos_found
        (λ on. let z = sym on ∙ w.searching in absurd cc) (λ off _. omega arith)

  comp_loop-Result :
      (k : ℕ) (o : Overlap)
      → Searched o
      → (o.pos_found ≡ false → p.num_before ≤ k + o.comp_start)
      → Result (comp_loop k p o)
  unfolding comp_loop cmp_loop
  comp_loop-Result zero o w h = stopped_Result o w (λ e. omega (arith, h e))
  comp_loop-Result (suc k) o (inl (i, hit)) h =
      if_rule Result (ltb (o.comp_start + min_pics_similar p) p.num_before && not o.pos_found)
        (λ on. absurd (ground (arith, on, hit.found))) (λ off. inl (i, hit))
  comp_loop-Result (suc k) o (inr w) h =
      if_rule Result (ltb (o.comp_start + min_pics_similar p) p.num_before && not o.pos_found)
        (λ on.
          let r = cmp_loop-Row p.num_after o (inr w) (ground (arith, on)) (omega arith) in
          let row = cmp_loop p.num_after p o in
          comp_loop-Result k (next_start row) (next_start-Searched o.comp_start row r)
            (λ e. omega (arith, next_start-far o.comp_start row r e, h w.searching)))
        (λ off. stopped_Result o (inr w) (λ e. ground (arith, off, e)))

  best_Result : (o : Overlap) → Result o → Result (best_overlap o)
  unfolding best_overlap
  best_Result o (inl (i, h)) =
      if_rule Result (not o.pos_found && leb overlap_ok_frames o.most_ok)
        (λ on. absurd (ground (arith, on, h.found))) (λ _. inl (i, h))
  best_Result o (inr (e, few, none)) =
      if_rule Result (not o.pos_found && leb overlap_ok_frames o.most_ok)
        (λ on. absurd (ground (arith, on, few))) (λ _. inr (e, few, none))

  first_Open : Open p (first_overlap p)
  first_Open = record {
    searching = refl;
    few = omega arith;
    none_yet = λ d j r l. absurd (early d j r l);
    behind = λ _. omega arith;
  }
    where
      early : (d j : ℕ) → InRange p d j → (d < 0) ⊎ ((d ≡ 0) × (j < pics_before_onmark p)) → ⊥
      early d j r (inl l) = absurd (omega arith)
      early d j r (inr (e, l)) = absurd (omega (arith, r.2 e, l))

  -- The search of doOverlapDetection finds the first pair of places, in its order, with a run of
  -- at least 75 comparisons, with all pictures of the run but the last alike, iCmpStart one
  -- behind the place, and an end that is not behind PICS_READ_BEFORE if the run starts before it;
  -- or it finds none, and no pair of places that it may look at has such a run.
  pub find_overlap-Result : Result (find_overlap p)
  unfolding find_overlap comp_loop
  find_overlap-Result =
      best_Result (comp_loop p.num_before p (first_overlap p))
        (comp_loop-Result p.num_before (first_overlap p) (inr first_Open) (λ _. omega arith))
