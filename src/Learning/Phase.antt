-- ===== src/Learning/Phase.antt =====
-- newData of CGetLogo over the accepted pictures: filtering, checking, and the end.
use noad.Prelude.{
  ℕ, ◌+◌, ◌≤◌, ◌<◌, ◌≡◌, refl, ◌∙◌, sym, ap, arith, true, false, Option, none, some, List, [], ◌∷◌,
  ◌++◌, ◌/◌, subst, inl, inr, ◌⊎◌, ◌&&◌, ◌==◌, ltb, leb, if◌then◌else◌, length, length-append,
  if_rule,
}
use noad.CheckLogo.{Testline}
use noad.Learning.{
  Buffer, Settings, GetLogo, set_diversions, update_diversions, set_testlines, couples, filter_step,
  check_step, finish_step, accept, reset, filter_tp,
}
use noad.Learning.Mask.{updates}
use noad.Learning.Lines.{set_testlines-LinesOf}

-- The pictures of the check, and the mask that they leave of the filtered picture.
unfoldable pub mask_of : Settings → Buffer → List Buffer → Buffer
unfolding updates
mask_of s f [] = f
mask_of s f (p ∷ ps) = updates s (p ∷ ps) (set_diversions s f)

updates-snoc :
    (s : Settings) (ps : List Buffer) (p : Buffer) (m : Buffer)
    → updates s (ps ++ p ∷ []) m ≡ (update_diversions s (updates s ps m) p).0
unfolding updates
updates-snoc s [] p m = refl
updates-snoc s (q ∷ ps) p m = updates-snoc s ps p (update_diversions s m q).0

-- What is learnt so far: `f` is the filtered picture, and `ps` are the pictures checked since.
pub record IsLearning (s : Settings) (f : Buffer) (ps : List Buffer) (g : GetLogo) : Type 0 where
  pub mask : g.filter_data ≡ mask_of s f ps
  pub checked : g.checked_corner ≡ length ps
  pub unfinished : length ps < s.check_frames
  pub filtered : g.filtered_corner ≤ s.filter_frames
  pub in_order : 0 < length ps → g.filtered_corner ≡ s.filter_frames
  pub no_lines : g.line_hook ≡ []

-- How many accepted pictures have been used since the last reset.
abbrev pub progress : GetLogo → ℕ
progress g = g.filtered_corner + g.checked_corner

-- A logo found, after all pictures of the check.
pub record IsFound (s : Settings) (f : Buffer) (ps : List Buffer) (lines : List Testline)
    : Type 0 where
  pub all_checked : length ps ≡ s.check_frames
  pub of_mask : lines ≡ (set_testlines s (updates s ps (set_diversions s f)) []).0
  pub enough : 10 ≤ couples lines

-- The points that updateDiversions counts with one more picture, and the lines of its mask.
abbrev pub points_with : Settings → Buffer → List Buffer → Buffer → ℕ
points_with s f ps p = (update_diversions s (updates s ps (set_diversions s f)) p).1

abbrev pub lines_with : Settings → Buffer → List Buffer → Buffer → List Testline
lines_with s f ps p = (set_testlines s (updates s (ps ++ p ∷ []) (set_diversions s f)) []).0

-- Why a corner starts again: too few points are left, or too few pairs at the end of the check.
abbrev pub IsPoor : Settings → Buffer → List Buffer → Buffer → Type 0
IsPoor s f ps p =
    (points_with s f ps p ≤ 20)
    ⊎ ((length ps + 1 ≡ s.check_frames) × (couples (lines_with s f ps p) < 10))

-- What an accepted picture does.
pub data Outcome (s : Settings) (f : Buffer) (ps : List Buffer) (p : Buffer) (g : GetLogo)
    (r : GetLogo × Option (List Testline)) : Type 0 where
  started_again :
      g.filtered_corner ≡ s.filter_frames
      → IsPoor s f ps p
      → r.1 ≡ none
      → IsLearning s (λ i. s.filter_init) [] r.0
      → progress r.0 ≡ 0
      → Outcome s f ps p g r
  filtered :
      g.filtered_corner < s.filter_frames
      → ps ≡ []
      → r.1 ≡ none
      → IsLearning s (λ i. p i / 2 + f i / 2) [] r.0
      → progress r.0 ≡ progress g + 1
      → Outcome s f ps p g r
  checked :
      g.filtered_corner ≡ s.filter_frames
      → 20 < points_with s f ps p
      → length ps + 1 < s.check_frames
      → r.1 ≡ none
      → IsLearning s f (ps ++ p ∷ []) r.0
      → progress r.0 ≡ progress g + 1
      → Outcome s f ps p g r
  found :
      (lines : List Testline)
      → r.1 ≡ some lines
      → r.0.line_hook ≡ lines
      → 20 < points_with s f ps p
      → IsFound s f (ps ++ p ∷ []) lines
      → progress g + 1 ≡ s.filter_frames + s.check_frames
      → Outcome s f ps p g r

-- The mask before updateDiversions, the first time and later.
mask_before :
    (s : Settings) (f : Buffer) (ps : List Buffer) (g : GetLogo)
    → IsLearning s f ps g
    → (if g.checked_corner + 1 == 1 then set_diversions s g.filter_data else g.filter_data)
      ≡ updates s ps (set_diversions s f)
unfolding mask_of updates
mask_before s f [] g v =
    if_rule (λ m. m ≡ set_diversions s f) (g.checked_corner + 1 == 1)
      (λ _. ap (set_diversions s) v.mask) (λ e. absurd (first e))
  where
    first : g.checked_corner + 1 == 1 ≡ false → ⊥
    first e = ground (arith, v.checked)
mask_before s f (p ∷ ps) g v =
    if_rule (λ m. m ≡ updates s (p ∷ ps) (set_diversions s f)) (g.checked_corner + 1 == 1)
      (λ e. absurd (later e)) (λ _. v.mask)
  where
    later : g.checked_corner + 1 == 1 ≡ true → ⊥
    later e = ground (arith, v.checked)

mask_of-snoc :
    (s : Settings) (f : Buffer) (ps : List Buffer) (p : Buffer)
    → mask_of s f (ps ++ p ∷ []) ≡ updates s (ps ++ p ∷ []) (set_diversions s f)
unfolding mask_of
mask_of-snoc s f [] p = refl
mask_of-snoc s f (q ∷ ps) p = refl

-- After a reset.
pub reset-IsLearning :
    (s : Settings) (run : Buffer) (g : GetLogo)
    → 0 < s.check_frames
    → IsLearning s (λ i. s.filter_init) [] (reset s run g)
unfolding reset mask_of
reset-IsLearning s run g h = record {
  mask = refl;
  checked = refl;
  unfinished = h;
  filtered = omega arith;
  in_order = λ l. absurd (omega arith);
  no_lines = refl;
}

-- Nothing is handed on after a reset.
finish_step-reset :
    (s : Settings) (run : Buffer) (g : GetLogo)
    → 0 < s.check_frames
    → finish_step s run (reset s run g) ≡ (reset s run g, none)
unfolding finish_step reset
finish_step-reset s run g h = ground arith

couples_of :
    (s : Settings) (mask : Buffer) (hook : List Testline)
    → hook ≡ []
    → (set_testlines s mask hook).1 ≡ couples (set_testlines s mask hook).0
couples_of s mask hook e = rw e (set_testlines-LinesOf s mask).1

length_zero : (ps : List Buffer) → length ps ≡ 0 → ps ≡ []
length_zero [] h = refl
length_zero (p ∷ ps) h = absurd (omega arith)

module _ (s : Settings) (f : Buffer) (ps : List Buffer) (p : Buffer) (g : GetLogo)
    (v : IsLearning s f ps g) where
  filter-Outcome :
      g.filtered_corner < s.filter_frames
      → Outcome s f ps p g (filter_step (record g { ref_picture = p }), none)
  unfolding filter_step filter_tp mask_of
  filter-Outcome h =
      filtered h (length_zero ps (omega (arith, none_checked, v.checked))) refl
        (record {
          mask =
              ap (λ (m : Buffer). filter_tp m p)
                (v.mask
                  ∙ ap (mask_of s f) (length_zero ps (omega (arith, none_checked, v.checked))));
          checked = none_checked;
          unfinished = omega (arith, v.unfinished);
          filtered = omega arith;
          in_order = λ l. absurd (omega arith);
          no_lines = v.no_lines;
        })
        (omega arith)
    where
      none_checked : g.checked_corner ≡ 0
      none_checked = grind (arith, v.checked, v.in_order)

  -- A reset on the way.
  restart :
      (g' : GetLogo)
      → g.filtered_corner ≡ s.filter_frames
      → IsPoor s f ps p
      → Outcome s f ps p g (finish_step s p (reset s p g'))
  unfolding reset
  restart g' full poor =
      let h : 0 < s.check_frames = omega (arith, v.unfinished) in
      rw (finish_step-reset s p g' h)
        (started_again full poor refl (reset-IsLearning s p g' h) refl)

  abbrev all_pictures : List Buffer
  all_pictures = ps ++ p ∷ []

  -- The state that updateDiversions leaves, and setTestlines takes.
  finish-Outcome :
      (mask : Buffer) (points : ℕ)
      → mask ≡ updates s all_pictures (set_diversions s f)
      → g.filtered_corner ≡ s.filter_frames
      → 20 < points
      → points ≡ points_with s f ps p
      → Outcome s f ps p g (
          finish_step s p (record g {
            ref_picture = p;
            checked_corner = g.checked_corner + 1;
            filter_data = mask;
            points_left = points;
          }))
  unfolding finish_step
  finish-Outcome mask points e full enough counts =
      if_rule (Outcome s f ps p g) (ltb 20 points && g.checked_corner + 1 == s.check_frames)
        (λ last.
          if_rule (Outcome s f ps p g) (ltb (set_testlines s mask g.line_hook).1 10)
            (λ few.
              started_again full
                (inr (counted (ground (arith, last)), too_few (ground (arith, few)))) refl
                (reset-IsLearning s p
                  (record g {
                    ref_picture = p;
                    checked_corner = g.checked_corner + 1;
                    filter_data = mask;
                    points_left = points;
                    line_hook = (set_testlines s mask g.line_hook).0;
                  })
                  (omega (arith, v.unfinished)))
                refl)
            (λ many.
              found (set_testlines s mask g.line_hook).0 refl refl (omega (arith, enough, counts))
                (record {
                  all_checked = all_counted (ground (arith, last));
                  of_mask = rw v.no_lines (ap (λ m. (set_testlines s m []).0) e);
                  enough = at_least (ground (arith, many));
                })
                (ground (arith, full, v.checked, last))))
        (λ not_last.
          checked full (omega (arith, enough, counts))
            (ground (arith, not_last, enough, v.checked, v.unfinished)) refl
            (record {
              mask = e ∙ sym (mask_of-snoc s f ps p);
              checked = omega (arith, v.checked, length-append ps (p ∷ []));
              unfinished =
                  ground (arith, v.checked, v.unfinished, not_last, length-append ps (p ∷ []));
              filtered = v.filtered;
              in_order = λ _. full;
              no_lines = v.no_lines;
            })
            (omega arith))
    where
      counted : g.checked_corner + 1 ≡ s.check_frames → length ps + 1 ≡ s.check_frames
      counted h = omega (arith, v.checked)

      too_few : (set_testlines s mask g.line_hook).1 < 10 → couples (lines_with s f ps p) < 10
      too_few h =
          subst (λ (m : Buffer). couples (set_testlines s m []).0 < 10) e
            (subst (λ l. couples (set_testlines s mask l).0 < 10) v.no_lines
              (omega (arith, h, couples_of s mask g.line_hook v.no_lines)))

      all_counted : g.checked_corner + 1 ≡ s.check_frames → length all_pictures ≡ s.check_frames
      all_counted h = omega (arith, v.checked, length-append ps (p ∷ []))

      at_least :
          10 ≤ (set_testlines s mask g.line_hook).1
          → 10 ≤ couples (set_testlines s mask g.line_hook).0
      at_least h = omega (arith, h, couples_of s mask g.line_hook v.no_lines)

  -- updateDiversions with its reset, and what follows.
  check-Outcome :
      g.filtered_corner ≡ s.filter_frames
      → Outcome s f ps p g (finish_step s p (check_step s p (record g { ref_picture = p })))
  unfolding check_step
  check-Outcome full =
      let mask =
        if g.checked_corner + 1 == 1 then set_diversions s g.filter_data else g.filter_data in
      let m = update_diversions s mask p in
      let counts : m.1 ≡ points_with s f ps p =
        ap (λ m. (update_diversions s m p).1) (mask_before s f ps g v) in
      if_rule (λ r. Outcome s f ps p g (finish_step s p r))
        (leb (g.checked_corner + 1) s.check_frames)
        (λ checking.
          if_rule (λ r. Outcome s f ps p g (finish_step s p r)) (leb m.1 20)
            (λ few.
              restart
                (record g {
                  ref_picture = p;
                  checked_corner = g.checked_corner + 1;
                  filter_data = m.0;
                  points_left = m.1;
                })
                full (inl (subst (λ (k : ℕ). k ≤ 20) counts (ground (arith, few)))))
            (λ many.
              finish-Outcome m.0 m.1
                (ap (λ m. (update_diversions s m p).0) (mask_before s f ps g v)
                  ∙ sym (updates-snoc s ps p (set_diversions s f)))
                full (ground (arith, many)) counts))
        (λ behind. absurd (ground (arith, behind, v.checked, v.unfinished)))

  accept_lem : Outcome s f ps p g (accept s p (record g { ref_picture = p }))
  unfolding accept
  accept_lem =
      if_rule (Outcome s f ps p g) (ltb g.filtered_corner s.filter_frames)
        (λ more. filter-Outcome (ground (arith, more)))
        (λ full. check-Outcome (ground (arith, full, v.filtered)))

-- While a corner learns, an accepted picture does one of four things. While the filter pictures
-- are not complete, the filtered picture becomes, byte by byte, half of the new one and half of
-- the old one, rounded down each. Behind them the picture is added to those of the check, where
-- more than 20 points are left and it is not the last one to check, and the mask is the one that
-- all these pictures leave of the filtered picture. The corner starts again where at most 20
-- points are left, or where it is the last picture to check and the mask has fewer than 10 pairs.
-- Otherwise, after exactly the number of filter and check pictures together, the test lines of
-- that mask are handed on, and they have at least 10 pairs.
pub accept-Outcome :
    (s : Settings) (f : Buffer) (ps : List Buffer) (p : Buffer) (g : GetLogo)
    → IsLearning s f ps g
    → Outcome s f ps p g (accept s p (record g { ref_picture = p }))
accept-Outcome s f ps p g v = accept_lem s f ps p g v
