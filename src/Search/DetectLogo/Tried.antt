-- ===== src/Search/DetectLogo/Tried.antt =====
-- checkLogo and detectLogo: that they end, and the pictures behind their results.
use noad.Prelude.{
  ℕ, zero, suc, ◌+◌, ◌*◌, ◌≤◌, ◌<◌, ◌≡◌, refl, ◌∙◌, ap, arith, Bool, true, false, Option, none,
  some, ◌&&◌, ◌==◌, ltb, leb, List, [], ◌∷◌, if_rule, elim_rule, inl, inr, ◌⊎◌,
}
use noad.Prelude.Int.{ℤ, pos, negsuc, ◌+ℤ◌, ◌≤ℤ◌, +ℤ_parts}
use noad.IndexFile.{IndexFile, Entry, next_i_frame, scan_bound}
use noad.IndexFile.Scan.{NextIFrame}
use noad.IndexFile.NextFrame.{next_i_frame-forward}
use noad.Search.{Machine, Search, check_callback}
use noad.Search.Detection.{do_logo_detection-Detected}
use noad.Search.LogoChange.{int_of, Options, frames_per_minute}
use noad.Search.DetectLogo.{
  logo_frames, logo_blocks, block_frames, logo_dist, one_if, logo_picture, pictures_loop,
  blocks_loop, enough, check_logo, with_machine, start_minutes, detect_parts, new_scan, reused,
  detect_logo,
}

-- From `v`, pictures have been shown, some with a logo: the state, and how many.
pub data Seen {S : Type 0} (m : Machine S) (v : Search S) : Search S → ℕ → ℕ → Type 0 where
  nothing : Seen m v v 0 0
  picture :
      (w : Search S) (all logos : ℕ) (i : ℤ) (ii : ℕ) (reset : Bool)
      → Seen m v w all logos
      → Seen m v
          (logo_picture m i ii reset w)
          (all + 1)
          (logos + one_if (m.is_logo (logo_picture m i ii reset w).machine))

one_if_le : (b : Bool) → one_if b ≤ 1
one_if_le true = omega arith
one_if_le false = omega arith

-- What checkLogo has seen: 500 pictures, or less if 250 of them show the logo.
pub record Tried {S : Type 0} (m : Machine S) (v : Search S) (r : Bool × Search S) : Type 0 where
  pub last : Search S
  pub all : ℕ
  pub logos : ℕ
  pub seen : Seen m (record v { callback = check_callback }) last all logos
  pub after : r.1 ≡ record last { callback = v.callback }
  pub verdict : r.0 ≡ leb logo_frames logos
  pub bounded : (all ≤ 500) × (logos ≤ logo_frames)
  pub all_of_them : logos < logo_frames → all ≡ 500

module _ {S : Type 0} (o : Options) (m : Machine S) (s : IndexFile) (es : List Entry) (n : ℕ)
    (index_is : s.index ≡ some es) (few : s.last ≤ℤ pos n) where
  -- `k` more pictures behind `all`, or less with enough logos.
  abbrev More : Search S → ℕ → ℕ → ℕ → ℕ × Search S → Type 0
  More v all found k r =
      (q : ℕ) × Seen m v r.1 q r.0
      × (q ≤ all + k)
      × ((found ≤ r.0) × (r.0 ≤ logo_frames))
      × (r.0 < logo_frames → q ≡ all + k)

  pictures_loop-More :
      (v : Search S) (i : ℤ) (k ii : ℕ) (reset : Bool) (found : ℕ) (w : Search S) (all : ℕ)
      → Seen m v w all found
      → found ≤ logo_frames
      → More v all found k (pictures_loop m i k ii reset found w)
  unfolding pictures_loop
  pictures_loop-More v i zero ii reset found w all seen h =
      (all, seen, omega arith, (omega arith, h), λ _. omega arith)
  pictures_loop-More v i (suc k) ii reset found w all seen h =
      if_rule (More v all found (suc k)) (ltb found logo_frames)
        (λ on.
          let u = logo_picture m i ii reset w in
          let one = one_if_le (m.is_logo u.machine) in
          let (q, seen', le, hi, full) =
            pictures_loop-More v i k (ii + 1) false (found + one_if (m.is_logo u.machine)) u
              (all + 1) (picture w all found i ii reset seen) (ground (arith, on, one)) in
          (q, seen', omega arith, (omega (arith, hi.0), hi.1), λ l. full l ∙ omega arith))
        (λ off. (all, seen, omega arith, (omega arith, h), λ l. absurd (ground (arith, off, l))))

  -- GetNextIFrame forwards.
  pub found_frame :
      (i : ℤ)
      → negsuc 0 ≤ℤ i
      → (j : Option ℤ) × (next_i_frame (suc n) s i true true ≡ some j) × (negsuc 0 ≤ℤ int_of j)
  found_frame i lo =
      let (j, at, next) = next_i_frame-forward s es i true n index_is lo few in
      (j, at, after j next)
    where
      after : (j : Option ℤ) → NextIFrame es i (scan_bound s true true) j → negsuc 0 ≤ℤ int_of j
      after none h = omega arith
      after (some j) h = omega (arith, lo, h.0)

  abbrev MoreBlocks : Search S → ℕ → ℕ → ℕ → Option (ℕ × Search S) → Type 0
  MoreBlocks v all found k x = (r : ℕ × Search S) × (x ≡ some r) × More v all found k r

  blocks_loop-More :
      (v : Search S) (k : ℕ) (i : ℤ) (found : ℕ) (w : Search S) (all : ℕ)
      → negsuc 0 ≤ℤ i
      → Seen m v w all found
      → found ≤ logo_frames
      → MoreBlocks v all found (k * block_frames) (blocks_loop (suc n) o m s k i found w)
  unfolding blocks_loop
  blocks_loop-More v zero i found w all lo seen h =
      ((found, w), refl, (all, seen, omega arith, (omega arith, h), λ _. omega arith))
  blocks_loop-More v (suc k) i found w all lo seen h =
      elim_rule (MoreBlocks v all found (suc k * block_frames)) (ltb found logo_frames)
        (λ on.
          let (q, seen', le, hi, full) =
            pictures_loop-More v i block_frames 1 true found w all seen h in
          let r = pictures_loop m i block_frames 1 true found w in
          let (j, at, lo') =
            found_frame (i +ℤ pos (logo_dist o))
              (omega (arith, lo, +ℤ_parts i (pos (logo_dist o)))) in
          let (x, go, (p, seen'', le', hi', full')) =
            blocks_loop-More v k (int_of j) r.0 r.1 q lo' seen' hi.1 in
          rw at (
            x,
            go,
            (
              p,
              seen'',
              omega arith,
              (omega (arith, hi, hi'), hi'.1),
              λ l.
                  full' l
                  ∙ ap (λ z. z + k * block_frames) (full (omega (arith, hi', l)))
                  ∙ omega arith,
            ),
          ))
        (λ off. (
          (found, w),
          refl,
          (all, seen, omega arith, (omega arith, h), λ l. absurd (ground (arith, off, l))),
        ))

  -- checkLogo ends, and has seen what its result says.
  pub check_logo-Tried :
      (i : ℤ) (v : Search S)
      → negsuc 0 ≤ℤ i
      → (r : Bool × Search S) × (check_logo (suc n) o m s i v ≡ some r) × Tried m v r
  unfolding check_logo
  check_logo-Tried i v lo =
      let (j, at, lo') = found_frame i lo in
      let w = record v { callback = check_callback } in
      let (x, go, (q, seen, le, hi, full)) =
        blocks_loop-More w logo_blocks (int_of j) 0 w 0 lo' nothing (omega arith) in
      (
        (leb logo_frames x.0, record x.1 { callback = v.callback }),
        rw (check_logo, at) (ap (enough v) go),
        record {
          last = x.1;
          all = q;
          logos = x.0;
          seen = seen;
          after = refl;
          verdict = refl;
          bounded = (le, hi.1);
          all_of_them = full;
        },
      )

  -- A detection: true only behind a trial that sees the logo.
  abbrev pub Settled : Search S → Bool × Search S → Type 0
  Settled v r =
      (r.1.callback ≡ v.callback) × ((r.0 ≡ false) ⊎ ((r.0 ≡ true) × (w : Search S) × Tried m w r))

  abbrev Settles : Search S → Option (Bool × Search S) → Type 0
  Settles v x = (r : Bool × Search S) × (x ≡ some r) × Settled v r

  accepted_callback : (v : Search S) (r : Bool × Search S) → Tried m v r → r.1.callback ≡ v.callback
  accepted_callback v r t = ap (λ w. w.callback) t.after

  -- Behind a trial, where the rest settles.
  behind_trial :
      (v u : Search S) (rest : Search S → Option (Bool × Search S)) (r : Bool × Search S)
      → u.callback ≡ v.callback
      → Tried m u r
      → ((x : Search S) → x.callback ≡ v.callback → Settles v (rest x))
      → Settles v (elim (some r) [
        | none ↦ none
        | some (true, x) ↦ some (true, x)
        | some (false, x) ↦ rest x
      ])
  behind_trial v u rest (true, x) f t k =
      ((true, x), refl, (accepted_callback u (true, x) t ∙ f, inr (refl, u, t)))
  behind_trial v u rest (false, x) f t k = k x (accepted_callback u (false, x) t ∙ f)

  -- Behind doLogoDetection.
  detected_next :
      (v : Search S) (i : ℕ) (rest : Search S → Option (Bool × Search S)) (r : Bool × Search S)
      → r.1.callback ≡ v.callback
      → ((x : Search S) → x.callback ≡ v.callback → Settles v (rest x))
      → Settles v (elim (some r) [
        | none ↦ none
        | some (false, w) ↦ rest w
        | some (true, w) ↦ elim (check_logo (suc n) o m s (pos i) w) [
          | none ↦ none
          | some (true, x) ↦ some (true, x)
          | some (false, x) ↦ rest x
        ]
      ])
  detected_next v i rest (false, w) f k = k w f
  detected_next v i rest (true, w) f k =
      let (r, at, t) = check_logo-Tried (pos i) w (omega arith) in
      rw at (behind_trial v w rest r f t k)

  detect_parts-Settled :
      (start : ℕ) (ps : List ℕ) (v w : Search S)
      → w.callback ≡ v.callback
      → Settles v (detect_parts (suc n) o m s start ps w)
  unfolding detect_parts
  detect_parts-Settled start [] v w e = ((false, w), refl, (e, inl refl))
  detect_parts-Settled start (p ∷ ps) v w e =
      let i = p * frames_per_minute o + start in
      let (r, go, back, _) =
        do_logo_detection-Detected m s es (pos i) n (with_machine w (m.re_init w.machine)) index_is
          (omega arith) few in
      rw (detect_parts, go)
        (detected_next v i (detect_parts (suc n) o m s start ps) r (back ∙ e)
          (λ x f. detect_parts-Settled start ps v x f))

  new_scan-Settled :
      (start : ℕ) (v w : Search S)
      → w.callback ≡ v.callback
      → Settles v (new_scan (suc n) o m s start w)
  unfolding new_scan
  new_scan-Settled start v w e = detect_parts-Settled start start_minutes v _ e

  reused-Settled :
      (start : ℕ) (v : Search S) (r : Bool × S) → Settles v (reused (suc n) o m s start v r)
  unfolding reused
  reused-Settled start v (false, x) = new_scan-Settled start v (with_machine v x) refl
  reused-Settled start v (true, x) =
      let (r, at, t) = check_logo-Tried (pos 0) (with_machine v x) (omega arith) in
      rw (reused, at)
        (behind_trial v (with_machine v x) (new_scan (suc n) o m s start) r refl t
          (λ y f. new_scan-Settled start v y f))

  -- With an index, and whatever the decoder shows, detectLogo ends, puts the callback back, and
  -- gives true only behind a checkLogo that has seen the logo in 250 of at most 500 pictures.
  pub detect_logo-Settled :
      (start : ℕ) (v : Search S)
      → (r : Bool × Search S) × (detect_logo (suc n) o m s start v ≡ some r) × Settled v r
  unfolding detect_logo
  detect_logo-Settled start v =
      elim_rule (Settles v) (o.reuse_logo && (start == 0))
        (λ on. reused-Settled start v (m.load_check_data (m.re_init v.machine)))
        (λ off. new_scan-Settled start v (with_machine v (m.re_init v.machine)) refl)
