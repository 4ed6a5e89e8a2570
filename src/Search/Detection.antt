-- ===== src/Search/Detection.antt =====
-- doLogoDetection ends.
use noad.Prelude.{
  ℕ, zero, suc, ◌+◌, ◌≤◌, ◌<◌, ◌≡◌, subst, refl, ◌∙◌, sym, ap, arith, Bool, true, false, Option,
  none, some, not, ◌&&◌, ltb, if_rule, List, Bool-cases, inl, inr, ◌⊎◌,
}
use noad.Prelude.Int.{ℤ, pos, negsuc, ltb_ℤ, leb_ℤ, ◌≤ℤ◌}
use noad.IndexFile.{IndexFile, Frame, Entry, noad_get, scan_bound}
use noad.IndexFile.Scan.{NextIFrame}
use noad.IndexFile.NextFrame.{next_i_frame-forward}
use noad.Search.{
  logo_detect_callback, Machine, Search, frame_number, frames_to_check, detect_round, frame_seen,
  detect_loop, detect_from, do_logo_detection,
}

-- The machine behind `k` pictures from frame `current` on, each shown to LogoDetectCallback.
pub pictures : {S : Type 0} → Machine S → Bool → ℕ → ℕ → Bool → S → S
pictures m ext zero current reset d = d
pictures m ext (suc k) current reset d =
    pictures m ext k (current + 1) false (m.picture logo_detect_callback ext (pos current) reset d)

-- Before picture `k` the search is on: no logo, too few pictures, and the frame is there.
abbrev pub IsSearching : {S : Type 0} → Machine S → Bool → ℕ → Bool → S → ℕ → Type 0
IsSearching m ext current reset d k =
    (m.found (pictures m ext k current reset d) ≡ false)
    × (m.checked_frames (pictures m ext k current reset d) < frames_to_check)

-- How the loop ends from frame `current`, with the number of pictures that it has shown: with a
-- logo, after enough pictures, or behind the last frame of the index.
pub record EndsWell {S : Type 0} (m : Machine S) (s : IndexFile) (ext : Bool) (current : ℕ)
    (reset : Bool) (d : S) (r : Bool × Search S) : Type 0 where
  pub shown : ℕ
  pub searched : (k : ℕ) → k < shown → IsSearching m ext current reset d k
  pub there : (k : ℕ) → 0 < k → k < shown → (f : Frame) × (noad_get s (pos (current + k)) ≡ some f)
  pub left : r.1.machine ≡ pictures m ext shown current reset d
  pub frame : r.1.cur_index ≡ pos (current + shown)
  pub ended :
      ((r.0 ≡ m.found r.1.machine)
        × ((r.0 ≡ true) ⊎ (frames_to_check ≤ m.checked_frames r.1.machine)))
      ⊎ ((r.0 ≡ false) × (0 < shown) × (noad_get s (pos (current + shown)) ≡ none))

-- There is no frame behind the last entry.
noad_get_behind : (s : IndexFile) (i : ℕ) → ltb_ℤ (pos i) s.last ≡ false → noad_get s (pos i) ≡ none
unfolding noad_get
noad_get_behind s i e =
    if_rule (λ r. r ≡ none) (leb_ℤ (pos 0) (pos i) && ltb_ℤ (pos i) s.last)
      (λ on. absurd (ground (arith, on, e))) (λ _. refl)

module _ {S : Type 0} (m : Machine S) (s : IndexFile) where
  -- The search variables at the test of the loop.
  abbrev IsAt : ℕ → Search S → Type 0
  IsAt current v = (v.callback ≡ logo_detect_callback) × (v.cur_index ≡ pos current)

  abbrev Searched : ℕ → Bool → Search S → Bool × Search S → Type 0
  Searched current reset v r = EndsWell m s v.ext_logo_search current reset v.machine r

  abbrev WellEnded : ℕ → Bool → Search S → Option (Bool × Search S) → Type 0
  WellEnded current reset v o = (r : Bool × Search S) × (o ≡ some r) × Searched current reset v r

  at_test :
      (current : ℕ) (reset : Bool) (v : Search S)
      → IsAt current v
      → (not (m.found v.machine) && ltb (m.checked_frames v.machine) frames_to_check) ≡ false
      → Searched current reset v (m.found v.machine, v)
  unfolding pictures
  at_test current reset v a off = record {
    shown = 0;
    searched = λ k h. absurd (omega arith);
    there = λ k l h. absurd (omega arith);
    left = refl;
    frame = a.1 ∙ ap pos (omega arith);
    ended = inl (
      refl,
      elim (Bool-cases (m.found v.machine)) [
        | inl hit ↦ inl hit
        | inr miss ↦ inr (ground (arith, off, miss))
      ],
    );
  }

  abbrev IsOn : Search S → Type 0
  IsOn v = (m.found v.machine ≡ false) × (m.checked_frames v.machine < frames_to_check)

  -- One picture more in front.
  one_more :
      (current : ℕ) (reset : Bool) (v : Search S) (f : Frame) (r : Bool × Search S)
      → IsAt current v
      → IsOn v
      → noad_get s (pos (current + 1)) ≡ some f
      → Searched (current + 1) false (frame_seen (current + 1) f (detect_round m current reset v)) r
      → Searched current reset v r
  unfolding pictures frame_seen detect_round
  one_more current reset v f r a on here e =
      let d = m.picture v.callback v.ext_logo_search (pos current) reset v.machine in
      let same : d
          ≡ m.picture logo_detect_callback v.ext_logo_search (pos current) reset v.machine =
        ap (λ c. m.picture c v.ext_logo_search (pos current) reset v.machine) a.0 in
      record {
        shown = suc e.shown;
        searched = searched same;
        there = there;
        left = e.left ∙ ap (pictures m v.ext_logo_search e.shown (current + 1) false) same;
        frame = e.frame ∙ ap pos (omega arith);
        ended = elim e.ended [
          | inl h ↦ inl h
          | inr (h0, h1, h2) ↦
              inr (h0, omega arith, ap (λ k. noad_get s (pos k)) (omega arith) ∙ h2)
        ];
      }
    where
      searched :
          m.picture v.callback v.ext_logo_search (pos current) reset v.machine
            ≡ m.picture logo_detect_callback v.ext_logo_search (pos current) reset v.machine
          → (k : ℕ) → k < suc e.shown
          → IsSearching m v.ext_logo_search current reset v.machine k
      searched same zero h = on
      searched same (suc k) h =
          subst
            (λ d.
              (m.found (pictures m v.ext_logo_search k (current + 1) false d) ≡ false)
              × (m.checked_frames (pictures m v.ext_logo_search k (current + 1) false d)
                  < frames_to_check))
            same (e.searched k (omega arith))

      there :
          (k : ℕ)
          → 0 < k
          → k < suc e.shown
          → (g : Frame) × (noad_get s (pos (current + k)) ≡ some g)
      there zero l h = absurd (omega arith)
      there (suc zero) l h = (f, here)
      there (suc (suc k)) l h =
          subst (λ i. (g : Frame) × (noad_get s (pos i) ≡ some g)) (omega arith)
            (e.there (suc k) (omega arith) (omega arith))

  -- The picture behind which there is no frame.
  last_picture :
      (current : ℕ) (reset : Bool) (v : Search S)
      → IsAt current v
      → IsOn v
      → noad_get s (pos (current + 1)) ≡ none
      → Searched current reset v (false, detect_round m current reset v)
  unfolding pictures detect_round
  last_picture current reset v a on gone = record {
    shown = 1;
    searched = first;
    there = λ k l h. absurd (omega arith);
    left = ap (λ c. m.picture c v.ext_logo_search (pos current) reset v.machine) a.0;
    frame = refl;
    ended = inr (refl, omega arith, gone);
  }
    where
      first : (k : ℕ) → k < 1 → IsSearching m v.ext_logo_search current reset v.machine k
      first zero h = on
      first (suc k) h = absurd (omega arith)

  next-EndsWell :
      (current : ℕ) (reset : Bool) (v : Search S) (k : Frame → Option (Bool × Search S))
      → IsAt current v
      → IsOn v
      → ((f : Frame)
          → ltb_ℤ (pos (current + 1)) s.last ≡ true
          → WellEnded
              (current + 1)
              false
              (frame_seen (current + 1) f (detect_round m current reset v))
              (k f))
      → (o : Option Frame) → noad_get s (pos (current + 1)) ≡ o
      → WellEnded current reset v
          (elim o [ none ↦ some (false, detect_round m current reset v) | some f ↦ k f ])
  next-EndsWell current reset v k a on ih none e = (_, refl, last_picture current reset v a on e)
  next-EndsWell current reset v k a on ih (some f) e =
      elim (Bool-cases (ltb_ℤ (pos (current + 1)) s.last)) [
        | inl there ↦ let (r, go, w) = ih f there in (r, go, one_more current reset v f r a on e w)
        | inr behind ↦ let z = sym e ∙ noad_get_behind s (current + 1) behind in absurd cc
      ]

  -- A round, where the rest of the loop ends.
  round-EndsWell :
      (n current : ℕ) (reset : Bool) (v : Search S)
      → IsAt current v
      → ((f : Frame)
          → ltb_ℤ (pos (current + 1)) s.last ≡ true
          → let w = frame_seen (current + 1) f (detect_round m current reset v) in
            WellEnded (current + 1) false w (detect_loop n m s (current + 1) false w))
      → WellEnded current reset v (detect_loop (suc n) m s current reset v)
  unfolding detect_loop detect_round
  round-EndsWell n current reset v a ih =
      if_rule (WellEnded current reset v)
        (not (m.found v.machine) && ltb (m.checked_frames v.machine) frames_to_check)
        (λ on.
          next-EndsWell current reset v _ a (is_on on) ih (noad_get s (pos (current + 1))) refl)
        (λ off. (_, refl, at_test current reset v a off))
    where
      is_on :
          (not (m.found v.machine) && ltb (m.checked_frames v.machine) frames_to_check) ≡ true
          → IsOn v
      is_on on = ground (arith, on)

  seen-IsAt :
      (current : ℕ) (reset : Bool) (v : Search S) (f : Frame)
      → IsAt current v
      → IsAt (current + 1) (frame_seen (current + 1) f (detect_round m current reset v))
  unfolding frame_seen detect_round
  seen-IsAt current reset v f a = (a.0, refl)

  detect_loop-EndsWell :
      (n current : ℕ) (reset : Bool) (v : Search S)
      → s.last ≤ℤ pos (current + n)
      → IsAt current v
      → WellEnded current reset v (detect_loop (suc n) m s current reset v)
  detect_loop-EndsWell zero current reset v h a =
      round-EndsWell zero current reset v a (λ f e. absurd (ground (arith, e, h)))
  detect_loop-EndsWell (suc n) current reset v h a =
      round-EndsWell (suc n) current reset v a (λ f e.
        detect_loop-EndsWell n (current + 1) false _ (omega (arith, h))
          (seen-IsAt current reset v f a))

  -- The result, where no I frame is left to start with, or at the end of the loop from the nearest.
  pub data Detected (es : List Entry) (i : ℤ) (v : Search S) (r : Bool × Search S) : Type 0 where
    no_frame :
        NextIFrame es i (scan_bound s true true) none
        → r.1.cur_index ≡ negsuc 0
        → r.0 ≡ m.found r.1.machine
        → r.1.machine ≡ v.machine
        → Detected es i v r
    detected :
        (j : ℕ)
        → NextIFrame es i (scan_bound s true true) (some (pos j))
        → EndsWell m s v.ext_logo_search j true v.machine r
        → Detected es i v r

  detect_from-Detected :
      (n : ℕ) (es : List Entry) (i : ℤ) (o : Option ℤ) (v : Search S)
      → s.last ≤ℤ pos n
      → negsuc 0 ≤ℤ i
      → NextIFrame es i (scan_bound s true true) o
      → (r : Bool × Search S) × (detect_from (suc n) m s (frame_number o) v ≡ some r)
        × (r.1.callback ≡ v.callback)
        × Detected es i v r
  unfolding detect_from
  detect_from-Detected n es i none v h lo next = (
    (m.found v.machine, record v { cur_index = negsuc 0; last_i_frame = negsuc 0 }),
    refl,
    refl,
    no_frame next refl refl refl,
  )
  detect_from-Detected n es i (some (negsuc j)) v h lo next = absurd (omega (arith, next.0, lo))
  detect_from-Detected n es i (some (pos j)) v h lo next =
      let w = record v {
        callback = logo_detect_callback;
        cur_index = pos j;
        last_i_frame = pos j;
      } in
      let ((b, u), go, e) = detect_loop-EndsWell n j true w (omega (arith, h)) (refl, refl) in
      (
        (b, record u { callback = v.callback }),
        ap
            (λ (o : Option (Bool × Search S)). elim o [
              | none ↦ none
              | some r ↦ some (r.0, record r.1 { callback = v.callback })
            ])
            go,
        refl,
        detected j next (record {
          shown = e.shown;
          searched = e.searched;
          there = e.there;
          left = e.left;
          frame = e.frame;
          ended = e.ended;
        }),
      )

-- With an index, and from -1 or later, doLogoDetection ends whatever the decoder does, and puts
-- the callback back. Where there is no I frame behind the given one and before the bound of
-- GetNextIFrame, it returns whether a logo was found before, and shows nothing. Otherwise it shows
-- consecutive pictures from the nearest such I frame on to LogoDetectCallback, each but the first
-- of a frame that is there, and each while no logo is found and fewer than 3000 pictures are
-- checked; and it stops with a logo found or with 3000 pictures checked and returns whether one is
-- found, or it returns false behind the last frame of the index.
pub do_logo_detection-Detected :
    {S : Type 0} (m : Machine S) (s : IndexFile) (es : List Entry) (i : ℤ) (n : ℕ) (v : Search S)
    → s.index ≡ some es
    → negsuc 0 ≤ℤ i
    → s.last ≤ℤ pos n
    → (r : Bool × Search S) × (do_logo_detection (suc n) (suc n) m s i v ≡ some r)
      × (r.1.callback ≡ v.callback)
      × Detected m s es i v r
unfolding do_logo_detection
do_logo_detection-Detected m s es i n v e lo hi =
    let (f, at, next) = next_i_frame-forward s es i true n e lo hi in
    let (r, go, back, d) = detect_from-Detected m s n es i f v hi lo next in
    (
      r,
      ap
            (λ (o : Option (Option ℤ)). elim o [
              | none ↦ none
              | some f ↦ detect_from (suc n) m s (frame_number f) v
            ])
            at
          ∙ go,
      back,
      d,
    )
