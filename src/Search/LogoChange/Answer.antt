-- ===== src/Search/LogoChange/Answer.antt =====
-- findLogoChange as a whole.
use noad.Prelude.{
  ℕ, suc, ◌≡◌, refl, ap, arith, Bool, true, Option, none, some, if_rule, inl, inr, ◌⊎◌, List,
  length,
}
use noad.Prelude.Int.{ℤ, pos, negsuc, ◌≤ℤ◌, ◌<ℤ◌}
use noad.IndexFile.{IndexFile, Entry, noad_get, scan_bound}
use noad.IndexFile.Scan.{NextIFrame}
use noad.IndexFile.NextFrame.{next_i_frame-forward}
use noad.Search.{Machine, Search}
use noad.Search.LogoChange.{
  int_of, independence, i_frame_for, Options, Plan, plan_for, prepared, put_back, Change,
  change_loop, run_out, change_from, find_logo_change,
}
use noad.Search.LogoChange.Ends.{
  Means, kept, run_off, overdue, turned, Means_mono, run_out-below, change_loop-Ended,
}

-- The frame that getIFrameFor gives is none, or not before the one that was asked for.
i_frame_for-from :
    (s : IndexFile) (es : List Entry) (n : ℕ) (garbage : Bool) (i : ℕ)
    → s.index ≡ some es
    → s.last ≤ℤ pos n
    → (cur : ℤ) × (i_frame_for (suc n) s garbage (pos i) ≡ some cur)
      × ((cur ≡ negsuc 0) ⊎ (pos i ≤ℤ cur))
unfolding i_frame_for
i_frame_for-from s es n garbage i e few =
    let (o, at, next) = next_i_frame-forward s es (pos i) true n e (omega arith) few in
    if_rule (λ (r : Option ℤ). (cur : ℤ) × (r ≡ some cur) × ((cur ≡ negsuc 0) ⊎ (pos i ≤ℤ cur)))
      (independence garbage (noad_get s (pos i))) (λ here. (pos i, refl, inr (omega arith)))
      (λ behind. rw at (int_of o, refl, after o next))
  where
    after :
        (o : Option ℤ)
        → NextIFrame es (pos i) (scan_bound s true true) o
        → (int_of o ≡ negsuc 0) ⊎ (pos i ≤ℤ int_of o)
    after none h = inl refl
    after (some j) h = inr (omega (arith, h.0))

module _ {S : Type 0} (o : Options) (m : Machine S) (s : IndexFile) (es : List Entry) (n : ℕ)
    (state : ℤ) (skip repeat : ℕ) (v : Search S) (index_is : s.index ≡ some es)
    (held : s.last <ℤ pos (length es)) (few : s.last ≤ℤ pos n) where
  -- The callback is no part of what an answer means.
  put_back-Means :
      (p : Plan) (i : ℕ) (r : Change S)
      → Means m s es p i r
      → Means m s es p i (record r { search = record r.search { callback = v.callback } })
  put_back-Means p i r (kept e l f) = kept e l f
  put_back-Means p i r (run_off e f) = run_off e f
  put_back-Means p i r (overdue e l f) = overdue e l f
  put_back-Means p i r (turned logo c e d f l (inl once)) = turned logo c e d f l (inl once)
  put_back-Means p i r (turned logo c e d f l (inr w)) = turned logo c e d f l (
      inr (record {
        before = w.before;
        after = w.after;
        turned_before = w.turned_before;
        checked = w.checked;
        left = w.left;
      }))

  change_from-Means :
      (i : ℕ) (cur : ℤ)
      → s.last ≤ℤ pos n
      → (cur ≡ negsuc 0) ⊎ (pos i ≤ℤ cur)
      → (r : Change S) × (change_from o (suc n) m s state skip repeat cur v ≡ some r)
        × (r.search.callback ≡ v.callback)
        × Means m s es (plan_for o (suc n) s state skip repeat cur) i r
  unfolding change_from change_loop
  change_from-Means i (negsuc c) few h =
      let p = plan_for o (suc n) s state skip repeat (negsuc c) in
      let w = prepared o m state (negsuc c) v in
      (
        _,
        refl,
        refl,
        put_back-Means p i (run_out p (negsuc c) w)
            (run_out-below m s es p n index_is held few refl i c w),
      )
  change_from-Means i (pos c) few (inl below) = absurd cc
  change_from-Means i (pos c) few (inr on) =
      let p = plan_for o (suc n) s state skip repeat (pos c) in
      let (r, at, means) =
        change_loop-Ended m s es p n index_is held few refl n c true (prepared o m state (pos c) v)
          (omega (arith, few)) in
      (
        _,
        ap (put_back v) at,
        refl,
        put_back-Means p i r (Means_mono m s es p i c r (omega (arith, on)) means),
      )

  pub find_logo_change-Means :
      (garbage : Bool) (i : ℕ)
      → (cur : ℤ) × (r : Change S) × (i_frame_for (suc n) s garbage (pos i) ≡ some cur)
        × ((cur ≡ negsuc 0) ⊎ (pos i ≤ℤ cur))
        × (find_logo_change o (suc n) m s garbage state (pos i) skip repeat v ≡ some r)
        × (r.search.callback ≡ v.callback)
        × Means m s es (plan_for o (suc n) s state skip repeat cur) i r
  unfolding find_logo_change
  find_logo_change-Means garbage i =
      let (cur, found, f) = i_frame_for-from s es n garbage i index_is few in
      let (r, at, back, means) = change_from-Means i cur few f in
      (cur, r, found, f, rw (find_logo_change, found) at, back, means)
