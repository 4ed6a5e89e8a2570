-- ===== src/Picture/Scene/Reports.antt =====
-- What CheckSceneHasChanged reports over a run of pictures.
use noad.Prelude.{
  ℕ, zero, suc, ◌<◌, ◌≡◌, refl, ◌∙◌, ap, ap₂, sym, arith, Bool, true, false, not, List, [], ◌∷◌,
  ◌==◌, ◌||◌, Bool-cases, inl, inr,
}
use noad.Prelude.Int.{ℤ, pos, negsuc, ◌+ℤ◌, ◌≤ℤ◌, eqb_ℤ}
use noad.Picture.Histogram.{
  YuvBuf, Histogram, get_histogram, similar_part, are_similar, get_histogram-from,
}
use noad.Picture.Scene.{
  SceneState, fresh_histogram, reset_scene_change_detection, compare_scene, check_scene_has_changed,
}

-- The results over a run of pictures.
unfoldable pub reports : List YuvBuf → SceneState → List Bool
reports [] s = []
reports (f ∷ fs) s = (check_scene_has_changed f s).1 ∷ reports fs (check_scene_has_changed f s).0

-- Whether each picture is unlike the one before.
unfoldable pub changes : ℕ → ℕ → ℕ → YuvBuf → List YuvBuf → List Bool
changes w h c f [] = []
changes w h c f (g ∷ gs) =
    not (are_similar (pos c) (get_histogram w h g) (get_histogram w h f)) ∷ changes w h c g gs

-- Between two pictures: the one before is in `histogram`.
record Follows (w h c : ℕ) (now : Histogram) (s : SceneState) : Type 0 where
  width : s.grab_width ≡ w
  height : s.grab_height ≡ h
  at_cutoff : s.similar_cutoff ≡ c
  no_skip : s.last_frame_was_scene_change ≡ false
  here : s.histogram ≡ now
  started : eqb_ℤ (s.last_histogram 0) (negsuc 0) ≡ false

check-started :
    (f : YuvBuf) (s : SceneState)
    → s.grab_width == 0 || s.grab_height == 0 ≡ false
    → eqb_ℤ (s.last_histogram 0) (negsuc 0) ≡ false
    → check_scene_has_changed f s ≡ compare_scene s (get_histogram s.grab_width s.grab_height f)
unfolding check_scene_has_changed
check-started f s e e' = rw (e, e') refl

check-first :
    (f : YuvBuf) (s : SceneState)
    → s.grab_width == 0 || s.grab_height == 0 ≡ false
    → eqb_ℤ (s.last_histogram 0) (negsuc 0) ≡ true
    → check_scene_has_changed f s ≡ (
      record s {
        last_histogram = get_histogram s.grab_width s.grab_height f;
        scene_has_changed = false;
      },
      false,
    )
unfolding check_scene_has_changed
check-first f s e e' = rw (e, e') refl

not_negative : (a : ℤ) → pos 0 ≤ℤ a → eqb_ℤ a (negsuc 0) ≡ false
not_negative a h = ground arith

true_of_not : (b : Bool) → not b ≡ false → b ≡ true
true_of_not true h = refl
true_of_not false h = sym h

-- What a comparison reports, and that the state follows the picture.
compare_scene-Follows :
    (w h c : ℕ) (before now : Histogram) (s : SceneState)
    → Follows w h c before s
    → (are_similar (pos c) now before ≡ true → eqb_ℤ (before 0) (negsuc 0) ≡ false)
    → eqb_ℤ (now 0) (negsuc 0) ≡ false
    → ((compare_scene s now).1 ≡ not (are_similar (pos c) now before))
      × Follows w h c now (compare_scene s now).0
unfolding compare_scene
compare_scene-Follows w h c before now s v b n =
    let at_before : not (are_similar (pos s.similar_cutoff) now s.histogram)
        ≡ not (are_similar (pos c) now before) =
      ap₂ (λ k d. not (are_similar (pos k) now d)) v.at_cutoff v.here in
    elim (Bool-cases (not (are_similar (pos s.similar_cutoff) now s.histogram))) [
      | inl e ↦
          rw (v.no_skip, e)
            (
              sym (sym at_before ∙ e),
              record {
                width = v.width;
                height = v.height;
                at_cutoff = v.at_cutoff;
                no_skip = refl;
                here = refl;
                started = n;
              },
            )
      | inr e ↦
          rw (v.no_skip, e)
            (
              sym (sym at_before ∙ e),
              record {
                width = v.width;
                height = v.height;
                at_cutoff = v.at_cutoff;
                no_skip = refl;
                here = refl;
                started =
                    ap (λ d. eqb_ℤ (d 0) (negsuc 0)) v.here ∙ b (true_of_not _ (sym at_before ∙ e));
              },
            )
    ]

check-Follows :
    (w h c : ℕ) (before : Histogram) (g : YuvBuf) (s : SceneState)
    → 0 < w
    → 0 < h
    → Follows w h c before s
    → (are_similar (pos c) (get_histogram w h g) before ≡ true
        → eqb_ℤ (before 0) (negsuc 0) ≡ false)
    → ((check_scene_has_changed g s).1 ≡ not (are_similar (pos c) (get_histogram w h g) before))
      × Follows w h c (get_histogram w h g) (check_scene_has_changed g s).0
check-Follows w h c before g s pw ph v b =
    let same : check_scene_has_changed g s ≡ compare_scene s (get_histogram w h g) =
      check-started g s (ground (arith, v.width, v.height)) v.started
      ∙ ap₂ (λ a d. compare_scene s (get_histogram a d g)) v.width v.height in
    rw same (
      compare_scene-Follows w h c before (get_histogram w h g) s v b
        (not_negative _ (get_histogram-from w h g 0)))

reports-changes :
    (w h c : ℕ) (f : YuvBuf) (gs : List YuvBuf) (s : SceneState)
    → 0 < w
    → 0 < h
    → Follows w h c (get_histogram w h f) s
    → reports gs s ≡ changes w h c f gs
unfolding reports changes
reports-changes w h c f [] s pw ph v = refl
reports-changes w h c f (g ∷ gs) s pw ph v =
    let (e, v') =
      check-Follows w h c (get_histogram w h f) g s pw ph v
        (λ _. not_negative _ (get_histogram-from w h f 0)) in
    ap₂ (λ b bs. b ∷ bs) e (reports-changes w h c g gs _ pw ph v')

similar_part-fresh :
    (n : ℕ) (d : Histogram)
    → ((i : ℕ) → pos 0 ≤ℤ d i)
    → similar_part (suc n) d fresh_histogram ≡ negsuc 0
unfolding similar_part fresh_histogram ◌+ℤ◌
similar_part-fresh zero d h = ground (arith, h 0)
similar_part-fresh (suc n) d h = rw (similar_part-fresh n d h) (ground (arith, h (suc n)))

fresh-unlike :
    (c w h : ℕ) (g : YuvBuf) → are_similar (pos c) (get_histogram w h g) fresh_histogram ≡ false
unfolding are_similar
fresh-unlike c w h g =
    rw (similar_part-fresh 255 (get_histogram w h g) (get_histogram-from w h g)) (ground arith)

-- For a picture size that is not 0, after resetSceneChangeDetection the first picture is never
-- reported as a change of scene, the second one always, whatever the two show, and from the third
-- on exactly those that areSimilar tells from the picture before.
pub reports-eq :
    (f g : YuvBuf) (gs : List YuvBuf) (s : SceneState)
    → 0 < s.grab_width
    → 0 < s.grab_height
    → reports (f ∷ g ∷ gs) (reset_scene_change_detection s)
      ≡ false ∷ true ∷ changes s.grab_width s.grab_height s.similar_cutoff g gs
unfolding reports reset_scene_change_detection
reports-eq f g gs s pw ph =
    let w = s.grab_width in
    let h = s.grab_height in
    let c = s.similar_cutoff in
    let first =
      check-first f (reset_scene_change_detection s) (ground (arith, pw, ph))
        (unfold fresh_histogram in refl) in
    let s1 = record (reset_scene_change_detection s) {
      last_histogram = get_histogram w h f;
      scene_has_changed = false;
    } in
    let v1 : Follows w h c fresh_histogram s1 = record {
      width = refl;
      height = refl;
      at_cutoff = refl;
      no_skip = refl;
      here = refl;
      started = not_negative _ (get_histogram-from w h f 0);
    } in
    let unlike = fresh-unlike c w h g in
    let (second, v2) = check-Follows w h c fresh_histogram g s1 pw ph v1 (λ e. cc) in
    rw first (
      ap (λ bs. false ∷ bs)
        (ap₂ (λ b bs. b ∷ bs) (second ∙ ap not unlike) (reports-changes w h c g gs _ pw ph v2)))
