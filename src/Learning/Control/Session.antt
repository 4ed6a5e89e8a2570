-- ===== src/Learning/Control/Session.antt =====
-- A CControl over everything that is asked of it.
use noad.Prelude.{
  ◌+◌, ◌<◌, ◌≡◌, refl, ◌∙◌, sym, ap, subst, arith, Bool, true, Option, none, some, List, [], ◌∷◌,
  ◌&&◌, ◌==◌, not, ltb, leb, if◌then◌else◌, if_rule,
}
use noad.Prelude.Int.{ℤ, pos, negsuc}
use noad.CheckLogo.{Testline}
use noad.Learning.{Buffer, Settings, GetLogo}
use noad.Learning as Learning
use noad.Learning.Phase.{reset-IsLearning}
use noad.Learning.Control.{
  Corner, top_left, top_right, bot_right, bot_left, corner_id, Control, found_logo, hand_on,
  corner_step, check_found, new_data, ctrl_reset, force_corner, new_control, Request, picture,
  forced, stopped, perform, perform_all,
}
use noad.Learning.Control.Shared.{
  IsControl, IsShared, new_data-IsControl, ctrl_reset-IsControl, corner_id_inj,
}

-- The choice of the corners changes nothing while they learn.
force_corner-IsControl :
    (s : Settings) (n : ℤ) (c : Control)
    → 0 < s.check_frames
    → IsControl s c
    → IsControl s (force_corner s n c)
unfolding force_corner ctrl_reset
force_corner-IsControl s (negsuc n) c h v = v
force_corner-IsControl s (pos n) c h v =
    let r = ctrl_reset-IsControl s c h v in
    if_rule (IsControl s) (leb n 3) (λ in_range. record { idle = r.idle; shared = λ on. absurd cc })
      (λ out. v)

perform-IsControl :
    (s : Settings) (q : Request) (c : Control)
    → 0 < s.check_frames
    → IsControl s c
    → IsControl s (perform s q c)
unfolding perform
perform-IsControl s (picture ext buffers) c h v = new_data-IsControl s ext buffers c v
perform-IsControl s (forced n) c h v = force_corner-IsControl s n c h v
perform-IsControl s stopped c h v = ctrl_reset-IsControl s c h v

pub perform_all-IsControl :
    (s : Settings) (qs : List Request) (c : Control)
    → 0 < s.check_frames
    → IsControl s c
    → IsControl s (perform_all s qs c)
unfolding perform_all
perform_all-IsControl s [] c h v = v
perform_all-IsControl s (q ∷ qs) c h v =
    perform_all-IsControl s qs (perform s q c) h (perform-IsControl s q c h v)

pub new_control-IsControl :
    (s : Settings) (c : Control)
    → 0 < s.check_frames
    → c.check_logo.line_hook ≡ []
    → IsControl s (new_control s c)
unfolding new_control Learning.new_get_logo
new_control-IsControl s c h e = record {
  idle = λ _. (
    λ k. (
      (λ i. s.filter_init),
      [],
      reset-IsLearning s (c.corners k) (record (c.get_logo k) { line_hook = [] }) h,
    ),
    e,
  );
  shared = λ on. absurd cc;
}

-- With at least one check picture and a check without test lines at the start, after any
-- pictures, forced corners and resets: while no logo is found all four corners learn and the
-- check has no test lines; and once one is found the check has the corner and the very test lines
-- of a chosen CGetLogo, with at least 10 pairs.
pub session-IsControl :
    (s : Settings) (c : Control) (qs : List Request)
    → 0 < s.check_frames
    → c.check_logo.line_hook ≡ []
    → IsControl s (perform_all s qs (new_control s c))
session-IsControl s c qs h e =
    perform_all-IsControl s qs (new_control s c) h (new_control-IsControl s c h e)

-- The chosen corners stay.
corner_step-choice :
    (s : Settings) (k : Corner) (c : Control) → (corner_step s k c).is_checked ≡ c.is_checked
unfolding corner_step
corner_step-choice s k c =
    if_rule (λ (d : Control). d.is_checked ≡ c.is_checked) (c.is_checked k)
      (λ on. handed (Learning.new_data s (c.corners k) (c.get_logo k)).1 _) (λ off. refl)
  where
    handed : (r : Option (List Testline)) (d : Control) → (hand_on r k d).is_checked ≡ d.is_checked
    handed none d = unfold hand_on in refl
    handed (some ls) d = unfold hand_on found_logo in refl

check_found-choice :
    (s : Settings) (ext : Bool) (c : Control) → (check_found s ext c).is_checked ≡ c.is_checked
unfolding check_found
check_found-choice s ext c =
    if_rule (λ (d : Control). d.is_checked ≡ c.is_checked) c.found (λ _. refl) (λ _. refl)

new_data-choice :
    (s : Settings) (ext : Bool) (buffers : Corner → Buffer) (c : Control)
    → (new_data s ext buffers c).is_checked ≡ c.is_checked
unfolding new_data
new_data-choice s ext buffers c =
    let c' = record c { corners = buffers; picture_counter = c.picture_counter + 1 } in
    let c1 = corner_step s top_left c' in
    let c2 = corner_step s top_right c1 in
    let c3 = corner_step s bot_right c2 in
    check_found-choice s ext
      (if ltb 2 c'.picture_counter && not c'.found then corner_step s bot_left c3 else c')
    ∙ if_rule (λ (d : Control). d.is_checked ≡ c.is_checked)
        (ltb 2 c'.picture_counter && not c'.found)
        (λ _.
          corner_step-choice s bot_left c3
          ∙ corner_step-choice s bot_right c2
          ∙ corner_step-choice s top_right c1
          ∙ corner_step-choice s top_left c')
        (λ _. refl)

-- Pictures only.
unfoldable pub pictures : Bool → List (Corner → Buffer) → List Request
pictures ext [] = []
pictures ext (b ∷ bs) = picture ext b ∷ pictures ext bs

pictures-choice :
    (s : Settings) (ext : Bool) (bs : List (Corner → Buffer)) (c : Control)
    → (perform_all s (pictures ext bs) c).is_checked ≡ c.is_checked
unfolding perform_all perform pictures
pictures-choice s ext [] c = refl
pictures-choice s ext (b ∷ bs) c =
    pictures-choice s ext bs (new_data s ext b c) ∙ new_data-choice s ext b c

forced_choice :
    (s : Settings) (k : Corner) (c : Control)
    → (force_corner s (pos (corner_id k)) c).is_checked ≡ (λ j. corner_id k == corner_id j)
unfolding force_corner ctrl_reset
forced_choice s top_left c = refl
forced_choice s top_right c = refl
forced_choice s bot_right c = refl
forced_choice s bot_left c = refl

-- After forceCorner with one of the four corners, a logo that any pictures lead to is in that
-- corner, and the check has its test lines.
pub force_corner-IsShared :
    (s : Settings) (ext : Bool) (k : Corner) (bs : List (Corner → Buffer)) (c : Control)
    → 0 < s.check_frames
    → IsControl s c
    → let d = perform_all s (forced (pos (corner_id k)) ∷ pictures ext bs) c in
      d.found ≡ true → IsShared s d k
unfolding perform_all perform
force_corner-IsShared s ext k bs c h v on =
    let f = force_corner s (pos (corner_id k)) c in
    let d = perform_all s (pictures ext bs) f in
    let choice : d.is_checked ≡ (λ j. corner_id k == corner_id j) =
      pictures-choice s ext bs f ∙ forced_choice s k c in
    let (j, i) =
      (perform_all-IsControl s (pictures ext bs) f h
          (force_corner-IsControl s (pos (corner_id k)) c h v)).shared
        on in
    let at : corner_id k == corner_id j ≡ true =
      sym (ap (λ (g : Corner → Bool). g j) choice) ∙ i.chosen in
    subst (IsShared s d) (corner_id_inj j k (ground (arith, at))) i
