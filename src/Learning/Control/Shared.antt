-- ===== src/Learning/Control/Shared.antt =====
-- The test lines that the check of the logo shares with the corner that has learnt them.
use noad.Prelude.{
  ℕ, ◌+◌, ◌≤◌, ◌<◌, ◌≡◌, ◌≢◌, refl, ◌∙◌, sym, ap, subst, arith, Bool, true, false, Option, none,
  some, List, [], ◌&&◌, ◌==◌, not, ltb, if◌then◌else◌, if_rule,
}
use noad.Prelude.Int.{pos}
use noad.CheckLogo.{CheckLogo, Testline}
use noad.CheckLogo as Check
use noad.CheckLogo.Search.{new_data-offset}
use noad.Learning.{Buffer, Settings, GetLogo, couples, is_accepted, accept}
use noad.Learning as Learning
use noad.Learning.Phase.{
  IsLearning, started_again, filtered, checked, found, accept-Outcome, reset-IsLearning,
}
use noad.Learning.Control.{
  Corner, top_left, top_right, bot_right, bot_left, corner_id, Control, set_at, found_logo, hand_on,
  corner_step, check_data, check_found, new_data, ctrl_reset,
}

abbrev pub Learns : Settings → GetLogo → Type 0
Learns s g = (f : Buffer) × (ps : List Buffer) × IsLearning s f ps g

-- What newData of a corner does to it.
data Result (s : Settings) (r : GetLogo × Option (List Testline)) : Type 0 where
  learning : r.1 ≡ none → Learns s r.0 → Result s r
  handed_on :
      (lines : List Testline)
      → r.1 ≡ some lines
      → lines ≡ r.0.line_hook
      → 10 ≤ couples lines
      → Result s r

accept-Result :
    (s : Settings) (run : Buffer) (g : GetLogo)
    → Learns s g
    → Result s (accept s run (record g { ref_picture = run }))
accept-Result s run g (f, ps, v) = elim (accept-Outcome s f ps run g v) [
  | started_again full poor e i z ↦ learning e ((λ i. s.filter_init), [], i)
  | found lines e hook many i n ↦ handed_on lines e (sym hook) i.enough
  | filtered more none_yet e i n ↦ learning e (_, _, i)
  | checked full many short e i n ↦ learning e (_, _, i)
]

new_data-Result :
    (s : Settings) (run : Buffer) (g : GetLogo) → Learns s g → Result s (Learning.new_data s run g)
unfolding Learning.new_data
new_data-Result s run g v =
    if_rule (Result s) (is_accepted s run g.ref_picture) (λ taken. accept-Result s run g v)
      (λ left. learning refl v)

abbrev corner_of : ℕ → Corner
corner_of n =
    if n == 0
    then top_left
    else (if n == 1 then top_right else (if n == 2 then bot_right else bot_left))

corner_of-id : (k : Corner) → corner_of (corner_id k) ≡ k
corner_of-id top_left = refl
corner_of-id top_right = refl
corner_of-id bot_right = refl
corner_of-id bot_left = refl

pub corner_id_inj : (j k : Corner) → corner_id j ≡ corner_id k → j ≡ k
corner_id_inj j k e = sym (corner_of-id j) ∙ ap corner_of e ∙ corner_of-id k

set_at_other :
    {A : Type 0} (k j : Corner) (a : A) (f : Corner → A)
    → corner_id j ≢ corner_id k
    → set_at k a f j ≡ f j
set_at_other k j a f n =
    if_rule (λ r. r ≡ f j) (corner_id j == corner_id k) (λ e. absurd (n (ground (arith, e))))
      (λ _. refl)

set_at_same : {A : Type 0} (k : Corner) (a : A) (f : Corner → A) → set_at k a f k ≡ a
set_at_same k a f =
    if_rule (λ r. r ≡ a) (corner_id k == corner_id k) (λ _. refl) (λ e. absurd (ground (arith, e)))

-- A corner that has handed on its lines.
pub record IsShared (s : Settings) (c : Control) (k : Corner) : Type 0 where
  pub corner : c.logo_corner ≡ some k
  pub data_at : c.corner_data ≡ some k
  pub lines : c.check_logo.line_hook ≡ (c.get_logo k).line_hook
  pub enough : 10 ≤ couples (c.get_logo k).line_hook
  pub chosen : c.is_checked k ≡ true

-- No logo: all four corners learn. A logo: one of them has handed it on.
pub record IsControl (s : Settings) (c : Control) : Type 0 where
  pub idle :
      c.found ≡ false → ((k : Corner) → Learns s (c.get_logo k)) × (c.check_logo.line_hook ≡ [])
  pub shared : c.found ≡ true → (k : Corner) × IsShared s c k

-- The same within newData, before the corner `n`.
record Before (s : Settings) (n : ℕ) (c : Control) : Type 0 where
  next : (k : Corner) → n ≤ corner_id k → Learns s (c.get_logo k)
  idle : c.found ≡ false → ((k : Corner) → Learns s (c.get_logo k)) × (c.check_logo.line_hook ≡ [])
  shared : c.found ≡ true → (k : Corner) × (corner_id k < n) × IsShared s c k

module _ (s : Settings) (k : Corner) (c : Control) (b : Before s (corner_id k) c) where
  kept-Learns :
      (g : GetLogo) (j : Corner) → corner_id k < corner_id j → Learns s (set_at k g c.get_logo j)
  kept-Learns g j h =
      subst (Learns s) (sym (set_at_other k j g c.get_logo (λ e. omega (arith, h, e))))
        (b.next j (omega (arith, h)))

  all-Learn :
      (g : GetLogo)
      → Learns s g
      → ((j : Corner) → Learns s (c.get_logo j))
      → (j : Corner) → Learns s (set_at k g c.get_logo j)
  all-Learn g v all j = if_rule (Learns s) (corner_id j == corner_id k) (λ _. v) (λ _. all j)

  passed-IsShared :
      (g : GetLogo) (j : Corner)
      → corner_id j < corner_id k
      → IsShared s c j
      → IsShared s (record c { get_logo = set_at k g c.get_logo }) j
  passed-IsShared g j h i =
      let e = set_at_other k j g c.get_logo (λ e. omega (arith, h, e)) in
      record {
        corner = i.corner;
        data_at = i.data_at;
        lines = i.lines ∙ ap (λ g. g.line_hook) (sym e);
        enough = subst (λ g. 10 ≤ couples g.line_hook) (sym e) i.enough;
        chosen = i.chosen;
      }

  -- The corner goes on.
  learning-Before :
      (g : GetLogo)
      → Learns s g
      → Before s (corner_id k + 1) (record c { get_logo = set_at k g c.get_logo })
  learning-Before g v = record {
    next = λ j h. kept-Learns g j (omega (arith, h));
    idle = λ f. (all-Learn g v (b.idle f).0, (b.idle f).1);
    shared = λ f. let (j, h, i) = b.shared f in (j, omega (arith, h), passed-IsShared g j h i);
  }

  -- The corner has found a logo.
  found-Before :
      (g : GetLogo) (ls : List Testline)
      → ls ≡ g.line_hook
      → 10 ≤ couples ls
      → c.is_checked k ≡ true
      → Before s (corner_id k + 1) (found_logo ls k (record c { get_logo = set_at k g c.get_logo }))
  unfolding found_logo Check.set_line_hook
  found-Before g ls hook enough on =
      let same = set_at_same k g c.get_logo in
      record {
        next = λ j h. kept-Learns g j (omega (arith, h));
        idle = λ f. absurd cc;
        shared = λ f. (
          k,
          omega arith,
          record {
            corner = refl;
            data_at = refl;
            lines = hook ∙ ap (λ g. g.line_hook) (sym same);
            enough =
                subst (λ g. 10 ≤ couples g.line_hook) (sym same)
                  (subst (λ l. 10 ≤ couples l) hook enough);
            chosen = on;
          },
        );
      }

  hand_on-Before :
      (r : GetLogo × Option (List Testline))
      → Result s r
      → c.is_checked k ≡ true
      → Before s (corner_id k + 1) (hand_on r.1 k (record c { get_logo = set_at k r.0 c.get_logo }))
  unfolding hand_on
  hand_on-Before r (learning e v) on = rw e (learning-Before r.0 v)
  hand_on-Before r (handed_on ls e hook enough) on = rw e (found-Before r.0 ls hook enough on)

  corner_step-Before : Before s (corner_id k + 1) (corner_step s k c)
  unfolding corner_step
  corner_step-Before =
      let r = Learning.new_data s (c.corners k) (c.get_logo k) in
      if_rule (Before s (corner_id k + 1)) (c.is_checked k)
        (λ on.
          hand_on-Before r (new_data-Result s (c.corners k) (c.get_logo k) (b.next k (omega arith)))
            on)
        (λ off. record {
          next = λ j h. b.next j (omega (arith, h));
          idle = b.idle;
          shared = λ f. let (j, h, i) = b.shared f in (j, omega (arith, h), i);
        })

-- checkLogo keeps the lines.
check_found-IsControl :
    (s : Settings) (ext : Bool) (c : Control) → IsControl s c → IsControl s (check_found s ext c)
unfolding check_found
check_found-IsControl s ext c v =
    let e = (new_data-offset ext (pos s.size_x) s.size_y (check_data c) c.check_logo).0 in
    if_rule (IsControl s) c.found
      (λ on. record {
        idle = λ off. absurd cc;
        shared = λ f.
            let (k, i) = v.shared f in
            (
              k,
              record {
                corner = i.corner;
                data_at = i.data_at;
                lines = e ∙ i.lines;
                enough = i.enough;
                chosen = i.chosen;
              },
            );
      })
      (λ off. v)

four_steps-IsControl :
    (s : Settings) (c : Control)
    → IsControl s c
    → c.found ≡ false
    → IsControl s (
        corner_step s bot_left
          (corner_step s bot_right (corner_step s top_right (corner_step s top_left c))))
four_steps-IsControl s c v off =
    let b : Before s 0 c = record {
      next = λ k _. (v.idle off).0 k;
      idle = v.idle;
      shared = λ on. absurd cc;
    } in
    let b1 = corner_step-Before s top_left c b in
    let b2 = corner_step-Before s top_right _ b1 in
    let b3 = corner_step-Before s bot_right _ b2 in
    let b4 = corner_step-Before s bot_left _ b3 in
    record { idle = b4.idle; shared = λ on. let (k, _, i) = b4.shared on in (k, i) }

-- A picture.
pub new_data-IsControl :
    (s : Settings) (ext : Bool) (buffers : Corner → Buffer) (c : Control)
    → IsControl s c
    → IsControl s (new_data s ext buffers c)
unfolding new_data
new_data-IsControl s ext buffers c v =
    let c' = record c { corners = buffers; picture_counter = c.picture_counter + 1 } in
    let v' : IsControl s c' = record {
      idle = v.idle;
      shared = λ on.
          let (k, i) = v.shared on in
          (
            k,
            record {
              corner = i.corner;
              data_at = i.data_at;
              lines = i.lines;
              enough = i.enough;
              chosen = i.chosen;
            },
          );
    } in
    check_found-IsControl s ext _ (
      if_rule (IsControl s) (ltb 2 c'.picture_counter && not c'.found)
        (λ h. four_steps-IsControl s c' v' (ground (arith, h))) (λ _. v'))

pub ctrl_reset-IsControl :
    (s : Settings) (c : Control) → 0 < s.check_frames → IsControl s c → IsControl s (ctrl_reset s c)
unfolding ctrl_reset Check.reset
ctrl_reset-IsControl s c h v = record {
  idle = λ _. (
    λ k. ((λ i. s.filter_init), [], reset-IsLearning s (c.corners k) (c.get_logo k) h),
    if_rule (λ (d : CheckLogo). d.line_hook ≡ []) c.found (λ _. refl) (λ off. (v.idle off).1),
  );
  shared = λ on. absurd cc;
}
