-- ===== src/Learning/Control.antt =====
-- ccontrol.cpp: the four corners that look for a logo, and the logo that is handed to the check.
-- m_pData->setCorners is an input: the buffers of the corners that it leaves. A picture that is read
-- before its first byte, which the source leaves open, is 0 there.
pub mod Shared
pub mod Session
use noad.Prelude.{
  ℕ, ◌+◌, ◌≤◌, ◌<◌, ◌≡◌, refl, ◌∙◌, sym, ap, arith, Bool, true, false, Option, none, some, List, [],
  ◌∷◌, ◌&&◌, ◌==◌, not, ltb, leb, if◌then◌else◌, inl, inr, ◌⊎◌, Bool-cases, if_rule,
}
use noad.Prelude.Int.{ℤ, pos, negsuc, ltb_ℤ}
use noad.CheckLogo.{CheckLogo, Testline, set_line_hook}
use noad.CheckLogo as Check
use noad.CheckLogo.Search as Search
use noad.Learning.{Buffer, Settings, GetLogo, couples}
use noad.Learning as Learning

-- TOP_LEFT, TOP_RIGHT, BOT_RIGHT and BOT_LEFT; `none` is UNKNOWN.
pub data Corner : Type 0 where
  top_left top_right bot_right bot_left : Corner

abbrev pub corner_id : Corner → ℕ
corner_id top_left = 0
corner_id top_right = 1
corner_id bot_right = 2
corner_id bot_left = 3

-- The members of CControl, and the ones of noadData that it sets. `get_logo` and `is_checked` stand
-- for m_pGetLogo0 and bCheckLogo0 to m_pGetLogo3 and bCheckLogo3, and `corners` for m_chGreyCorner0
-- to m_chGreyCorner3; `corner_data` names the one that m_pCheckLogo reads.
pub record Control : Type 0 where
  pub get_logo : Corner → GetLogo
  pub is_checked : Corner → Bool
  pub picture_counter : ℕ
  pub found : Bool
  pub logo_corner : Option Corner
  pub data_found : Bool
  pub data_corner : Option Corner
  pub check_logo : CheckLogo
  pub corner_data : Option Corner
  pub corners : Corner → Buffer

abbrev pub set_at : {A : Type 0} → Corner → A → (Corner → A) → Corner → A
set_at k a f j = if corner_id j == corner_id k then a else f j

-- foundLogo, and foundLogo0 to foundLogo3.
unfoldable pub found_logo : List Testline → Corner → Control → Control
unfolding set_line_hook
found_logo tl k c = record c {
  data_corner = some k;
  logo_corner = some k;
  data_found = true;
  found = true;
  check_logo = set_line_hook tl c.check_logo;
  corner_data = some k;
}

-- The call of foundLogo, if there is one.
unfoldable pub hand_on : Option (List Testline) → Corner → Control → Control
unfolding found_logo
hand_on none k c = c
hand_on (some lines) k c = found_logo lines k c

-- `if( bCheckLogo ) m_pGetLogo->newData()` of a corner, which may call foundLogo.
unfoldable pub corner_step : Settings → Corner → Control → Control
unfolding Learning.new_data hand_on
corner_step s k c =
    let r = Learning.new_data s (c.corners k) (c.get_logo k) in
    let c' = record c { get_logo = set_at k r.0 c.get_logo } in
    if c.is_checked k then hand_on r.1 k c' else c

abbrev pub signed_at : Buffer → ℤ → ℕ
signed_at f (pos i) = f i
signed_at f (negsuc i) = 0

-- m_chCornerData.
abbrev pub check_data : Control → ℤ → ℕ
check_data c = elim c.corner_data [ none ↦ λ i. 0 | some k ↦ signed_at (c.corners k) ]

unfoldable pub check_found : Settings → Bool → Control → Control
unfolding Search.new_data
check_found s ext c =
    if c.found
    then record c {
      check_logo = Search.new_data ext (pos s.size_x) s.size_y (check_data c) c.check_logo;
    }
    else c

-- newData. `ext` is m_pData->extLogoSearch.
unfoldable pub new_data : Settings → Bool → (Corner → Buffer) → Control → Control
unfolding corner_step check_found
new_data s ext buffers c =
    let c' = record c { corners = buffers; picture_counter = c.picture_counter + 1 } in
    check_found s ext (
      if ltb 2 c'.picture_counter && not c'.found
      then corner_step s bot_left
          (corner_step s bot_right (corner_step s top_right (corner_step s top_left c')))
      else c')

-- CtrlReset, and stop, which does the same.
unfoldable pub ctrl_reset : Settings → Control → Control
unfolding Learning.reset Check.reset
ctrl_reset s c = record c {
  get_logo = λ k. Learning.reset s (c.corners k) (c.get_logo k);
  check_logo = if c.found then Check.reset c.check_logo else c.check_logo;
  found = false;
}

unfoldable pub force_corner : Settings → ℤ → Control → Control
unfolding ctrl_reset
force_corner s (negsuc n) c = c
force_corner s (pos n) c =
    if leb n 3 then ctrl_reset s (record c { is_checked = λ k. n == corner_id k }) else c

-- What is asked of a CControl.
pub data Request : Type 0 where
  picture : Bool → (Corner → Buffer) → Request
  forced : ℤ → Request
  stopped : Request

unfoldable pub perform : Settings → Request → Control → Control
unfolding new_data force_corner ctrl_reset
perform s (picture ext buffers) c = new_data s ext buffers c
perform s (forced n) c = force_corner s n c
perform s stopped c = ctrl_reset s c

unfoldable pub perform_all : Settings → List Request → Control → Control
unfolding perform
perform_all s [] c = c
perform_all s (q ∷ qs) c = perform_all s qs (perform s q c)

-- The constructor, on the members of noadData and what the memory held before in `c`.
unfoldable pub new_control : Settings → Control → Control
unfolding Learning.new_get_logo
new_control s c = record c {
  get_logo = λ k. Learning.new_get_logo s (c.corners k) (c.get_logo k);
  is_checked = λ k. true;
  picture_counter = 0;
  found = false;
  logo_corner = none;
}
