-- ===== src/CheckLogo.antt =====
-- cchecklogo.cpp: the test lines of a logo, the verdict on a picture, and the file of a logo. A
-- corner of the picture is a function from an array index to a byte; the view of the VNOAD build
-- is left out. Differences of two bytes are exact in the source's floats.
pub mod Hysteresis
pub mod Fitting
pub mod Store
pub mod Search
pub mod LogoRect
mod Tests
use noad.Prelude.{
  ℕ, zero, suc, ◌+◌, ◌*◌, ◌/◌, Bool, true, false, List, [], ◌∷◌, ◌&&◌, ◌||◌, ltb, leb, not,
  if◌then◌else◌,
}
use noad.Prelude.Int.{ℤ, pos, ◌+ℤ◌, ◌*ℤ◌, eqb_ℤ, ltb_ℤ}

-- struct testpair and struct testlines: a list stands for the chain of `next`.
pub record Testpair : Type 0 where
  pub x_pos : ℤ
  pub x_neg : ℤ

pub record Testline : Type 0 where
  pub line : ℤ
  pub pairs : List Testpair

-- The members of CCheckLogo; a null m_linehook is the empty list.
pub record CheckLogo : Type 0 where
  pub line_hook : List Testline
  pub n_logo : ℕ
  pub n_no_logo : ℕ
  pub is_logo : Bool
  pub treshold : ℕ
  pub line_offset : ℤ
  pub total_pairs_ok : ℕ
  pub delta_pairs_ok : ℕ
  pub total_checks : ℕ

-- The constructor.
abbrev pub new_check_logo : CheckLogo
new_check_logo = record {
  line_hook = [];
  n_logo = 0;
  n_no_logo = 0;
  is_logo = false;
  treshold = 1;
  line_offset = pos 0;
  total_pairs_ok = 0;
  delta_pairs_ok = 0;
  total_checks = 0;
}

-- nSumPair, nRestPair and nUnknown.
pub record Tally : Type 0 where
  pub sum_pair : ℕ
  pub rest_pair : ℕ
  pub unknown : ℕ

abbrev pub min_diff : ℕ
min_diff = 5

-- `fTempPos >= MIN_DIFF && fTempNeg <= -MIN_DIFF`.
unfoldable pub is_pair_ok : (ℤ → ℕ) → ℤ → Testpair → Bool
unfolding ◌+ℤ◌
is_pair_ok src offset p =
    leb (src (offset +ℤ p.x_pos) + min_diff) (src (offset +ℤ p.x_pos +ℤ pos 2))
    && leb (src (offset +ℤ p.x_neg +ℤ pos 2) + min_diff) (src (offset +ℤ p.x_neg))

-- One of the four bytes is above 200.
unfoldable pub is_pair_unknown : (ℤ → ℕ) → ℤ → Testpair → Bool
unfolding ◌+ℤ◌
is_pair_unknown src offset p =
    ltb 200 (src (offset +ℤ p.x_pos))
    || (ltb 200 (src (offset +ℤ p.x_pos +ℤ pos 1))
        || (ltb 200 (src (offset +ℤ p.x_neg)) || ltb 200 (src (offset +ℤ p.x_neg +ℤ pos 1))))

unfoldable pub tally_pair : (ℤ → ℕ) → ℤ → Testpair → Tally → Tally
unfolding is_pair_ok is_pair_unknown
tally_pair src offset p t =
    if is_pair_ok src offset p
    then record t { sum_pair = t.sum_pair + 1; rest_pair = t.rest_pair + 1 }
    else (if is_pair_unknown src offset p
        then record t { sum_pair = t.sum_pair + 1; unknown = t.unknown + 1 }
        else record t { sum_pair = t.sum_pair + 1 })

unfoldable pub tally_pairs : (ℤ → ℕ) → ℤ → List Testpair → Tally → Tally
unfolding tally_pair
tally_pairs src offset [] t = t
tally_pairs src offset (p ∷ ps) t = tally_pairs src offset ps (tally_pair src offset p t)

-- `lineOffset = sizeX*(line+yoffset)`.
unfoldable pub tally_lines : ℤ → (ℤ → ℕ) → ℤ → List Testline → Tally → Tally
unfolding tally_pairs ◌+ℤ◌ ◌*ℤ◌
tally_lines size_x src yoffset [] t = t
tally_lines size_x src yoffset (l ∷ ls) t =
    tally_lines size_x src yoffset ls (tally_pairs src (size_x *ℤ (l.line +ℤ yoffset)) l.pairs t)

abbrev pub no_tally : Tally
no_tally = record { sum_pair = 0; rest_pair = 0; unknown = 0 }

-- bLogo, bNoLogo and bUnknown, one of which is true.
pub data Verdict : Type 0 where
  logo no_logo unsure : Verdict

unfoldable pub cut_off : Bool → Tally → ℕ
cut_off at_offset t = if at_offset then t.sum_pair / 3 else t.sum_pair * 8 / 10

unfoldable pub verdict : Bool → Tally → Verdict
unfolding cut_off
verdict at_offset t =
    if leb (cut_off at_offset t) t.rest_pair
    then logo
    else (if ltb (cut_off at_offset t) t.unknown then unsure else no_logo)

-- At the known line offset: the two counters with their threshold.
unfoldable pub settle : Verdict → CheckLogo → CheckLogo
settle unsure c = c
settle logo c =
    if ltb c.treshold (c.n_logo + 1)
    then record c { n_logo = c.n_logo + 1; is_logo = true; n_no_logo = 0 }
    else record c { n_logo = c.n_logo + 1 }
settle no_logo c =
    if ltb c.treshold (c.n_no_logo + 1)
    then record c { n_no_logo = c.n_no_logo + 1; is_logo = false; n_logo = 0 }
    else record c { n_no_logo = c.n_no_logo + 1 }

-- At another line offset the verdict stands at once.
unfoldable pub settle_elsewhere : Verdict → CheckLogo → CheckLogo
settle_elsewhere logo c = record c { is_logo = true }
settle_elsewhere no_logo c = record c { is_logo = false }
settle_elsewhere unsure c = record c { is_logo = false }

-- The new object and the result nRestPair. `size_x` is m_pData->m_nSizeX.
unfoldable pub check_testlines : ℤ → (ℤ → ℕ) → List Testline → ℤ → CheckLogo → CheckLogo × ℕ
unfolding tally_lines verdict settle settle_elsewhere
check_testlines size_x src tl yoffset c =
    let t = tally_lines size_x src yoffset tl no_tally in
    (
      if eqb_ℤ yoffset c.line_offset
          then settle (verdict true t) c
          else settle_elsewhere (verdict false t) c,
      t.rest_pair,
    )

unfoldable pub reset : CheckLogo → CheckLogo
reset c = record c { line_hook = []; n_logo = 0; n_no_logo = 0; is_logo = false }

unfoldable pub set_line_hook : List Testline → CheckLogo → CheckLogo
set_line_hook tl c = record c { line_hook = tl }

-- What getLogoRect stores through its four references.
pub record Rect : Type 0 where
  pub left : ℤ
  pub top : ℤ
  pub right : ℤ
  pub bottom : ℤ

unfoldable pub rect_pairs : List Testpair → Rect → Rect
rect_pairs [] r = r
rect_pairs (p ∷ ps) r = rect_pairs ps (record r {
  left = if ltb_ℤ p.x_pos r.left then p.x_pos else r.left;
  right = if ltb_ℤ r.right p.x_pos then p.x_pos else r.right;
})

-- The last line sets `bottom`.
unfoldable pub rect_lines : List Testline → Rect → Rect
unfolding rect_pairs
rect_lines [] r = r
rect_lines (l ∷ []) r = record (rect_pairs l.pairs r) { bottom = l.line }
rect_lines (l ∷ m ∷ ls) r = rect_lines (m ∷ ls) (rect_pairs l.pairs r)

abbrev pub first_line : List Testline → ℤ
first_line [] = pos 0
first_line (l ∷ ls) = l.line

unfoldable pub get_logo_rect : List Testline → Rect
unfolding rect_lines
get_logo_rect tl =
    rect_lines tl (record { left = pos 99999; top = first_line tl; right = pos 0; bottom = pos 0 })
