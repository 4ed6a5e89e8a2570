-- ===== src/Picture/Black.antt =====
-- noaddata.cpp: the counts of black lines at the top and at the bottom of a picture. iSet, which has
-- twice the width of the picture, is taken to have room for every byte, and linewidth[1] not to be 0.
pub mod Runs
use noad.Prelude.{
  ℕ, zero, suc, ◌+◌, ◌-◌, ◌*◌, ◌/◌, ◌%◌, Bool, true, false, not, ◌&&◌, ltb, ◌==◌, if◌then◌else◌,
}

-- A noadYUVBuf: the planes, linewidth[0] and linewidth[1], and the size.
pub record Planes : Type 0 where
  pub y_plane : ℕ → ℕ
  pub u_plane : ℕ → ℕ
  pub v_plane : ℕ → ℕ
  pub y_width : ℕ
  pub uv_width : ℕ
  pub width : ℕ
  pub height : ℕ

-- `line[j] > MAXY && line[j] != 255`.
abbrev pub is_lit : ℕ → Bool
is_lit v = ltb 25 v && not (v == 255)

-- The inner loop, with the rounds left.
unfoldable pub is_non_black : (ℕ → ℕ) → ℕ → ℕ → Bool
is_non_black line zero j = false
is_non_black line (suc n) j =
    let rest = is_non_black line n (j + 1) in if is_lit (line j) then true else rest

-- The outer loop: how many lines from the k-th on are black, of the next `n`.
unfoldable pub black_run : (ℕ → Bool) → ℕ → ℕ → ℕ
black_run non_black zero k = 0
black_run non_black (suc n) k =
    let rest = black_run non_black n (k + 1) in if non_black k then 0 else suc rest

-- The k-th line from the top, and from the bottom.
unfoldable pub non_black_top : Planes → ℕ → Bool
unfolding is_non_black
non_black_top b k = is_non_black (λ j. b.y_plane (b.y_width * k + j)) b.width 0

unfoldable pub non_black_bottom : Planes → ℕ → Bool
unfolding is_non_black
non_black_bottom b k = is_non_black (λ j. b.y_plane (b.y_width * (b.height - 1 - k) + j)) b.width 0

-- m_nBlackLinesTop and m_nBlackLinesBottom.
unfoldable pub ndetect_black_lines : Planes → ℕ × ℕ
unfolding black_run non_black_top non_black_bottom
ndetect_black_lines b = (
  black_run (non_black_top b) (b.height / 4) 0 - 1,
  black_run (non_black_bottom b) (b.height - 1 - b.height / 4 * 3) 0 - 1,
)

-- iSet behind the first loop of countvals.
unfoldable pub mark_values : (ℕ → ℕ) → ℕ → ℕ → (ℕ → ℕ) → ℕ → ℕ
mark_values line zero j set = set
mark_values line (suc n) j set = mark_values line n (j + 1) (λ v. if v == line j then 1 else set v)

unfoldable pub sum_to : (ℕ → ℕ) → ℕ → ℕ
sum_to f zero = 0
sum_to f (suc n) = sum_to f n + f n

-- `abs( 128 - v )`.
unfoldable pub off_gray : ℕ → ℕ
off_gray v = (128 - v) + (v - 128)

unfoldable pub count_vals : Planes → ℕ → ℕ
unfolding mark_values sum_to off_gray
count_vals b line =
    let at = b.uv_width * (line / 2) in
    let set = mark_values (λ j. b.y_plane (b.y_width * line + j)) b.width 0 (λ v. 0) in
    sum_to set b.width
    + off_gray (sum_to (λ i. b.u_plane (at + i)) b.uv_width / b.uv_width)
    + off_gray (sum_to (λ i. b.v_plane (at + i)) b.uv_width / b.uv_width)

abbrev pub cut_val : ℕ
cut_val = 20

-- `n &= ~1`, and `if( n & 1 ) n--`.
abbrev pub even_part : ℕ → ℕ
even_part n = n - n % 2

-- detectBlackLines, with m_nGrabHeight.
unfoldable pub detect_black_lines : ℕ → Planes → ℕ × ℕ
unfolding black_run count_vals
detect_black_lines height b =
    let top = even_part (black_run (λ k. ltb cut_val (count_vals b (8 + k))) (height / 2 - 8) 0) in
    (
      top,
      even_part (black_run (λ k. ltb cut_val (count_vals b (height - 2 - k))) (height - 2 - top) 0),
    )
