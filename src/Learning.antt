-- ===== src/Learning.antt =====
-- cgetlogo.cpp and ctoolbox.cpp: how a logo is learnt in one corner of the picture. A buffer of the
-- corner is a function from the index to a byte; the view data is left out. Sums in float are taken
-- as exact.
pub mod Mask
pub mod Lines
pub mod Phase
pub mod Ends
pub mod Control
mod Tests
use noad.Prelude.{
  ℕ, zero, suc, ◌+◌, ◌-◌, ◌*◌, ◌/◌, Bool, true, false, Option, none, some, List, [], ◌∷◌, ◌++◌,
  ◌&&◌, ◌||◌, ◌==◌, ltb, leb, if◌then◌else◌, length,
}
use noad.Prelude.Int.{ℤ, pos, negsuc, ◌+ℤ◌, ltb_ℤ, pos_part, neg_part}
use noad.CheckLogo.{Testpair, Testline}

abbrev pub Buffer : Type 0
Buffer = ℕ → ℕ

-- The members of noadData that learning reads.
pub record Settings : Type 0 where
  pub size_x : ℕ
  pub size_y : ℕ
  pub filter_init : ℕ
  pub filter_frames : ℕ
  pub check_frames : ℕ
  pub min_average : ℤ
  pub max_average : ℤ
  pub dif2_pictures : ℕ

abbrev pub corner_size : Settings → ℕ
corner_size s = s.size_x * s.size_y

-- The members of CGetLogo; a null m_linehook is the empty list.
pub record GetLogo : Type 0 where
  pub ref_picture : Buffer
  pub filter_data : Buffer
  pub filtered_corner : ℕ
  pub checked_corner : ℕ
  pub points_left : ℕ
  pub line_hook : List Testline

-- CToolBox::filter_tp, of each byte.
unfoldable pub filter_tp : Buffer → Buffer → Buffer
filter_tp dest src i = src i / 2 + dest i / 2

-- A byte as a signed char.
unfoldable pub signed_byte : ℕ → ℤ
signed_byte v = if ltb v 128 then pos v else negsuc (255 - v)

unfoldable pub sum_bytes : Buffer → ℕ → ℤ
unfolding signed_byte ◌+ℤ◌
sum_bytes f zero = pos 0
sum_bytes f (suc n) = sum_bytes f n +ℤ signed_byte (f n)

-- The quotient, rounded towards 0.
unfoldable pub truncated : ℤ → ℕ → ℤ
truncated (pos a) n = pos (a / n)
truncated (negsuc a) n = if (a + 1) / n == 0 then pos 0 else negsuc ((a + 1) / n - 1)

-- CToolBox::getAverage.
unfoldable pub get_average : Buffer → ℕ → ℤ
unfolding sum_bytes truncated
get_average f n = truncated (sum_bytes f n) n

unfoldable pub difference : Buffer → Buffer → ℕ → ℕ
difference f g zero = 0
difference f g (suc n) = difference f g n + ((f n - g n) + (g n - f n))

-- The tests of checkBlock. The product with 2.55 is compared as one with 255 / 100.
unfoldable pub is_accepted : Settings → Buffer → Buffer → Bool
unfolding get_average difference
is_accepted s new ref =
    let average = get_average new (corner_size s) in
    let sum = difference new ref (corner_size s) in
    if ltb_ℤ s.max_average average
    then false
    else (if ltb_ℤ average s.min_average
        then false
        else ltb (corner_size s * 255 * s.dif2_pictures) (sum * 100))

-- The direction of a diversion.
unfoldable pub diversion : ℕ → ℕ → ℕ
diversion here next = if ltb here next then 1 else (if ltb next here then 2 else 0)

abbrev pub write : Buffer → ℕ → ℕ → Buffer
write f i v j = if j == i then v else f j

-- One line of setDiversions from column x on, with the rounds left: in place, from left to right.
unfoldable pub divert_row : ℕ → ℕ → ℕ → Buffer → Buffer
unfolding diversion
divert_row offset zero x f = f
divert_row offset (suc n) x f =
    divert_row offset n (x + 1)
      (write f (offset + x) (diversion (f (offset + x)) (f (offset + x + 2))))

-- The lines from y on.
unfoldable pub divert_rows : ℕ → ℕ → ℕ → Buffer → Buffer
unfolding divert_row
divert_rows size_x zero y f = f
divert_rows size_x (suc n) y f =
    divert_rows size_x n (y + 1) (divert_row (y * size_x) (size_x - 2) 0 f)

unfoldable pub set_diversions : Settings → Buffer → Buffer
unfolding divert_rows
set_diversions s f = divert_rows s.size_x s.size_y 0 f

-- What updateDiversions makes of a point, from its mask and the bytes there and two to the right.
unfoldable pub updated : ℕ → ℕ → ℕ → ℕ
updated mask here next =
    if ltb next 200 && ltb here 200
    then (if mask == 1
        then (if leb next here then 0 else 1)
        else (if mask == 2 then (if leb here next then 0 else 2) else mask))
    else mask

-- Whether it is counted in nPointsLeft.
unfoldable pub is_left : ℕ → ℕ → ℕ → Bool
is_left mask here next =
    if ltb next 200 && ltb here 200
    then (if mask == 1 then ltb here next else (if mask == 2 then ltb next here else false))
    else (ltb 0 mask && ltb mask 128)

-- One line of updateDiversions, with the mask and the count.
unfoldable pub update_row : Buffer → ℕ → ℕ → ℕ → Buffer × ℕ → Buffer × ℕ
unfolding updated is_left
update_row src offset zero x m = m
update_row src offset (suc n) x (mask, count) =
    let i = offset + x in
    update_row src offset n (x + 1) (
      write mask i (updated (mask i) (src i) (src (i + 2))),
      if is_left (mask i) (src i) (src (i + 2)) then count + 1 else count,
    )

unfoldable pub update_rows : Buffer → ℕ → ℕ → ℕ → Buffer × ℕ → Buffer × ℕ
unfolding update_row
update_rows src size_x zero y m = m
update_rows src size_x (suc n) y m =
    update_rows src size_x n (y + 1) (update_row src (y * size_x) (size_x - 2) 0 m)

unfoldable pub update_diversions : Settings → Buffer → Buffer → Buffer × ℕ
unfolding update_rows
update_diversions s mask src = update_rows src s.size_x s.size_y 0 (mask, 0)

-- `while ( l2r < sizeX-1 && !bFound )`, with the rounds left: xneg and l2r afterwards.
unfoldable pub find_neg : Buffer → ℕ → ℕ → ℕ × ℕ
find_neg row zero l2r = (0, l2r)
find_neg row (suc n) l2r =
    let rest = find_neg row n (l2r + 1) in if row l2r == 2 then (l2r, l2r + 1) else rest

-- The pairs of a line from column x on, up to column sizeX-2, with l2r.
unfoldable pub line_pairs : Buffer → ℕ → ℕ → ℕ → ℕ → List Testpair
unfolding find_neg
line_pairs row limit zero x l2r = []
line_pairs row limit (suc n) x l2r =
    let found = if row x == 1 then find_neg row (limit - l2r) l2r else (0, l2r) in
    let rest = line_pairs row limit n (x + 1) found.1 in
    if row x == 1 && (ltb 0 x && ltb 0 found.0)
    then record { x_pos = pos x; x_neg = pos found.0 } ∷ rest
    else rest

-- A line without pairs is not set.
abbrev pub with_line : ℕ → List Testpair → List Testline → List Testline
with_line y [] ls = ls
with_line y (p ∷ ps) ls = record { line = pos y; pairs = p ∷ ps } ∷ ls

unfoldable pub mask_lines : Buffer → ℕ → ℕ → ℕ → List Testline
unfolding line_pairs
mask_lines mask size_x zero y = []
mask_lines mask size_x (suc n) y =
    with_line y (line_pairs (λ x. mask (y * size_x + x)) (size_x - 1) (size_x - 1) 0 0)
      (mask_lines mask size_x n (y + 1))

-- nCouples behind a line of the mask, counted as the pairs are made.
unfoldable pub line_count : Buffer → ℕ → ℕ → ℕ → ℕ → ℕ → ℕ
unfolding find_neg
line_count row limit zero x l2r count = count
line_count row limit (suc n) x l2r count =
    let found = if row x == 1 then find_neg row (limit - l2r) l2r else (0, l2r) in
    line_count row limit n (x + 1) found.1
      (if row x == 1 && (ltb 0 x && ltb 0 found.0) then count + 1 else count)

-- nCouples behind the lines from y on.
unfoldable pub mask_count : Buffer → ℕ → ℕ → ℕ → ℕ → ℕ
unfolding line_count
mask_count mask size_x zero y count = count
mask_count mask size_x (suc n) y count =
    mask_count mask size_x n (y + 1)
      (line_count (λ x. mask (y * size_x + x)) (size_x - 1) (size_x - 1) 0 0 count)

-- The pairs of some lines.
unfoldable pub couples : List Testline → ℕ
couples [] = 0
couples (l ∷ ls) = length l.pairs + couples ls

-- The new line hook, and the result.
unfoldable pub set_testlines : Settings → Buffer → List Testline → List Testline × ℕ
unfolding mask_lines mask_count
set_testlines s mask hook =
    (hook ++ mask_lines mask s.size_x s.size_y 0, mask_count mask s.size_x s.size_y 0 0)

-- `run` is m_chRunData.
unfoldable pub reset : Settings → Buffer → GetLogo → GetLogo
reset s run g = record g {
  ref_picture = run;
  filter_data = λ i. s.filter_init;
  filtered_corner = 0;
  checked_corner = 0;
  line_hook = [];
}

-- The constructor. `fresh` is what the memory held before.
unfoldable pub new_get_logo : Settings → Buffer → GetLogo → GetLogo
unfolding reset
new_get_logo s run fresh = reset s run (record fresh { line_hook = [] })

unfoldable pub filter_step : GetLogo → GetLogo
unfolding filter_tp
filter_step g = record g {
  filter_data = filter_tp g.filter_data g.ref_picture;
  filtered_corner = g.filtered_corner + 1;
}

-- The counter, setDiversions the first time, and updateDiversions with its reset.
unfoldable pub check_step : Settings → Buffer → GetLogo → GetLogo
unfolding set_diversions update_diversions reset
check_step s run g =
    let checked = g.checked_corner + 1 in
    let mask = if checked == 1 then set_diversions s g.filter_data else g.filter_data in
    let m = update_diversions s mask g.ref_picture in
    let g' = record g { checked_corner = checked; filter_data = m.0; points_left = m.1 } in
    if leb checked s.check_frames
    then (if leb m.1 20 then reset s run g' else g')
    else record g { checked_corner = checked; filter_data = mask }

-- setTestlines at the end; the second result is what is handed to foundLogo.
unfoldable pub finish_step : Settings → Buffer → GetLogo → GetLogo × Option (List Testline)
unfolding set_testlines reset
finish_step s run g =
    let r = set_testlines s g.filter_data g.line_hook in
    let g' = record g { line_hook = r.0 } in
    if ltb 20 g.points_left && g.checked_corner == s.check_frames
    then (if ltb r.1 10 then (reset s run g', none) else (g', some r.0))
    else (g, none)

-- newData behind checkBlock, which has copied the picture.
unfoldable pub accept : Settings → Buffer → GetLogo → GetLogo × Option (List Testline)
unfolding filter_step check_step finish_step
accept s run g =
    if ltb g.filtered_corner s.filter_frames
    then (filter_step g, none)
    else finish_step s run (check_step s run g)

unfoldable pub new_data : Settings → Buffer → GetLogo → GetLogo × Option (List Testline)
unfolding is_accepted accept
new_data s run g =
    if is_accepted s run g.ref_picture
    then accept s run (record g { ref_picture = run })
    else (g, none)
