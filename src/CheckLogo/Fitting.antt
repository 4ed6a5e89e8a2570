-- ===== src/CheckLogo/Fitting.antt =====
-- The verdict of checkTestlines on a picture, and what it counts.
use noad.Prelude.{
  ℕ, ◌+◌, ◌≤◌, ◌<◌, ◌≡◌, refl, arith, Bool, true, false, List, [], ◌∷◌, ltb, leb, ◌/◌, ◌&&◌, ◌||◌,
  Bool-cases, inl, inr, not, length, if◌then◌else◌,
}
use noad.CheckLogo.{
  CheckLogo, Verdict, logo, no_logo, unsure, settle, Tally, verdict, cut_off, tally_lines,
  tally_pairs, tally_pair, is_pair_ok, is_pair_unknown, Testline, Testpair, no_tally,
  check_testlines,
}
use noad.Prelude.Int.{ℤ, pos, ◌+ℤ◌, ◌*ℤ◌}

-- The brightness rises, or falls, by at least 5 over two columns.
unfoldable pub rises : (ℤ → ℕ) → ℤ → Bool
rises src i = leb (src i + 5) (src (i +ℤ pos 2))

unfoldable pub falls : (ℤ → ℕ) → ℤ → Bool
falls src i = leb (src (i +ℤ pos 2) + 5) (src i)

-- At one of two columns the brightness is above 200.
unfoldable pub glares : (ℤ → ℕ) → ℤ → Bool
glares src i = ltb 200 (src i) || ltb 200 (src (i +ℤ pos 1))

-- A pair of a line at `at` fits; it does not fit, and the picture is too bright there.
unfoldable pub fits : (ℤ → ℕ) → ℤ → Testpair → Bool
unfolding rises falls
fits src at p = rises src (at +ℤ p.x_pos) && falls src (at +ℤ p.x_neg)

unfoldable pub is_hidden : (ℤ → ℕ) → ℤ → Testpair → Bool
unfolding fits glares
is_hidden src at p =
    not (fits src at p) && (glares src (at +ℤ p.x_pos) || glares src (at +ℤ p.x_neg))

-- How many pairs of a line, and of all lines, pass a test, where each line stands at its row.
unfoldable pub pairs_with : (ℤ → Testpair → Bool) → ℤ → List Testpair → ℕ
pairs_with test at [] = 0
pairs_with test at (p ∷ ps) = (if test at p then 1 else 0) + pairs_with test at ps

unfoldable pub lines_with : (ℤ → Testpair → Bool) → ℤ → ℤ → List Testline → ℕ
unfolding pairs_with
lines_with test size_x y [] = 0
lines_with test size_x y (l ∷ ls) =
    pairs_with test (size_x *ℤ (l.line +ℤ y)) l.pairs + lines_with test size_x y ls

unfoldable pub pair_count : List Testline → ℕ
pair_count [] = 0
pair_count (l ∷ ls) = length l.pairs + pair_count ls

is_pair_ok-fits : (src : ℤ → ℕ) (at : ℤ) (p : Testpair) → is_pair_ok src at p ≡ fits src at p
unfolding is_pair_ok fits rises falls
is_pair_ok-fits src at p = refl

hidden_lem :
    (src : ℤ → ℕ) (at : ℤ) (p : Testpair)
    → is_pair_ok src at p ≡ false
    → is_pair_unknown src at p ≡ is_hidden src at p
unfolding is_pair_ok is_pair_unknown is_hidden fits glares rises falls
hidden_lem src at p e = ground (arith, e)

-- What is counted of some pairs.
abbrev Counts : Tally → ℕ → ℕ → ℕ → Tally → Type 0
Counts t all fit hidden r =
    (r.sum_pair ≡ t.sum_pair + all)
    × (r.rest_pair ≡ t.rest_pair + fit)
    × (r.unknown ≡ t.unknown + hidden)

tally_pair-Counts :
    (src : ℤ → ℕ) (at : ℤ) (p : Testpair) (t : Tally)
    → Counts t 1
        (if fits src at p then 1 else 0)
        (if is_hidden src at p then 1 else 0)
        (tally_pair src at p t)
unfolding tally_pair is_hidden
tally_pair-Counts src at p t = ground (arith, is_pair_ok-fits src at p, hidden_lem src at p)

tally_pairs-Counts :
    (src : ℤ → ℕ) (at : ℤ) (ps : List Testpair) (t : Tally)
    → Counts t
        (length ps)
        (pairs_with (fits src) at ps)
        (pairs_with (is_hidden src) at ps)
        (tally_pairs src at ps t)
unfolding tally_pairs pairs_with
tally_pairs-Counts src at [] t = (omega arith, omega arith, omega arith)
tally_pairs-Counts src at (p ∷ ps) t =
    omega
      (arith, tally_pair-Counts src at p t, tally_pairs-Counts src at ps (tally_pair src at p t))

tally_lines-Counts :
    (size_x : ℤ) (src : ℤ → ℕ) (y : ℤ) (ls : List Testline) (t : Tally)
    → Counts t
        (pair_count ls)
        (lines_with (fits src) size_x y ls)
        (lines_with (is_hidden src) size_x y ls)
        (tally_lines size_x src y ls t)
unfolding tally_lines pair_count lines_with
tally_lines-Counts size_x src y [] t = (omega arith, omega arith, omega arith)
tally_lines-Counts size_x src y (l ∷ ls) t =
    let at = size_x *ℤ (l.line +ℤ y) in
    omega (
      arith,
      tally_pairs-Counts src at l.pairs t,
      tally_lines-Counts size_x src y ls (tally_pairs src at l.pairs t),
    )

-- The verdict on a picture, of all pairs, those that fit, and those that the picture hides.
pub data IsVerdict (all fit hidden : ℕ) : Verdict → Type 0 where
  seen : all / 3 ≤ fit → IsVerdict all fit hidden logo
  blinded : fit < all / 3 → all / 3 < hidden → IsVerdict all fit hidden unsure
  missing : fit < all / 3 → hidden ≤ all / 3 → IsVerdict all fit hidden no_logo

verdict-IsVerdict :
    (t : Tally) (all fit hidden : ℕ)
    → t.sum_pair ≡ all
    → t.rest_pair ≡ fit
    → t.unknown ≡ hidden
    → IsVerdict all fit hidden (verdict true t)
unfolding verdict cut_off
verdict-IsVerdict t all fit hidden e0 e1 e2 = elim (Bool-cases (leb (t.sum_pair / 3) t.rest_pair)) [
  | inl enough ↦ rw enough (seen (ground (arith, enough)))
  | inr few ↦ elim (Bool-cases (ltb (t.sum_pair / 3) t.unknown)) [
    | inl many ↦ rw (few, many) (blinded (ground (arith, few)) (ground (arith, many)))
    | inr rare ↦ rw (few, rare) (missing (ground (arith, few)) (ground (arith, rare)))
  ]
]

-- CheckTestlines at the known line offset: the result is the number of pairs of all lines that
-- fit, where the brightness rises by at least 5 over two columns at the one end and falls so at
-- the other; and the counters take the picture as one with the logo if a third of all pairs fit;
-- else as unsure if more than a third do not fit and have a brightness above 200 at one of their
-- ends or next to it; else as one without the logo.
pub check_testlines-verdict :
    (size_x : ℤ) (src : ℤ → ℕ) (ls : List Testline) (c : CheckLogo)
    → let fit = lines_with (fits src) size_x c.line_offset ls in
      let hidden = lines_with (is_hidden src) size_x c.line_offset ls in
      (v : Verdict) × (check_testlines size_x src ls c.line_offset c ≡ (settle v c, fit))
      × IsVerdict (pair_count ls) fit hidden v
unfolding check_testlines
check_testlines-verdict size_x src ls c =
    let t = tally_lines size_x src c.line_offset ls no_tally in
    let (all, fit, hidden) = tally_lines-Counts size_x src c.line_offset ls no_tally in
    (
      verdict true t,
      ground (arith, fit),
      verdict-IsVerdict t _ _ _ (omega (arith, all)) (omega (arith, fit)) (omega (arith, hidden)),
    )
