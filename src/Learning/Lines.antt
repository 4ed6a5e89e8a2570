-- ===== src/Learning/Lines.antt =====
-- setTestlines: the pairs that it makes of a mask.
use noad.Prelude.{
  ℕ, zero, suc, ◌+◌, ◌-◌, ◌*◌, ◌≤◌, ◌<◌, ◌≡◌, refl, ◌∙◌, arith, List, [], ◌∷◌, ◌&&◌, ◌==◌, ltb, inl,
  inr, Bool-cases, length, All, if_rule,
}
use noad.Prelude.Int.{ℤ, pos, ◌≤ℤ◌}
use noad.CheckLogo.{Testpair, Testline, get_logo_rect}
use noad.CheckLogo.LogoRect.{IsCovered, LinesFrom, get_logo_rect-IsCovered}
use noad.Learning.{
  Buffer, Settings, find_neg, line_pairs, with_line, mask_lines, line_count, mask_count, couples,
  set_testlines,
}

-- The pairs of a line of the mask, which ascend on both sides: a rising point from `x` on and a
-- falling point from `z` on, neither in the first column nor behind the limit.
abbrev pub PairsFrom : Buffer → ℕ → ℕ → ℕ → List Testpair → Type 0
PairsFrom row limit x z [] = Unit {0}
PairsFrom row limit x z (p ∷ ps) =
    (x' : ℕ) × (z' : ℕ) × (p ≡ record { x_pos = pos x'; x_neg = pos z' })
    × ((x ≤ x') × (0 < x') × (x' < limit) × (row x' ≡ 1))
    × ((z ≤ z') × (0 < z') × (z' < limit) × (row z' ≡ 2))
    × PairsFrom row limit (x' + 1) (z' + 1) ps

-- The lines from `y` on, none of them empty.
abbrev pub LinesOf : Settings → Buffer → ℕ → List Testline → Type 0
LinesOf s mask y [] = Unit {0}
LinesOf s mask y (l ∷ ls) =
    (y' : ℕ) × (l.line ≡ pos y')
    × (y ≤ y')
    × (y' < s.size_y)
    × (0 < length l.pairs)
    × PairsFrom (λ x. mask (y' * s.size_x + x)) (s.size_x - 1) 0 0 l.pairs
    × LinesOf s mask (y' + 1) ls

-- The next falling point, or 0; l2r goes on behind it.
abbrev IsNext : Buffer → ℕ → ℕ → ℕ × ℕ → Type 0
IsNext row l end r =
    (0 < r.0 → (row r.0 ≡ 2) × (l ≤ r.0) × (r.0 < end) × (r.1 ≡ r.0 + 1)) × (l ≤ r.1)

find_neg-IsNext : (row : Buffer) (n l : ℕ) → IsNext row l (l + n) (find_neg row n l)
unfolding find_neg
find_neg-IsNext row zero l = (λ h. absurd (omega arith), omega arith)
find_neg-IsNext row (suc n) l = ground (arith, find_neg-IsNext row n (l + 1))

PairsFrom-mono :
    (row : Buffer) (limit x x' z z' : ℕ) (ps : List Testpair)
    → x ≤ x'
    → z ≤ z'
    → PairsFrom row limit x' z' ps
    → PairsFrom row limit x z ps
PairsFrom-mono row limit x x' z z' [] h k p = tt
PairsFrom-mono row limit x x' z z' (q ∷ ps) h k
      (a, b, e, (u0, u1, u2, u3), (v0, v1, v2, v3), rest) =
    (a, b, e, (omega arith, u1, u2, u3), (omega arith, v1, v2, v3), rest)

line_pairs-PairsFrom :
    (row : Buffer) (limit n x l : ℕ)
    → x + n ≤ limit
    → PairsFrom row limit x l (line_pairs row limit n x l)
unfolding line_pairs
line_pairs-PairsFrom row limit zero x l h = tt
line_pairs-PairsFrom row limit (suc n) x l h = elim (Bool-cases (row x == 1)) [
  | inr e ↦ rw e (
      PairsFrom-mono row limit x (x + 1) l l _ (omega arith) (omega arith)
        (line_pairs-PairsFrom row limit n (x + 1) l (omega arith)))
  | inl e ↦
      let found = find_neg row (limit - l) l in
      let (next, ahead) = find_neg-IsNext row (limit - l) l in
      let rest = line_pairs-PairsFrom row limit n (x + 1) found.1 (omega arith) in
      rw e (
        if_rule (PairsFrom row limit x l) (ltb 0 x && ltb 0 found.0)
          (λ t.
            let (falls, from, below, behind) = next (ground arith) in
            (
              x,
              found.0,
              refl,
              (omega arith, ground arith, omega arith, ground arith),
              (from, ground arith, omega arith, falls),
              PairsFrom-mono row limit _ _ _ _ _ (omega arith) (omega (arith, behind)) rest,
            ))
          (λ _. PairsFrom-mono row limit x (x + 1) l found.1 _ (omega arith) ahead rest))
]

mask_lines-LinesOf :
    (s : Settings) (mask : Buffer) (n y : ℕ)
    → y + n ≡ s.size_y
    → LinesOf s mask y (mask_lines mask s.size_x n y)
unfolding mask_lines
mask_lines-LinesOf s mask zero y h = tt
mask_lines-LinesOf s mask (suc n) y h =
    with_line-LinesOf _
      (line_pairs-PairsFrom (λ x. mask (y * s.size_x + x)) (s.size_x - 1) (s.size_x - 1) 0 0
        (omega arith))
      _ (mask_lines-LinesOf s mask n (y + 1) (omega arith))
  where
    LinesOf-mono : (ls : List Testline) → LinesOf s mask (y + 1) ls → LinesOf s mask y ls
    LinesOf-mono [] h = tt
    LinesOf-mono (l ∷ ls) (y', e, from, below, filled, pairs, rest) =
        (y', e, omega arith, below, filled, pairs, rest)

    with_line-LinesOf :
        (ps : List Testpair)
        → PairsFrom (λ x. mask (y * s.size_x + x)) (s.size_x - 1) 0 0 ps
        → (ls : List Testline) → LinesOf s mask (y + 1) ls
        → LinesOf s mask y (with_line y ps ls)
    with_line-LinesOf [] p ls q = LinesOf-mono ls q
    with_line-LinesOf (a ∷ ps) p ls q = (y, refl, omega arith, omega arith, omega arith, p, q)

LinesOf-LinesFrom :
    (s : Settings) (mask : Buffer) (y : ℕ) (p : ℤ) (ls : List Testline)
    → p ≤ℤ pos y
    → LinesOf s mask y ls
    → LinesFrom p ls
LinesOf-LinesFrom s mask y p [] h k = tt
LinesOf-LinesFrom s mask y p (l ∷ ls) h (y', e, from, below, filled, pairs, rest) =
    (rw e (omega arith), LinesOf-LinesFrom s mask (y' + 1) l.line ls (rw e (omega arith)) rest)

-- Each pair that is made is counted.
line_count-eq :
    (row : Buffer) (limit n x l count : ℕ)
    → line_count row limit n x l count ≡ count + length (line_pairs row limit n x l)
unfolding line_count line_pairs
line_count-eq row limit zero x l count = omega arith
line_count-eq row limit (suc n) x l count = elim (Bool-cases (row x == 1)) [
  | inr e ↦ rw e (line_count-eq row limit n (x + 1) l count)
  | inl e ↦
      let found = find_neg row (limit - l) l in
      rw e (elim (Bool-cases (ltb 0 x && ltb 0 found.0)) [
        | inl t ↦ rw t (omega (arith, line_count-eq row limit n (x + 1) found.1 (count + 1)))
        | inr t ↦ rw t (line_count-eq row limit n (x + 1) found.1 count)
      ])
]

couples-with_line :
    (y : ℕ) (ps : List Testpair) (ls : List Testline)
    → couples (with_line y ps ls) ≡ length ps + couples ls
unfolding couples
couples-with_line y [] ls = omega arith
couples-with_line y (p ∷ ps) ls = refl

mask_count-eq :
    (mask : Buffer) (size_x n y count : ℕ)
    → mask_count mask size_x n y count ≡ count + couples (mask_lines mask size_x n y)
unfolding mask_count mask_lines couples
mask_count-eq mask size_x zero y count = omega arith
mask_count-eq mask size_x (suc n) y count =
    let row : Buffer = λ x. mask (y * size_x + x) in
    let limit = size_x - 1 in
    omega (
      arith,
      mask_count-eq mask size_x n (y + 1) (line_count row limit limit 0 0 count),
      line_count-eq row limit limit 0 0 count,
      couples-with_line y (line_pairs row limit limit 0 0) (mask_lines mask size_x n (y + 1)),
    )

-- From an empty hook, setTestlines makes lines that ascend, none without pairs; the pairs of a
-- line ascend on both sides, each from a 1 to a 2 of the mask and neither in the first nor the
-- last column; the result is the number of pairs; and all of it is in the rectangle of
-- getLogoRect.
pub set_testlines-LinesOf :
    (s : Settings) (mask : Buffer)
    → let lines = (set_testlines s mask []).0 in
      LinesOf s mask 0 lines
      × ((set_testlines s mask []).1 ≡ couples lines)
      × All (IsCovered (get_logo_rect lines)) lines
unfolding set_testlines
set_testlines-LinesOf s mask =
    let lines = mask_lines mask s.size_x s.size_y 0 in
    let learnt = mask_lines-LinesOf s mask s.size_y 0 (omega arith) in
    (learnt, mask_count-eq mask s.size_x s.size_y 0 0 ∙ omega arith, covered lines learnt)
  where
    covered : (ls : List Testline) → LinesOf s mask 0 ls → All (IsCovered (get_logo_rect ls)) ls
    covered [] h = tt
    covered (l ∷ ls) (y', e, from, below, filled, pairs, rest) =
        get_logo_rect-IsCovered l ls
          (LinesOf-LinesFrom s mask (y' + 1) l.line ls (rw e (omega arith)) rest)
