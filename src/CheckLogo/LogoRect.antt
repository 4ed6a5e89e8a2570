-- ===== src/CheckLogo/LogoRect.antt =====
-- getLogoRect: the rectangle covers the test pairs.
use noad.Prelude.{◌≡◌, refl, ◌∙◌, arith, List, [], ◌∷◌, All, if◌then◌else◌}
use noad.Prelude.Int.{ℤ, pos, ◌≤ℤ◌, ltb_ℤ}
use noad.CheckLogo.{Testpair, Testline, Rect, rect_pairs, rect_lines, get_logo_rect}

abbrev IsBeside : Rect → Testpair → Type 0
IsBeside r p = (r.left ≤ℤ p.x_pos) × (p.x_pos ≤ℤ r.right)

-- The pairs are not beside the rectangle, and the line is not above or below it.
abbrev pub IsCovered : Rect → Testline → Type 0
IsCovered r l = (r.top ≤ℤ l.line) × (l.line ≤ℤ r.bottom) × All (IsBeside r) l.pairs

-- The lines ascend.
abbrev pub LinesFrom : ℤ → List Testline → Type 0
LinesFrom y [] = Unit {0}
LinesFrom y (l ∷ ls) = (y ≤ℤ l.line) × LinesFrom l.line ls

abbrev Widens : Rect → Rect → Type 0
Widens r s = (s.left ≤ℤ r.left) × (r.right ≤ℤ s.right)

All-IsBeside :
    (r s : Rect) (ps : List Testpair) → Widens r s → All (IsBeside r) ps → All (IsBeside s) ps
All-IsBeside r s [] w h = tt
All-IsBeside r s (p ∷ ps) w h = (omega arith, All-IsBeside r s ps w h.1)

rect_pairs-Widens :
    (ps : List Testpair) (r : Rect)
    → Widens r (rect_pairs ps r)
      × All (IsBeside (rect_pairs ps r)) ps
      × ((rect_pairs ps r).top ≡ r.top)
unfolding rect_pairs
rect_pairs-Widens [] r = ((omega arith, omega arith), tt, refl)
rect_pairs-Widens (p ∷ ps) r =
    let r' = record r {
      left = if ltb_ℤ p.x_pos r.left then p.x_pos else r.left;
      right = if ltb_ℤ r.right p.x_pos then p.x_pos else r.right;
    } in
    let (w, b, t) = rect_pairs-Widens ps r' in (ground (arith, w), (ground (arith, w), b), t)

rect_lines-IsCovered :
    (l : Testline) (ls : List Testline) (r : Rect)
    → LinesFrom l.line ls
    → r.top ≤ℤ l.line
    → All (IsCovered (rect_lines (l ∷ ls) r)) (l ∷ ls)
      × Widens r (rect_lines (l ∷ ls) r)
      × ((rect_lines (l ∷ ls) r).top ≡ r.top)
      × (l.line ≤ℤ (rect_lines (l ∷ ls) r).bottom)
unfolding rect_lines
rect_lines-IsCovered l [] r h t =
    let (w, b, same) = rect_pairs-Widens l.pairs r in
    (((rw same t, omega arith, b), tt), w, same, omega arith)
rect_lines-IsCovered l (m ∷ ls) r h t =
    let (w, b, same) = rect_pairs-Widens l.pairs r in
    let (covered, w', same', below) =
      rect_lines-IsCovered m ls (rect_pairs l.pairs r) h.1 (rw same (omega (arith, h.0))) in
    (
      (
        (
          rw (same' ∙ same) t,
          omega (arith, h.0),
          All-IsBeside (rect_pairs l.pairs r) (rect_lines (m ∷ ls) (rect_pairs l.pairs r)) l.pairs
              w' b,
        ),
        covered,
      ),
      (omega (arith, w, w'), omega (arith, w, w')),
      same' ∙ same,
      omega (arith, h.0),
    )

-- Where the test lines ascend, all of them and all their pairs are in the rectangle of
-- getLogoRect.
pub get_logo_rect-IsCovered :
    (l : Testline) (ls : List Testline)
    → LinesFrom l.line ls
    → All (IsCovered (get_logo_rect (l ∷ ls))) (l ∷ ls)
unfolding get_logo_rect
get_logo_rect-IsCovered l ls h =
    (rect_lines-IsCovered l ls
      (record { left = pos 99999; top = l.line; right = pos 0; bottom = pos 0 }) h (omega arith)).0
