-- ===== src/Marks/Sorting.antt =====
-- cMarks::Sort: the exchange sort over the nodes.
use noad.Prelude.{
  ℕ, zero, suc, ◌≤◌, ◌≡◌, refl, ◌∙◌, ap, ap₂, arith, Option, List, [], ◌∷◌, map, length, Bool-cases,
  inl, inr,
}
use noad.Prelude.Int.{ℤ, ◌≤ℤ◌, ltb_ℤ}
use Prim.Native.String.{String}
use mathlib.Core.Bool.{Bool}
use mathlib.Core.List.{Perm}
use mathlib.Core.List.Perm
use noad.Marks.{Mark, swap_marks, sort_inner, sort_outer, sort}

-- What the sort moves, and what it leaves at the node.
abbrev pub content : Mark → ℤ × Option String
content m = (m.position, m.comment)

abbrev pub fixed_part : Mark → ℕ × Bool
fixed_part m = (m.node, m.checked)

abbrev pub AllFrom : ℤ → List Mark → Type 0
AllFrom p [] = Unit {0}
AllFrom p (m ∷ ms) = (p ≤ℤ m.position) × AllFrom p ms

abbrev pub IsSorted : List Mark → Type 0
IsSorted [] = Unit {0}
IsSorted (m ∷ ms) = AllFrom m.position ms × IsSorted ms

AllFrom-mono : (p q : ℤ) (ms : List Mark) → p ≤ℤ q → AllFrom q ms → AllFrom p ms
AllFrom-mono p q [] h a = tt
AllFrom-mono p q (m ∷ ms) h a = (omega arith, AllFrom-mono p q ms h a.1)

swap_marks-order :
    (a b : Mark)
    → ((swap_marks a b).0.position ≤ℤ (swap_marks a b).1.position)
      × ((swap_marks a b).0.position ≤ℤ a.position)
unfolding swap_marks
swap_marks-order a b = ground arith

swap_marks-from :
    (p : ℤ) (a b : Mark)
    → p ≤ℤ a.position
    → p ≤ℤ b.position
    → (p ≤ℤ (swap_marks a b).0.position) × (p ≤ℤ (swap_marks a b).1.position)
unfolding swap_marks
swap_marks-from p a b h k = ground arith

length-sort_inner : (a : Mark) (ms : List Mark) → length (sort_inner a ms).1 ≡ length ms
unfolding sort_inner
length-sort_inner a [] = refl
length-sort_inner a (b ∷ ms) = ap suc (length-sort_inner (swap_marks a b).0 ms)

sort_inner-le : (a : Mark) (ms : List Mark) → (sort_inner a ms).0.position ≤ℤ a.position
unfolding sort_inner
sort_inner-le a [] = omega arith
sort_inner-le a (b ∷ ms) = omega (arith, sort_inner-le (swap_marks a b).0 ms, swap_marks-order a b)

-- One round brings the least position to the front.
sort_inner-least :
    (a : Mark) (ms : List Mark) → AllFrom (sort_inner a ms).0.position (sort_inner a ms).1
unfolding sort_inner
sort_inner-least a [] = tt
sort_inner-least a (b ∷ ms) = (
  omega (arith, sort_inner-le (swap_marks a b).0 ms, swap_marks-order a b),
  sort_inner-least (swap_marks a b).0 ms,
)

sort_inner-from :
    (p : ℤ) (a : Mark) (ms : List Mark)
    → p ≤ℤ a.position
    → AllFrom p ms
    → (p ≤ℤ (sort_inner a ms).0.position) × AllFrom p (sort_inner a ms).1
unfolding sort_inner
sort_inner-from p a [] h k = (h, tt)
sort_inner-from p a (b ∷ ms) h k =
    let s = swap_marks-from p a b h k.0 in
    let r = sort_inner-from p (swap_marks a b).0 ms s.0 k.1 in (r.0, (s.1, r.1))

sort_outer-from :
    (p : ℤ) (rounds : ℕ) (ms : List Mark) → AllFrom p ms → AllFrom p (sort_outer rounds ms)
unfolding sort_outer
sort_outer-from p zero ms h = h
sort_outer-from p (suc rounds) [] h = tt
sort_outer-from p (suc rounds) (m ∷ ms) h =
    let r = sort_inner-from p m ms h.0 h.1 in (r.0, sort_outer-from p rounds _ r.1)

sort_outer-IsSorted :
    (rounds : ℕ) (ms : List Mark) → length ms ≤ rounds → IsSorted (sort_outer rounds ms)
unfolding sort_outer
sort_outer-IsSorted zero [] h = tt
sort_outer-IsSorted zero (m ∷ ms) h = absurd (omega arith)
sort_outer-IsSorted (suc rounds) [] h = tt
sort_outer-IsSorted (suc rounds) (m ∷ ms) h = (
  sort_outer-from (sort_inner m ms).0.position rounds _ (sort_inner-least m ms),
  sort_outer-IsSorted rounds _ (omega (arith, length-sort_inner m ms)),
)

-- After Sort the positions ascend along the list.
pub sort-IsSorted : (ms : List Mark) → IsSorted (sort ms)
unfolding sort
sort-IsSorted ms = sort_outer-IsSorted (length ms) ms (omega arith)

swap_marks-perm :
    (a b : Mark) (cs : List (ℤ × Option String))
    → Perm
        (content (swap_marks a b).0 ∷ content (swap_marks a b).1 ∷ cs)
        (content a ∷ content b ∷ cs)
unfolding swap_marks
swap_marks-perm a b cs = elim (Bool-cases (ltb_ℤ b.position a.position)) [
  | inl e ↦ rw (e, swap_marks) (Perm.swap _ _ cs)
  | inr e ↦ rw (e, swap_marks) (Perm.refl _)
]

sort_inner-perm :
    (a : Mark) (ms : List Mark)
    → Perm
        (content (sort_inner a ms).0 ∷ map content (sort_inner a ms).1)
        (content a ∷ map content ms)
unfolding sort_inner
sort_inner-perm a [] = Perm.refl _
sort_inner-perm a (b ∷ ms) = Perm.trans (Perm.swap _ _ _) (
    Perm.trans (Perm.cons _ (sort_inner-perm (swap_marks a b).0 ms))
      (Perm.trans (Perm.swap _ _ _) (swap_marks-perm a b (map content ms))))

sort_outer-perm :
    (rounds : ℕ) (ms : List Mark) → Perm (map content (sort_outer rounds ms)) (map content ms)
unfolding sort_outer
sort_outer-perm zero ms = Perm.refl _
sort_outer-perm (suc rounds) [] = Perm.refl _
sort_outer-perm (suc rounds) (m ∷ ms) =
    Perm.trans (Perm.cons _ (sort_outer-perm rounds _)) (sort_inner-perm m ms)

-- Sort keeps every position with its comment.
pub sort-perm : (ms : List Mark) → Perm (map content (sort ms)) (map content ms)
unfolding sort
sort-perm ms = sort_outer-perm (length ms) ms

swap_marks-fixed :
    (a b : Mark)
    → (fixed_part (swap_marks a b).0 ≡ fixed_part a)
      × (fixed_part (swap_marks a b).1 ≡ fixed_part b)
unfolding swap_marks
swap_marks-fixed a b = ground arith

sort_inner-fixed :
    (a : Mark) (ms : List Mark)
    → (fixed_part (sort_inner a ms).0 ≡ fixed_part a)
      × (map fixed_part (sort_inner a ms).1 ≡ map fixed_part ms)
unfolding sort_inner
sort_inner-fixed a [] = (refl, refl)
sort_inner-fixed a (b ∷ ms) =
    let s = swap_marks-fixed a b in
    let r = sort_inner-fixed (swap_marks a b).0 ms in (cc (s.0, r.0), ap₂ ◌∷◌ s.1 r.1)

sort_outer-fixed :
    (rounds : ℕ) (ms : List Mark) → map fixed_part (sort_outer rounds ms) ≡ map fixed_part ms
unfolding sort_outer
sort_outer-fixed zero ms = refl
sort_outer-fixed (suc rounds) [] = refl
sort_outer-fixed (suc rounds) (m ∷ ms) =
    let r = sort_inner-fixed m ms in
    ap₂ ◌∷◌ r.0 (cc (r.1, sort_outer-fixed rounds (sort_inner m ms).1))

-- Sort leaves the nodes and their flags where they stand.
pub sort-fixed : (ms : List Mark) → map fixed_part (sort ms) ≡ map fixed_part ms
unfolding sort
sort-fixed ms = sort_outer-fixed (length ms) ms

-- After Sort the positions ascend along the list, every position is kept with its comment, and
-- the nodes and their flags stand where they stood.
pub sort_lem :
    (ms : List Mark)
    → IsSorted (sort ms)
      × Perm (map content (sort ms)) (map content ms)
      × (map fixed_part (sort ms) ≡ map fixed_part ms)
sort_lem ms = (sort-IsSorted ms, sort-perm ms, sort-fixed ms)

length-sort_outer : (rounds : ℕ) (ms : List Mark) → length (sort_outer rounds ms) ≡ length ms
unfolding sort_outer
length-sort_outer zero ms = refl
length-sort_outer (suc rounds) [] = refl
length-sort_outer (suc rounds) (m ∷ ms) =
    ap suc (length-sort_outer rounds (sort_inner m ms).1 ∙ length-sort_inner m ms)

pub length-sort : (ms : List Mark) → length (sort ms) ≡ length ms
unfolding sort
length-sort ms = length-sort_outer (length ms) ms
