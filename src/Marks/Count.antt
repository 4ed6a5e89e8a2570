-- ===== src/Marks/Count.antt =====
-- How often a position, and how often a node, stands in the list of marks.
use noad.Prelude.{
  ℕ, zero, suc, ◌+◌, ◌≤◌, ◌≡◌, ◌≢◌, refl, arith, none, some, List, [], ◌∷◌, ◌++◌, map, ◌==◌,
  if◌then◌else◌, length, Bool, true, ap, ◌⊎◌, inl, inr, Bool-cases,
}
use noad.Prelude.Int.{ℤ, eqb_ℤ, eq_of_parts}
use noad.Marks.{Mark, swap_marks, sort_inner, sort_outer, sort, get, del}
use noad.Marks.Sorting.{IsSorted, AllFrom, fixed_part, sort-fixed}

abbrev pub one_at : ℤ → ℤ → ℕ
one_at p q = if eqb_ℤ p q then 1 else 0

unfoldable pub count : ℤ → List Mark → ℕ
count q [] = 0
count q (m ∷ ms) = one_at m.position q + count q ms

pub one_at-cases : (p q : ℤ) → (one_at p q ≡ 0) ⊎ ((p ≡ q) × (one_at p q ≡ 1))
one_at-cases p q = elim (Bool-cases (eqb_ℤ p q)) [
  | inl e ↦ inr (eq_of_parts p q (ground arith), ground arith)
  | inr e ↦ inl (ground arith)
]

count_fixed : ℕ → List (ℕ × Bool) → ℕ
count_fixed a [] = 0
count_fixed a ((b, _) ∷ bs) = (if b == a then 1 else 0) + count_fixed a bs

unfoldable pub node_count : ℕ → List Mark → ℕ
unfolding count_fixed
node_count a ms = count_fixed a (map fixed_part ms)

swap_marks-count :
    (q : ℤ) (a b : Mark)
    → one_at (swap_marks a b).0.position q + one_at (swap_marks a b).1.position q
      ≡ one_at a.position q + one_at b.position q
unfolding swap_marks
swap_marks-count q a b = ground arith

sort_inner-count :
    (q : ℤ) (a : Mark) (ms : List Mark)
    → one_at (sort_inner a ms).0.position q + count q (sort_inner a ms).1
      ≡ one_at a.position q + count q ms
unfolding sort_inner count
sort_inner-count q a [] = refl
sort_inner-count q a (b ∷ ms) =
    omega (arith, swap_marks-count q a b, sort_inner-count q (swap_marks a b).0 ms)

sort_outer-count : (q : ℤ) (n : ℕ) (ms : List Mark) → count q (sort_outer n ms) ≡ count q ms
unfolding sort_outer count
sort_outer-count q zero ms = refl
sort_outer-count q (suc n) [] = refl
sort_outer-count q (suc n) (m ∷ ms) =
    omega (arith, sort_inner-count q m ms, sort_outer-count q n (sort_inner m ms).1)

pub sort-count : (q : ℤ) (ms : List Mark) → count q (sort ms) ≡ count q ms
unfolding sort
sort-count q ms = sort_outer-count q (length ms) ms

pub sort-node_count : (a : ℕ) (ms : List Mark) → node_count a (sort ms) ≡ node_count a ms
unfolding node_count
sort-node_count a ms = ap (count_fixed a) (sort-fixed ms)

pub count-append : (q : ℤ) (ms ns : List Mark) → count q (ms ++ ns) ≡ count q ms + count q ns
unfolding count
count-append q [] ns = omega arith
count-append q (m ∷ ms) ns = omega (arith, count-append q ms ns)

pub node_count-append :
    (a : ℕ) (ms ns : List Mark) → node_count a (ms ++ ns) ≡ node_count a ms + node_count a ns
unfolding node_count
node_count-append a [] ns = omega arith
node_count-append a (m ∷ ms) ns = omega (arith, node_count-append a ms ns)

pub get-count_zero : (p : ℤ) (ms : List Mark) → get p ms ≡ none → count p ms ≡ 0
unfolding get count
get-count_zero p [] e = refl
get-count_zero p (m ∷ ms) e = ground (arith, get-count_zero p ms)

pub get-position :
    (p : ℤ) (ms : List Mark) {m : Mark}
    → get p ms ≡ some m
    → (eqb_ℤ m.position p ≡ true) × (1 ≤ count p ms) × (1 ≤ node_count m.node ms)
unfolding get count node_count
get-position p [] e = cc
get-position p (x ∷ ms) {m} e = ground (arith, get-position p ms {m = m})

-- Where its address is unique, deleting the node that `Get` found takes one mark at that position.
pub del-count :
    (p q : ℤ) (ms : List Mark) {m : Mark}
    → get p ms ≡ some m
    → node_count m.node ms ≤ 1
    → count q (del m.node ms) + one_at p q ≡ count q ms
unfolding get count node_count del
del-count p q [] e u = cc
del-count p q (x ∷ ms) {m} e u = ground (arith, del-count p q ms {m = m}, get-position p ms {m = m})

pub del-node_count : (a b : ℕ) (ms : List Mark) → node_count b (del a ms) ≤ node_count b ms
unfolding del node_count
del-node_count a b [] = omega arith
del-node_count a b (m ∷ ms) = ground (arith, del-node_count a b ms)

pub del-AllFrom : (p : ℤ) (a : ℕ) (ms : List Mark) → AllFrom p ms → AllFrom p (del a ms)
unfolding del
del-AllFrom p a [] h = tt
del-AllFrom p a (m ∷ ms) h = ground (arith, del-AllFrom p a ms)

pub del-IsSorted : (a : ℕ) (ms : List Mark) → IsSorted ms → IsSorted (del a ms)
unfolding del
del-IsSorted a [] h = tt
del-IsSorted a (m ∷ ms) h = ground (arith, del-IsSorted a ms, del-AllFrom m.position a ms)

pub del-count-le : (a : ℕ) (q : ℤ) (ms : List Mark) → count q (del a ms) ≤ count q ms
unfolding del count
del-count-le a q [] = omega arith
del-count-le a q (m ∷ ms) = ground (arith, del-count-le a q ms)

-- Another node stays where it is.
pub del-node_count_ne :
    (a b : ℕ) (ms : List Mark) → a ≢ b → node_count b (del a ms) ≡ node_count b ms
unfolding del node_count
del-node_count_ne a b [] h = refl
del-node_count_ne a b (m ∷ ms) h = ground (arith, del-node_count_ne a b ms h)
