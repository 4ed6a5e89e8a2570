-- ===== src/Marks/Navigate.antt =====
-- cMarks::GetNext and GetPrev in a list whose positions ascend.
use noad.Prelude.{
  ℕ, ◌+◌, ◌≤◌, ◌<◌, ◌≡◌, arith, inl, inr, Bool-cases, none, some, List, [], ◌∷◌, length, All,
  if◌then◌else◌,
}
use noad.Prelude.Int.{ℤ, ◌≤ℤ◌, ◌<ℤ◌, ltb_ℤ}
use noad.Marks.{Mark, get_next, del}
use noad.Marks.Sorting.{IsSorted, AllFrom}
use noad.Marks.Count.{node_count}

-- How many marks stand behind a position.
unfoldable pub count_behind : ℤ → List Mark → ℕ
count_behind p [] = 0
count_behind p (m ∷ ms) = (if ltb_ℤ p m.position then 1 else 0) + count_behind p ms

pub count_behind-le-length : (p : ℤ) (ms : List Mark) → count_behind p ms ≤ length ms
unfolding count_behind
count_behind-le-length p [] = omega arith
count_behind-le-length p (m ∷ ms) = ground (arith, count_behind-le-length p ms)

pub count_behind_mono : (p q : ℤ) (ms : List Mark) → p ≤ℤ q → count_behind q ms ≤ count_behind p ms
unfolding count_behind
count_behind_mono p q [] h = omega arith
count_behind_mono p q (m ∷ ms) h = ground (arith, count_behind_mono p q ms h)

-- What `GetNext` finds stands behind the position, and each next one has fewer behind it.
pub get_next-behind :
    (p : ℤ) (ms : List Mark) {m : Mark}
    → get_next p ms ≡ some m
    → (p <ℤ m.position)
      × (1 ≤ node_count m.node ms)
      × (count_behind m.position ms < count_behind p ms)
unfolding get_next node_count count_behind
get_next-behind p [] e = cc
get_next-behind p (x ∷ ms) {m} e =
    ground (arith, get_next-behind p ms {m = m}, count_behind_mono p x.position ms)

-- What stands before the mark that `GetNext` finds is not behind the position.
abbrev pub NoneBetween : ℤ → ℤ → Mark → Type 0
NoneBetween p q a = a.position <ℤ q → a.position ≤ℤ p

pub All-map {ℓ κ} :
    {P : Mark → Type ℓ} {Q : Mark → Type κ} (f : (a : Mark) → P a → Q a) (ms : List Mark)
    → All P ms
    → All Q ms
All-map f [] h = tt
All-map f (m ∷ ms) h = (f m h.0, All-map f ms h.1)

AllFrom-NoneBetween :
    (p q r : ℤ) (ms : List Mark) → AllFrom r ms → q ≤ℤ r → All (NoneBetween p q) ms
AllFrom-NoneBetween p q r [] h k = tt
AllFrom-NoneBetween p q r (m ∷ ms) h k =
    (λ l. absurd (omega arith), AllFrom-NoneBetween p q r ms h.1 k)

-- In a list whose positions ascend, `GetNext` finds the least one behind the position.
pub get_next-least :
    (p : ℤ) (ms : List Mark) (m : Mark)
    → IsSorted ms
    → get_next p ms ≡ some m
    → All (NoneBetween p m.position) ms
unfolding get_next
get_next-least p [] m s e = tt
get_next-least p (x ∷ ms) m s e = elim (Bool-cases (ltb_ℤ p x.position)) [
  | inl t ↦
      let here : m.position ≤ℤ x.position = ground arith in
      (λ h. absurd (omega arith), AllFrom-NoneBetween p m.position x.position ms s.0 here)
  | inr f ↦ (λ h. ground arith, get_next-least p ms m s.1 (ground arith))
]

-- `GetNext` finds nothing exactly when nothing stands behind the position.
pub get_next-none : (p : ℤ) (ms : List Mark) → get_next p ms ≡ none → All (λ a. a.position ≤ℤ p) ms
unfolding get_next
get_next-none p [] e = tt
get_next-none p (x ∷ ms) e = (ground arith, get_next-none p ms (ground arith))

-- `Del` takes one node away, unless no node has that address.
pub length-del :
    (a : ℕ) (ms : List Mark)
    → (length (del a ms) ≤ length ms) × (1 ≤ node_count a ms → length (del a ms) + 1 ≡ length ms)
unfolding del node_count
length-del a [] = (omega arith, λ h. absurd (omega arith))
length-del a (m ∷ ms) = ground (arith, length-del a ms)
