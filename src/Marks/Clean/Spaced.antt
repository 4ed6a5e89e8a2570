-- ===== src/Marks/Clean/Spaced.antt =====
-- The invariant of the scan of cleanInactiveMarks: how far the marks are spaced.
use noad.Prelude.{
  ◌≤◌, ◌≡◌, refl, arith, inl, inr, true, false, Option, none, some, List, [], ◌∷◌, All,
  Option-cases, ◌⊎◌,
}
use noad.Prelude.Int.{ℤ, pos, negsuc, ◌+ℤ◌, ◌-ℤ◌, ◌≤ℤ◌, ◌<ℤ◌, +ℤ_parts}
use noad.Marks.{Mark, get_next}
use noad.Marks.Sorting.{IsSorted, AllFrom}
use noad.Marks.Count.{node_count}
use noad.Marks.Navigate.{get_next-behind, get_next-least, get_next-none, NoneBetween, All-map}
use noad.Marks.Clean.{Clean, is_short}

-- Neighbours that differ, the later of which meets Q, differ by the least duration.
abbrev pub Spaced : ℤ → (ℤ → Type 0) → List Mark → Type 0
Spaced d Q [] = Unit {0}
Spaced d Q (a ∷ []) = Unit {0}
Spaced d Q (a ∷ b ∷ ms) =
    (a.position <ℤ b.position → Q b.position → a.position +ℤ d ≤ℤ b.position) × Spaced d Q (b ∷ ms)

-- Under a stronger condition on the later mark, given what holds of each mark.
pub Spaced-step :
    (d : ℤ) (P P' : Mark → Type 0) (Q R : ℤ → Type 0) (ms : List Mark)
    → ((a b : Mark)
        → P a
        → P' b
        → a.position <ℤ b.position
        → R b.position
        → Q b.position ⊎ (a.position +ℤ d ≤ℤ b.position))
    → All P ms
    → All P' ms
    → Spaced d Q ms
    → Spaced d R ms
Spaced-step d P P' Q R [] f h k s = tt
Spaced-step d P P' Q R (a ∷ []) f h k s = tt
Spaced-step d P P' Q R (a ∷ b ∷ ms) f h k s = (
  λ lt r. elim (f a b h.0 k.1.0 lt r) [ inl q ↦ s.0 lt q | inr e ↦ e ],
  Spaced-step d P P' Q R (b ∷ ms) f h.1 k.1 s.1,
)

pub Spaced-trivial : (d : ℤ) (ms : List Mark) → Spaced d (λ _. ⊥) ms
Spaced-trivial d [] = tt
Spaced-trivial d (a ∷ []) = tt
Spaced-trivial d (a ∷ b ∷ ms) = (λ lt q. absurd q, Spaced-trivial d (b ∷ ms))

abbrev pub HasPrev : Option Mark → Type 0
HasPrev none = ⊥
HasPrev (some p) = Unit {0}

-- A mark before `m` is not behind iLastPos, and then there is an mprev.
abbrev pub Before : Mark → ℤ → Option Mark → Mark → Type 0
Before m last prev a = a.position <ℤ m.position → (a.position ≤ℤ last) × HasPrev prev

-- Where the scan stands: what is before `m` is spaced already.
abbrev pub AtMark : ℤ → List Mark → ℤ → Option Mark → Option Mark → Type 0
AtMark d items last prev none = Spaced d (λ _. Unit {0}) items
AtMark d items last prev (some m) =
    Spaced d (λ b. b <ℤ m.position) items
    × (1 ≤ node_count m.node items)
    × All (Before m last prev) items
    × (HasPrev prev → last <ℤ m.position)

pub record Inv (d : ℤ) (s : Clean) : Type 0 where
  pub sorted : IsSorted s.items
  pub nonneg : AllFrom (pos 0) s.items
  pub at_mark : AtMark d s.items s.last_pos s.prev s.cur

is_short-false :
    (d : ℤ) (m : Mark) (last : ℤ)
    → is_short d m last ≡ false
    → last <ℤ m.position
    → last +ℤ d ≤ℤ m.position
unfolding is_short ◌-ℤ◌ ◌+ℤ◌
is_short-false d m last e h = ground arith

pub is_short-true : (d : ℤ) (m : Mark) (last : ℤ) → is_short d m last ≡ true → last <ℤ m.position
unfolding is_short ◌-ℤ◌
is_short-true d m last e = ground arith

-- Going on from a mark whose distance is not short.
advance-Spaced :
    (d : ℤ) (R : ℤ → Type 0) (m : Mark) (last : ℤ) (prev : Option Mark) (items : List Mark)
    → is_short d m last ≡ false
    → AtMark d items last prev (some m)
    → All (λ b. R b.position → b.position ≤ℤ m.position) items
    → Spaced d R items
advance-Spaced d R m last prev items e inv h =
    Spaced-step d (Before m last prev) (λ b. R b.position → b.position ≤ℤ m.position)
      (λ b. b <ℤ m.position) R items
      (λ a b before bound lt r. elim (le-cases b (bound r)) [
        | inl l ↦ inl l
        | inr g ↦
            let (up, has) = before (omega arith) in
            inr (
              omega (
                arith,
                +ℤ_parts a.position d,
                +ℤ_parts last d,
                is_short-false d m last e (inv.3 has),
              ))
      ])
      inv.2 h inv.0
  where
    le-cases :
        (b : Mark)
        → b.position ≤ℤ m.position
        → (b.position <ℤ m.position) ⊎ (m.position ≤ℤ b.position)
    le-cases b h = omega arith

pub advance-AtMark :
    (d : ℤ) (m : Mark) (last : ℤ) (prev : Option Mark) (items : List Mark)
    → IsSorted items
    → is_short d m last ≡ false
    → AtMark d items last prev (some m)
    → AtMark d items m.position (some m) (get_next m.position items)
advance-AtMark d m last prev items sorted e inv = elim (Option-cases (get_next m.position items)) [
  | inl z ↦ rw z (
      advance-Spaced d (λ _. Unit {0}) m last prev items e inv
        (All-map (λ a h _. h) items (get_next-none m.position items z)))
  | inr (n, z) ↦
      let least = get_next-least m.position items n sorted z in
      let behind = get_next-behind m.position items z in
      rw z (
        advance-Spaced d (λ b. b <ℤ n.position) m last prev items e inv least,
        behind.1,
        All-map (λ a h k. (h k, tt)) items least,
        λ _. behind.0,
      )
]

nonneg-NoneBetween :
    (q : ℤ) (ms : List Mark)
    → AllFrom (pos 0) ms
    → All (NoneBetween (negsuc 0) q) ms
    → All (λ a. a.position <ℤ q → ⊥) ms
nonneg-NoneBetween q [] h k = tt
nonneg-NoneBetween q (m ∷ ms) h k = (λ l. below (k.0 l) h.0, nonneg-NoneBetween q ms h.1 k.1)
  where
    below : m.position ≤ℤ negsuc 0 → pos 0 ≤ℤ m.position → ⊥
    below u v = omega arith

nonneg-none : (ms : List Mark) → AllFrom (pos 0) ms → All (λ a. a.position ≤ℤ negsuc 0) ms → ms ≡ []
nonneg-none [] h k = refl
nonneg-none (m ∷ ms) h k = absurd (omega (arith, h.0, k.0))

-- The scan from the first mark on.
pub restart-AtMark :
    (d : ℤ) (ms : List Mark)
    → IsSorted ms
    → AllFrom (pos 0) ms
    → AtMark d ms (pos 0) none (get_next (negsuc 0) ms)
restart-AtMark d ms sorted nonneg = elim (Option-cases (get_next (negsuc 0) ms)) [
  | inl z ↦ rw z (rw (nonneg-none ms nonneg (get_next-none _ ms z)) tt)
  | inr (n, z) ↦
      let empty = nonneg-NoneBetween n.position ms nonneg (get_next-least _ ms n sorted z) in
      rw z (
        Spaced-step d (λ _. Unit {0}) (λ a. a.position <ℤ n.position → ⊥) (λ _. ⊥)
            (λ b. b <ℤ n.position) ms (λ a b _ no lt r. inl (no r)) (All-map (λ a _. tt) ms empty)
            empty (Spaced-trivial d ms),
        (get_next-behind _ ms z).1,
        All-map (λ a no l. absurd (no l)) ms empty,
        λ no. absurd no,
      )
]
