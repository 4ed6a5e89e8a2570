-- ===== src/Search/LogoChange/Block.antt =====
-- One block of pictures of findLogoChange.
use noad.Prelude.{
  ℕ, zero, suc, ◌+◌, ◌≤◌, ◌<◌, ◌≡◌, refl, arith, Bool, true, false, Option, some, ◌&&◌, ltb,
  elim_rule,
}
use noad.Prelude.Int.{pos, ltb_ℤ, ◌≤ℤ◌}
use noad.IndexFile.{IndexFile}
use noad.Search.{Machine, Search}
use noad.Search.LogoChange.{block_round, block_loop, frames_of_block}

-- Where the block ends.
abbrev pub BlockEnd : {S : Type 0} → Machine S → IndexFile → ℕ → Search S → ℕ → Type 0
BlockEnd m s c v c' =
    (c ≤ c')
    × (pos c ≤ℤ s.last → pos c' ≤ℤ s.last)
    × (m.checked_frames v.machine < frames_of_block → ltb_ℤ (pos c) s.last ≡ true → c < c')

abbrev Result :
    {S : Type 0} → Machine S → IndexFile → ℕ → Search S → Option (ℕ × Bool × Search S) → Type 0
Result {S = S} m s c v o = (r : ℕ × Bool × Search S) × (o ≡ some r) × BlockEnd m s c v r.0

stopped :
    {S : Type 0} (m : Machine S) (s : IndexFile) (c : ℕ) (v : Search S)
    → ltb (m.checked_frames v.machine) frames_of_block && ltb_ℤ (pos c) s.last ≡ false
    → BlockEnd m s c v c
stopped m s c v off = (omega arith, λ l. l, λ a b. absurd (ground (arith, off, a, b)))

-- The block.
pub block_loop-BlockEnd :
    {S : Type 0} (m : Machine S) (s : IndexFile) (n c : ℕ) (reset : Bool) (v : Search S)
    → s.last ≤ℤ pos (c + n)
    → (r : ℕ × Bool × Search S) × (block_loop (suc n) m s c reset v ≡ some r) × BlockEnd m s c v r.0
unfolding block_loop
block_loop-BlockEnd m s zero c reset v h =
    elim_rule (Result m s c v)
      (ltb (m.checked_frames v.machine) frames_of_block && ltb_ℤ (pos c) s.last)
      (λ on. absurd (ground (arith, on, h))) (λ off. ((c, reset, v), refl, stopped m s c v off))
block_loop-BlockEnd m s (suc n) c reset v h =
    elim_rule (Result m s c v)
      (ltb (m.checked_frames v.machine) frames_of_block && ltb_ℤ (pos c) s.last)
      (λ on.
        let (r, go, (e0, e1, e2)) =
          block_loop-BlockEnd m s n (c + 1) false (block_round m s c reset v) (omega (arith, h)) in
        (r, go, (omega arith, λ l. e1 (ground (arith, on)), λ a b. omega arith)))
      (λ off. ((c, reset, v), refl, stopped m s c v off))
