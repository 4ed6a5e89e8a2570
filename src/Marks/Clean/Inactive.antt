-- ===== src/Marks/Clean/Inactive.antt =====
-- cleanInactiveMarks ends, and leaves no two marks that are too near to each other.
use noad.Prelude.{
  ℕ, zero, suc, ◌+◌, ◌*◌, ◌≤◌, ◌<◌, ◌≡◌, refl, arith, inl, inr, Bool, true, false, Bool-cases,
  Option, none, some, List, length, if◌then◌else◌, Option-cases, ◌⊎◌,
}
use noad.Prelude.Int.{ℤ, pos, negsuc, eqb_ℤ}
use native.Mathlib.Decide.{ℕ_discrete}
use noad.Marks.{Mark, get_next, del}
use noad.Marks.Sorting.{IsSorted, AllFrom}
use noad.Marks.Count.{count, node_count, del-IsSorted, del-count-le, del-node_count_ne, del-AllFrom}
use noad.Marks.Navigate.{count_behind, count_behind-le-length, get_next-behind, length-del, All-map}
use noad.Marks.Clean.{
  Clean, is_short, drop_pair, inactive_body, clean_loop, clean_loop_done, clean_loop_step,
  start_inactive, clean_inactive_marks, clean_cost, clean_fuel, min_mark_duration,
}
use noad.Marks.Clean.Spaced.{Spaced, Inv, AtMark, is_short-true, advance-AtMark, restart-AtMark}

-- The measure of the scan: the marks behind `m`, and whether the next round only moves iLastPos.
rank : Option Mark → Clean → ℕ
rank none s = 0
rank (some m) s =
    2 + 2 * count_behind m.position s.items + (if eqb_ℤ m.position s.last_pos then 0 else 1)

needed : Clean → ℕ
unfolding rank clean_cost
needed s = rank s.cur s + clean_cost (length s.items)

cost_mono : (a b : ℕ) → a < b → clean_cost a + 2 * a + 4 ≤ clean_cost b
unfolding clean_cost
cost_mono a zero h = absurd (omega arith)
cost_mono a (suc b) h = elim (lt-cases a b h) [
  | inl l ↦ omega (arith, cost_mono a b l)
  | inr e ↦ rw e (omega arith)
]
  where
    lt-cases : (a b : ℕ) → a < suc b → (a < b) ⊎ (a ≡ b)
    lt-cases a b h = omega arith

rank-le : (c : Option Mark) (s : Clean) → rank c s ≤ 2 * length s.items + 3
unfolding rank
rank-le none s = omega arith
rank-le (some m) s = ground (arith, count_behind-le-length m.position s.items)

-- Deleting a pair, the later of which is in the list, makes the list shorter.
length-drop :
    (a b : ℕ) (ms : List Mark) → 1 ≤ node_count b ms → length (del b (del a ms)) < length ms
length-drop a b ms h = elim (ℕ_discrete a b) [
  | yes e ↦
      let h' : 1 ≤ node_count a ms = rw e h in
      omega (arith, (length-del a ms).1 h', length-del b (del a ms))
  | no ne ↦
      let h' : 1 ≤ node_count b (del a ms) = omega (arith, del-node_count_ne a b ms ne) in
      omega (arith, length-del a ms, (length-del b (del a ms)).1 h')
]

shorter-needed : (s t : Clean) → length t.items < length s.items → needed t < needed s
unfolding needed
shorter-needed s t h = omega (arith, rank-le t.cur t, cost_mono (length t.items) (length s.items) h)

-- With no mprev the round moves iLastPos to `m`.
retry-AtMark :
    (d : ℤ) (m : Mark) (last : ℤ) (ms : List Mark)
    → AtMark d ms last none (some m)
    → AtMark d ms m.position none (some m)
retry-AtMark d m last ms h = (h.0, h.1, All-map (λ a k l. absurd (k l).1) ms h.2, λ no. absurd no)

-- What a round does: it keeps the invariant, comes nearer to the end, and adds no mark.
abbrev Better : ℤ → Clean → Clean → Type 0
Better d s t = Inv d t × (needed t < needed s) × ((q : ℤ) → count q t.items ≤ count q s.items)

advance_rank :
    (m : Mark) (last : ℤ) (ms : List Mark) (c : Bool)
    → rank (get_next m.position ms) (record {
      items = ms;
      changed = c;
      last_pos = m.position;
      cur = get_next m.position ms;
      prev = some m;
    })
      < 2 + 2 * count_behind m.position ms
unfolding rank
advance_rank m last ms c = elim (Option-cases (get_next m.position ms)) [
  | inl z ↦ rw z (omega arith)
  | inr (n, z) ↦ rw (z, rank) (ground (arith, get_next-behind m.position ms z))
]

module _ (d : ℤ) (m : Mark) (s : Clean) (inv : Inv d s) (at_m : s.cur ≡ some m) where
  at_m-AtMark : AtMark d s.items s.last_pos s.prev (some m)
  at_m-AtMark = rw at_m at inv.at_mark

  rank_at_m : needed s ≡ rank (some m) s + clean_cost (length s.items)
  unfolding needed
  rank_at_m = rw at_m

  advance-Better :
      is_short d m s.last_pos ≡ false
      → Better d s
          (record s { last_pos = m.position; prev = some m; cur = get_next m.position s.items })
  unfolding needed rank
  advance-Better e = (
    record {
      sorted = inv.sorted;
      nonneg = inv.nonneg;
      at_mark = advance-AtMark d m s.last_pos s.prev s.items inv.sorted e at_m-AtMark;
    },
    ground (arith, rank_at_m, advance_rank m s.last_pos s.items s.changed),
    λ q. omega arith,
  )

  drop-Better :
      (p : Option Mark) → s.prev ≡ p → is_short d m s.last_pos ≡ true → Better d s (drop_pair m p s)
  unfolding drop_pair needed rank
  drop-Better none e short = (
    record {
      sorted = inv.sorted;
      nonneg = inv.nonneg;
      at_mark = rw (e, at_m) (retry-AtMark d m s.last_pos s.items (rw e at at_m-AtMark));
    },
    ground (arith, rank_at_m, is_short-true d m s.last_pos short),
    λ q. omega arith,
  )
  drop-Better (some p) e short =
      let left = del m.node (del p.node s.items) in
      let sorted = del-IsSorted m.node _ (del-IsSorted p.node s.items inv.sorted) in
      let nonneg = del-AllFrom (pos 0) m.node _ (del-AllFrom (pos 0) p.node s.items inv.nonneg) in
      (
        record { sorted = sorted; nonneg = nonneg; at_mark = restart-AtMark d left sorted nonneg },
        shorter-needed s _ (length-drop p.node m.node s.items at_m-AtMark.1),
        λ q.
            omega
              (arith, del-count-le m.node q (del p.node s.items), del-count-le p.node q s.items),
      )

  body-Better : Better d s (inactive_body d m s)
  unfolding inactive_body
  body-Better = elim (Bool-cases (is_short d m s.last_pos)) [
    | inl short ↦ rw (short, inactive_body) (drop-Better s.prev refl short)
    | inr far ↦ rw (far, inactive_body) (advance-Better far)
  ]

-- The result of the scan: a shorter or equal list with ascending positions, none of them added,
-- in which neighbours that differ do so by the least duration.
pub record IsClean (d : ℤ) (ms : List Mark) (r : Clean) : Type 0 where
  pub sorted : IsSorted r.items
  pub spaced : Spaced d (λ _. Unit {0}) r.items
  pub fewer : (q : ℤ) → count q r.items ≤ count q ms

clean_loop-IsClean :
    (d : ℤ) (ms : List Mark) (fuel : ℕ) (s : Clean)
    → Inv d s
    → ((q : ℤ) → count q s.items ≤ count q ms)
    → needed s < fuel
    → (r : Clean) × (clean_loop (inactive_body d) fuel s ≡ some r) × IsClean d ms r
clean_loop-IsClean d ms zero s inv f h = absurd (omega arith)
clean_loop-IsClean d ms (suc fuel) s inv f h = elim (Option-cases s.cur) [
  | inl e ↦ (
    s,
    clean_loop_done _ (suc fuel) s e,
    record { sorted = inv.sorted; spaced = rw e at inv.at_mark; fewer = f },
  )
  | inr (m, e) ↦
      let (inv', less, fewer) = body-Better d m s inv e in
      rw (clean_loop_step (inactive_body d) fuel s e) (
        clean_loop-IsClean d ms fuel (inactive_body d m s) inv' (λ q. omega (arith, fewer q, f q))
          (omega arith))
]

-- CleanInactiveMarks ends within the fuel given, and from ascending positions that are not
-- negative leaves ascending positions, no more marks at any position than before, and no two
-- neighbours at different positions that are nearer than MINMARKDURATION.
pub clean_inactive_marks-IsClean :
    (framespersec : ℕ) (changed : Bool) (ms : List Mark)
    → IsSorted ms
    → AllFrom (pos 0) ms
    → (r : Clean) × (clean_inactive_marks framespersec (clean_fuel (length ms)) changed ms ≡ some r)
      × IsClean (min_mark_duration framespersec) ms r
unfolding clean_inactive_marks clean_fuel needed start_inactive
clean_inactive_marks-IsClean framespersec changed ms sorted nonneg =
    clean_loop-IsClean _ ms (clean_fuel (length ms)) (start_inactive changed ms)
      (record { sorted = sorted; nonneg = nonneg; at_mark = restart-AtMark _ ms sorted nonneg })
      (λ q. omega arith)
      (omega (arith, rank-le (get_next (negsuc 0) ms) (start_inactive changed ms)))
