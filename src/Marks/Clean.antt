-- ===== src/Marks/Clean.antt =====
-- cleanInactiveMarks and cleanActiveMarks of noad.cpp: the scans that delete pairs of marks which
-- stand too near to each other.
pub mod Spaced
pub mod Inactive
use noad.Prelude.{
  ℕ, zero, suc, ◌+◌, ◌*◌, Bool, true, false, Option, none, some, List, [], ◌∷◌, ◌&&◌, if◌then◌else◌,
  length, ◌≡◌, arith,
}
use noad.Prelude.Int.{ℤ, pos, negsuc, ◌-ℤ◌, ltb_ℤ}
use noad.Marks.{Mark, get_next, del}

-- The list, bMarkChanged, and the variables iLastPos, m and mprev.
pub record Clean : Type 0 where
  pub items : List Mark
  pub changed : Bool
  pub last_pos : ℤ
  pub cur : Option Mark
  pub prev : Option Mark

abbrev pub min_mark_duration : ℕ → ℤ
min_mark_duration framespersec = pos (17 * framespersec)

abbrev pub active_min_mark_duration : ℕ → ℤ
active_min_mark_duration framespersec = pos (60 * framespersec)

-- `iDiff > 0 && iDiff < …`.
unfoldable pub is_short : ℤ → Mark → ℤ → Bool
unfolding ◌-ℤ◌
is_short min_duration m last_pos =
    ltb_ℤ (pos 0) (m.position -ℤ last_pos) && ltb_ℤ (m.position -ℤ last_pos) min_duration

-- `if (mprev != NULL)` delete both and start again. The scan's iLastPos is already at `m`.
unfoldable pub drop_pair : Mark → Option Mark → Clean → Clean
unfolding get_next del
drop_pair m none s = record s { last_pos = m.position }
drop_pair m (some p) s =
    let left = del m.node (del p.node s.items) in
    record {
      items = left;
      changed = true;
      last_pos = pos 0;
      cur = get_next (negsuc 0) left;
      prev = none;
    }

unfoldable pub inactive_body : ℤ → Mark → Clean → Clean
unfolding is_short drop_pair
inactive_body min_duration m s =
    if is_short min_duration m s.last_pos
    then drop_pair m s.prev s
    else record s { last_pos = m.position; prev = some m; cur = get_next m.position s.items }

-- The else branch of cleanActiveMarks goes on by two marks.
unfoldable pub skip_active : Option Mark → Mark → Clean → Clean
skip_active none m s = record s { last_pos = m.position; cur = none; prev = none }
skip_active (some n) m s = record s {
  last_pos = n.position;
  prev = some n;
  cur = get_next n.position s.items;
}

unfoldable pub active_body : ℤ → Mark → Clean → Clean
unfolding is_short drop_pair skip_active
active_body min_duration m s =
    if is_short min_duration m s.last_pos
    then drop_pair m s.prev s
    else skip_active (get_next m.position s.items) m s

-- `while (m != NULL)`; `none` if the fuel runs out.
unfoldable pub clean_loop : (Mark → Clean → Clean) → ℕ → Clean → Option Clean
clean_loop body zero s = elim s.cur [ none ↦ some s | some m ↦ none ]
clean_loop body (suc fuel) s = elim s.cur [
  | none ↦ some s
  | some m ↦ clean_loop body fuel (body m s)
]

unfoldable pub start_inactive : Bool → List Mark → Clean
unfolding get_next
start_inactive changed ms = record {
  items = ms;
  changed = changed;
  last_pos = pos 0;
  cur = get_next (negsuc 0) ms;
  prev = none;
}

-- With framespersec, bMarkChanged and the marks.
unfoldable pub clean_inactive_marks : ℕ → ℕ → Bool → List Mark → Option Clean
unfolding start_inactive clean_loop inactive_body
clean_inactive_marks framespersec fuel changed ms =
    clean_loop (inactive_body (min_mark_duration framespersec)) fuel (start_inactive changed ms)

unfoldable pub start_active : Option Mark → Bool → List Mark → Clean
unfolding get_next
start_active none changed ms = record {
  items = ms;
  changed = changed;
  last_pos = pos 0;
  cur = none;
  prev = none;
}
start_active (some m) changed ms = record {
  items = ms;
  changed = changed;
  last_pos = m.position;
  cur = get_next m.position ms;
  prev = some m;
}

unfoldable pub clean_active_marks : ℕ → ℕ → Bool → List Mark → Option Clean
unfolding start_active clean_loop active_body
clean_active_marks framespersec fuel changed ms =
    clean_loop (active_body (active_min_mark_duration framespersec)) fuel
      (start_active (get_next (negsuc 0) ms) changed ms)

-- Rounds that are enough for a list of this length.
unfoldable pub clean_cost : ℕ → ℕ
clean_cost zero = 0
clean_cost (suc n) = clean_cost n + 2 * n + 4

unfoldable pub clean_fuel : ℕ → ℕ
unfolding clean_cost
clean_fuel n = 2 * n + 4 + clean_cost n

pub clean_loop_done :
    (body : Mark → Clean → Clean) (fuel : ℕ) (s : Clean)
    → s.cur ≡ none
    → clean_loop body fuel s ≡ some s
unfolding clean_loop
clean_loop_done body zero s e = ground arith
clean_loop_done body (suc fuel) s e = ground arith

pub clean_loop_step :
    (body : Mark → Clean → Clean) (fuel : ℕ) (s : Clean) {m : Mark}
    → s.cur ≡ some m
    → clean_loop body (suc fuel) s ≡ clean_loop body fuel (body m s)
unfolding clean_loop
clean_loop_step body fuel s e = ground arith
