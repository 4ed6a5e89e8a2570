-- ===== src/Marks.antt =====
-- The cut marks of vdr_cl.cpp (cMark, cMarks): a list of nodes, each with its address, since the
-- callers keep pointers. A null pointer is `none`. Positions are unbounded integers; a mark's
-- frame rate, which only its printed form uses, is left out.
pub mod Sorting
pub mod Count
pub mod Session
pub mod Navigate
pub mod Clean
pub mod Active
mod Tests
use noad.Prelude.{
  ℕ, zero, suc, ◌+◌, Bool, true, false, Option, none, some, List, [], ◌∷◌, ◌++◌, ◌==◌,
  if◌then◌else◌, length,
}
use noad.Prelude.Int.{ℤ, pos, negsuc, ◌+ℤ◌, ◌-ℤ◌, ltb_ℤ, eqb_ℤ}
use Prim.Native.String.{String}
use mathlib.Core.List.{reverse}

pub record Mark : Type 0 where
  pub node : ℕ
  pub position : ℤ
  pub comment : Option String
  pub checked : Bool

-- The list, and the next address that `new` gives.
pub record Marks : Type 0 where
  pub items : List Mark
  pub next_node : ℕ

-- `if (m2->position < m1->position)` swap position and comment: the nodes, and the flag
-- `checked`, stay where they are. The results are m1 and m2 afterwards.
unfoldable pub swap_marks : Mark → Mark → Mark × Mark
swap_marks m1 m2 =
    if ltb_ℤ m2.position m1.position
    then (
      record m1 { position = m2.position; comment = m2.comment },
      record m2 { position = m1.position; comment = m1.comment },
    )
    else (m1, m2)

-- The inner loop: m1 against each later node.
unfoldable pub sort_inner : Mark → List Mark → Mark × List Mark
unfolding swap_marks
sort_inner m1 [] = (m1, [])
sort_inner m1 (m2 ∷ rest) =
    let (m1', m2') = swap_marks m1 m2 in
    let (last, rest') = sort_inner m1' rest in (last, m2' ∷ rest')

-- The outer loop makes one round for each node.
unfoldable pub sort_outer : ℕ → List Mark → List Mark
unfolding sort_inner
sort_outer zero ms = ms
sort_outer (suc rounds) [] = []
sort_outer (suc rounds) (m1 ∷ rest) =
    let (m1', rest') = sort_inner m1 rest in m1' ∷ sort_outer rounds rest'

unfoldable pub sort : List Mark → List Mark
unfolding sort_outer
sort ms = sort_outer (length ms) ms

unfoldable pub get : ℤ → List Mark → Option Mark
get p [] = none
get p (m ∷ ms) = if eqb_ℤ m.position p then some m else get p ms

-- The list from the first mark behind a position on.
unfoldable pub suffix_after : ℤ → List Mark → List Mark
suffix_after p [] = []
suffix_after p (m ∷ ms) = if ltb_ℤ p m.position then m ∷ ms else suffix_after p ms

unfoldable pub get_next : ℤ → List Mark → Option Mark
get_next p [] = none
get_next p (m ∷ ms) = if ltb_ℤ p m.position then some m else get_next p ms

-- The walk from `Last()` back by `Prev`.
unfoldable pub get_prev_from : ℤ → List Mark → Option Mark
get_prev_from p [] = none
get_prev_from p (m ∷ ms) = if ltb_ℤ m.position p then some m else get_prev_from p ms

unfoldable pub get_prev : ℤ → List Mark → Option Mark
unfolding get_prev_from
get_prev p ms = get_prev_from p (reverse ms)

-- `Add` at the end, then `Sort`. The result is the pointer that the source returns: the node with
-- this position if there is one, and else the new node, whatever it holds after the sort.
unfoldable pub add : ℤ → Marks → Marks × ℕ
unfolding get sort
add p ms = elim (get p ms.items) [
  | some m ↦ (ms, m.node)
  | none ↦ (
    record {
      items = sort (
          ms.items
          ++ record { node = ms.next_node; position = p; comment = none; checked = false } ∷ []);
      next_node = ms.next_node + 1;
    },
    ms.next_node,
  )
]

-- `cListBase::Del` of the node at an address.
unfoldable pub del : ℕ → List Mark → List Mark
del a [] = []
del a (m ∷ ms) = if m.node == a then ms else m ∷ del a ms

unfoldable pub has_unchecked_marks : List Mark → Bool
has_unchecked_marks [] = false
has_unchecked_marks (m ∷ ms) = if m.checked then has_unchecked_marks ms else true

-- `getActiveFrames`: the loop over what `GetNext(-1)` leaves, with iRet and iLastPos.
unfoldable pub active_loop : ℤ → ℤ → ℤ → List Mark → ℤ
unfolding ◌+ℤ◌ ◌-ℤ◌
active_loop total ret last [] = if eqb_ℤ last (pos 0) then ret else ret +ℤ (total -ℤ last)
active_loop total ret last (m ∷ []) = ret +ℤ (m.position -ℤ last)
active_loop total ret last (m ∷ n ∷ ms) =
    active_loop total (ret +ℤ (m.position -ℤ last)) n.position ms

unfoldable pub active_from : ℤ → List Mark → ℤ
unfolding active_loop
active_from total [] = pos 0
active_from total (m ∷ ms) = active_loop total (pos 0) m.position ms

unfoldable pub get_active_frames : ℤ → List Mark → ℤ
unfolding active_from suffix_after
get_active_frames total ms = active_from total (suffix_after (negsuc 0) ms)

-- `posOff`: how far a node stands behind the first mark that is not negative, or -1.
unfoldable pub pos_off_loop : ℕ → ℕ → List Mark → ℤ
pos_off_loop a i [] = negsuc 0
pos_off_loop a i (m ∷ ms) = if m.node == a then pos i else pos_off_loop a (i + 1) ms

unfoldable pub pos_off : ℕ → List Mark → ℤ
unfolding pos_off_loop suffix_after
pos_off a ms = pos_off_loop a 0 (suffix_after (negsuc 0) ms)
