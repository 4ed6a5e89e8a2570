-- ===== src/Marks/Session/Toggle.antt =====
-- What MarkToggle and moveMark do to the marks.
use noad.Prelude.{
  ℕ, ◌+◌, ◌-◌, ◌≤◌, ◌≡◌, refl, ◌∙◌, arith, Bool, Option, none, some, List, if◌then◌else◌,
  Option-cases, inl, inr, ap,
}
use noad.Prelude.Int.{ℤ, eqb_ℤ}
use Prim.Native.String.{String}
use noad.Marks.{Mark, get, add, del}
use noad.Marks.Count.{one_at, one_at-cases, count, get-count_zero, del-count}
use noad.Marks.Session.{Session, del_mark, mark_toggle, move_mark}
use noad.Marks.Session.Invariant.{
  IsValid, add-IsValid, add-count, add-count_if, del_mark-IsValid, comment_at-keeps,
  comment_at-IsValid,
}

-- MarkToggle keeps the invariant (ascending, distinct positions, one address each), and leaves
-- the file as the marks are.
pub mark_toggle-IsValid :
    (on : Bool) (p : ℤ) (c : Option String) (s : Session)
    → IsValid s.marks
    → IsValid (mark_toggle on p c s).marks
      × ((mark_toggle on p c s).saved ≡ (mark_toggle on p c s).marks.items)
unfolding mark_toggle
mark_toggle-IsValid on p c s v = elim (Option-cases (get p s.marks.items)) [
  | inl e ↦ rw (e, mark_toggle) (comment_at-IsValid on p c _ (add-IsValid p s.marks v), refl)
  | inr (m, e) ↦ rw (e, mark_toggle) (del_mark-IsValid m.node s.marks v, refl)
]

absent_count :
    (p q : ℤ) (ms : List Mark) (n : ℕ)
    → get p ms ≡ none
    → n ≡ count q ms + one_at p q
    → n ≡ (if eqb_ℤ p q then 1 - count q ms else count q ms)
absent_count p q ms n e h = elim (one_at-cases p q) [
  | inl z ↦ ground arith
  | inr (same, z) ↦ ground (arith, ap (λ r. count r ms) same, get-count_zero p ms e)
]

present_count :
    (p q : ℤ) (ms : List Mark) (n : ℕ)
    → n + one_at p q ≡ count q ms
    → count q ms ≤ 1
    → n ≡ (if eqb_ℤ p q then 1 - count q ms else count q ms)
present_count p q ms n h u = ground arith

-- MarkToggle adds the mark at a position where there is none, deletes it where there is one, and
-- leaves the other positions as they are, on marks that meet the invariant.
pub mark_toggle-count :
    (on : Bool) (p q : ℤ) (c : Option String) (s : Session)
    → IsValid s.marks
    → count q (mark_toggle on p c s).marks.items
      ≡ (if eqb_ℤ p q then 1 - count q s.marks.items else count q s.marks.items)
unfolding mark_toggle del_mark
mark_toggle-count on p q c s v = elim (Option-cases (get p s.marks.items)) [
  | inl e ↦
      rw (e, mark_toggle)
        (absent_count p q s.marks.items _ e
          ((comment_at-keeps on p c q 0 (add p s.marks).0.items).0 ∙ add-count p q s.marks e))
  | inr (m, e) ↦
      rw (e, mark_toggle)
        (present_count p q s.marks.items _ (del-count p q s.marks.items e (v.nodes m.node))
          (v.unique q))
]

-- On marks that meet the invariant, moveMark takes the mark that stands at its position away and
-- puts one at the new position, unless another mark is there already.
pub move_mark-count :
    (on : Bool) (m : Mark) (p q : ℤ) (c : Option String) (s : Session)
    → IsValid s.marks
    → get m.position s.marks.items ≡ some m
    → let left = del m.node s.marks.items in
      (count q left + one_at m.position q ≡ count q s.marks.items)
      × (count q (move_mark on m p c s).marks.items ≡ (if eqb_ℤ p q then 1 else count q left))
unfolding move_mark del_mark
move_mark-count on m p q c s v e = (
  del-count m.position q s.marks.items e (v.nodes m.node),
  (comment_at-keeps on p c q 0 (add p (del_mark m.node s.marks)).0.items).0
      ∙ add-count_if p q (del_mark m.node s.marks) (del_mark-IsValid m.node s.marks v),
)

-- On marks that meet the invariant, moveMark keeps it, and leaves the file as the marks are.
pub move_mark-IsValid :
    (on : Bool) (m : Mark) (p : ℤ) (c : Option String) (s : Session)
    → IsValid s.marks
    → IsValid (move_mark on m p c s).marks
      × ((move_mark on m p c s).saved ≡ (move_mark on m p c s).marks.items)
unfolding move_mark
move_mark-IsValid on m p c s v =
    (comment_at-IsValid on p c _ (add-IsValid p _ (del_mark-IsValid m.node s.marks v)), refl)

-- On marks that meet the invariant, moveMark takes the mark that stands at its position away,
-- puts one at the new position, unless another mark is there already, keeps the invariant, and
-- leaves the file as the marks are.
pub move_mark_lem :
    (on : Bool) (m : Mark) (p q : ℤ) (c : Option String) (s : Session)
    → IsValid s.marks
    → get m.position s.marks.items ≡ some m
    → let left = del m.node s.marks.items in
      let t = move_mark on m p c s in
      ((count q left + one_at m.position q ≡ count q s.marks.items)
        × (count q t.marks.items ≡ (if eqb_ℤ p q then 1 else count q left)))
      × (IsValid t.marks × (t.saved ≡ t.marks.items))
move_mark_lem on m p q c s v e = (move_mark-count on m p q c s v e, move_mark-IsValid on m p c s v)
