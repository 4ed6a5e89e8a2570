-- ===== src/Marks/Session.antt =====
-- The operations of noad.cpp on the marks: MarkToggle and moveMark. The marks file is the list that
-- was saved last; that writing it can fail is left out.
pub mod Invariant
pub mod Toggle
use noad.Prelude.{ℕ, Bool, true, false, Option, none, some, List, [], ◌∷◌, ◌==◌, if◌then◌else◌}
use noad.Prelude.Int.{ℤ}
use Prim.Native.String.{String}
use noad.Marks.{Mark, Marks, get, add, del}

-- `marks`, its file and the global bMarkChanged.
pub record Session : Type 0 where
  pub marks : Marks
  pub saved : List Mark
  pub mark_changed : Bool

unfoldable pub set_comment : ℕ → String → List Mark → List Mark
set_comment a s [] = []
set_comment a s (m ∷ ms) =
    if m.node == a then record m { comment = some s } ∷ ms else m ∷ set_comment a s ms

-- `m = marks->Get(index); if (m) m->comment = strdup(Comment)`, under `markComments && Comment`.
unfoldable pub comment_at : Bool → ℤ → Option String → List Mark → List Mark
unfolding get set_comment
comment_at true p (some s) ms = elim (get p ms) [ some m ↦ set_comment m.node s ms | none ↦ ms ]
comment_at true p none ms = ms
comment_at false p c ms = ms

unfoldable pub del_mark : ℕ → Marks → Marks
unfolding del
del_mark a ms = record ms { items = del a ms.items }

-- `marks->Save(); bMarkChanged = true`.
unfoldable pub save_changed : Marks → Session
save_changed ms = record { marks = ms; saved = ms.items; mark_changed = true }

unfoldable pub mark_toggle : Bool → ℤ → Option String → Session → Session
unfolding del_mark save_changed
mark_toggle mark_comments index comment s = elim (get index s.marks.items) [
  | some m ↦ save_changed (del_mark m.node s.marks)
  | none ↦
      let added = (add index s.marks).0 in
      save_changed (record added { items = comment_at mark_comments index comment added.items })
]

-- `new_comment` is what asprintf makes of the comment and the old position, `none` if it fails.
unfoldable pub move_mark : Bool → Mark → ℤ → Option String → Session → Session
unfolding del_mark save_changed
move_mark mark_comments m new_pos new_comment s =
    let added = (add new_pos (del_mark m.node s.marks)).0 in
    save_changed (record added { items = comment_at mark_comments new_pos new_comment added.items })
