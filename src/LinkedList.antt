-- ===== src/LinkedList.antt =====
-- tools.cpp: cListObject and cListBase, a doubly linked list. An address is a number, and a NULL
-- pointer is `none`; `alive` says which objects are not deleted.
pub mod Chain
pub mod Detach
pub mod Insert
pub mod Walks
pub mod Moves
pub mod Refine
mod Tests
use noad.Prelude.{
  ℕ, zero, suc, ◌+◌, Bool, true, false, Option, none, some, ◌==◌, ltb, if◌then◌else◌,
}
use noad.Prelude.Int.{ℤ, pos, negsuc}

-- The objects, and the two ends of the list.
pub record ListBase : Type 0 where
  pub prev : ℕ → Option ℕ
  pub next : ℕ → Option ℕ
  pub alive : ℕ → Bool
  pub objects : Option ℕ
  pub last_object : Option ℕ

abbrev pub put : {A : Type 0} → ℕ → A → (ℕ → A) → ℕ → A
put p a f q = if q == p then a else f q

-- Nothing is written through a NULL pointer.
abbrev pub put_if : {A : Type 0} → Option ℕ → A → (ℕ → A) → ℕ → A
put_if none a f = f
put_if (some p) a f = put p a f

abbrev pub is_at : Option ℕ → ℕ → Bool
is_at none x = false
is_at (some y) x = y == x

-- cListObject::cListObject.
unfoldable pub new_object : ℕ → ListBase → ListBase
new_object x s = record s {
  prev = put x none s.prev;
  next = put x none s.next;
  alive = put x true s.alive;
}

-- cListObject::Append.
unfoldable pub append : ℕ → ℕ → ListBase → ListBase
append this object s = record s {
  next = put this (some object) s.next;
  prev = put object (some this) s.prev;
}

-- `if (next) next->prev = …` and `if (prev) prev->next = …`.
unfoldable pub set_prev : Option ℕ → Option ℕ → ListBase → ListBase
set_prev o v s = record s { prev = put_if o v s.prev }

unfoldable pub set_next : Option ℕ → Option ℕ → ListBase → ListBase
set_next o v s = record s { next = put_if o v s.next }

-- cListObject::Unlink.
unfoldable pub unlink : ℕ → ListBase → ListBase
unfolding set_prev set_next
unlink x s =
    let s1 = set_prev (s.next x) (s.prev x) s in
    let s2 = set_next (s1.prev x) (s1.next x) s1 in
    record s2 { next = put x none s2.next; prev = put x none s2.prev }

-- cListObject::Index, with the rounds left.
unfoldable pub index_from : ℕ → ListBase → Option ℕ → Option ℕ
index_from n s none = some 0
index_from zero s (some p) = none
index_from (suc n) s (some p) = elim (index_from n s (s.prev p)) [
  | none ↦ none
  | some i ↦ some (i + 1)
]

unfoldable pub index : ℕ → ListBase → ℕ → Option ℕ
unfolding index_from
index n s x = index_from n s (s.prev x)

-- cListBase::Add.
unfoldable pub add : ℕ → ListBase → ListBase
unfolding append
add x s =
    record (elim s.last_object [ none ↦ record s { objects = some x } | some l ↦ append l x s ]) {
      last_object = some x;
    }

-- An object leaves the list: the two ends, and Unlink.
unfoldable pub detach : ℕ → ListBase → ListBase
unfolding unlink
detach x s = unlink x (record s {
  objects = if is_at s.objects x then s.next x else s.objects;
  last_object = if is_at s.last_object x then s.prev x else s.last_object;
})

-- cListBase::Del.
unfoldable pub del : ℕ → ListBase → ListBase
unfolding detach
del x s = let s' = detach x s in record s' { alive = put x false s'.alive }

-- Behind Unlink in Move: before `To`, or at the end; there is a lastObject then, or the source would
-- read a NULL pointer.
unfoldable pub link_before : ℕ → Option ℕ → ListBase → ListBase
unfolding append
link_before f (some t) s = append f t (elim (s.prev t) [ none ↦ s | some p ↦ append p f s ])
link_before f none s = record (elim s.last_object [ none ↦ s | some l ↦ append l f s ]) {
  last_object = some f;
}

-- `if (!From->Prev()) objects = From`.
unfoldable pub set_first : ℕ → ListBase → ListBase
set_first f s = elim (s.prev f) [ none ↦ record s { objects = some f } | some p ↦ s ]

-- cListBase::Move of two objects, with the rounds of Index.
unfoldable pub move_objects : ℕ → ℕ → ℕ → ListBase → Option ListBase
unfolding index detach link_before set_first
move_objects n f t s = elim (index n s f) [
  | none ↦ none
  | some i ↦ elim (index n s t) [
    | none ↦ none
    | some j ↦
        some (set_first f (link_before f (if ltb i j then s.next t else some t) (detach f s)))
  ]
]

unfoldable pub move : ℕ → Option ℕ → Option ℕ → ListBase → Option ListBase
unfolding move_objects
move n none t s = some s
move n (some f) none s = some s
move n (some f) (some t) s = move_objects n f t s

-- cListBase::Clear, with the rounds left.
unfoldable pub clear_loop : ℕ → ListBase → Option ℕ → Option ListBase
clear_loop n s none = some (record s { objects = none; last_object = none })
clear_loop zero s (some p) = none
clear_loop (suc n) s (some p) = clear_loop n (record s { alive = put p false s.alive }) (s.next p)

unfoldable pub clear : ℕ → ListBase → Option ListBase
unfolding clear_loop
clear n s = clear_loop n s s.objects

unfoldable pub get_from : ℕ → ListBase → Option ℕ → Option ℕ
get_from i s none = none
get_from zero s (some p) = some p
get_from (suc i) s (some p) = get_from i s (s.next p)

-- cListBase::Get.
unfoldable pub get : ℤ → ListBase → Option ℕ
unfolding get_from
get (negsuc i) s = none
get (pos i) s = get_from i s s.objects

-- cListBase::Move of two indices.
unfoldable pub move_indices : ℕ → ℤ → ℤ → ListBase → Option ListBase
unfolding move get
move_indices n i j s = move n (get i s) (get j s) s

-- cListBase::Count, with the rounds left.
unfoldable pub count_from : ℕ → ListBase → Option ℕ → Option ℕ
count_from n s none = some 0
count_from zero s (some p) = none
count_from (suc n) s (some p) = elim (count_from n s (s.next p)) [
  | none ↦ none
  | some i ↦ some (i + 1)
]

unfoldable pub count : ℕ → ListBase → Option ℕ
unfolding count_from
count n s = count_from n s s.objects

-- One walk of Sort from an object on, with the rounds left and those of Index: whether it swapped,
-- and the list. `less` is operator<.
unfoldable pub sort_pass :
    ℕ → ℕ → (ℕ → ℕ → Bool) → Option ℕ → Bool → ListBase → Option (Bool × ListBase)
unfolding move_objects
sort_pass n k less none swapped s = some (swapped, s)
sort_pass zero k less (some p) swapped s = none
sort_pass (suc n) k less (some p) swapped s = elim (s.next p) [
  | none ↦ sort_pass n k less none swapped s
  | some q ↦ elim (less q p) [
    | false ↦ sort_pass n k less (some q) swapped s
    | true ↦ elim (move_objects k q p s) [
      | none ↦ none
      | some t ↦ sort_pass n k less (t.next p) true t
    ]
  ]
]

-- cListBase::Sort, with the walks left, and the rounds of each.
unfoldable pub sort_objects : ℕ → ℕ → (ℕ → ℕ → Bool) → ListBase → Option ListBase
unfolding sort_pass
sort_objects zero n less s = none
sort_objects (suc w) n less s = elim (sort_pass n n less s.objects false s) [
  | none ↦ none
  | some r ↦ elim r.0 [ true ↦ sort_objects w n less r.1 | false ↦ some r.1 ]
]
