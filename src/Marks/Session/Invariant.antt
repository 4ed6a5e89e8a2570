-- ===== src/Marks/Session/Invariant.antt =====
-- The invariant of the list of marks, kept by the parts that MarkToggle and moveMark are made of.
use noad.Prelude.{
  ℕ, ◌+◌, ◌≤◌, ◌<◌, ◌≡◌, refl, ◌∙◌, arith, Bool, true, false, Option, none, some, List, [], ◌∷◌,
  ◌++◌, if◌then◌else◌, Option-cases, inl, inr, ap, length,
}
use noad.Prelude.Int.{ℤ, eqb_ℤ}
use Prim.Native.String.{String}
use noad.Marks.{Mark, Marks, get, add, sort}
use noad.Marks.Sorting.{IsSorted, AllFrom, sort-IsSorted, length-sort}
use noad.Marks.Count.{
  one_at, one_at-cases, count, node_count, sort-count, sort-node_count, count-append,
  node_count-append, get-count_zero, get-position, del-count-le, del-node_count, del-IsSorted,
}
use noad.Marks.Session.{set_comment, comment_at, del_mark}

-- The positions ascend, none occurs twice, and no two nodes share an address.
pub record IsValid (ms : Marks) : Type 0 where
  pub sorted : IsSorted ms.items
  pub unique : (q : ℤ) → count q ms.items ≤ 1
  pub nodes : (a : ℕ) → node_count a ms.items ≤ 1
  pub fresh : (a : ℕ) → ms.next_node ≤ a → node_count a ms.items ≡ 0

abbrev new_mark : ℤ → ℕ → Mark
new_mark p a = record { node = a; position = p; comment = none; checked = false }

abbrev added_items : ℤ → Marks → List Mark
added_items p ms = sort (ms.items ++ new_mark p ms.next_node ∷ [])

added-count : (p q : ℤ) (ms : Marks) → count q (added_items p ms) ≡ count q ms.items + one_at p q
unfolding count
added-count p q ms = omega (
  arith,
  sort-count q (ms.items ++ new_mark p ms.next_node ∷ []),
  count-append q ms.items (new_mark p ms.next_node ∷ []),
)

added-node_count :
    (p : ℤ) (a : ℕ) (ms : Marks)
    → node_count a (added_items p ms)
      ≡ node_count a ms.items + node_count a (new_mark p ms.next_node ∷ [])
added-node_count p a ms =
    sort-node_count a _ ∙ node_count-append a ms.items (new_mark p ms.next_node ∷ [])

new_mark-node_count :
    (p : ℤ) (a b : ℕ)
    → (node_count a (new_mark p b ∷ []) ≤ 1) × (b < a → node_count a (new_mark p b ∷ []) ≡ 0)
unfolding node_count
new_mark-node_count p a b = (ground arith, λ h. ground arith)

new_mark-node_count_ne : (p : ℤ) (a b : ℕ) → 1 ≤ node_count a (new_mark p b ∷ []) → a ≡ b
unfolding node_count
new_mark-node_count_ne p a b h = ground arith

add-none :
    (p : ℤ) (ms : Marks)
    → get p ms.items ≡ none
    → (add p ms).0 ≡ record { items = added_items p ms; next_node = ms.next_node + 1 }
unfolding add
add-none p ms e = rw (e, add)

pub add-some : (p : ℤ) (ms : Marks) {m : Mark} → get p ms.items ≡ some m → (add p ms).0 ≡ ms
unfolding add
add-some p ms e = rw (e, add)

length_snoc : (ms : List Mark) (m : Mark) → length (ms ++ m ∷ []) ≡ length ms + 1
length_snoc [] m = refl
length_snoc (k ∷ ms) m = omega (arith, length_snoc ms m)

pub length-add :
    (p : ℤ) (ms : Marks) → get p ms.items ≡ none → length (add p ms).0.items ≡ length ms.items + 1
length-add p ms e =
    rw (add-none p ms e)
      (length-sort (ms.items ++ new_mark p ms.next_node ∷ []) ∙ length_snoc ms.items _)

added_unique :
    (p q : ℤ) (ms : Marks) → IsValid ms → get p ms.items ≡ none → count q (added_items p ms) ≤ 1
added_unique p q ms v e = elim (one_at-cases p q) [
  | inl z ↦ omega (arith, added-count p q ms, v.unique q)
  | inr (same, z) ↦
      omega
        (arith, added-count p q ms, ap (λ r. count r ms.items) same, get-count_zero p ms.items e)
]

added-nodes : (p : ℤ) (a : ℕ) (ms : Marks) → IsValid ms → node_count a (added_items p ms) ≤ 1
added-nodes p a ms v = grind (
  arith,
  added-node_count p a ms,
  v.nodes a,
  v.fresh a,
  new_mark-node_count p a ms.next_node,
  new_mark-node_count_ne p a ms.next_node,
)

pub add-IsValid : (p : ℤ) (ms : Marks) → IsValid ms → IsValid (add p ms).0
add-IsValid p ms v = elim (Option-cases (get p ms.items)) [
  | inr (m, e) ↦ rw (add-some p ms e) v
  | inl e ↦ rw (add-none p ms e) (record {
    sorted = sort-IsSorted _;
    unique = λ q. added_unique p q ms v e;
    nodes = λ a. added-nodes p a ms v;
    fresh = λ a h. omega (
      arith,
      added-node_count p a ms,
      v.fresh a (omega arith),
      (new_mark-node_count p a ms.next_node).1 (omega arith),
    );
  })
]

pub del_mark-IsValid : (a : ℕ) (ms : Marks) → IsValid ms → IsValid (del_mark a ms)
unfolding del_mark
del_mark-IsValid a ms v = record {
  sorted = del-IsSorted a ms.items v.sorted;
  unique = λ q. omega (arith, del-count-le a q ms.items, v.unique q);
  nodes = λ b. omega (arith, del-node_count a b ms.items, v.nodes b);
  fresh = λ b h. omega (arith, del-node_count a b ms.items, v.fresh b h);
}

-- A comment changes no position and no node.
set_comment-keeps :
    (a b : ℕ) (t : String) (q : ℤ) (ms : List Mark)
    → (count q (set_comment a t ms) ≡ count q ms)
      × (node_count b (set_comment a t ms) ≡ node_count b ms)
unfolding set_comment count node_count
set_comment-keeps a b t q [] = (refl, refl)
set_comment-keeps a b t q (m ∷ ms) = ground (arith, set_comment-keeps a b t q ms)

set_comment-AllFrom :
    (a : ℕ) (t : String) (p : ℤ) (ms : List Mark) → AllFrom p ms → AllFrom p (set_comment a t ms)
unfolding set_comment
set_comment-AllFrom a t p [] h = tt
set_comment-AllFrom a t p (m ∷ ms) h = ground (arith, set_comment-AllFrom a t p ms)

set_comment-IsSorted :
    (a : ℕ) (t : String) (ms : List Mark) → IsSorted ms → IsSorted (set_comment a t ms)
unfolding set_comment
set_comment-IsSorted a t [] h = tt
set_comment-IsSorted a t (m ∷ ms) h =
    ground (arith, set_comment-IsSorted a t ms, set_comment-AllFrom a t m.position ms)

pub comment_at-keeps :
    (on : Bool) (p : ℤ) (c : Option String) (q : ℤ) (b : ℕ) (ms : List Mark)
    → (count q (comment_at on p c ms) ≡ count q ms)
      × (node_count b (comment_at on p c ms) ≡ node_count b ms)
unfolding comment_at
comment_at-keeps true p (some t) q b ms = elim (Option-cases (get p ms)) [
  | inl e ↦ rw (e, comment_at) (refl, refl)
  | inr (m, e) ↦ rw (e, comment_at) (set_comment-keeps m.node b t q ms)
]
comment_at-keeps true p none q b ms = (refl, refl)
comment_at-keeps false p c q b ms = (refl, refl)

comment_at-IsSorted :
    (on : Bool) (p : ℤ) (c : Option String) (ms : List Mark)
    → IsSorted ms
    → IsSorted (comment_at on p c ms)
unfolding comment_at
comment_at-IsSorted true p (some t) ms h = elim (Option-cases (get p ms)) [
  | inl e ↦ rw (e, comment_at) h
  | inr (m, e) ↦ rw (e, comment_at) (set_comment-IsSorted m.node t ms h)
]
comment_at-IsSorted true p none ms h = h
comment_at-IsSorted false p c ms h = h

pub comment_at-IsValid :
    (on : Bool) (p : ℤ) (c : Option String) (ms : Marks)
    → IsValid ms
    → IsValid (record ms { items = comment_at on p c ms.items })
comment_at-IsValid on p c ms v = record {
  sorted = comment_at-IsSorted on p c ms.items v.sorted;
  unique = λ q. omega (arith, comment_at-keeps on p c q 0 ms.items, v.unique q);
  nodes = λ a. omega (arith, comment_at-keeps on p c p a ms.items, v.nodes a);
  fresh = λ a h. omega (arith, comment_at-keeps on p c p a ms.items, v.fresh a h);
}

pub add-count :
    (p q : ℤ) (ms : Marks)
    → get p ms.items ≡ none
    → count q (add p ms).0.items ≡ count q ms.items + one_at p q
add-count p q ms e = rw (add-none p ms e) (added-count p q ms)

-- `Add` leaves one mark at its position, and the other positions as they are.
pub add-count_if :
    (p q : ℤ) (ms : Marks)
    → IsValid ms
    → count q (add p ms).0.items ≡ (if eqb_ℤ p q then 1 else count q ms.items)
add-count_if p q ms v = elim (Option-cases (get p ms.items)) [
  | inl e ↦ elim (one_at-cases p q) [
    | inl z ↦ ground (arith, add-count p q ms e)
    | inr (same, z) ↦
        ground
          (arith, add-count p q ms e, ap (λ r. count r ms.items) same, get-count_zero p ms.items e)
  ]
  | inr (m, e) ↦ rw (add-some p ms e) (elim (one_at-cases p q) [
    | inl z ↦ ground arith
    | inr (same, z) ↦
        ground (arith, ap (λ r. count r ms.items) same, get-position p ms.items e, v.unique p)
  ])
]
