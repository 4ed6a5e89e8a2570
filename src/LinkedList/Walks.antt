-- ===== src/LinkedList/Walks.antt =====
-- The loops over the list: Index, Get, Count and Clear.
use noad.Prelude.{
  ℕ, zero, suc, ◌+◌, ◌≤◌, ◌≡◌, refl, ◌∙◌, ap, arith, false, Option, none, some, List, [], ◌∷◌, ◌++◌,
  ◌==◌, All, length, get_elem?, if_rule,
}
use noad.Prelude.Int.{pos}
use noad.LinkedList.{
  ListBase, put, index_from, index, get_from, get, count_from, count, clear_loop, clear,
}
use noad.LinkedList.Chain.{head_or, last_or, Linked, Represents, Linked-parts, put_same}

-- Get.
get_from-Linked :
    (i : ℕ) (s : ListBase) (before : Option ℕ) (xs : List ℕ)
    → Linked s.next s.prev before xs none
    → get_from i s (head_or xs none) ≡ get_elem? xs i
unfolding get_from
get_from-Linked i s before [] h = refl
get_from-Linked zero s before (x ∷ xs) h = refl
get_from-Linked (suc i) s before (x ∷ xs) (p, n, h) = rw n (get_from-Linked i s (some x) xs h)

pub get-Represents :
    (i : ℕ) (s : ListBase) (xs : List ℕ) → Represents s xs → get (pos i) s ≡ get_elem? xs i
unfolding get
get-Represents i s xs r = ap (get_from i s) r.first ∙ get_from-Linked i s none xs r.linked

-- Count.
count_from-Linked :
    (n : ℕ) (s : ListBase) (before : Option ℕ) (xs : List ℕ)
    → length xs ≤ n
    → Linked s.next s.prev before xs none
    → count_from n s (head_or xs none) ≡ some (length xs)
unfolding count_from
count_from-Linked n s before [] h l = refl
count_from-Linked zero s before (x ∷ xs) h l = absurd (omega arith)
count_from-Linked (suc n) s before (x ∷ xs) h (p, e, l) =
    rw (e, count_from-Linked n s (some x) xs (omega arith) l) (ap some (omega arith))

pub count-Represents :
    (n : ℕ) (s : ListBase) (xs : List ℕ)
    → length xs ≤ n
    → Represents s xs
    → count n s ≡ some (length xs)
unfolding count
count-Represents n s xs h r = ap (count_from n s) r.first ∙ count_from-Linked n s none xs h r.linked

-- Index goes back along `prev`: `done` objects stand before the first of `us`.
index_from-Linked :
    (n : ℕ) (s : ListBase) (us : List ℕ) (done : ℕ) (before after : Option ℕ)
    → done + length us ≤ n
    → ((m : ℕ) → done ≤ m → index_from m s before ≡ some done)
    → Linked s.next s.prev before us after
    → index_from n s (last_or before us) ≡ some (done + length us)
index_from-Linked n s [] done before after h back l = back n (omega arith) ∙ ap some (omega arith)
index_from-Linked n s (x ∷ us) done before after h back (p, _, l) =
    index_from-Linked n s us (done + 1) (some x) after (omega arith) (one_more p) l
    ∙ ap some (omega arith)
  where
    one_more :
        s.prev x ≡ before → (m : ℕ) → done + 1 ≤ m → index_from m s (some x) ≡ some (done + 1)
    one_more p zero k = absurd (omega arith)
    one_more p (suc m) k = unfold index_from in rw (p, back m (omega arith)) refl

pub index-Represents :
    (n : ℕ) (s : ListBase) (us : List ℕ) (x : ℕ) (vs : List ℕ)
    → length us ≤ n
    → Represents s (us ++ x ∷ vs)
    → index n s x ≡ some (length us)
unfolding index index_from
index-Represents n s us x vs h r =
    let (left, (p, _, _)) = Linked-parts s.next s.prev none none us (x ∷ vs) r.linked in
    ap (index_from n s) p
    ∙ index_from-Linked n s us 0 none (some x) (omega arith) (λ m k. from_none m) left
    ∙ ap some (omega arith)
  where
    from_none : (m : ℕ) → index_from m s none ≡ some 0
    from_none zero = refl
    from_none (suc m) = refl

-- Clear deletes every object once.
pub record Cleared (s t : ListBase) (xs : List ℕ) : Type 0 where
  pub empty : Represents t []
  pub deleted : All (λ x. t.alive x ≡ false) xs
  pub others : (y : ℕ) → s.alive y ≡ false → t.alive y ≡ false

clear_loop-Linked :
    (n : ℕ) (s : ListBase) (before : Option ℕ) (xs : List ℕ)
    → length xs ≤ n
    → Linked s.next s.prev before xs none
    → (t : ListBase) × (clear_loop n s (head_or xs none) ≡ some t) × Cleared s t xs
unfolding clear_loop
clear_loop-Linked n s before [] h l = (
  record s { objects = none; last_object = none },
  refl,
  record {
    empty = record { linked = tt; distinct = tt; first = refl; last = refl; living = tt };
    deleted = tt;
    others = λ y e. e;
  },
)
clear_loop-Linked zero s before (x ∷ xs) h l = absurd (omega arith)
clear_loop-Linked (suc n) s before (x ∷ xs) h (p, e, l) =
    let s' = record s { alive = put x false s.alive } in
    let (t, go, c) = clear_loop-Linked n s' (some x) xs (omega arith) l in
    (
      t,
      ap (clear_loop n s') e ∙ go,
      record {
        empty = c.empty;
        deleted = (c.others x (put_same x false s.alive), c.deleted);
        others = λ y f. c.others y (if_rule (λ b. b ≡ false) (y == x) (λ _. refl) (λ _. f));
      },
    )

-- From an object list that stands for a list of addresses, with a round for each, Clear ends with
-- an empty list and every one of those objects deleted.
pub clear-Cleared :
    (n : ℕ) (s : ListBase) (xs : List ℕ)
    → length xs ≤ n
    → Represents s xs
    → (t : ListBase) × (clear n s ≡ some t) × Cleared s t xs
unfolding clear
clear-Cleared n s xs h r =
    let (t, go, c) = clear_loop-Linked n s none xs h r.linked in
    (t, ap (clear_loop n s) r.first ∙ go, c)
