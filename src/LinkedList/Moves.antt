-- ===== src/LinkedList/Moves.antt =====
-- Add and Move on a list of addresses.
use noad.Prelude.{
  ℕ, ◌≤◌, ◌<◌, ◌≡◌, refl, ◌∙◌, sym, ap, subst, arith, true, Option, none, some, List, [], ◌∷◌, ◌++◌,
  ◌==◌, ltb, if◌then◌else◌, All, length, length-append, if_rule,
}
use mathlib.Core.List.{append_assoc, append-nil}
use noad.LinkedList.{
  ListBase, put, new_object, append, add, detach, index, link_before, set_first, move, move_objects,
}
use noad.LinkedList.Chain.{
  head_or, Distinct, Apart, Represents, put_same, Linked-parts, Linked-put, Distinct-parts,
  Apart-parts, Apart-join, All-parts,
}
use noad.LinkedList.Detach.{around, detach-Detached}
use noad.LinkedList.Insert.{Beside, link_before-Represents, set_first_first, set_first_later}
use noad.LinkedList.Walks.{index-Represents}

-- An object just taken out stands beside any two parts of the rest.
detached-Beside :
    (s : ListBase) (us : List ℕ) (f : ℕ) (vs us' vs' : List ℕ)
    → Represents s (us ++ f ∷ vs)
    → us ++ vs ≡ us' ++ vs'
    → Beside (detach f s) us' f vs'
detached-Beside s us f vs us' vs' r e =
    let t = detach-Detached s us f vs r in
    let d = around us f vs r.distinct in
    let (left, right, apart) = Distinct-parts us' vs' (subst Distinct e t.rest.distinct) in
    let (off_left, off_right) =
      Apart-parts f us' vs' (subst (Apart f) e (Apart-join f us vs d.off_left d.off_right)) in
    let (_, (alive, _)) = All-parts (λ y. s.alive y ≡ true) us (f ∷ vs) r.living in
    record {
      chain = subst (Represents (detach f s)) e t.rest;
      spread = record {
        left = left;
        right = right;
        apart = apart;
        off_left = off_left;
        off_right = off_right;
      };
      no_next = t.no_next;
      no_prev = t.no_prev;
      alive_too = ap (λ a. a f) t.same_alive ∙ alive;
    }

move_objects-eq :
    (n f t : ℕ) (s : ListBase) (i j : ℕ)
    → index n s f ≡ some i
    → index n s t ≡ some j
    → move_objects n f t s
      ≡ some (set_first f (link_before f (if ltb i j then s.next t else some t) (detach f s)))
unfolding move_objects
move_objects-eq n f t s i j e k = rw (move_objects, e, k) refl

ltb_then : {A : Type 0} (i j : ℕ) (a b : A) → i < j → (if ltb i j then a else b) ≡ a
ltb_then i j a b h = if_rule (λ r. r ≡ a) (ltb i j) (λ _. refl) (λ l. absurd (ground (arith, l)))

ltb_else : {A : Type 0} (i j : ℕ) (a b : A) → j ≤ i → (if ltb i j then a else b) ≡ b
ltb_else i j a b h = if_rule (λ r. r ≡ b) (ltb i j) (λ l. absurd (ground (arith, l))) (λ _. refl)

-- Behind one that stands further on.
pub move_on-Represents :
    (n : ℕ) (s : ListBase) (us : List ℕ) (f : ℕ) (ws : List ℕ) (t : ℕ) (vs : List ℕ)
    → length (us ++ f ∷ ws ++ t ∷ vs) ≤ n
    → Represents s (us ++ f ∷ ws ++ t ∷ vs)
    → (s' : ListBase) × (move n (some f) (some t) s ≡ some s')
      × Represents s' (us ++ ws ++ t ∷ f ∷ vs)
unfolding move
move_on-Represents n s us f ws t vs h r =
    let r1 : Represents s (us ++ f ∷ (ws ++ t ∷ vs)) =
      subst (Represents s) (append_assoc us (f ∷ ws) (t ∷ vs)) r in
    let (_, (_, next_t, _)) =
      Linked-parts s.next s.prev none none (us ++ f ∷ ws) (t ∷ vs) r.linked in
    let us' = us ++ ws ++ t ∷ [] in
    let e : us ++ (ws ++ t ∷ vs) ≡ us' ++ vs =
      sym (append_assoc us ws (t ∷ vs)) ∙ sym (append_assoc (us ++ ws) (t ∷ []) vs) in
    let long = length-append (us ++ f ∷ ws) (t ∷ vs) in
    let further = length-append us (f ∷ ws) in
    let k1 = index-Represents n s us f (ws ++ t ∷ vs) (omega (arith, h, long, further)) r1 in
    let k2 = index-Represents n s (us ++ f ∷ ws) t vs (omega (arith, h, long)) r in
    (
      set_first f (link_before f (head_or vs none) (detach f s)),
      move_objects-eq n f t s (length us) (length (us ++ f ∷ ws)) k1 k2
          ∙ ap (λ o. some (set_first f (link_before f o (detach f s))))
              (ltb_then (length us) (length (us ++ f ∷ ws)) _ _ (omega (arith, further)) ∙ next_t),
      subst (Represents (set_first f (link_before f (head_or vs none) (detach f s))))
          (append_assoc (us ++ ws) (t ∷ []) (f ∷ vs))
          (link_before-Represents (detach f s) us' f vs
            (detached-Beside s us f (ws ++ t ∷ vs) us' vs r1 e)),
    )

-- Before one that stands further back.
pub move_back-Represents :
    (n : ℕ) (s : ListBase) (us : List ℕ) (f : ℕ) (ws : List ℕ) (t : ℕ) (vs : List ℕ)
    → length (us ++ t ∷ ws ++ f ∷ vs) ≤ n
    → Represents s (us ++ t ∷ ws ++ f ∷ vs)
    → (s' : ListBase) × (move n (some f) (some t) s ≡ some s')
      × Represents s' (us ++ f ∷ t ∷ ws ++ vs)
unfolding move
move_back-Represents n s us f ws t vs h r =
    let r1 : Represents s (us ++ t ∷ (ws ++ f ∷ vs)) =
      subst (Represents s) (append_assoc us (t ∷ ws) (f ∷ vs)) r in
    let long = length-append (us ++ t ∷ ws) (f ∷ vs) in
    let further = length-append us (t ∷ ws) in
    let k1 = index-Represents n s (us ++ t ∷ ws) f vs (omega (arith, h, long)) r in
    let k2 = index-Represents n s us t (ws ++ f ∷ vs) (omega (arith, h, long, further)) r1 in
    (
      set_first f (link_before f (some t) (detach f s)),
      move_objects-eq n f t s (length (us ++ t ∷ ws)) (length us) k1 k2
          ∙ ap (λ o. some (set_first f (link_before f o (detach f s))))
              (ltb_else (length (us ++ t ∷ ws)) (length us) _ _ (omega (arith, further))),
      subst (Represents (set_first f (link_before f (some t) (detach f s))))
          (sym (append_assoc us (f ∷ t ∷ ws) vs))
          (link_before-Represents (detach f s) us f (t ∷ (ws ++ vs)) (
            detached-Beside s (us ++ t ∷ ws) f vs us (t ∷ (ws ++ vs)) r
              (append_assoc us (t ∷ ws) vs))),
    )

-- A constructed object stands beside the list.
pub new_object-Beside :
    (s : ListBase) (x : ℕ) (xs : List ℕ)
    → Represents s xs
    → Apart x xs
    → Beside (new_object x s) xs x []
unfolding new_object
new_object-Beside s x xs r a = record {
  chain = subst (Represents (new_object x s)) (sym (append-nil xs)) (record {
    linked =
        (Linked-put (put x none s.next) s.prev none none xs x none a
          (Linked-put s.next s.prev none none xs x none a r.linked).0).1;
    distinct = r.distinct;
    first = r.first;
    last = r.last;
    living = live xs r.living;
  });
  spread = record {
    left = r.distinct;
    right = tt;
    apart = none_apart xs;
    off_left = a;
    off_right = tt;
  };
  no_next = put_same x none s.next;
  no_prev = put_same x none s.prev;
  alive_too = put_same x true s.alive;
}
  where
    live :
        (ys : List ℕ) → All (λ y. s.alive y ≡ true) ys → All (λ y. put x true s.alive y ≡ true) ys
    live [] h = tt
    live (y ∷ ys) (p, h) = (if_rule (λ b. b ≡ true) (y == x) (λ _. refl) (λ _. p), live ys h)

    none_apart : (ys : List ℕ) → All (λ u. Apart u []) ys
    none_apart [] = tt
    none_apart (y ∷ ys) = (tt, none_apart ys)

-- Add does what Move does at the end.
add_cases :
    (x : ℕ) (s : ListBase) (o : Option ℕ)
    → s.prev x ≡ none
    → record (elim o [ none ↦ record s { objects = some x } | some l ↦ append l x s ]) {
      last_object = some x;
    }
      ≡ set_first x (record (elim o [ none ↦ s | some l ↦ append l x s ]) { last_object = some x })
unfolding append
add_cases x s none p = sym (set_first_first x (record s { last_object = some x }) p)
add_cases x s (some l) p = sym (
    set_first_later x l (record (append l x s) { last_object = some x })
      (put_same x (some l) s.prev))

pub add-eq : (x : ℕ) (s : ListBase) → s.prev x ≡ none → add x s ≡ set_first x (link_before x none s)
unfolding add link_before
add-eq x s p = add_cases x s s.last_object p

-- Moving an object of the list before itself takes it out of the list, and leaves it with itself
-- as its successor.
pub move_self-Represents :
    (n : ℕ) (s : ListBase) (us : List ℕ) (f : ℕ) (vs : List ℕ)
    → length us ≤ n
    → Represents s (us ++ f ∷ vs)
    → (s' : ListBase) × (move n (some f) (some f) s ≡ some s')
      × Represents s' (us ++ vs)
      × (s'.next f ≡ some f)
unfolding move link_before append
move_self-Represents n s us f vs h r =
    let k = index-Represents n s us f vs h r in
    let t = detach f s in
    let b = detached-Beside s us f vs us vs r refl in
    let off = Apart-join f us vs b.spread.off_left b.spread.off_right in
    let l1 = (Linked-put t.next t.prev none none (us ++ vs) f (some f) off b.chain.linked).0 in
    let l2 = (Linked-put (put f (some f) t.next) t.prev none none (us ++ vs) f (some f) off l1).1 in
    (
      append f f t,
      move_objects-eq n f f s (length us) (length us) k k
          ∙ ap (λ o. some (set_first f (link_before f o t)))
              (ltb_else (length us) (length us) (s.next f) (some f) (omega arith))
          ∙ ap (λ o. some (set_first f (append f f (elim o [ none ↦ t | some p ↦ append p f t ]))))
              b.no_prev
          ∙ ap some (set_first_later f f (append f f t) (put_same f (some f) t.prev)),
      record {
        linked = l2;
        distinct = b.chain.distinct;
        first = b.chain.first;
        last = b.chain.last;
        living = b.chain.living;
      },
      put_same f (some f) t.next,
    )
