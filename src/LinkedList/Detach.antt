-- ===== src/LinkedList/Detach.antt =====
-- An object leaves the list: Unlink, Del and the first part of Move.
use noad.Prelude.{
  ℕ, ◌≡◌, ◌≢◌, refl, ◌∙◌, sym, ap, subst, arith, true, false, Option, none, some, List, [], ◌∷◌,
  ◌++◌, ◌==◌, if◌then◌else◌, All, if_rule, inl, inr, Bool-cases,
}
use noad.LinkedList.{ListBase, put, put_if, is_at, set_prev, set_next, unlink, detach, del}
use noad.LinkedList.Chain.{
  head_or, last_or, Linked, Distinct, Apart, ApartIf, Represents, put_same, put_other,
  last_or-append, Linked-parts, Linked-join, Linked-put, Linked-put_if, Linked-head, Linked-end,
  Distinct-parts, Distinct-join, last_or-Apart, Apart-sym, last_or-ApartIf, head_or-ApartIf,
  All-parts, All-join,
}

-- The addresses around `x`, none of them twice.
pub record Around (us : List ℕ) (x : ℕ) (vs : List ℕ) : Type 0 where
  pub left : Distinct us
  pub right : Distinct vs
  pub apart : All (λ u. Apart u vs) us
  pub off_left : Apart x us
  pub off_right : Apart x vs

pub around : (us : List ℕ) (x : ℕ) (vs : List ℕ) → Distinct (us ++ x ∷ vs) → Around us x vs
around us x vs d =
    let (a, (b, c), e) = Distinct-parts us (x ∷ vs) d in
    let (f, g) = Apart-sym us (x ∷ vs) e in
    record { left = a; right = c; apart = Apart-sym vs us g; off_left = f; off_right = b }

-- Both writes, and then NULL in the object itself.
unlinked :
    (nx pv : ℕ → Option ℕ) (us : List ℕ) (x : ℕ) (vs : List ℕ) (p n : Option ℕ)
    → p ≡ last_or none us
    → n ≡ head_or vs none
    → Around us x vs
    → Linked nx pv none (us ++ x ∷ vs) none
    → Linked (put x none (put_if p n nx)) (put x none (put_if n p pv)) none (us ++ vs) none
unlinked nx pv us x vs p n ep en d h =
    let (left, (_, _, right)) = Linked-parts nx pv none none us (x ∷ vs) h in
    let nx1 = put_if p n nx in
    let pv1 = put_if n p pv in
    let l0 : ApartIf n us = rw en (head_or-ApartIf us vs (Apart-sym us vs d.apart)) in
    let r0 : ApartIf p vs = rw ep (last_or-ApartIf none us vs tt d.apart) in
    let l1 : Linked nx1 pv none us n = rw ep (Linked-end nx pv (some x) n us d.left left) in
    let l2 : Linked nx1 pv1 none us n = (Linked-put_if nx1 pv none n us n p l0 l1).1 in
    let l3 = (Linked-put nx1 pv1 none n us x none d.off_left l2).0 in
    let l4 = (Linked-put (put x none nx1) pv1 none n us x none d.off_left l3).1 in
    let r1 : Linked nx pv1 p vs none = rw en (Linked-head nx pv (some x) none p vs d.right right) in
    let r2 : Linked nx1 pv1 p vs none = (Linked-put_if nx pv1 p none vs p n r0 r1).0 in
    let r3 = (Linked-put nx1 pv1 p none vs x none d.off_right r2).0 in
    let r4 = (Linked-put (put x none nx1) pv1 p none vs x none d.off_right r3).1 in
    Linked-join (put x none nx1) (put x none pv1) none none us vs
      (subst (λ o. Linked (put x none nx1) (put x none pv1) none us o) en l4)
      (subst (λ o. Linked (put x none nx1) (put x none pv1) o vs none) ep r4)

first_left :
    (s : ListBase) (us : List ℕ) (x : ℕ) (vs : List ℕ)
    → Apart x us
    → s.objects ≡ head_or (us ++ x ∷ vs) none
    → s.next x ≡ head_or vs none
    → (if is_at s.objects x then s.next x else s.objects) ≡ head_or (us ++ vs) none
first_left s [] x vs a e n =
    if_rule (λ o. o ≡ head_or vs none) (is_at s.objects x) (λ _. n)
      (λ off. absurd (on (ap (λ o. is_at o x) (sym e) ∙ off)))
  where
    on : (x == x) ≡ false → ⊥
    on h = ground (arith, h)
first_left s (u ∷ us) x vs (a, _) e n =
    if_rule (λ o. o ≡ some u) (is_at s.objects x)
      (λ on. absurd (a (same (ap (λ o. is_at o x) (sym e) ∙ on)))) (λ _. e)
  where
    same : (u == x) ≡ true → x ≡ u
    same h = ground (arith, h)

is_at_other : (o : Option ℕ) (x : ℕ) → ((l : ℕ) → o ≡ some l → x ≢ l) → is_at o x ≡ false
is_at_other none x f = refl
is_at_other (some l) x f = elim (Bool-cases (l == x)) [
  | inl e ↦ absurd (f l refl (ground (arith, e)))
  | inr e ↦ e
]

last_left :
    (s : ListBase) (us : List ℕ) (x : ℕ) (vs : List ℕ)
    → Apart x vs
    → s.last_object ≡ last_or none (us ++ x ∷ vs)
    → s.prev x ≡ last_or none us
    → (if is_at s.last_object x then s.prev x else s.last_object) ≡ last_or none (us ++ vs)
last_left s us x [] a e p =
    if_rule (λ o. o ≡ last_or none (us ++ [])) (is_at s.last_object x)
      (λ _. p ∙ sym (last_or-append none us []))
      (λ off. absurd (on (ap (λ o. is_at o x) (sym (e ∙ last_or-append none us (x ∷ []))) ∙ off)))
  where
    on : (x == x) ≡ false → ⊥
    on h = ground (arith, h)
last_left s us x (v ∷ vs) (a, b) e p =
    let same : s.last_object ≡ last_or (some v) vs = e ∙ last_or-append none us (x ∷ v ∷ vs) in
    if_rule (λ o. o ≡ last_or none (us ++ v ∷ vs)) (is_at s.last_object x)
      (λ on. absurd (
        off (
          sym on ∙ is_at_other s.last_object x (λ l f. last_or-Apart x v vs a b l (sym same ∙ f)))))
      (λ _. same ∙ sym (last_or-append none us (v ∷ vs)))
  where
    off : true ≡ false → ⊥
    off h = cc

-- What detach leaves of a list with `x` in it.
pub record Detached (s s' : ListBase) (us : List ℕ) (x : ℕ) (vs : List ℕ) : Type 0 where
  pub rest : Represents s' (us ++ vs)
  pub no_next : s'.next x ≡ none
  pub no_prev : s'.prev x ≡ none
  pub same_alive : s'.alive ≡ s.alive

prev_kept :
    (nx pv : ℕ → Option ℕ) (us : List ℕ) (x : ℕ) (vs : List ℕ)
    → Apart x vs
    → nx x ≡ head_or vs none
    → put_if (nx x) (pv x) pv x ≡ pv x
prev_kept nx pv us x [] a e = rw e refl
prev_kept nx pv us x (v ∷ vs) (a, b) e = rw e (put_other v x (pv x) pv (λ f. a (sym f)))

pub detach-Detached :
    (s : ListBase) (us : List ℕ) (x : ℕ) (vs : List ℕ)
    → Represents s (us ++ x ∷ vs)
    → Detached s (detach x s) us x vs
unfolding detach unlink set_prev set_next
detach-Detached s us x vs r =
    let d = around us x vs r.distinct in
    let (_, (p, n, _)) = Linked-parts s.next s.prev none none us (x ∷ vs) r.linked in
    let pv = put_if (s.next x) (s.prev x) s.prev in
    let kept = prev_kept s.next s.prev us x vs d.off_right n in
    let (live_us, (_, live_vs)) = All-parts (λ y. s.alive y ≡ true) us (x ∷ vs) r.living in
    record {
      rest = record {
        linked =
            subst
              (λ q.
                Linked (put x none (put_if q (s.next x) s.next))
                  (put x none (put_if (s.next x) (s.prev x) s.prev)) none (us ++ vs) none)
              (sym kept) (unlinked s.next s.prev us x vs (s.prev x) (s.next x) p n d r.linked);
        distinct = Distinct-join us vs d.left d.right d.apart;
        first = first_left s us x vs d.off_left r.first n;
        last = last_left s us x vs d.off_right r.last p;
        living = All-join (λ y. s.alive y ≡ true) us vs live_us live_vs;
      };
      no_next = put_same x none (put_if (pv x) (s.next x) s.next);
      no_prev = put_same x none pv;
      same_alive = refl;
    }

-- Del.
pub del-Represents :
    (s : ListBase) (us : List ℕ) (x : ℕ) (vs : List ℕ)
    → Represents s (us ++ x ∷ vs)
    → Represents (del x s) (us ++ vs)
unfolding del
del-Represents s us x vs r =
    let d = around us x vs r.distinct in
    let t = detach-Detached s us x vs r in
    let (live_us, live_vs) = All-parts (λ y. (detach x s).alive y ≡ true) us vs t.rest.living in
    record {
      linked = t.rest.linked;
      distinct = t.rest.distinct;
      first = t.rest.first;
      last = t.rest.last;
      living =
          All-join (λ y. put x false (detach x s).alive y ≡ true) us vs
            (live_put us d.off_left live_us) (live_put vs d.off_right live_vs);
    }
  where
    live_put :
        (xs : List ℕ)
        → Apart x xs
        → All (λ y. (detach x s).alive y ≡ true) xs
        → All (λ y. put x false (detach x s).alive y ≡ true) xs
    live_put [] a h = tt
    live_put (y ∷ ys) (a, b) (h, hs) =
        (put_other x y false (detach x s).alive a ∙ h, live_put ys b hs)
