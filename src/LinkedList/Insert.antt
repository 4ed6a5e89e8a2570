-- ===== src/LinkedList/Insert.antt =====
-- An object joins the list: Add, and the last part of Move.
use noad.Prelude.{
  ℕ, ◌≡◌, ◌≢◌, refl, ◌∙◌, sym, subst, true, Option, none, some, List, [], ◌∷◌, ◌++◌, All,
}
use noad.LinkedList.{ListBase, put, put_if, append, link_before, set_first}
use noad.LinkedList.Chain.{
  head_or, last_or, Linked, Distinct, Apart, ApartIf, Represents, put_same, put_other,
  last_or-append, Linked-parts, Linked-join, Linked-put, Linked-head, Linked-end, Distinct-join,
  Apart-sym, last_or-ApartIf, All-parts, All-join, last_or-Apart,
}
use noad.LinkedList.Detach.{Around}

-- The object that joins, beside a list of two parts.
pub record Beside (s : ListBase) (us : List ℕ) (f : ℕ) (vs : List ℕ) : Type 0 where
  pub chain : Represents s (us ++ vs)
  pub spread : Around us f vs
  pub no_next : s.next f ≡ none
  pub no_prev : s.prev f ≡ none
  pub alive_too : s.alive f ≡ true

Around-Distinct : (us : List ℕ) (f : ℕ) (vs : List ℕ) → Around us f vs → Distinct (us ++ f ∷ vs)
Around-Distinct us f vs d =
    Distinct-join us (f ∷ vs) d.left (d.off_right, d.right) (each us d.off_left d.apart)
  where
    each : (xs : List ℕ) → Apart f xs → All (λ x. Apart x vs) xs → All (λ x. Apart x (f ∷ vs)) xs
    each [] a h = tt
    each (x ∷ xs) (n, a) (p, h) = (((λ e. n (sym e)), p), each xs a h)

inserted :
    (s s' : ListBase) (us : List ℕ) (f : ℕ) (vs : List ℕ)
    → Beside s us f vs
    → Linked s'.next s'.prev none us (some f)
    → s'.prev f ≡ last_or none us
    → s'.next f ≡ head_or vs none
    → Linked s'.next s'.prev (some f) vs none
    → s'.objects ≡ head_or (us ++ f ∷ vs) none
    → s'.last_object ≡ last_or none (us ++ f ∷ vs)
    → s'.alive ≡ s.alive
    → Represents s' (us ++ f ∷ vs)
inserted s s' us f vs b left p n right first last same =
    let (live_us, live_vs) = All-parts (λ x. s.alive x ≡ true) us vs b.chain.living in
    record {
      linked = Linked-join s'.next s'.prev none none us (f ∷ vs) left (p, n, right);
      distinct = Around-Distinct us f vs b.spread;
      first = first;
      last = last;
      living =
          subst (λ a. All (λ x. a x ≡ true) (us ++ f ∷ vs)) (sym same)
            (All-join (λ x. s.alive x ≡ true) us (f ∷ vs) live_us (b.alive_too, live_vs));
    }

pub last_some : (u : ℕ) (us : List ℕ) → last_or (some u) us ≢ none
last_some u [] e = cc
last_some u (v ∷ us) e = last_some v us e

first_after :
    (us : List ℕ) (f l : ℕ) (vs : List ℕ)
    → last_or none us ≡ some l
    → head_or (us ++ vs) none ≡ head_or (us ++ f ∷ vs) none
first_after [] f l vs e = absurd cc
first_after (u ∷ us) f l vs e = refl

first_alone :
    (us : List ℕ) (f : ℕ) (vs : List ℕ)
    → last_or none us ≡ none
    → some f ≡ head_or (us ++ f ∷ vs) none
first_alone [] f vs e = refl
first_alone (u ∷ us) f vs e = absurd (last_some u us e)

last_after :
    (us : List ℕ) (f t : ℕ) (vs : List ℕ)
    → last_or none (us ++ t ∷ vs) ≡ last_or none (us ++ f ∷ t ∷ vs)
last_after us f t vs = last_or-append none us (t ∷ vs) ∙ sym (last_or-append none us (f ∷ t ∷ vs))

last_or-off : (us : List ℕ) (f l : ℕ) → Apart f us → last_or none us ≡ some l → f ≢ l
last_or-off [] f l a e = absurd cc
last_or-off (u ∷ us) f l (n, a) e = last_or-Apart f u us n a l e

pub set_first_first :
    (f : ℕ) (s : ListBase) → s.prev f ≡ none → set_first f s ≡ record s { objects = some f }
unfolding set_first
set_first_first f s e = rw (set_first, e) refl

pub set_first_later : (f p : ℕ) (s : ListBase) → s.prev f ≡ some p → set_first f s ≡ s
unfolding set_first
set_first_later f p s e = rw (set_first, e) refl

module _ (s : ListBase) (us : List ℕ) (f : ℕ) where
  -- The first part, with its end written over.
  left_to :
      (vs : List ℕ) (o : Option ℕ)
      → Beside s us f vs
      → last_or none us ≡ o
      → Linked (put_if o (some f) s.next) s.prev none us (some f)
  left_to vs o b e =
      let (left, _) = Linked-parts s.next s.prev none none us vs b.chain.linked in
      subst (λ o. Linked (put_if o (some f) s.next) s.prev none us (some f)) e
        (Linked-end s.next s.prev (head_or vs none) (some f) us b.spread.left left)

  -- At the end.
  join_end :
      (o : Option ℕ)
      → Beside s us f []
      → last_or none us ≡ o
      → Represents
          (set_first f
            (record (elim o [ none ↦ s | some l ↦ append l f s ]) { last_object = some f }))
          (us ++ f ∷ [])
  unfolding append
  join_end none b e = rw (set_first_first f (record s { last_object = some f }) b.no_prev) (
      inserted s (record s { last_object = some f; objects = some f }) us f [] b
        (left_to [] none b e) (b.no_prev ∙ sym e) b.no_next tt (first_alone us f [] e)
        (sym (last_or-append none us (f ∷ []))) refl)
  join_end (some l) b e =
      rw
        (set_first_later f l (record (append l f s) { last_object = some f })
          (put_same f (some l) s.prev))
        (inserted s (record (append l f s) { last_object = some f }) us f [] b
          (Linked-put (put l (some f) s.next) s.prev none (some f) us f (some l) b.spread.off_left
            (left_to [] (some l) b e)).1
          (put_same f (some l) s.prev ∙ sym e)
          (put_other l f (some f) s.next (λ same. last_or-off us f l b.spread.off_left e (sym same))
            ∙ b.no_next)
          tt (b.chain.first ∙ first_after us f l [] e) (sym (last_or-append none us (f ∷ []))) refl)

  -- The second part, with its start written over.
  right_from :
      (t : ℕ) (ws : List ℕ) (nx pv : ℕ → Option ℕ) (v : Option ℕ)
      → Beside s us f (t ∷ ws)
      → Linked nx pv v (t ∷ ws) none
      → Linked (put f (some t) nx) (put t (some f) pv) (some f) (t ∷ ws) none
  right_from t ws nx pv v b h =
      (Linked-put nx (put t (some f) pv) (some f) none (t ∷ ws) f (some t) b.spread.off_right
        (Linked-head nx pv v none (some f) (t ∷ ws) b.spread.right h)).0

  left_kept :
      (t : ℕ) (ws : List ℕ) (nx pv : ℕ → Option ℕ)
      → Beside s us f (t ∷ ws)
      → Linked nx pv none us (some f)
      → Linked (put f (some t) nx) (put t (some f) pv) none us (some f)
  left_kept t ws nx pv b h =
      let (off, _) = Apart-sym us (t ∷ ws) b.spread.apart in
      (Linked-put (put f (some t) nx) pv none (some f) us t (some f) off
        (Linked-put nx pv none (some f) us f (some t) b.spread.off_left h).0).1

  -- Before `t`.
  join_before :
      (t : ℕ) (ws : List ℕ) (o : Option ℕ)
      → Beside s us f (t ∷ ws)
      → last_or none us ≡ o
      → Represents
          (set_first f (append f t (elim o [ none ↦ s | some p ↦ append p f s ])))
          (us ++ f ∷ t ∷ ws)
  unfolding append
  join_before t ws none b e =
      let (n, _) = b.spread.off_right in
      let (_, right) = Linked-parts s.next s.prev none none us (t ∷ ws) b.chain.linked in
      let at_f = put_other t f (some f) s.prev (λ same. n (sym same)) ∙ b.no_prev in
      rw (set_first_first f (append f t s) at_f) (
        inserted s (record (append f t s) { objects = some f }) us f (t ∷ ws) b
          (left_kept t ws s.next s.prev b (left_to (t ∷ ws) none b e)) (at_f ∙ sym e)
          (put_same f (some t) s.next) (right_from t ws s.next s.prev (last_or none us) b right)
          (first_alone us f (t ∷ ws) e) (b.chain.last ∙ last_after us f t ws) refl)
  join_before t ws (some p) b e =
      let (n, _) = b.spread.off_right in
      let (_, right) = Linked-parts s.next s.prev none none us (t ∷ ws) b.chain.linked in
      let off_p : ApartIf (some p) (t ∷ ws) =
        subst (λ o. ApartIf o (t ∷ ws)) e (last_or-ApartIf none us (t ∷ ws) tt b.spread.apart) in
      let nx = put p (some f) s.next in
      let pv = put f (some p) s.prev in
      let at_f = put_other t f (some f) pv (λ same. n (sym same)) ∙ put_same f (some p) s.prev in
      rw (set_first_later f p (append f t (append p f s)) at_f) (
        inserted s (append f t (append p f s)) us f (t ∷ ws) b
          (left_kept t ws nx pv b
            (Linked-put nx s.prev none (some f) us f (some p) b.spread.off_left
              (left_to (t ∷ ws) (some p) b e)).1)
          (at_f ∙ sym e) (put_same f (some t) nx)
          (right_from t ws nx pv (last_or none us) b
            (Linked-put nx s.prev (last_or none us) none (t ∷ ws) f (some p) b.spread.off_right
              (Linked-put s.next s.prev (last_or none us) none (t ∷ ws) p (some f) off_p
                right).0).1)
          (b.chain.first ∙ first_after us f p (t ∷ ws) e) (b.chain.last ∙ last_after us f t ws)
          refl)

-- Behind Unlink in Move.
pub link_before-Represents :
    (s : ListBase) (us : List ℕ) (f : ℕ) (vs : List ℕ)
    → Beside s us f vs
    → Represents (set_first f (link_before f (head_or vs none) s)) (us ++ f ∷ vs)
unfolding link_before
link_before-Represents s us f [] b =
    subst
      (λ o.
        Represents
          (set_first f
            (record (elim o [ none ↦ s | some l ↦ append l f s ]) { last_object = some f }))
          (us ++ f ∷ []))
      (sym (b.chain.last ∙ last_or-append none us [])) (join_end s us f (last_or none us) b refl)
link_before-Represents s us f (t ∷ ws) b =
    let (_, (p, _, _)) = Linked-parts s.next s.prev none none us (t ∷ ws) b.chain.linked in
    subst
      (λ o.
        Represents (set_first f (append f t (elim o [ none ↦ s | some p ↦ append p f s ])))
          (us ++ f ∷ t ∷ ws))
      (sym p) (join_before s us f t ws (last_or none us) b refl)
