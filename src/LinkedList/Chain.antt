-- ===== src/LinkedList/Chain.antt =====
-- The chain of objects that a list of addresses describes.
use noad.Prelude.{
  ℕ, ◌≡◌, ◌≢◌, refl, ◌∙◌, sym, ap, arith, true, Option, none, some, List, [], ◌∷◌, ◌++◌, ◌==◌, All,
  if_rule,
}
use noad.LinkedList.{ListBase, put, put_if}

abbrev pub head_or : List ℕ → Option ℕ → Option ℕ
head_or [] after = after
head_or (x ∷ xs) after = some x

abbrev pub last_or : Option ℕ → List ℕ → Option ℕ
last_or before [] = before
last_or before (x ∷ xs) = last_or (some x) xs

-- `nx` and `pv` go through the addresses, with what stands before and behind them.
abbrev pub Linked : (nx pv : ℕ → Option ℕ) → Option ℕ → List ℕ → Option ℕ → Type 0
Linked nx pv before [] after = Unit {0}
Linked nx pv before (x ∷ xs) after =
    (pv x ≡ before) × (nx x ≡ head_or xs after) × Linked nx pv (some x) xs after

-- No address stands twice.
abbrev pub Distinct : List ℕ → Type 0
Distinct [] = Unit {0}
Distinct (x ∷ xs) = All (λ y. x ≢ y) xs × Distinct xs

abbrev pub Apart : ℕ → List ℕ → Type 0
Apart x xs = All (λ y. x ≢ y) xs

-- An object list stands for the addresses.
pub record Represents (s : ListBase) (xs : List ℕ) : Type 0 where
  pub linked : Linked s.next s.prev none xs none
  pub distinct : Distinct xs
  pub first : s.objects ≡ head_or xs none
  pub last : s.last_object ≡ last_or none xs
  pub living : All (λ x. s.alive x ≡ true) xs

pub put_same : {A : Type 0} (p : ℕ) (v : A) (f : ℕ → A) → put p v f p ≡ v
put_same p v f = if_rule (λ r. r ≡ v) (p == p) (λ _. refl) (λ e. absurd (ground (arith, e)))

pub put_other : {A : Type 0} (p q : ℕ) (v : A) (f : ℕ → A) → p ≢ q → put p v f q ≡ f q
put_other p q v f n =
    if_rule (λ r. r ≡ f q) (q == p) (λ e. absurd (n (ground (arith, e)))) (λ _. refl)

pub head_or-append :
    (xs ys : List ℕ) (after : Option ℕ) → head_or (xs ++ ys) after ≡ head_or xs (head_or ys after)
head_or-append [] ys after = refl
head_or-append (x ∷ xs) ys after = refl

pub last_or-append :
    (before : Option ℕ) (xs ys : List ℕ)
    → last_or before (xs ++ ys) ≡ last_or (last_or before xs) ys
last_or-append before [] ys = refl
last_or-append before (x ∷ xs) ys = last_or-append (some x) xs ys

-- The two parts of a chain.
pub Linked-parts :
    (nx pv : ℕ → Option ℕ) (before after : Option ℕ) (xs ys : List ℕ)
    → Linked nx pv before (xs ++ ys) after
    → Linked nx pv before xs (head_or ys after) × Linked nx pv (last_or before xs) ys after
Linked-parts nx pv before after [] ys h = (tt, h)
Linked-parts nx pv before after (x ∷ xs) ys (p, n, h) =
    let (a, b) = Linked-parts nx pv (some x) after xs ys h in
    ((p, n ∙ head_or-append xs ys after, a), b)

pub Linked-join :
    (nx pv : ℕ → Option ℕ) (before after : Option ℕ) (xs ys : List ℕ)
    → Linked nx pv before xs (head_or ys after)
    → Linked nx pv (last_or before xs) ys after
    → Linked nx pv before (xs ++ ys) after
Linked-join nx pv before after [] ys a b = b
Linked-join nx pv before after (x ∷ xs) ys (p, n, a) b =
    (p, n ∙ sym (head_or-append xs ys after), Linked-join nx pv (some x) after xs ys a b)

-- Two stores that agree on the addresses.
pub Linked-agree :
    (nx pv nx' pv' : ℕ → Option ℕ) (before after : Option ℕ) (xs : List ℕ)
    → All (λ x. nx' x ≡ nx x) xs
    → All (λ x. pv' x ≡ pv x) xs
    → Linked nx pv before xs after
    → Linked nx' pv' before xs after
Linked-agree nx pv nx' pv' before after [] a b h = tt
Linked-agree nx pv nx' pv' before after (x ∷ xs) (a, all_a) (b, all_b) (p, n, h) =
    (b ∙ p, a ∙ n, Linked-agree nx pv nx' pv' (some x) after xs all_a all_b h)

pub put-Apart :
    {A : Type 0} (p : ℕ) (v : A) (f : ℕ → A) (xs : List ℕ)
    → Apart p xs
    → All (λ x. put p v f x ≡ f x) xs
put-Apart p v f [] h = tt
put-Apart p v f (x ∷ xs) (n, h) = (put_other p x v f n, put-Apart p v f xs h)

pub All-same : {A : Type 0} (f : ℕ → A) (xs : List ℕ) → All (λ x. f x ≡ f x) xs
All-same f [] = tt
All-same f (x ∷ xs) = (refl, All-same f xs)

-- Writes beside the chain.
pub Linked-put :
    (nx pv : ℕ → Option ℕ) (before after : Option ℕ) (xs : List ℕ) (p : ℕ) (v : Option ℕ)
    → Apart p xs
    → Linked nx pv before xs after
    → Linked (put p v nx) pv before xs after × Linked nx (put p v pv) before xs after
Linked-put nx pv before after xs p v n h = (
  Linked-agree nx pv (put p v nx) pv before after xs (put-Apart p v nx xs n) (All-same pv xs) h,
  Linked-agree nx pv nx (put p v pv) before after xs (All-same nx xs) (put-Apart p v pv xs n) h,
)

-- Apart from an address, if there is one.
abbrev pub ApartIf : Option ℕ → List ℕ → Type 0
ApartIf none xs = Unit {0}
ApartIf (some p) xs = Apart p xs

pub Linked-put_if :
    (nx pv : ℕ → Option ℕ) (before after : Option ℕ) (xs : List ℕ) (o v : Option ℕ)
    → ApartIf o xs
    → Linked nx pv before xs after
    → Linked (put_if o v nx) pv before xs after × Linked nx (put_if o v pv) before xs after
Linked-put_if nx pv before after xs none v n h = (h, h)
Linked-put_if nx pv before after xs (some p) v n h = Linked-put nx pv before after xs p v n h

-- A write to the first.
pub Linked-head :
    (nx pv : ℕ → Option ℕ) (before after v : Option ℕ) (xs : List ℕ)
    → Distinct xs
    → Linked nx pv before xs after
    → Linked nx (put_if (head_or xs none) v pv) v xs after
Linked-head nx pv before after v [] d h = tt
Linked-head nx pv before after v (x ∷ xs) (n, d) (p, e, h) =
    (put_same x v pv, e, (Linked-put nx pv (some x) after xs x v n h).1)

-- The last address.
pub last_or-Apart :
    (x y : ℕ) (xs : List ℕ) → x ≢ y → Apart x xs → (l : ℕ) → last_or (some y) xs ≡ some l → x ≢ l
last_or-Apart x y [] n h l e = λ same. n (same ∙ ap (λ o. elim o [ none ↦ 0 | some a ↦ a ]) (sym e))
last_or-Apart x y (z ∷ xs) n (m, h) l e = last_or-Apart x z xs m h l e

-- A write to the last.
Linked-last :
    (nx pv : ℕ → Option ℕ) (before after v : Option ℕ) (x : ℕ) (xs : List ℕ)
    → Distinct (x ∷ xs)
    → Linked nx pv before (x ∷ xs) after
    → Linked (put_if (last_or (some x) xs) v nx) pv before (x ∷ xs) v
Linked-last nx pv before after v x [] d (p, e, h) = (p, put_same x v nx, tt)
Linked-last nx pv before after v x (y ∷ xs) ((n, m), d) (p, e, h) = (
  p,
  other (last_or (some y) xs) (λ l e. last_or-Apart x y xs n m l e) ∙ e,
  Linked-last nx pv (some x) after v y xs d h,
)
  where
    other : (o : Option ℕ) → ((l : ℕ) → o ≡ some l → x ≢ l) → put_if o v nx x ≡ nx x
    other none f = refl
    other (some l) f = put_other l x v nx (λ same. f l refl (sym same))

pub Linked-end :
    (nx pv : ℕ → Option ℕ) (after v : Option ℕ) (xs : List ℕ)
    → Distinct xs
    → Linked nx pv none xs after
    → Linked (put_if (last_or none xs) v nx) pv none xs v
Linked-end nx pv after v [] d h = tt
Linked-end nx pv after v (x ∷ xs) d h = Linked-last nx pv none after v x xs d h

-- Distinct addresses in two parts.
pub Apart-parts : (x : ℕ) (us vs : List ℕ) → Apart x (us ++ vs) → Apart x us × Apart x vs
Apart-parts x [] vs h = (tt, h)
Apart-parts x (u ∷ us) vs (n, h) = let (a, b) = Apart-parts x us vs h in ((n, a), b)

pub Apart-join : (x : ℕ) (us vs : List ℕ) → Apart x us → Apart x vs → Apart x (us ++ vs)
Apart-join x [] vs a b = b
Apart-join x (u ∷ us) vs (n, a) b = (n, Apart-join x us vs a b)

pub Distinct-parts :
    (us vs : List ℕ) → Distinct (us ++ vs) → Distinct us × Distinct vs × All (λ u. Apart u vs) us
Distinct-parts [] vs h = (tt, h, tt)
Distinct-parts (u ∷ us) vs (n, h) =
    let (a, b, c) = Distinct-parts us vs h in
    let (n1, n2) = Apart-parts u us vs n in ((n1, a), b, (n2, c))

pub Distinct-join :
    (us vs : List ℕ) → Distinct us → Distinct vs → All (λ u. Apart u vs) us → Distinct (us ++ vs)
Distinct-join [] vs a b c = b
Distinct-join (u ∷ us) vs (n, a) b (m, c) = (Apart-join u us vs n m, Distinct-join us vs a b c)

Apart-each : (v : ℕ) (us vs : List ℕ) → All (λ u. Apart u (v ∷ vs)) us → Apart v us
Apart-each v [] vs h = tt
Apart-each v (u ∷ us) vs ((n, a), h) = ((λ e. n (sym e)), Apart-each v us vs h)

Apart-rest : (v : ℕ) (us vs : List ℕ) → All (λ u. Apart u (v ∷ vs)) us → All (λ u. Apart u vs) us
Apart-rest v [] vs h = tt
Apart-rest v (u ∷ us) vs ((n, a), h) = (a, Apart-rest v us vs h)

pub Apart-sym : (us vs : List ℕ) → All (λ u. Apart u vs) us → All (λ v. Apart v us) vs
Apart-sym us [] h = tt
Apart-sym us (v ∷ vs) h = (Apart-each v us vs h, Apart-sym us vs (Apart-rest v us vs h))

pub last_or-ApartIf :
    (o : Option ℕ) (us vs : List ℕ)
    → ApartIf o vs
    → All (λ u. Apart u vs) us
    → ApartIf (last_or o us) vs
last_or-ApartIf o [] vs a h = a
last_or-ApartIf o (u ∷ us) vs a (b, h) = last_or-ApartIf (some u) us vs b h

pub head_or-ApartIf : (us vs : List ℕ) → All (λ v. Apart v us) vs → ApartIf (head_or vs none) us
head_or-ApartIf us [] h = tt
head_or-ApartIf us (v ∷ vs) (a, h) = a

-- A predicate on two parts.
pub All-parts :
    {A : Type 0} (P : A → Type 0) (us vs : List A) → All P (us ++ vs) → All P us × All P vs
All-parts P [] vs h = (tt, h)
All-parts P (u ∷ us) vs (p, h) = let (a, b) = All-parts P us vs h in ((p, a), b)

pub All-join :
    {A : Type 0} (P : A → Type 0) (us vs : List A) → All P us → All P vs → All P (us ++ vs)
All-join P [] vs a b = b
All-join P (u ∷ us) vs (p, a) b = (p, All-join P us vs a b)
