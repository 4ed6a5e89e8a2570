-- ===== src/LinkedList/Refine.antt =====
-- The linked list against a list of addresses: every operation is a step on that list.
use noad.Prelude.{
  ℕ, ◌+◌, ◌≤◌, ◌≡◌, refl, ◌∙◌, sym, subst, arith, Option, none, some, List, [], ◌∷◌, ◌++◌, length,
  length-append,
}
use noad.LinkedList.{ListBase, new_object, add, del, move, clear}
use noad.LinkedList.Chain.{Apart, Represents}
use noad.LinkedList.Detach.{del-Represents}
use noad.LinkedList.Insert.{link_before-Represents}
use noad.LinkedList.Walks.{clear-Cleared}
use noad.LinkedList.Moves.{move_on-Represents, move_back-Represents, new_object-Beside, add-eq}

-- A new object is constructed and added; the others are in the list.
pub data Command : Type 0 where
  added : ℕ → Command
  deleted : ℕ → Command
  moved : ℕ → ℕ → Command
  cleared : Command

unfoldable pub execute : ℕ → Command → ListBase → Option ListBase
unfolding add new_object del move clear
execute n (added x) s = some (add x (new_object x s))
execute n (deleted x) s = some (del x s)
execute n (moved f t) s = move n (some f) (some t) s
execute n cleared s = clear n s

unfoldable pub execute_all : ℕ → List Command → ListBase → Option ListBase
unfolding execute
execute_all n [] s = some s
execute_all n (c ∷ cs) s = elim (execute n c s) [ none ↦ none | some t ↦ execute_all n cs t ]

-- What a command is to do to the list: Move puts an object behind one that stands further on, and
-- before one that stands further back.
pub data Step : Command → List ℕ → List ℕ → Type 0 where
  add_last : (x : ℕ) (xs : List ℕ) → Apart x xs → Step (added x) xs (xs ++ x ∷ [])
  delete_at : (us : List ℕ) (x : ℕ) (vs : List ℕ) → Step (deleted x) (us ++ x ∷ vs) (us ++ vs)
  move_on :
      (us : List ℕ) (f : ℕ) (ws : List ℕ) (t : ℕ) (vs : List ℕ)
      → Step (moved f t) (us ++ f ∷ ws ++ t ∷ vs) (us ++ ws ++ t ∷ f ∷ vs)
  move_back :
      (us : List ℕ) (f : ℕ) (ws : List ℕ) (t : ℕ) (vs : List ℕ)
      → Step (moved f t) (us ++ t ∷ ws ++ f ∷ vs) (us ++ f ∷ t ∷ ws ++ vs)
  clear_all : (xs : List ℕ) → Step cleared xs []

pub data Steps : List Command → List ℕ → List ℕ → Type 0 where
  done : (xs : List ℕ) → Steps [] xs xs
  then_step :
      (c : Command) (cs : List Command) (xs ys zs : List ℕ)
      → Step c xs ys
      → Steps cs ys zs
      → Steps (c ∷ cs) xs zs

-- An operation.
pub execute-Represents :
    (n : ℕ) (c : Command) (xs ys : List ℕ) (s : ListBase)
    → Step c xs ys
    → Represents s xs
    → length xs ≤ n
    → (s' : ListBase) × (execute n c s ≡ some s') × Represents s' ys
unfolding execute
execute-Represents n _ _ _ s (add_last x xs a) r h =
    let b = new_object-Beside s x xs r a in
    (
      add x (new_object x s),
      refl,
      subst (λ t. Represents t (xs ++ x ∷ [])) (sym (add-eq x (new_object x s) b.no_prev))
          (link_before-Represents (new_object x s) xs x [] b),
    )
execute-Represents n _ _ _ s (delete_at us x vs) r h = (del x s, refl, del-Represents s us x vs r)
execute-Represents n _ _ _ s (move_on us f ws t vs) r h = move_on-Represents n s us f ws t vs h r
execute-Represents n _ _ _ s (move_back us f ws t vs) r h =
    move_back-Represents n s us f ws t vs h r
execute-Represents n _ _ _ s (clear_all xs) r h =
    let (t, go, c) = clear-Cleared n s xs h r in (t, go, c.empty)

Step-length : (c : Command) (xs ys : List ℕ) → Step c xs ys → length ys ≤ length xs + 1
Step-length _ _ _ (add_last x xs a) = omega (arith, length-append xs (x ∷ []))
Step-length _ _ _ (delete_at us x vs) =
    omega (arith, length-append us (x ∷ vs), length-append us vs)
Step-length _ _ _ (move_on us f ws t vs) = omega (
  arith,
  length-append (us ++ f ∷ ws) (t ∷ vs),
  length-append us (f ∷ ws),
  length-append (us ++ ws) (t ∷ f ∷ vs),
  length-append us ws,
)
Step-length _ _ _ (move_back us f ws t vs) = omega (
  arith,
  length-append (us ++ t ∷ ws) (f ∷ vs),
  length-append us (t ∷ ws),
  length-append (us ++ f ∷ t ∷ ws) vs,
  length-append us (f ∷ t ∷ ws),
)
Step-length _ _ _ (clear_all xs) = omega arith

execute_all-cons :
    (n : ℕ) (c : Command) (cs : List Command) (s t : ListBase)
    → execute n c s ≡ some t
    → execute_all n (c ∷ cs) s ≡ execute_all n cs t
unfolding execute_all
execute_all-cons n c cs s t e = rw (execute_all, e) refl

-- From an object list that stands for a list of addresses, adding new objects, deleting, moving
-- one object to the place of another one, and clearing do with the pointers what they do to that
-- list, and end, with rounds for all the objects that can be there.
pub execute_all-Represents :
    (n : ℕ) (cs : List Command) (xs ys : List ℕ) (s : ListBase)
    → Steps cs xs ys
    → Represents s xs
    → length xs + length cs ≤ n
    → (s' : ListBase) × (execute_all n cs s ≡ some s') × Represents s' ys
unfolding execute_all
execute_all-Represents n _ _ _ s (done xs) r h = (s, refl, r)
execute_all-Represents n _ _ _ s (then_step c cs xs ys zs p ps) r h =
    let (t, go, r') = execute-Represents n c xs ys s p r (omega (arith, h)) in
    let (u, go', r'') =
      execute_all-Represents n cs ys zs t ps r' (omega (arith, h, Step-length c xs ys p)) in
    (u, execute_all-cons n c cs s t go ∙ go', r'')
