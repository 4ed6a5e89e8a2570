-- ===== src/LinkedList/Tests.antt =====
-- The theorems on the linked list, for a list that is built from nothing.
use noad.Prelude.{
  ◌≡◌, refl, arith, false, true, if◌then◌else◌, ◌==◌, ℕ, none, some, Option, ltb, List, [], ◌∷◌,
}
use noad.Prelude.Int.{pos}
use noad.LinkedList.{ListBase, move, get, sort_objects}
use noad.LinkedList.Chain.{Represents}
use noad.LinkedList.Moves.{move_self-Represents}
use noad.LinkedList.Refine.{
  Command, added, deleted, moved, execute_all, Steps, done, then_step, add_last, delete_at, move_on,
  move_back, execute_all-Represents,
}

abbrev nothing : ListBase
nothing = record {
  prev = λ p. none;
  next = λ p. none;
  alive = λ p. false;
  objects = none;
  last_object = none;
}

nothing-Represents : Represents nothing []
nothing-Represents = record { linked = tt; distinct = tt; first = refl; last = refl; living = tt }

abbrev commands : List Command
commands = added 5 ∷ added 6 ∷ added 7 ∷ moved 5 7 ∷ moved 5 6 ∷ deleted 6 ∷ []

abbrev steps : Steps commands [] (5 ∷ 7 ∷ [])
steps = then_step _ _ _ _ _ (add_last 5 [] tt) (
    then_step _ _ _ _ _ (add_last 6 (5 ∷ []) (λ e. omega arith, tt)) (
      then_step _ _ _ _ _ (add_last 7 (5 ∷ 6 ∷ []) (λ e. omega arith, (λ e. omega arith, tt))) (
        then_step _ _ _ _ _ (move_on [] 5 (6 ∷ []) 7 []) (
          then_step _ _ _ _ _ (move_back [] 5 (7 ∷ []) 6 [])
            (then_step _ _ _ _ _ (delete_at (5 ∷ []) 6 (7 ∷ [])) (done _))))))

execute_all-Represents_example :
    (s : ListBase) × (execute_all 6 commands nothing ≡ some s) × Represents s (5 ∷ 7 ∷ [])
execute_all-Represents_example =
    execute_all-Represents 6 commands [] (5 ∷ 7 ∷ []) nothing steps nothing-Represents (omega arith)

abbrev pair : ListBase
pair = record {
  prev = λ p. if p == 4 then some 2 else none;
  next = λ p. if p == 2 then some 4 else none;
  alive = λ p. true;
  objects = some 2;
  last_object = some 4;
}

pair-Represents : Represents pair (2 ∷ 4 ∷ [])
pair-Represents = record {
  linked = (refl, refl, (refl, refl, tt));
  distinct = ((λ e. omega arith, tt), (tt, tt));
  first = refl;
  last = refl;
  living = (refl, (refl, tt));
}

move_self-Represents_example :
    (s : ListBase) × (move 1 (some 4) (some 4) pair ≡ some s)
    × Represents s (2 ∷ [])
    × (s.next 4 ≡ some 4)
move_self-Represents_example =
    move_self-Represents 1 pair (2 ∷ []) 4 [] (omega arith) pair-Represents

-- Sort of three objects, the largest first.
abbrev three : Option ListBase
three = execute_all 3 (added 1 ∷ added 2 ∷ added 3 ∷ []) nothing

abbrev in_order : ListBase → List (Option ℕ)
in_order s = get (pos 0) s ∷ get (pos 1) s ∷ get (pos 2) s ∷ get (pos 3) s ∷ []

abbrev sorted_three : List (Option ℕ)
unfolding execute_all sort_objects get
sorted_three = elim three [
  | none ↦ []
  | some s ↦ elim (sort_objects 4 4 (λ a b. ltb b a) s) [ none ↦ [] | some t ↦ in_order t ]
]

sort_objects-three : sorted_three ≡ some 3 ∷ some 2 ∷ some 1 ∷ none ∷ []
unfolding sorted_three
sort_objects-three = refl
