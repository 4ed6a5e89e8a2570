-- ===== src/IndexFile/Place.antt =====
-- cIndexFile::Get(FileNumber, FileOffset), the search by file position.
use noad.Prelude.{
  ℕ, zero, suc, ◌+◌, ◌≤◌, ◌<◌, ◌≡◌, refl, arith, inl, inr, ◌⊎◌, true, false, Bool-cases, ◌∙◌, ap,
  subst, Option, none, some, List, [], ◌∷◌, get_elem?, length, ◌&&◌,
}
use mathlib.Core.Option.{some-injective}
use noad.Prelude.Int.{pos, pos_part, leb_ℤ, ltb_ℤ}
use noad.IndexFile.{
  Entry, Frame, IndexFile, is_before, find_place, get_place, noad_get, entries, entry_at, frame_of,
}

find_place-shift :
    (n : ℕ) (es : List Entry) (number offset i : ℕ)
    → find_place n es number offset i ≡ i + find_place n es number offset 0
unfolding find_place
find_place-shift zero es number offset i = omega arith
find_place-shift (suc n) [] number offset i = omega arith
find_place-shift (suc n) (e ∷ es) number offset i =
    ground
      (arith, find_place-shift n es number offset (i + 1), find_place-shift n es number offset 1)

-- The first of the entries that is not before a place, or their number.
pub record IsPlace (n : ℕ) (es : List Entry) (number offset r : ℕ) : Type 0 where
  pub bound : r ≤ n
  pub passed :
      (k : ℕ) (e : Entry) → k < r → get_elem? es k ≡ some e → is_before e number offset ≡ true
  pub stopped : (e : Entry) → r < n → get_elem? es r ≡ some e → is_before e number offset ≡ false

find_place-skip :
    (n : ℕ) (e : Entry) (es : List Entry) (number offset : ℕ)
    → is_before e number offset ≡ true
    → find_place (suc n) (e ∷ es) number offset 0 ≡ suc (find_place n es number offset 0)
unfolding find_place
find_place-skip n e es number offset h = rw h (find_place-shift n es number offset 1 ∙ omega arith)

IsPlace-cons :
    (n : ℕ) (e : Entry) (es : List Entry) (number offset r : ℕ)
    → is_before e number offset ≡ true
    → IsPlace n es number offset r
    → IsPlace (suc n) (e ∷ es) number offset (suc r)
IsPlace-cons n e es number offset r h p = record {
  bound = omega (arith, p.bound);
  passed = passed;
  stopped = λ f l z. p.stopped f (omega arith) z;
}
  where
    passed :
        (k : ℕ) (f : Entry)
        → k < suc r
        → get_elem? (e ∷ es) k ≡ some f
        → is_before f number offset ≡ true
    passed zero f l z = subst (λ g. is_before g number offset ≡ true) (some-injective _ _ z) h
    passed (suc k) f l z = p.passed k f (omega arith) z

IsPlace-here :
    (n : ℕ) (es : List Entry) (number offset : ℕ)
    → ((e : Entry) → 0 < n → get_elem? es 0 ≡ some e → is_before e number offset ≡ false)
    → IsPlace n es number offset 0
IsPlace-here n es number offset h = record {
  bound = omega arith;
  passed = λ k e l z. absurd (omega arith);
  stopped = h;
}

find_place-stop :
    (n : ℕ) (e : Entry) (es : List Entry) (number offset : ℕ)
    → is_before e number offset ≡ false
    → find_place (suc n) (e ∷ es) number offset 0 ≡ 0
unfolding find_place
find_place-stop n e es number offset h = rw h refl

find_place-IsPlace :
    (n : ℕ) (es : List Entry) (number offset : ℕ)
    → n ≤ length es
    → IsPlace n es number offset (find_place n es number offset 0)
find_place-IsPlace zero es number offset h =
    rw (find_place-none es number offset)
      (IsPlace-here 0 es number offset (λ e l z. absurd (omega arith)))
  where
    find_place-none : (es : List Entry) (number offset : ℕ) → find_place 0 es number offset 0 ≡ 0
    find_place-none es number offset = unfold find_place in refl
find_place-IsPlace (suc n) [] number offset h = absurd (omega arith)
find_place-IsPlace (suc n) (e ∷ es) number offset h =
    elim (Bool-cases (is_before e number offset)) [
      | inl b ↦ rw (find_place-skip n e es number offset b) (
          IsPlace-cons n e es number offset _ b
            (find_place-IsPlace n es number offset (omega arith)))
      | inr nb ↦ rw (find_place-stop n e es number offset nb) (
          IsPlace-here (suc n) (e ∷ es) number offset
            (λ f l z. subst (λ g. is_before g number offset ≡ false) (some-injective _ _ z) nb))
    ]

-- In an index that holds its first entries, Get(FileNumber, FileOffset) is the first of the
-- entries 0 to last - 1 that does not stand before the place, and last if all of them do.
pub get_place-IsPlace :
    (s : IndexFile) (es : List Entry) (number offset : ℕ)
    → s.index ≡ some es
    → pos_part s.last ≤ length es
    → (r : ℕ) × (get_place s number offset ≡ pos r) × IsPlace (pos_part s.last) es number offset r
unfolding get_place
get_place-IsPlace s es number offset e h = (
  find_place (pos_part s.last) es number offset 0,
  rw (e, get_place) refl,
  find_place-IsPlace (pos_part s.last) es number offset h,
)

-- The places of the entries ascend along the file.
abbrev pub IsAscending : List Entry → Type 0
IsAscending es =
    (k j : ℕ) (e f : Entry)
    → k < j
    → get_elem? es k ≡ some e
    → get_elem? es j ≡ some f
    → is_before e f.number f.offset ≡ true

is_before_self : (e : Entry) → is_before e e.number e.offset ≡ false
unfolding is_before
is_before_self e = ground arith

get_elem?-some : (es : List Entry) (k : ℕ) → k < length es → (e : Entry) × (get_elem? es k ≡ some e)
get_elem?-some [] k h = absurd (omega arith)
get_elem?-some (e ∷ es) zero h = (e, refl)
get_elem?-some (e ∷ es) (suc k) h = get_elem?-some es k (omega arith)

IsPlace-unique :
    (n : ℕ) (es : List Entry) (e : Entry) (i r : ℕ)
    → IsAscending es
    → get_elem? es i ≡ some e
    → i < n
    → n ≤ length es
    → IsPlace n es e.number e.offset r
    → r ≡ i
IsPlace-unique n es e i r asc z l m p = elim (compare_cases r i) [
  | inl less ↦
      let (f, at_r) = get_elem?-some es r (omega arith) in
      absurd (cc (asc r i f e less at_r z, p.stopped f (omega arith) at_r))
  | inr other ↦ elim other [
    | inl same ↦ same
    | inr more ↦ absurd (cc (p.passed i e more z, is_before_self e))
  ]
]
  where
    compare_cases : (a b : ℕ) → (a < b) ⊎ ((a ≡ b) ⊎ (b < a))
    compare_cases a b = omega arith

frame_of-inv :
    (o next : Option Entry) (f : Frame)
    → frame_of o next ≡ some f
    → (e : Entry) × (o ≡ some e) × (f.file_number ≡ e.number) × (f.file_offset ≡ e.offset)
unfolding frame_of
frame_of-inv none next f h = cc
frame_of-inv (some e) none f h = cc
frame_of-inv (some e) (some n) f h = (e, refl, ground arith, ground arith)

noad_get-inv :
    (s : IndexFile) (i : ℕ) (f : Frame)
    → noad_get s (pos i) ≡ some f
    → (e : Entry) × (get_elem? (entries s.index) i ≡ some e)
      × (f.file_number ≡ e.number)
      × (f.file_offset ≡ e.offset)
      × (i < pos_part s.last)
unfolding noad_get entry_at
noad_get-inv s i f h = elim (Bool-cases (leb_ℤ (pos 0) (pos i) && ltb_ℤ (pos i) s.last)) [
  | inr outside ↦ let z : none ≡ some f = rw outside at h in cc
  | inl within ↦
      let (e, at_i, n, o) = frame_of-inv _ _ f (rw within at h) in (e, at_i, n, o, ground arith)
]

-- In an index that holds its first entries, and whose places ascend, the search for the place
-- that Get gives for a frame finds that frame again.
pub get_place-noad_get :
    (s : IndexFile) (es : List Entry) (i : ℕ) (f : Frame)
    → s.index ≡ some es
    → pos_part s.last ≤ length es
    → IsAscending es
    → noad_get s (pos i) ≡ some f
    → get_place s f.file_number f.file_offset ≡ pos i
get_place-noad_get s es i f e h asc g =
    let (x, at_i, n, o, less) = noad_get-inv s i f g in
    let (r, found, place) = get_place-IsPlace s es x.number x.offset e h in
    let at_es : get_elem? es i ≡ some x = rw e at at_i in
    rw (n, o) (found ∙ ap pos (IsPlace-unique (pos_part s.last) es x i r asc at_es less h place))
