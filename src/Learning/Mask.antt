-- ===== src/Learning/Mask.antt =====
-- The mask of a corner, point by point: setDiversions and updateDiversions work in place.
use noad.Prelude.{
  ℕ, zero, suc, ◌+◌, ◌-◌, ◌*◌, ◌≤◌, ◌<◌, ◌≡◌, refl, ◌∙◌, ap, ap₂, arith, Bool, true, not, List, [],
  ◌∷◌, ◌&&◌, ◌||◌, ltb, if◌then◌else◌, inl, inr, ◌⊎◌, Bool-cases,
}
use noad.Learning.{
  Buffer, Settings, write, diversion, divert_row, divert_rows, set_diversions, updated, update_row,
  update_rows, update_diversions,
}

write_at : (f : Buffer) (i v j : ℕ) → i ≡ j → write f i v j ≡ v
write_at f i v j h = ground arith

write_other : (f : Buffer) (i v j : ℕ) → (j < i) ⊎ (i < j) → write f i v j ≡ f j
write_other f i v j h = ground arith

at_or_later : (i j : ℕ) → i ≤ j → (i ≡ j) ⊎ (i + 1 ≤ j)
at_or_later i j h = omega arith

-- The points before the row's start and behind its end.
abbrev Outside : ℕ → ℕ → ℕ → Type 0
Outside i n j = (j < i) ⊎ (i + n ≤ j)

later : (o n x j : ℕ) → Outside (o + x) (suc n) j → Outside (o + (x + 1)) n j
later o n x j h = omega arith

apart : (o n x j : ℕ) → Outside (o + x) (suc n) j → (j < o + x) ⊎ (o + x < j)
apart o n x j h = omega arith

update_row-out :
    (src : Buffer) (o n x j : ℕ) (m : Buffer × ℕ)
    → Outside (o + x) n j
    → (update_row src o n x m).0 j ≡ m.0 j
unfolding update_row
update_row-out src o zero x j (mask, count) h = refl
update_row-out src o (suc n) x j (mask, count) h =
    update_row-out src o n (x + 1) j _ (later o n x j h)
    ∙ write_other mask (o + x) _ j (apart o n x j h)

update_row-in :
    (src : Buffer) (o n x j : ℕ) (m : Buffer × ℕ)
    → o + x ≤ j
    → j < o + x + n
    → (update_row src o n x m).0 j ≡ updated (m.0 j) (src j) (src (j + 2))
unfolding update_row
update_row-in src o zero x j (mask, count) h k = absurd (omega arith)
update_row-in src o (suc n) x j (mask, count) h k = elim (at_or_later (o + x) j h) [
  | inl e ↦
      update_row-out src o n (x + 1) j _ (inl (omega arith))
      ∙ write_at mask (o + x) _ j e
      ∙ ap (λ i. updated (mask i) (src i) (src (i + 2))) e
  | inr l ↦
      update_row-in src o n (x + 1) j _ (omega arith) (omega arith)
      ∙ ap (λ v. updated v (src j) (src (j + 2))) (write_other mask (o + x) _ j (inr (omega arith)))
]

divert_row-out : (o n x j : ℕ) (f : Buffer) → Outside (o + x) n j → divert_row o n x f j ≡ f j
unfolding divert_row
divert_row-out o zero x j f h = refl
divert_row-out o (suc n) x j f h =
    divert_row-out o n (x + 1) j _ (later o n x j h) ∙ write_other f (o + x) _ j (apart o n x j h)

divert_row-in :
    (o n x j : ℕ) (f : Buffer)
    → o + x ≤ j
    → j < o + x + n
    → divert_row o n x f j ≡ diversion (f j) (f (j + 2))
unfolding divert_row
divert_row-in o zero x j f h k = absurd (omega arith)
divert_row-in o (suc n) x j f h k = elim (at_or_later (o + x) j h) [
  | inl e ↦
      divert_row-out o n (x + 1) j _ (inl (omega arith))
      ∙ write_at f (o + x) _ j e
      ∙ ap (λ i. diversion (f i) (f (i + 2))) e
  | inr l ↦
      divert_row-in o n (x + 1) j _ (omega arith) (omega arith)
      ∙ ap₂ diversion (write_other f (o + x) _ j (inr (omega arith)))
          (write_other f (o + x) _ (j + 2) (inr (omega arith)))
]

row_next : (y w : ℕ) → (y + 1) * w ≡ y * w + w
row_next y w = grind arith

row_mono : (y z w : ℕ) → y ≤ z → y * w ≤ z * w
row_mono y z w h = grind arith

-- A row that starts at z stands behind the rows before it.
row_before : (y z w x : ℕ) → y + 1 ≤ z → y * w + 0 + (w - 2) ≤ z * w + x
row_before y z w x h = omega (arith, row_next y w, row_mono (y + 1) z w h)

update_rows-before :
    (src : Buffer) (w n y j : ℕ) (m : Buffer × ℕ)
    → j < y * w
    → (update_rows src w n y m).0 j ≡ m.0 j
unfolding update_rows
update_rows-before src w zero y j m h = refl
update_rows-before src w (suc n) y j m h =
    update_rows-before src w n (y + 1) j _ (omega (arith, row_next y w))
    ∙ update_row-out src (y * w) (w - 2) 0 j m (inl (omega arith))

update_rows-in :
    (src : Buffer) (w n y x z : ℕ) (m : Buffer × ℕ)
    → y ≤ z
    → z < y + n
    → x < w - 2
    → let j = z * w + x in (update_rows src w n y m).0 j ≡ updated (m.0 j) (src j) (src (j + 2))
unfolding update_rows
update_rows-in src w zero y x z m h k l = absurd (omega arith)
update_rows-in src w (suc n) y x z m h k l = elim (at_or_later y z h) [
  | inl e ↦
      let same : y * w ≡ z * w = ap (λ i. i * w) e in
      update_rows-before src w n (y + 1) _ _ (omega (arith, row_next y w, same))
      ∙ update_row-in src (y * w) (w - 2) 0 _ m (omega (arith, same)) (omega (arith, same))
  | inr less ↦
      update_rows-in src w n (y + 1) x z _ less (omega arith) l
      ∙ ap (λ v. updated v (src (z * w + x)) (src (z * w + x + 2)))
          (update_row-out src (y * w) (w - 2) 0 _ m (inr (row_before y z w x less)))
]

divert_rows-before : (w n y j : ℕ) (f : Buffer) → j < y * w → divert_rows w n y f j ≡ f j
unfolding divert_rows
divert_rows-before w zero y j f h = refl
divert_rows-before w (suc n) y j f h =
    divert_rows-before w n (y + 1) j _ (omega (arith, row_next y w))
    ∙ divert_row-out (y * w) (w - 2) 0 j f (inl (omega arith))

divert_rows-in :
    (w n y x z : ℕ) (f : Buffer)
    → y ≤ z
    → z < y + n
    → x < w - 2
    → let j = z * w + x in divert_rows w n y f j ≡ diversion (f j) (f (j + 2))
unfolding divert_rows
divert_rows-in w zero y x z f h k l = absurd (omega arith)
divert_rows-in w (suc n) y x z f h k l = elim (at_or_later y z h) [
  | inl e ↦
      let same : y * w ≡ z * w = ap (λ i. i * w) e in
      divert_rows-before w n (y + 1) _ _ (omega (arith, row_next y w, same))
      ∙ divert_row-in (y * w) (w - 2) 0 _ f (omega (arith, same)) (omega (arith, same))
  | inr less ↦
      let out = λ (i : ℕ) (b : z * w + x ≤ i).
        divert_row-out (y * w) (w - 2) 0 i f (inr (omega (arith, row_before y z w x less, b))) in
      divert_rows-in w n (y + 1) x z _ less (omega arith) l
      ∙ ap₂ diversion (out _ (omega arith)) (out _ (omega arith))
]

-- updateDiversions with one accepted picture after the other.
unfoldable pub updates : Settings → List Buffer → Buffer → Buffer
updates s [] mask = mask
updates s (p ∷ ps) mask = updates s ps (update_diversions s mask p).0

-- The picture does not speak against brightness that rises, or falls, at a point.
abbrev pub may_rise : ℕ → Buffer → Bool
may_rise j p = not (ltb (p (j + 2)) 200 && ltb (p j) 200) || ltb (p j) (p (j + 2))

abbrev pub may_fall : ℕ → Buffer → Bool
may_fall j p = not (ltb (p (j + 2)) 200 && ltb (p j) 200) || ltb (p (j + 2)) (p j)

abbrev pub all {ℓ} : {A : Type ℓ} → (A → Bool) → List A → Bool
all t [] = true
all t (x ∷ xs) = t x && all t xs

kept : ℕ → ℕ → List Buffer → ℕ
kept j v [] = v
kept j v (p ∷ ps) = kept j (updated v (p j) (p (j + 2))) ps

kept-none : (j : ℕ) (ps : List Buffer) → kept j 0 ps ≡ 0
unfolding kept
kept-none j [] = refl
kept-none j (p ∷ ps) = ap (λ v. kept j v ps) (updated-none (p j) (p (j + 2))) ∙ kept-none j ps
  where
    updated-none : (a b : ℕ) → updated 0 a b ≡ 0
    updated-none a b = unfold updated in ground arith

updated-rising :
    (j : ℕ) (p : Buffer) → updated 1 (p j) (p (j + 2)) ≡ (if may_rise j p then 1 else 0)
unfolding updated
updated-rising j p = ground arith

updated-falling :
    (j : ℕ) (p : Buffer) → updated 2 (p j) (p (j + 2)) ≡ (if may_fall j p then 2 else 0)
unfolding updated
updated-falling j p = ground arith

-- A mask value that each picture keeps, or sets to 0.
kept-while :
    (j v : ℕ) (t : Buffer → Bool)
    → ((p : Buffer) → updated v (p j) (p (j + 2)) ≡ (if t p then v else 0))
    → (ps : List Buffer) → kept j v ps ≡ (if all t ps then v else 0)
unfolding kept
kept-while j v t e [] = refl
kept-while j v t e (p ∷ ps) = elim (Bool-cases (t p)) [
  | inl keeps ↦ rw (e p, keeps) (kept-while j v t e ps)
  | inr drops ↦ rw (e p, drops) (kept-none j ps)
]

module _ (s : Settings) (x y : ℕ) (in_x : x < s.size_x - 2) (in_y : y < s.size_y) where
  abbrev point : ℕ
  point = y * s.size_x + x

  updates-kept :
      (ps : List Buffer) (mask : Buffer) → updates s ps mask point ≡ kept point (mask point) ps
  unfolding updates kept update_diversions
  updates-kept [] mask = refl
  updates-kept (p ∷ ps) mask =
      updates-kept ps _
      ∙ ap (λ v. kept point v ps)
          (update_rows-in p s.size_x s.size_y 0 x y (mask, 0) (omega arith) (omega arith) in_x)

  kept-diversion :
      (a b : ℕ) (ps : List Buffer)
      → kept point (diversion a b) ps ≡ (
          if ltb a b && all (may_rise point) ps
          then 1
          else (if ltb b a && all (may_fall point) ps then 2 else 0))
  unfolding diversion
  kept-diversion a b ps = ground (
    arith,
    kept-none point ps,
    kept-while point 1 (may_rise point) (updated-rising point) ps,
    kept-while point 2 (may_fall point) (updated-falling point) ps,
  )

  -- At a point before the last two columns, setDiversions and updateDiversions with some pictures
  -- leave 1 exactly if the filtered brightness rises over two columns and no picture, as far as
  -- it is below 200 there, does not rise, 2 likewise if it falls, and otherwise 0.
  pub updates-eq :
      (f : Buffer) (ps : List Buffer)
      → updates s ps (set_diversions s f) point ≡ (
          if ltb (f point) (f (point + 2)) && all (may_rise point) ps
          then 1
          else (if ltb (f (point + 2)) (f point) && all (may_fall point) ps then 2 else 0))
  unfolding set_diversions
  updates-eq f ps =
      updates-kept ps (set_diversions s f)
      ∙ ap (λ v. kept point v ps)
          (divert_rows-in s.size_x s.size_y 0 x y f (omega arith) (omega arith) in_x)
      ∙ kept-diversion (f point) (f (point + 2)) ps
