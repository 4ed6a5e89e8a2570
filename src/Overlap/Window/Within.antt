-- ===== src/Overlap/Window/Within.antt =====
-- The reading of checkMarkPair ends, within its arrays and between its marks.
use noad.Prelude.{
  ℕ, zero, suc, ◌+◌, ◌≤◌, ◌<◌, ◌≡◌, refl, ◌∙◌, sym, subst, ap, arith, true, false, Option, none,
  some, List, [], ◌∷◌, length, if_rule, Option-cases, inl, inr,
}
use noad.Prelude.Int.{
  ℤ, pos, negsuc, ◌+ℤ◌, ◌-ℤ◌, ltb_ℤ, leb_ℤ, ◌≤ℤ◌, ◌<ℤ◌, pos_part, +ℤ_parts, -ℤ_parts, eq_of_parts,
}
use noad.IndexFile.{IndexFile, Entry, next_i_frame, noad_get}
use noad.IndexFile.NextFrame.{next_i_frame_ends}
use noad.Search.LogoChange.{int_of, independence, non_negative, i_frame_for}
use noad.Marks.{Mark, get_next, get_prev}
use noad.Overlap.{PicInfo, Pictures}
use noad.Overlap.Window.{
  Reader, read_loop, first_frame, get_pic_info, read_before, read_after, before_onmark, not_below,
  not_negative, limited, frames_before, frames_after, array_of, read_first, read_second,
  read_pictures,
}

-- Consecutive frames before the last one.
abbrev pub Consecutive : ℤ → ℤ → List PicInfo → Type 0
Consecutive last cur [] = Unit {0}
Consecutive last cur (e ∷ es) =
    (e.framenum ≡ cur) × (cur <ℤ last) × Consecutive last (cur +ℤ pos 1) es

-- The entries of an array have the frames from one on.
abbrev pub FramesFrom : ℤ → (ℕ → PicInfo) → ℕ → Type 0
FramesFrom last a n =
    (cur : ℤ) × ((i : ℕ) → i < n → ((a i).framenum ≡ cur +ℤ pos i) × (cur +ℤ pos i <ℤ last))

array_of-FramesFrom :
    (last : ℤ) (es : List PicInfo) (unset : ℕ → PicInfo) (cur : ℤ)
    → Consecutive last cur es
    → (i : ℕ) → i < length es
    → ((array_of unset es i).framenum ≡ cur +ℤ pos i) × (cur +ℤ pos i <ℤ last)
array_of-FramesFrom last [] unset cur c i h = absurd (omega arith)
array_of-FramesFrom last (e ∷ es) unset cur (at, below, rest) zero h =
    let z : cur +ℤ pos 0 ≡ cur = eq_of_parts _ _ (omega (arith, +ℤ_parts cur (pos 0))) in
    (at ∙ sym z, omega (arith, below, +ℤ_parts cur (pos 0)))
array_of-FramesFrom last (e ∷ es) unset cur (at, below, rest) (suc i) h =
    let (f, l) =
      array_of-FramesFrom last es (λ j. unset (suc j)) (cur +ℤ pos 1) rest i (omega arith) in
    let z : cur +ℤ pos 1 +ℤ pos i ≡ cur +ℤ pos (suc i) = eq_of_parts _ _ (
      omega (
        arith,
        +ℤ_parts cur (pos 1),
        +ℤ_parts (cur +ℤ pos 1) (pos i),
        +ℤ_parts cur (pos (suc i)),
      )) in
    (f ∙ z, subst (λ c. c <ℤ last) z l)

abbrev pub NotBefore : Option Mark → ℤ → Type 0
NotBefore none i = Unit {0}
NotBefore (some m) i = m.position ≤ℤ i

abbrev pub EndsBefore : Option Mark → ℕ → ℤ → Type 0
EndsBefore none gap i = Unit {0}
EndsBefore (some m) gap i = i +ℤ pos gap ≤ℤ m.position

limited-le :
    (size gap cut : ℕ) (next : Option Mark) (start : ℤ)
    → gap ≤ cut
    → (limited size gap cut next start ≤ℤ pos size)
      × EndsBefore next gap (start +ℤ limited size gap cut next start)
unfolding limited
limited-le size gap cut none start h = (omega arith, tt)
limited-le size gap cut (some m) start h =
    if_rule (λ c. (c ≤ℤ pos size) × (start +ℤ c +ℤ pos gap ≤ℤ m.position))
      (ltb_ℤ (m.position -ℤ pos gap) (start +ℤ pos size)) (λ near. within near)
      (λ far. (omega arith, beyond far))
  where
    within :
        ltb_ℤ (m.position -ℤ pos gap) (start +ℤ pos size) ≡ true
        → (m.position -ℤ start -ℤ pos cut ≤ℤ pos size)
          × (start +ℤ (m.position -ℤ start -ℤ pos cut) +ℤ pos gap ≤ℤ m.position)
    within e =
        let l : m.position -ℤ pos gap <ℤ start +ℤ pos size = ground (arith, e) in
        let c = m.position -ℤ start -ℤ pos cut in
        (
          omega (
            arith,
            h,
            l,
            -ℤ_parts m.position (pos gap),
            +ℤ_parts start (pos size),
            -ℤ_parts m.position start,
            -ℤ_parts (m.position -ℤ start) (pos cut),
          ),
          omega (
            arith,
            h,
            +ℤ_parts (start +ℤ c) (pos gap),
            +ℤ_parts start c,
            -ℤ_parts m.position start,
            -ℤ_parts (m.position -ℤ start) (pos cut),
          ),
        )

    beyond :
        ltb_ℤ (m.position -ℤ pos gap) (start +ℤ pos size) ≡ false
        → start +ℤ pos size +ℤ pos gap ≤ℤ m.position
    beyond e =
        let l : start +ℤ pos size ≤ℤ m.position -ℤ pos gap = ground (arith, e) in
        omega (arith, l, -ℤ_parts m.position (pos gap), +ℤ_parts (start +ℤ pos size) (pos gap))

not_below-NotBefore :
    (prev : Option Mark) (i : ℤ) → NotBefore prev (not_negative (not_below prev i))
not_below-NotBefore none i = tt
not_below-NotBefore (some k) i =
    let low : k.position ≤ℤ not_below (some k) i =
      if_rule (λ j. k.position ≤ℤ j) (ltb_ℤ i k.position) (λ _. omega arith)
        (λ off. ground (arith, off)) in
    if_rule (λ j. k.position ≤ℤ j) (ltb_ℤ (not_below (some k) i) (pos 0))
      (λ on. ground (arith, on, low)) (λ _. low)

not_negative-le : (i : ℤ) → pos 0 ≤ℤ not_negative i
not_negative-le i =
    if_rule (λ j. pos 0 ≤ℤ j) (ltb_ℤ i (pos 0)) (λ _. omega arith) (λ off. ground (arith, off))

-- The frames that checkMarkPair asks for before a mark do not begin before 0 or before the mark
-- in front, are at most PICS_READ_BEFORE, and end at the next mark or before it; those around the
-- second mark do not begin before the end of the first ones, are at most PICS_READ_AFTER, and end
-- 25 frames before the mark behind or earlier.
pub frames-Between :
    (rate : ℕ) (prev : Option Mark) (m : Mark) (next : Option Mark) (m2 : Mark) (last : Option Mark)
    → let w = frames_before rate prev m next in
      let v = frames_after rate (w.start +ℤ w.count) m2 last in
      ((pos 0 ≤ℤ w.start) × NotBefore prev w.start)
      × ((w.count ≤ℤ pos (read_before rate)) × EndsBefore next 0 (w.start +ℤ w.count))
      × (w.start +ℤ w.count ≤ℤ v.start)
      × ((v.count ≤ℤ pos (read_after rate)) × EndsBefore last 25 (v.start +ℤ v.count))
unfolding frames_before frames_after
frames-Between rate prev m next m2 last =
    let w = frames_before rate prev m next in
    let stop = w.start +ℤ w.count in
    let v = frames_after rate stop m2 last in
    (
      (
        not_negative-le (not_below prev (m.position -ℤ pos (read_before rate + 15))),
        not_below-NotBefore prev _,
      ),
      limited-le (read_before rate) 0 20 next w.start (omega arith),
      if_rule (λ i. stop ≤ℤ i) (ltb_ℤ (m2.position -ℤ pos (before_onmark rate)) stop)
          (λ _. omega (arith, +ℤ_parts stop (pos 20))) (λ off. ground (arith, off)),
      limited-le (read_after rate) 25 25 last v.start (omega arith),
    )

pos_part_le : (c : ℤ) (k : ℕ) → c ≤ℤ pos k → pos_part c ≤ k
pos_part_le (pos c) k h = omega arith
pos_part_le (negsuc c) k h = omega arith

module _ {D : Type 0} (x : Reader D) (s : IndexFile) (es : List Entry) (n : ℕ)
    (index_is : s.index ≡ some es) (few : s.last ≤ℤ pos n) (rounds_are : x.rounds ≡ suc n) where
  read_loop-Consecutive :
      (k : ℕ) (cur : ℤ) (d : D)
      → let r = read_loop x s k cur d in (length r.0 ≤ k) × Consecutive s.last cur r.0
  unfolding read_loop
  read_loop-Consecutive zero cur d = (omega arith, tt)
  read_loop-Consecutive (suc k) cur d =
      let (le, go) = read_loop-Consecutive k (cur +ℤ pos 1) (x.next (cur +ℤ pos 1) false d) in
      if_rule (λ (r : List PicInfo × D). (length r.0 ≤ suc k) × Consecutive s.last cur r.0)
        (ltb_ℤ cur s.last) (λ on. (omega arith, (refl, ground (arith, on), go)))
        (λ off. (omega arith, tt))

  i_frame_for-some : (i : ℤ) → (cur : ℤ) × (i_frame_for x.rounds s x.garbage i ≡ some cur)
  unfolding i_frame_for
  i_frame_for-some i =
      let (o, at) = next_i_frame_ends s es i true true n index_is few in
      let at' : next_i_frame x.rounds s i true true ≡ some o =
        ap (λ k. next_i_frame k s i true true) rounds_are ∙ at in
      if_rule (λ (r : Option ℤ). (cur : ℤ) × (r ≡ some cur)) (independence x.garbage (noad_get s i))
        (λ _. (non_negative i, refl)) (λ _. rw at' (int_of o, refl))

  first_frame-some : (i : ℤ) → (cur : ℤ) × (first_frame x s i ≡ some cur)
  unfolding first_frame
  first_frame-some i =
      let (o, at) = next_i_frame_ends s es i true true n index_is few in
      let at' : next_i_frame x.rounds s i true true ≡ some o =
        ap (λ k. next_i_frame k s i true true) rounds_are ∙ at in
      if_rule (λ (r : Option ℤ). (cur : ℤ) × (r ≡ some cur)) (independence false (noad_get s i))
        (λ _. i_frame_for-some i) (λ _. rw at' (i_frame_for-some (int_of o)))

  -- getPicInfo ends: no more entries than asked for, with consecutive frames.
  abbrev Pictured : ℤ → Option (List PicInfo × D) → Type 0
  Pictured frames o =
      (r : List PicInfo × D) × (o ≡ some r)
      × (length r.0 ≤ pos_part frames)
      × ((cur : ℤ) × Consecutive s.last cur r.0)

  get_pic_info-Pictured :
      (start frames : ℤ) (d : D) → Pictured frames (get_pic_info x s start frames d)
  unfolding get_pic_info
  get_pic_info-Pictured start frames d =
      let (cur, at) = first_frame-some start in
      let (le, go) = read_loop-Consecutive (pos_part frames) cur (x.next cur true d) in
      rw (get_pic_info, at) (_, refl, le, (cur, go))

  read_first-Pictured :
      (marks : List Mark) (m : Mark) (d : D)
      → (r : (List PicInfo × D) × ℤ) × (read_first x s marks m d ≡ some r)
        × (length r.0.0 ≤ read_before x.rate)
        × ((cur : ℤ) × Consecutive s.last cur r.0.0)
  unfolding read_first frames_before
  read_first-Pictured marks m d =
      let w = frames_before x.rate (get_prev m.position marks) m (get_next m.position marks) in
      let (r, at, le, seen) = get_pic_info-Pictured w.start w.count d in
      let (small, _) =
        limited-le (read_before x.rate) 0 20 (get_next m.position marks) w.start (omega arith) in
      let few_asked : pos_part w.count ≤ read_before x.rate =
        pos_part_le w.count (read_before x.rate) small in
      if_rule
        (λ (o : Option ((List PicInfo × D) × ℤ)).
          (r : (List PicInfo × D) × ℤ) × (o ≡ some r)
          × (length r.0.0 ≤ read_before x.rate)
          × ((cur : ℤ) × Consecutive s.last cur r.0.0))
        (leb_ℤ (pos 0) m.position) (λ _. rw at (_, refl, omega (arith, le, few_asked), seen))
        (λ _. (_, refl, omega arith, (pos 0, tt)))

  read_second-Pictured :
      (marks : List Mark) (m : Mark) (stop : ℤ) (d : D)
      → (r : List PicInfo × D) × (read_second x s marks m stop d ≡ some r)
        × (length r.0 ≤ read_after x.rate)
        × ((cur : ℤ) × Consecutive s.last cur r.0)
  unfolding read_second frames_after
  read_second-Pictured marks m stop d = elim (Option-cases (get_next m.position marks)) [
    | inl e ↦ rw (read_second, e) (_, refl, omega arith, (pos 0, tt))
    | inr (m2, e) ↦
        let w = frames_after x.rate stop m2 (get_next m2.position marks) in
        let (r, at, le, seen) = get_pic_info-Pictured w.start w.count d in
        let (small, _) =
          limited-le (read_after x.rate) 25 25 (get_next m2.position marks) w.start (omega arith) in
        let few_asked : pos_part w.count ≤ read_after x.rate =
          pos_part_le w.count (read_after x.rate) small in
        rw (read_second, e, at) (r, refl, omega (arith, le, few_asked), seen)
  ]

  -- With an index, and whatever the decoder shows, the reading of checkMarkPair ends, sets at
  -- most PICS_READ_BEFORE entries of the one array and PICS_READ_AFTER of the other, and the
  -- entries of each have consecutive frame numbers before the last frame of the index.
  pub read_pictures-Within :
      (unset : ℕ → PicInfo) (marks : List Mark) (m : Mark) (d : D)
      → (r : Pictures × D) × (read_pictures x s unset marks m d ≡ some r)
        × ((r.0.num_before ≤ read_before x.rate) × FramesFrom s.last r.0.before r.0.num_before)
        × ((r.0.num_after ≤ read_after x.rate) × FramesFrom s.last r.0.after r.0.num_after)
  unfolding read_pictures
  read_pictures-Within unset marks m d =
      let (r, at, le, (cur, go)) = read_first-Pictured marks m d in
      let (q, at', le', (cur', go')) = read_second-Pictured marks m r.1 r.0.1 in
      rw (read_pictures, at, at')
        (
          _,
          refl,
          (le, (cur, array_of-FramesFrom s.last r.0.0 unset cur go)),
          (le', (cur', array_of-FramesFrom s.last q.0 unset cur' go')),
        )
