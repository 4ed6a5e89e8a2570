-- ===== src/Overlap/Window.antt =====
-- noad.cpp: the pictures that checkMarkPair reads around two marks, with getPicInfo. The decoder with
-- what is found on its last picture is a parameter.
pub mod Within
use noad.Prelude.{
  ℕ, zero, suc, ◌+◌, ◌*◌, Bool, true, false, Option, none, some, List, [], ◌∷◌, if◌then◌else◌,
  length,
}
use noad.Prelude.Int.{ℤ, pos, negsuc, ◌+ℤ◌, ◌-ℤ◌, ltb_ℤ, leb_ℤ, pos_part}
use noad.IndexFile.{IndexFile, next_i_frame, noad_get}
use noad.Search.LogoChange.{int_of, independence, i_frame_for}
use noad.Marks.{Mark, get_next, get_prev}
use noad.Overlap.{PicInfo, Pictures}

-- `next` is getNextPicture, and `shown` the entry for the picture shown last, less its number.
pub record Reader (D : Type 0) : Type 0 where
  pub next : ℤ → Bool → D → D
  pub shown : D → PicInfo
  pub rounds : ℕ
  pub garbage : Bool
  pub rate : ℕ
  pub similar_cutoff : ℕ

-- `while(  iCurrentFrame < cIF->Last() && iCount < framesToRead )`, with the entries left.
unfoldable pub read_loop : {D : Type 0} → Reader D → IndexFile → ℕ → ℤ → D → List PicInfo × D
read_loop x s zero cur d = ([], d)
read_loop x s (suc k) cur d =
    let rest = read_loop x s k (cur +ℤ pos 1) (x.next (cur +ℤ pos 1) false d) in
    if ltb_ℤ cur s.last then (record (x.shown d) { framenum = cur } ∷ rest.0, rest.1) else ([], d)

-- The frame where getPicInfo starts.
unfoldable pub first_frame : {D : Type 0} → Reader D → IndexFile → ℤ → Option ℤ
unfolding i_frame_for
first_frame x s start =
    if independence false (noad_get s start)
    then i_frame_for x.rounds s x.garbage start
    else (elim (next_i_frame x.rounds s start true true) [
      | none ↦ none
      | some o ↦ i_frame_for x.rounds s x.garbage (int_of o)
    ])

-- getPicInfo: the entries that it sets.
unfoldable pub get_pic_info :
    {D : Type 0} → Reader D → IndexFile → ℤ → ℤ → D → Option (List PicInfo × D)
unfolding first_frame read_loop
get_pic_info x s start frames d = elim (first_frame x s start) [
  | none ↦ none
  | some cur ↦ some (read_loop x s (pos_part frames) cur (x.next cur true d))
]

-- The frames that are read: from where, and how many.
pub record Frames : Type 0 where
  pub start : ℤ
  pub count : ℤ

-- PICS_READ_BEFORE, PICS_READ_AFTER, PICS_BEFORE_ONMARK.
abbrev pub read_before : ℕ → ℕ
read_before rate = 22 * rate

abbrev pub read_after : ℕ → ℕ
read_after rate = 250 * rate

abbrev pub before_onmark : ℕ → ℕ
before_onmark rate = 60 * rate

abbrev pub not_below : Option Mark → ℤ → ℤ
not_below none i = i
not_below (some m) i = if ltb_ℤ i m.position then m.position else i

abbrev pub not_negative : ℤ → ℤ
not_negative i = if ltb_ℤ i (pos 0) then pos 0 else i

-- The number of frames, less where the mark behind is too near.
unfoldable pub limited : ℕ → ℕ → ℕ → Option Mark → ℤ → ℤ
limited size gap cut none start = pos size
limited size gap cut (some m3) start =
    if ltb_ℤ (m3.position -ℤ pos gap) (start +ℤ pos size)
    then m3.position -ℤ start -ℤ pos cut
    else pos size

-- Frames before the first mark, with the marks before and behind it.
unfoldable pub frames_before : ℕ → Option Mark → Mark → Option Mark → Frames
unfolding limited
frames_before rate prev m next =
    let start = not_negative (not_below prev (m.position -ℤ pos (read_before rate + 15))) in
    record { start = start; count = limited (read_before rate) 0 20 next start }

-- Frames around the second mark, with the frame where the first ones stop and the mark behind.
unfoldable pub frames_after : ℕ → ℤ → Mark → Option Mark → Frames
unfolding limited
frames_after rate stop m2 next =
    let near = m2.position -ℤ pos (before_onmark rate) in
    let start = if ltb_ℤ near stop then stop +ℤ pos 20 else near in
    record { start = start; count = limited (read_after rate) 25 25 next start }

-- An array with these entries; the others are not set.
abbrev pub array_of : (ℕ → PicInfo) → List PicInfo → ℕ → PicInfo
array_of unset [] i = unset i
array_of unset (e ∷ es) zero = e
array_of unset (e ∷ es) (suc i) = array_of (λ j. unset (suc j)) es i

-- What is read before the first mark, and where it stops.
unfoldable pub read_first :
    {D : Type 0} → Reader D → IndexFile → List Mark → Mark → D → Option ((List PicInfo × D) × ℤ)
unfolding get_pic_info frames_before get_prev get_next
read_first x s marks m d =
    if leb_ℤ (pos 0) m.position
    then (let w = frames_before x.rate (get_prev m.position marks) m (get_next m.position marks) in
        elim (get_pic_info x s w.start w.count d) [
          | none ↦ none
          | some r ↦ some (r, w.start +ℤ w.count)
        ])
    else some (([], d), pos 0)

-- What is read around the second mark.
unfoldable pub read_second :
    {D : Type 0} → Reader D → IndexFile → List Mark → Mark → ℤ → D → Option (List PicInfo × D)
unfolding get_pic_info frames_after get_next
read_second x s marks m stop d = elim (get_next m.position marks) [
  | none ↦ some ([], d)
  | some m2 ↦
      let w = frames_after x.rate stop m2 (get_next m2.position marks) in
      get_pic_info x s w.start w.count d
]

-- The two arrays of checkMarkPair.
unfoldable pub read_pictures :
    {D : Type 0}
    → Reader D
    → IndexFile
    → (ℕ → PicInfo)
    → List Mark
    → Mark
    → D
    → Option (Pictures × D)
unfolding read_first read_second
read_pictures x s unset marks m d = elim (read_first x s marks m d) [
  | none ↦ none
  | some r ↦ elim (read_second x s marks m r.1 r.0.1) [
    | none ↦ none
    | some q ↦ some (
      record {
        before = array_of unset r.0.0;
        num_before = length r.0.0;
        after = array_of unset q.0;
        num_after = length q.0;
        rate = x.rate;
        similar_cutoff = x.similar_cutoff;
      },
      q.1,
    )
  ]
]
