-- ===== src/IndexFile/Size.antt =====
-- cNoadIndexFile::getVideoFileSize and getIndexForFilepos: sums of frame lengths.
use noad.Prelude.{
  ℕ, zero, suc, ◌+◌, ◌-◌, ◌^◌, ◌≤◌, ◌<◌, ◌≡◌, refl, ◌∙◌, ap, arith, Option, none, some, List, ◌&&◌,
  if◌then◌else◌, get_elem?, sym, true, ◌⊎◌, inl, inr,
}
use native.Mathlib.Numerals.{add-one}
use noad.Prelude.Int.{
  ℤ, pos, negsuc, pos_part, ◌+ℤ◌, ◌-ℤ◌, ltb_ℤ, leb_ℤ, eqb_ℤ, +ℤ_parts, eq_of_parts,
}
use noad.IndexFile.{Entry, Frame, IndexFile, noad_get, frame_of, entry_at, entries}
use noad.IndexFile.Words.{length_to-eq}
use noad.IndexFile.Extra.{get_last}

-- The variable Length behind a call of Get, which leaves it alone if it fails.
unfoldable pub length_after : Option Frame → ℤ → ℤ
length_after none old = old
length_after (some f) old = f.frame_length

-- `while (index < Last())`, with the rounds left, index, Length and the sum.
unfoldable pub size_loop : ℕ → IndexFile → ℕ → ℤ → ℤ → ℤ
unfolding noad_get length_after ◌+ℤ◌
size_loop zero s i len sum = sum
size_loop (suc n) s i len sum =
    let len' = length_after (noad_get s (pos i)) len in size_loop n s (i + 1) len' (sum +ℤ len')

-- The sum is kept in fileSize, which is -1 at first; `len` is what the uninitialised Length holds.
unfoldable pub get_video_file_size : IndexFile → ℤ → ℤ → ℤ
unfolding size_loop get_last
get_video_file_size s file_size len =
    if eqb_ℤ file_size (negsuc 0)
    then size_loop (pos_part (get_last s)) s 0 len (pos 0)
    else file_size

unfoldable pub filepos_loop : ℕ → IndexFile → ℕ → ℤ → ℤ → ℤ → ℤ
unfolding noad_get length_after ◌+ℤ◌ ◌-ℤ◌
filepos_loop zero s i len file_pos p = negsuc 0
filepos_loop (suc n) s i len file_pos p =
    let len' = length_after (noad_get s (pos i)) len in
    let rest = filepos_loop n s (i + 1) len' (file_pos +ℤ len') p in
    if ltb_ℤ p file_pos then pos i -ℤ pos 1 else if eqb_ℤ file_pos p then pos i else rest

unfoldable pub get_index_for_filepos : IndexFile → ℤ → ℤ → ℤ
unfolding filepos_loop get_last
get_index_for_filepos s p len = filepos_loop (pos_part (get_last s)) s 0 len (pos 0) p

-- A recording in one file: entry k starts at `o k`, and each frame is shorter than 2 ^ 31 bytes.
pub record InOneFile (s : IndexFile) (es : List Entry) (number : ℕ) (o : ℕ → ℕ) : Type 0 where
  pub has_index : s.index ≡ some es
  pub no_interval : s.interval ≡ pos 0
  pub starts :
      (k : ℕ)
      → k ≤ pos_part s.last
      → (e : Entry) × (get_elem? es k ≡ some e) × (e.number ≡ number) × (e.offset ≡ o k)
  pub grows : (k : ℕ) → o k < o (k + 1)
  pub below : (k : ℕ) → o (k + 1) < o k + 2 ^ 31

pos_suc : (k : ℕ) → pos k +ℤ pos 1 ≡ pos (k + 1)
pos_suc k = eq_of_parts _ _ (omega (arith, +ℤ_parts (pos k) (pos 1)))

in_bounds :
    (k : ℕ) (last : ℤ) → k < pos_part last → (leb_ℤ (pos 0) (pos k) && ltb_ℤ (pos k) last) ≡ true
in_bounds k (pos n) h = ground arith
in_bounds k (negsuc n) h = absurd (omega arith)

noad_get-eq :
    (s : IndexFile) (k : ℕ) (e f : Entry)
    → k < pos_part s.last
    → get_elem? (entries s.index) k ≡ some e
    → get_elem? (entries s.index) (k + 1) ≡ some f
    → noad_get s (pos k) ≡ frame_of (some e) (some f)
unfolding noad_get entry_at
noad_get-eq s k e f l at_k at_suc =
    rw (in_bounds k s.last l) (rw (pos_suc k) (rw (at_k, at_suc) refl))

le-cases : (k j : ℕ) → k ≤ suc j → (k ≤ j) ⊎ (k ≡ suc j)
le-cases k j l = omega arith

le-cases-eq : (k j : ℕ) → k ≤ j → (k ≡ j) ⊎ (k + 1 ≤ j)
le-cases-eq k j l = omega arith

zero-+ℤ : (a : ℤ) → pos 0 +ℤ a ≡ a
zero-+ℤ a = eq_of_parts _ _ (omega (arith, +ℤ_parts (pos 0) a))

module _ (s : IndexFile) (es : List Entry) (number : ℕ) (o : ℕ → ℕ)
    (h : InOneFile s es number o) where
  frame_length_at :
      (k : ℕ) (len : ℤ)
      → k < pos_part s.last
      → length_after (noad_get s (pos k)) len ≡ pos (o (k + 1) - o k)
  unfolding length_after frame_of
  frame_length_at k len l =
      let (e, at_k, n, at_o) = h.starts k (omega arith) in
      let (f, at_suc, n', at_o') = h.starts (k + 1) (omega arith) in
      rw (noad_get-eq s k e f l (rw h.has_index at_k) (rw h.has_index at_suc)) (
        length_to-eq e f (n ∙ sym n') (omega (arith, at_o, at_o', h.grows k))
          (omega (arith, at_o, at_o', h.below k))
        ∙ ap pos (omega (arith, at_o, at_o')))

  grows_suc : (j : ℕ) → o j < o (suc j)
  grows_suc j = rw (← add-one j) (h.grows j)

  rising : (k j : ℕ) → k ≤ j → o k ≤ o j
  rising zero zero l = omega arith
  rising (suc k) zero l = absurd (omega arith)
  rising k (suc j) l = elim (le-cases k j l) [
    | inl less ↦ omega (arith, rising k j less, grows_suc j)
    | inr same ↦ rw same (omega arith)
  ]

  size_loop-eq :
      (n i j : ℕ) (len sum : ℤ)
      → i + n ≡ j
      → j ≤ pos_part s.last
      → size_loop n s i len sum ≡ sum +ℤ pos (o j - o i)
  unfolding size_loop
  size_loop-eq zero i j len sum e l =
      let same : i ≡ j = omega arith in
      eq_of_parts _ _ (omega (arith, +ℤ_parts sum (pos (o j - o i)), ap o same))
  size_loop-eq (suc n) i j len sum e l = rw (frame_length_at i len (omega arith)) (
      size_loop-eq n (i + 1) j (pos (o (i + 1) - o i)) (sum +ℤ pos (o (i + 1) - o i)) (omega arith)
        l
      ∙ eq_of_parts _ _ (
          omega (
            arith,
            +ℤ_parts sum (pos (o (i + 1) - o i)),
            +ℤ_parts (sum +ℤ pos (o (i + 1) - o i)) (pos (o j - o (i + 1))),
            +ℤ_parts sum (pos (o j - o i)),
            h.grows i,
            rising (i + 1) j (omega arith),
          )))

  get_last-eq : get_last s ≡ s.last
  unfolding get_last
  get_last-eq = ground (arith, h.no_interval)

  -- For a recording in one file, without an interval, whose frames have between 1 and 2 ^ 31 - 1
  -- bytes, getVideoFileSize is the distance from the first frame to the last entry of the index.
  pub get_video_file_size-eq :
      (len : ℤ) → get_video_file_size s (negsuc 0) len ≡ pos (o (pos_part s.last) - o 0)
  unfolding get_video_file_size
  get_video_file_size-eq len = rw get_last-eq (
      size_loop-eq (pos_part s.last) 0 (pos_part s.last) len (pos 0) (omega arith) (omega arith)
      ∙ zero-+ℤ _)

  o-lt : (i j : ℕ) → i + 1 ≤ j → o i < o j
  o-lt i j l = omega (arith, h.grows i, rising (i + 1) j l)

  next_start :
      (i : ℕ) (len sum : ℤ)
      → i < pos_part s.last
      → sum ≡ pos (o i - o 0)
      → sum +ℤ length_after (noad_get s (pos i)) len ≡ pos (o (i + 1) - o 0)
  next_start i len sum l start =
      rw (frame_length_at i len l, start)
        (eq_of_parts _ _ (
          omega (
            arith,
            +ℤ_parts (pos (o i - o 0)) (pos (o (i + 1) - o i)),
            h.grows i,
            rising 0 i (omega arith),
          )))

  filepos_loop-eq :
      (n i j : ℕ) (len sum : ℤ)
      → i ≤ j
      → j < i + n
      → i + n ≡ pos_part s.last
      → sum ≡ pos (o i - o 0)
      → filepos_loop n s i len sum (pos (o j - o 0)) ≡ pos j
  unfolding filepos_loop
  filepos_loop-eq zero i j len sum l u e start = absurd (omega arith)
  filepos_loop-eq (suc n) i j len sum l u e start = elim (le-cases-eq i j l) [
    | inl same ↦ ground (arith, start, ap o same)
    | inr less ↦
        let ahead = o-lt i j less in
        let next =
          filepos_loop-eq n (i + 1) j (length_after (noad_get s (pos i)) len)
            (sum +ℤ length_after (noad_get s (pos i)) len) less (omega arith) (omega arith)
            (next_start i len sum (omega arith) start) in
        ground (arith, start, next, rising 0 i (omega arith))
  ]

  -- For a recording in one file, without an interval, whose frames have between 1 and 2 ^ 31 - 1
  -- bytes, getIndexForFilepos gives the frame that starts at a position.
  pub get_index_for_filepos-eq :
      (j : ℕ) (len : ℤ)
      → j < pos_part s.last
      → get_index_for_filepos s (pos (o j - o 0)) len ≡ pos j
  unfolding get_index_for_filepos
  get_index_for_filepos-eq j len l = rw get_last-eq (
      filepos_loop-eq (pos_part s.last) 0 j len (pos 0) (omega arith) (omega arith) (omega arith)
        (ap pos (omega arith)))
