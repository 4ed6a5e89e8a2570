-- ===== src/IndexFile.antt =====
-- The frame index of vdr_cl.cpp: cIndexFile and cNoadIndexFile. An entry is a 64-bit word of the
-- index file, as GCC lays out the bit fields of tIndexTs and tIndexPes on a little-endian machine.
-- Frame numbers (C++ int) are unbounded integers here, file offsets are below 2 ^ 40.
pub mod Words
pub mod Scan
pub mod NextFrame
pub mod Place
pub mod CatchUp
pub mod Growing
pub mod Extra
pub mod Size
mod Tests
use noad.Prelude.{
  ℕ, zero, suc, ◌+◌, ◌-◌, ◌%◌, ◌^◌, Bool, true, false, Option, none, some, List, [], ◌∷◌, ◌&&◌,
  ◌||◌, ◌==◌, ltb, leb, if◌then◌else◌, get_elem?, length,
}
use noad.Prelude.Int.{ℤ, pos, negsuc, ◌+ℤ◌, ◌-ℤ◌, ltb_ℤ, leb_ℤ, pos_part}

-- tIndexTs.
pub record Entry : Type 0 where
  pub offset : ℕ
  pub reserved : ℕ
  pub independent : Bool
  pub number : ℕ

-- What `Get` and `GetNextIFrame` hand out.
pub record Frame : Type 0 where
  pub file_number : ℕ
  pub file_offset : ℕ
  pub is_independent : Bool
  pub frame_length : ℤ

-- The conversion to a 32-bit int.
unfoldable pub signed_word : ℕ → ℤ
signed_word w =
    if ltb (w % 2 ^ 32) (2 ^ 31) then pos (w % 2 ^ 32) else negsuc (2 ^ 32 - w % 2 ^ 32 - 1)

unfoldable pub to_int : ℤ → ℤ
unfolding signed_word
to_int (pos n) = signed_word n
to_int (negsuc n) = signed_word (2 ^ 32 - 1 - n % 2 ^ 32)

-- `int fo = index[Index + 1].offset; *Length = fo - *FileOffset`, and -1 at the end of a file.
unfoldable pub length_to : Entry → Entry → ℤ
unfolding signed_word to_int ◌-ℤ◌
length_to e next =
    if next.number == e.number then to_int (signed_word next.offset -ℤ pos e.offset) else negsuc 0

-- `index[Index]` at an int that may be negative.
unfoldable pub entry_at : List Entry → ℤ → Option Entry
entry_at es (pos i) = get_elem? es i
entry_at es (negsuc i) = none

unfoldable pub frame_of : Option Entry → Option Entry → Option Frame
unfolding length_to
frame_of (some e) (some next) = some (record {
  file_number = e.number;
  file_offset = e.offset;
  is_independent = e.independent;
  frame_length = length_to e next;
})
frame_of (some e) none = none
frame_of none next = none

-- The fields of cIndexFile and cNoadIndexFile. `index` is `none` for a null pointer; `is_open` is
-- `f >= 0`, and `capacity` is the member `size`.
pub record IndexFile : Type 0 where
  pub index : Option (List Entry)
  pub last : ℤ
  pub capacity : ℤ
  pub is_open : Bool
  pub is_pes : Bool
  pub interval : ℤ
  pub last_get_value : ℤ

-- The array, if there is one: the bodies of cNoadIndexFile below check the pointer first.
abbrev pub entries : Option (List Entry) → List Entry
entries none = []
entries (some es) = es

-- cNoadIndexFile::Get, and the body of cIndexFile::Get behind CatchUp.
unfoldable pub noad_get : IndexFile → ℤ → Option Frame
unfolding entry_at frame_of
noad_get s i =
    if leb_ℤ (pos 0) i && ltb_ℤ i s.last
    then frame_of (entry_at (entries s.index) i) (entry_at (entries s.index) (i +ℤ pos 1))
    else none

abbrev pub index_safety_limit : ℤ
index_safety_limit = pos 150

abbrev pub is_i_frame : Option Entry → Bool
is_i_frame none = false
is_i_frame (some e) = e.independent

-- The endless loop of GetNextIFrame, with `Index` and the bound. The outer `none` means that the
-- fuel ran out, the inner one is the result -1.
unfoldable pub i_frame_loop : ℕ → ℤ → ℤ → List Entry → ℤ → Option (Option ℤ)
unfolding ◌+ℤ◌ entry_at
i_frame_loop zero d bound es i = none
i_frame_loop (suc fuel) d bound es i =
    let j = i +ℤ d in
    let rest = i_frame_loop fuel d bound es j in
    if leb_ℤ (pos 0) j && ltb_ℤ j bound
    then (if is_i_frame (entry_at es j) then some (some j) else rest)
    else some none

-- `last - ((Forward && StayOffEnd) ? INDEXSAFETYLIMIT : 0)`.
unfoldable pub scan_bound : IndexFile → Bool → Bool → ℤ
unfolding ◌-ℤ◌
scan_bound s forward stay_off_end =
    s.last -ℤ (if forward && stay_off_end then index_safety_limit else pos 0)

-- cNoadIndexFile::GetNextIFrame, and the body of cIndexFile::GetNextIFrame behind CatchUp: the
-- frame's number. What it stores through the pointers is `noad_get` of that number.
unfoldable pub next_i_frame : ℕ → IndexFile → ℤ → Bool → Bool → Option (Option ℤ)
unfolding i_frame_loop scan_bound
next_i_frame fuel s i forward stay_off_end = elim s.index [
  | none ↦ some none
  | some es ↦
      i_frame_loop fuel (if forward then pos 1 else negsuc 0) (scan_bound s forward stay_off_end) es
        i
]

-- Whether an entry stands before the place (FileNumber, FileOffset).
unfoldable pub is_before : Entry → ℕ → ℕ → Bool
is_before e number offset =
    if ltb number e.number || (e.number == number && leb offset e.offset) then false else true

-- The linear search of cIndexFile::Get(FileNumber, FileOffset), over the first `last` entries.
unfoldable pub find_place : ℕ → List Entry → ℕ → ℕ → ℕ → ℕ
unfolding is_before
find_place zero es number offset i = i
find_place (suc n) [] number offset i = i
find_place (suc n) (e ∷ es) number offset i =
    if is_before e number offset then find_place n es number offset (i + 1) else i

unfoldable pub get_place : IndexFile → ℕ → ℕ → ℤ
unfolding find_place
get_place s number offset = elim s.index [
  | none ↦ negsuc 0
  | some es ↦ pos (find_place (pos_part s.last) es number offset 0)
]
