-- ===== src/IndexFile/Growing.antt =====
-- The lookups of cIndexFile, which read what was appended to the index file first, and CatchUp of
-- cNoadIndexFile. Where CatchUp says that there is an array and there is none, the source reads
-- through a null pointer, and the lookups here find nothing.
use noad.Prelude.{ℕ, ◌≡◌, refl, arith, Bool, true, Option, none, some, List, ◌||◌, if◌then◌else◌}
use noad.Prelude.Int.{ℤ, pos, negsuc, ◌+ℤ◌, ◌-ℤ◌, ◌≤ℤ◌, ◌<ℤ◌, ltb_ℤ, eqb_ℤ}
use noad.IndexFile.{Entry, Frame, IndexFile, noad_get, next_i_frame, get_place}
use noad.IndexFile.CatchUp.{Look, catch_up, catch_up_loop}

-- cIndexFile::Get.
unfoldable pub index_get : (ℕ → Look) → ℤ → IndexFile → IndexFile × Option Frame
unfolding catch_up noad_get
index_get looks i s = let r = catch_up looks i s in (r.0, if r.1 then noad_get r.0 i else none)

-- cIndexFile::GetNextIFrame, with fuel; the call is CatchUp(-1).
unfoldable pub index_next_i_frame :
    ℕ → (ℕ → Look) → ℤ → Bool → Bool → IndexFile → IndexFile × Option (Option ℤ)
unfolding catch_up next_i_frame
index_next_i_frame fuel looks i forward stay_off_end s =
    let r = catch_up looks (negsuc 0) s in
    (r.0, if r.1 then next_i_frame fuel r.0 i forward stay_off_end else some none)

-- cIndexFile::Get(FileNumber, FileOffset).
unfoldable pub index_get_place : (ℕ → Look) → ℕ → ℕ → IndexFile → IndexFile × ℤ
unfolding catch_up get_place
index_get_place looks number offset s =
    let r = catch_up looks (negsuc 0) s in
    (r.0, if r.1 then get_place r.0 number offset else negsuc 0)

-- lastGetValue, from where the search of the next I frame found it, or -1.
unfoldable pub next_get_value : Option ℤ → ℤ → ℤ
unfolding ◌-ℤ◌
next_get_value none last = last
next_get_value (some j) last =
    let v = j -ℤ pos 1 in if ltb_ℤ last v || ltb_ℤ v (pos 0) then last else v

-- cNoadIndexFile::CatchUp; `none` if the fuel runs out.
unfoldable pub noad_catch_up : ℕ → (ℕ → Look) → ℤ → IndexFile → Option (IndexFile × Bool)
unfolding catch_up next_i_frame next_get_value ◌+ℤ◌
noad_catch_up fuel looks i s =
    let r = catch_up looks i s in
    if eqb_ℤ r.0.interval (pos 0)
    then some r
    else elim (next_i_frame fuel r.0 (r.0.last_get_value +ℤ r.0.interval +ℤ r.0.interval) true
        true) [
          | none ↦ none
          | some j ↦ some (record r.0 { last_get_value = next_get_value j r.0.last }, r.1)
        ]

-- A frame before the last entry needs no reading.
catch_up-known :
    (looks : ℕ → Look) (i : ℤ) (s : IndexFile) (es : List Entry)
    → s.index ≡ some es
    → pos 0 ≤ℤ i
    → i <ℤ s.last
    → catch_up looks i s ≡ (s, true)
unfolding catch_up catch_up_loop
catch_up-known looks i s es e lo hi = ground (arith, e)

-- Get of a frame before the last entry leaves the index as it is, whatever was appended to the
-- file, and gives the frame that is there.
pub index_get-known :
    (looks : ℕ → Look) (i : ℤ) (s : IndexFile) (es : List Entry)
    → s.index ≡ some es
    → pos 0 ≤ℤ i
    → i <ℤ s.last
    → index_get looks i s ≡ (s, noad_get s i)
unfolding index_get
index_get-known looks i s es e lo hi = rw (catch_up-known looks i s es e lo hi) refl

-- Where the number of the last entry is not negative, lastGetValue is set within the index.
pub next_get_value-bounds :
    (j : Option ℤ) (last : ℤ)
    → pos 0 ≤ℤ last
    → (pos 0 ≤ℤ next_get_value j last) × (next_get_value j last ≤ℤ last)
unfolding next_get_value
next_get_value-bounds none last h = (h, omega arith)
next_get_value-bounds (some j) last h = ground arith
