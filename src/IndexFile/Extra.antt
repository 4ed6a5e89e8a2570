-- ===== src/IndexFile/Extra.antt =====
-- cNoadIndexFile: the array indexEx of what was found out about each frame, and setIndexEx.
use noad.Prelude.{
  ℕ, ◌≡◌, arith, ◌↔◌, Bool, true, false, Option, none, some, List, ◌&&◌, ltb, if◌then◌else◌, length,
  set,
}
use noad.Prelude.Int.{ℤ, pos, pos_part, ◌<ℤ◌, ltb_ℤ, leb_ℤ, eqb_ℤ, eq_of_parts}
use noad.IndexFile.{IndexFile}

pub record FrameInfo : Type 0 where
  pub is_logo : ℤ
  pub black_top : ℤ
  pub black_bottom : ℤ

-- cNoadIndexFile::getLast, behind `Last()`.
unfoldable pub get_last : IndexFile → ℤ
get_last s = if eqb_ℤ s.interval (pos 0) then s.last else s.last_get_value

-- `new tIndexEx[Last()>0?Last():1]`: how many elements the array has.
unfoldable pub index_ex_size : IndexFile → ℕ
unfolding get_last
index_ex_size s = if ltb_ℤ (pos 0) (get_last s) then pos_part (get_last s) else 1

-- The array and the result; `none` is a write outside the array.
unfoldable pub set_index_ex :
    IndexFile → List FrameInfo → ℤ → FrameInfo → Option (List FrameInfo × Bool)
unfolding get_last
set_index_ex s xs i v =
    if ltb_ℤ (pos 0) i && leb_ℤ i (get_last s)
    then (if ltb (pos_part i) (length xs) then some (set xs (pos_part i) v, true) else none)
    else some (xs, false)

-- On the array that the constructor allocates, setIndexEx writes outside of it exactly for the
-- frame number Last(), where that is positive.
pub set_index_ex-outside :
    (s : IndexFile) (xs : List FrameInfo) (i : ℤ) (v : FrameInfo)
    → length xs ≡ index_ex_size s
    → (set_index_ex s xs i v ≡ none) ↔ ((i ≡ get_last s) × (pos 0 <ℤ get_last s))
unfolding set_index_ex index_ex_size
set_index_ex-outside s xs i v h =
    (λ e. (eq_of_parts i (get_last s) (ground arith), ground arith), λ (e, p). ground arith)
