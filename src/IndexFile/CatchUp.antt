-- ===== src/IndexFile/CatchUp.antt =====
-- cIndexFile::CatchUp: reading what was appended to the index file of a running recording. What
-- the file looks like in each of the rounds, a second apart, comes from outside.
pub mod Loaded
pub mod Caught
use noad.Prelude.{
  ℕ, zero, suc, ◌+◌, Bool, true, false, Option, none, some, List, [], ◌∷◌, ◌++◌, ◌&&◌, ◌||◌, map,
  if◌then◌else◌, length, drop,
}
use noad.Prelude.Int.{ℤ, pos, pos_part, ◌+ℤ◌, ◌-ℤ◌, ltb_ℤ, leb_ℤ}
use noad.IndexFile.{Entry, IndexFile}
use noad.IndexFile.Words.{ts_entry, convert_from_pes}

pub data ReadResult : Type 0 where
  read_ok read_failed seek_failed : ReadResult

-- realloc fails, or gives an array; where there was none before, it holds anything.
pub data Memory : Type 0 where
  no_memory : Memory
  memory : (ℕ → Entry) → Memory

-- fstat fails, or it shows a file of these words, and then realloc, lseek and read go as told.
pub data Look : Type 0 where
  stat_failed : Look
  file_words : Memory → List ℕ → ReadResult → Look

abbrev pub is_some {ℓ} : {A : Type ℓ} → Option A → Bool
is_some none = false
is_some (some a) = true

unfoldable pub read_entries : Bool → List ℕ → List Entry
unfolding convert_from_pes
read_entries true ws = convert_from_pes ws
read_entries false ws = map ts_entry ws

-- The member `size`: doubled, or as large as is needed.
unfoldable pub grow_capacity : ℤ → ℤ → ℤ
unfolding ◌+ℤ◌
grow_capacity size new_last =
    if leb_ℤ size new_last
    then (if leb_ℤ (size +ℤ size) new_last then new_last +ℤ pos 1 else size +ℤ size)
    else size

unfoldable pub anything : ℕ → (ℕ → Entry) → List Entry
anything zero junk = []
anything (suc n) junk = junk 0 ∷ anything n (λ i. junk (suc i))

-- What the new array holds of the entries 0 to `last`.
unfoldable pub held : Option (List Entry) → ℤ → (ℕ → Entry) → List Entry
unfolding anything ◌+ℤ◌
held none last junk = anything (pos_part (last +ℤ pos 1)) junk
held (some es) last junk = es

-- Behind realloc, and whether the loop is broken off.
unfoldable pub read_more : IndexFile → List Entry → List ℕ → ℤ → ReadResult → IndexFile × Bool
unfolding read_entries ◌+ℤ◌
read_more s es ws new_last read_ok = (
  record s {
    index = some (es ++ drop (pos_part (s.last +ℤ pos 1)) (read_entries s.is_pes ws));
    last = new_last;
  },
  false,
)
read_more s es ws new_last read_failed = (record s { index = none; is_open = false }, true)
read_more s es ws new_last seek_failed = (record s { index = some es }, false)

unfoldable pub allocate : IndexFile → Memory → List ℕ → ℤ → ReadResult → IndexFile × Bool
unfolding held read_more
allocate s no_memory ws new_last result = (record s { index = none }, false)
allocate s (memory junk) ws new_last result =
    read_more s (held s.index s.last junk) ws new_last result

-- The body of the loop up to the sleep, and whether it is broken off.
unfoldable pub catch_up_round : IndexFile → Look → IndexFile × Bool
unfolding grow_capacity allocate ◌-ℤ◌
catch_up_round s stat_failed = (s, false)
catch_up_round s (file_words mem ws result) =
    let new_last = pos (length ws) -ℤ pos 1 in
    if ltb_ℤ s.last new_last
    then allocate (record s { capacity = grow_capacity s.capacity new_last }) mem ws new_last result
    else (s, false)

abbrev pub max_index_catch_up : ℕ
max_index_catch_up = 8

-- The loop, with the rounds left, the number of the round and `Index`.
unfoldable pub catch_up_loop : ℕ → (ℕ → Look) → ℕ → ℤ → IndexFile → IndexFile × Bool
unfolding catch_up_round
catch_up_loop zero looks i index s = (s, is_some s.index)
catch_up_loop (suc rounds) looks i index s =
    let r = catch_up_round s (looks i) in
    let rest = catch_up_loop rounds looks (i + 1) index r.0 in
    if ltb_ℤ index (pos 0) || leb_ℤ s.last index
    then (if r.1
        then (r.0, is_some r.0.index)
        else if leb_ℤ r.0.last index
        then rest
        else (r.0, true))
    else (s, is_some s.index)

unfoldable pub catch_up : (ℕ → Look) → ℤ → IndexFile → IndexFile × Bool
unfolding catch_up_loop
catch_up looks index s =
    if is_some s.index && s.is_open
    then catch_up_loop (suc max_index_catch_up) looks 0 index s
    else (s, is_some s.index)
