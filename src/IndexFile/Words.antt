-- ===== src/IndexFile/Words.antt =====
-- The 64-bit words of the index file: ConvertFromPes and ConvertToPes, and the length of a frame.
use noad.Prelude.{
  ℕ, ◌+◌, ◌-◌, ◌*◌, ◌/◌, ◌%◌, ◌^◌, ◌≤◌, ◌<◌, ◌≡◌, arith, ◌==◌, List, map, if◌then◌else◌,
}
use noad.Prelude.Int.{pos}
use noad.IndexFile.{Entry, length_to}

-- tIndexTs: offset:40, reserved:7, independent:1, number:16.
unfoldable pub ts_entry : ℕ → Entry
ts_entry w = record {
  offset = w % 2 ^ 40;
  reserved = w / 2 ^ 40 % 2 ^ 7;
  independent = w / 2 ^ 47 % 2 == 1;
  number = w / 2 ^ 48 % 2 ^ 16;
}

-- tIndexPes: offset and type, number and reserved, of 32, 8, 8 and 16 bits.
pub record PesEntry : Type 0 where
  pub pes_offset : ℕ
  pub pes_type : ℕ
  pub pes_number : ℕ
  pub pes_reserved : ℕ

unfoldable pub pes_word : PesEntry → ℕ
pes_word e = e.pes_offset + e.pes_type * 2 ^ 32 + e.pes_number * 2 ^ 40 + e.pes_reserved * 2 ^ 48

unfoldable pub pes_entry : ℕ → PesEntry
pes_entry w = record {
  pes_offset = w % 2 ^ 32;
  pes_type = w / 2 ^ 32 % 2 ^ 8;
  pes_number = w / 2 ^ 40 % 2 ^ 8;
  pes_reserved = w / 2 ^ 48 % 2 ^ 16;
}

-- One round of ConvertFromPes: the word is read as PES and assigned as TS.
unfoldable pub from_pes : ℕ → Entry
unfolding pes_entry
from_pes w =
    let p = pes_entry w in
    record {
      offset = p.pes_offset;
      reserved = p.pes_type % 2 ^ 7;
      independent = p.pes_type == 1;
      number = p.pes_number;
    }

unfoldable pub convert_from_pes : List ℕ → List Entry
unfolding from_pes
convert_from_pes ws = map from_pes ws

-- One round of ConvertToPes.
unfoldable pub to_pes : Entry → ℕ
unfolding pes_word
to_pes e = pes_word (record {
  pes_offset = e.offset % 2 ^ 32;
  pes_type = if e.independent then 1 else 2;
  pes_number = e.number % 2 ^ 8;
  pes_reserved = 0;
})

unfoldable pub convert_to_pes : List Entry → List ℕ
unfolding to_pes
convert_to_pes es = map to_pes es

-- Through PES the offset keeps 32 bits and the file number 8; the flag comes back, and reserved
-- holds the frame type.
pub from_pes-to_pes :
    (e : Entry)
    → from_pes (to_pes e) ≡ record {
      offset = e.offset % 2 ^ 32;
      reserved = if e.independent then 1 else 2;
      independent = e.independent;
      number = e.number % 2 ^ 8;
    }
unfolding from_pes to_pes
from_pes-to_pes e = ground arith

-- The length of a frame within one file is the distance of the offsets where that is below 2 ^
-- 31, also for offsets that do not fit an int.
pub length_to-eq :
    (e next : Entry)
    → e.number ≡ next.number
    → e.offset ≤ next.offset
    → next.offset < e.offset + 2 ^ 31
    → length_to e next ≡ pos (next.offset - e.offset)
unfolding length_to
length_to-eq e next n lo hi = ground arith
