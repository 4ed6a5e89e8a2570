-- ===== src/CheckLogo/Store.antt =====
-- CCheckLogo::save and load. The file is the list of the ints that are written with writeInt; `none`
-- stands for a file that is too short, where the source goes on with what its variables hold, and
-- for a negative counter or number of lines or pairs, which save never writes.
use noad.Prelude.{ℕ, zero, suc, ◌≡◌, refl, Option, none, some, List, [], ◌∷◌, ◌++◌, length, ◌>>=◌}
use noad.Prelude.Int.{ℤ, pos, negsuc}
use noad.CheckLogo.{Testpair, Testline, CheckLogo}
use mathlib.Core.List.{append_assoc}

unfoldable pub save_pairs : List Testpair → List ℤ
save_pairs [] = []
save_pairs (p ∷ ps) = p.x_pos ∷ p.x_neg ∷ save_pairs ps

unfoldable pub save_lines : List Testline → List ℤ
unfolding save_pairs
save_lines [] = []
save_lines (l ∷ ls) = l.line ∷ pos (length l.pairs) ∷ (save_pairs l.pairs ++ save_lines ls)

unfoldable pub save : CheckLogo → List ℤ
unfolding save_lines
save c = pos c.n_no_logo ∷ pos c.n_logo ∷ pos (length c.line_hook) ∷ save_lines c.line_hook

-- `while( iPairs--)`.
unfoldable pub load_pairs : ℕ → List ℤ → Option (List Testpair × List ℤ)
load_pairs zero xs = some ([], xs)
load_pairs (suc n) (x ∷ y ∷ xs) = do
  (ps, rest) ← load_pairs n xs
  some (record { x_pos = x; x_neg = y } ∷ ps, rest)
load_pairs (suc n) (x ∷ []) = none
load_pairs (suc n) [] = none

-- `while( n_lines-- )`.
unfoldable pub load_lines : ℕ → List ℤ → Option (List Testline × List ℤ)
unfolding load_pairs
load_lines zero xs = some ([], xs)
load_lines (suc n) (l ∷ pos k ∷ xs) = do
  (ps, rest) ← load_pairs k xs
  (ls, rest') ← load_lines n rest
  some (record { line = l; pairs = ps } ∷ ls, rest')
load_lines (suc n) (l ∷ negsuc k ∷ xs) = none
load_lines (suc n) (l ∷ []) = none
load_lines (suc n) [] = none

-- The object afterwards, and what is left of the file.
unfoldable pub load : List ℤ → CheckLogo → Option (CheckLogo × List ℤ)
unfolding load_lines
load (pos k ∷ pos l ∷ pos n ∷ xs) c = do
  (ls, rest) ← load_lines n xs
  some (record c { n_no_logo = k; n_logo = l; line_hook = ls; line_offset = pos 0 }, rest)
load xs c = none

load_pairs-save_pairs :
    (ps : List Testpair) (rest : List ℤ)
    → load_pairs (length ps) (save_pairs ps ++ rest) ≡ some (ps, rest)
unfolding load_pairs save_pairs
load_pairs-save_pairs [] rest = refl
load_pairs-save_pairs (p ∷ ps) rest = rw (load_pairs-save_pairs ps rest) refl

load_lines-save_lines :
    (ls : List Testline) (rest : List ℤ)
    → load_lines (length ls) (save_lines ls ++ rest) ≡ some (ls, rest)
unfolding load_lines save_lines
load_lines-save_lines [] rest = refl
load_lines-save_lines (l ∷ ls) rest = rw (append_assoc (save_pairs l.pairs) (save_lines ls) rest) (
    rw (load_pairs-save_pairs l.pairs (save_lines ls ++ rest))
      (rw (load_lines-save_lines ls rest) refl))

-- Loading what was saved brings back the two counters and the test lines with their pairs, sets
-- the line offset to 0, leaves the rest of the object as it is, and reads no further.
pub load-save :
    (c d : CheckLogo) (rest : List ℤ)
    → load (save c ++ rest) d
      ≡ some (
        record d {
          n_no_logo = c.n_no_logo;
          n_logo = c.n_logo;
          line_hook = c.line_hook;
          line_offset = pos 0;
        },
        rest,
      )
unfolding load save
load-save c d rest = rw (load_lines-save_lines c.line_hook rest) refl
