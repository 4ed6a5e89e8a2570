-- ===== src/IndexFile/CatchUp/Caught.antt =====
-- What CatchUp leaves of the array and returns.
use noad.Prelude.{
  ℕ, zero, suc, ◌+◌, ◌≤◌, ◌<◌, ◌≡◌, refl, ◌∙◌, ap, arith, inl, inr, ◌⊎◌, sym, subst, Bool, true,
  false, if_rule, Option, none, some, List, [], ◌++◌, ◌&&◌, ◌||◌, length, drop, if◌then◌else◌,
}
use noad.Prelude.Int.{ℤ, pos, pos_part, ◌+ℤ◌, ◌-ℤ◌, ◌≤ℤ◌, ◌<ℤ◌, ltb_ℤ, leb_ℤ}
use noad.IndexFile.{Entry, IndexFile}
use noad.IndexFile.CatchUp.{
  ReadResult, read_ok, read_failed, seek_failed, Memory, no_memory, memory, Look, stat_failed,
  file_words, is_some, read_entries, grow_capacity, held, read_more, allocate, catch_up_round,
  catch_up_loop, catch_up, max_index_catch_up,
}
use noad.IndexFile.CatchUp.Loaded.{
  IsLoaded, catch_up_round-Kept, catch_up_loop-Kept, Flag, catch_up_loop-Flag,
}
use mathlib.Core.List.{append_assoc, append-nil}

-- The kinds of a look at the file.
abbrev pub HasNoMemory : Look → Type 0
HasNoMemory (file_words no_memory ws result) = Unit {0}
HasNoMemory (file_words (memory junk) ws result) = ⊥
HasNoMemory stat_failed = ⊥

abbrev pub HasUnread : Look → Type 0
HasUnread (file_words (memory junk) ws read_failed) = Unit {0}
HasUnread (file_words (memory junk) ws read_ok) = ⊥
HasUnread (file_words (memory junk) ws seek_failed) = ⊥
HasUnread (file_words no_memory ws result) = ⊥
HasUnread stat_failed = ⊥

-- The last entry is that of the file seen, where that could be read.
abbrev pub IsUpTo : Look → ℤ → Type 0
IsUpTo (file_words (memory junk) ws read_ok) last = pos (length ws) -ℤ pos 1 ≤ℤ last
IsUpTo (file_words (memory junk) ws read_failed) last = Unit {0}
IsUpTo (file_words (memory junk) ws seek_failed) last = Unit {0}
IsUpTo (file_words no_memory ws result) last = Unit {0}
IsUpTo stat_failed last = Unit {0}

IsUpTo-mono : (look : Look) (a b : ℤ) → a ≤ℤ b → IsUpTo look a → IsUpTo look b
IsUpTo-mono (file_words (memory junk) ws read_ok) a b h k = omega (arith, h, k)
IsUpTo-mono (file_words (memory junk) ws read_failed) a b h k = tt
IsUpTo-mono (file_words (memory junk) ws seek_failed) a b h k = tt
IsUpTo-mono (file_words no_memory ws result) a b h k = tt
IsUpTo-mono stat_failed a b h k = tt

-- How a round with an array ends.
data Round (look : Look) (es : List Entry) (r : IndexFile × Bool) : Type 0 where
  gone_on : (more : List Entry) → r.0.index ≡ some (es ++ more) → r.1 ≡ false → Round look es r
  given_up : HasUnread look → r.0.index ≡ none → r.0.is_open ≡ false → r.1 ≡ true → Round look es r
  out_of_memory : HasNoMemory look → Round look es r

nothing_more : (s : IndexFile) (es : List Entry) → s.index ≡ some es → s.index ≡ some (es ++ [])
nothing_more s es e = e ∙ ap some (sym (append-nil es))

old-IsUpTo :
    (mem : Memory) (ws : List ℕ) (r : ReadResult) (last : ℤ)
    → pos (length ws) -ℤ pos 1 ≤ℤ last
    → IsUpTo (file_words mem ws r) last
old-IsUpTo (memory junk) ws read_ok last h = h
old-IsUpTo (memory junk) ws read_failed last h = tt
old-IsUpTo (memory junk) ws seek_failed last h = tt
old-IsUpTo no_memory ws r last h = tt

allocate-Round :
    (s : IndexFile) (es : List Entry) (mem : Memory) (ws : List ℕ) (r : ReadResult)
    → s.index ≡ some es
    → Round (file_words mem ws r) es (allocate s mem ws (pos (length ws) -ℤ pos 1) r)
unfolding allocate read_more held
allocate-Round s es no_memory ws r e = out_of_memory tt
allocate-Round s es (memory junk) ws read_ok e =
    gone_on (drop (pos_part (s.last +ℤ pos 1)) (read_entries s.is_pes ws))
      (ap
        (λ (o : Option (List Entry)).
          some (held o s.last junk ++ drop (pos_part (s.last +ℤ pos 1)) (read_entries s.is_pes ws)))
        e)
      refl
allocate-Round s es (memory junk) ws read_failed e = given_up tt refl refl refl
allocate-Round s es (memory junk) ws seek_failed e =
    gone_on []
      (ap (λ (o : Option (List Entry)). some (held o s.last junk)) e
        ∙ ap some (sym (append-nil es)))
      refl

catch_up_round-Round :
    (look : Look) (s : IndexFile) (es : List Entry)
    → s.index ≡ some es
    → Round look es (catch_up_round s look)
unfolding catch_up_round
catch_up_round-Round stat_failed s es e = gone_on [] (nothing_more s es e) refl
catch_up_round-Round (file_words mem ws r) s es e =
    if_rule (Round (file_words mem ws r) es) (ltb_ℤ s.last (pos (length ws) -ℤ pos 1))
      (λ _. allocate-Round _ es mem ws r e) (λ old. gone_on [] (nothing_more s es e) refl)

allocate-IsUpTo :
    (s : IndexFile) (mem : Memory) (ws : List ℕ) (r : ReadResult)
    → IsUpTo (file_words mem ws r) (allocate s mem ws (pos (length ws) -ℤ pos 1) r).0.last
unfolding allocate read_more
allocate-IsUpTo s (memory junk) ws read_ok = omega arith
allocate-IsUpTo s (memory junk) ws read_failed = tt
allocate-IsUpTo s (memory junk) ws seek_failed = tt
allocate-IsUpTo s no_memory ws r = tt

catch_up_round-IsUpTo : (look : Look) (s : IndexFile) → IsUpTo look (catch_up_round s look).0.last
unfolding catch_up_round
catch_up_round-IsUpTo stat_failed s = tt
catch_up_round-IsUpTo (file_words mem ws r) s =
    if_rule (λ (x : IndexFile × Bool). IsUpTo (file_words mem ws r) x.0.last)
      (ltb_ℤ s.last (pos (length ws) -ℤ pos 1))
      (λ _.
        allocate-IsUpTo
          (record s { capacity = grow_capacity s.capacity (pos (length ws) -ℤ pos 1) }) mem ws r)
      (λ old. old-IsUpTo mem ws r s.last (ground (arith, old)))

-- How CatchUp ends from an array `es` and round `lo`, before round `hi`.
pub data Ended (looks : ℕ → Look) (index : ℤ) (s : IndexFile) (es : List Entry) (lo hi : ℕ)
    (r : IndexFile × Bool) : Type 0 where
  grown :
      (more : List Entry)
      → r.0.index ≡ some (es ++ more)
      → r.1 ≡ true
      → Ended looks index s es lo hi r
  unread :
      (k : ℕ)
      → lo ≤ k
      → k < hi
      → HasUnread (looks k)
      → r.0.index ≡ none
      → r.0.is_open ≡ false
      → r.1 ≡ false
      → Ended looks index s es lo hi r
  refused :
      (k : ℕ)
      → lo ≤ k
      → k < hi
      → HasNoMemory (looks k)
      → Flag looks index r
      → Ended looks index s es lo hi r

module _ (looks : ℕ → Look) (index : ℤ) where
  none_left :
      (s : IndexFile) (es : List Entry) (lo hi : ℕ)
      → s.index ≡ some es
      → Ended looks index s es lo hi (s, is_some s.index)
  none_left s es lo hi e = grown [] (nothing_more s es e) (ap is_some e)

  -- A round that has only appended, and what follows it.
  later-Ended :
      (s : IndexFile) (es more : List Entry) (i hi : ℕ) (s' : IndexFile) (r : IndexFile × Bool)
      → Ended looks index s' (es ++ more) (i + 1) hi r
      → Ended looks index s es i hi r
  later-Ended s es more i hi s' r (grown further e flag) =
      grown (more ++ further) (e ∙ ap some (append_assoc es more further)) flag
  later-Ended s es more i hi s' r (unread k lo below h e shut flag) =
      unread k (omega arith) below h e shut flag
  later-Ended s es more i hi s' r (refused k lo below h flag) = refused k (omega arith) below h flag

  -- The end of a round, where the rest of the loop ends from any array.
  next-Ended :
      (s : IndexFile) (es : List Entry) (i hi : ℕ) (r rest : IndexFile × Bool)
      → i < hi
      → Round (looks i) es r
      → Flag looks index (
          if r.1
          then (r.0, is_some r.0.index)
          else if leb_ℤ r.0.last index
          then rest
          else (r.0, true))
      → ((fs : List Entry) → r.0.index ≡ some fs → Ended looks index r.0 fs (i + 1) hi rest)
      → Ended looks index s es i hi (
          if r.1
          then (r.0, is_some r.0.index)
          else if leb_ℤ r.0.last index
          then rest
          else (r.0, true))
  next-Ended s es i hi r rest below (out_of_memory h) flag ih = refused i (omega arith) below h flag
  next-Ended s es i hi r rest below (given_up h e shut broken) flag ih =
      if_rule (Ended looks index s es i hi) r.1
        (λ _. unread i (omega arith) below h e shut (ap is_some e)) (λ on. absurd cc)
  next-Ended s es i hi r rest below (gone_on more e on) flag ih =
      if_rule (Ended looks index s es i hi) r.1 (λ broken. absurd cc)
        (λ _.
          if_rule (Ended looks index s es i hi) (leb_ℤ r.0.last index)
            (λ _. later-Ended s es more i hi r.0 rest (ih (es ++ more) e)) (λ _. grown more e refl))

  catch_up_loop-Ended :
      (rounds i : ℕ) (s : IndexFile) (es : List Entry)
      → s.index ≡ some es
      → Ended looks index s es i (i + rounds) (catch_up_loop rounds looks i index s)
  unfolding catch_up_loop
  catch_up_loop-Ended zero i s es e = none_left s es i (i + zero) e
  catch_up_loop-Ended (suc rounds) i s es e =
      let r = catch_up_round s (looks i) in
      let rest = catch_up_loop rounds looks (i + 1) index r.0 in
      let flag = catch_up_loop-Flag looks index (suc rounds) i s in
      if_rule (λ x. Flag looks index x → Ended looks index s es i (i + suc rounds) x)
        (ltb_ℤ index (pos 0) || leb_ℤ s.last index)
        (λ _ f.
          next-Ended s es i (i + suc rounds) r rest (omega arith)
            (catch_up_round-Round (looks i) s es e) f
            (λ fs at.
              subst (λ hi. Ended looks index r.0 fs (i + 1) hi rest) (omega arith)
                (catch_up_loop-Ended rounds (i + 1) r.0 fs at)))
        (λ _ _. none_left s es i (i + suc rounds) e) flag

  -- Either the index was long enough, or all that the first look shows is there.
  abbrev pub IsServed : Look → IndexFile → IndexFile → Type 0
  IsServed look s t = ((pos 0 ≤ℤ index) × (index <ℤ s.last)) ⊎ IsUpTo look t.last

  catch_up_loop-IsServed :
      (rounds i : ℕ) (s : IndexFile)
      → IsLoaded s
      → IsServed (looks i) s (catch_up_loop (suc rounds) looks i index s).0
  unfolding catch_up_loop
  catch_up_loop-IsServed rounds i s v =
      let r = catch_up_round s (looks i) in
      let up = catch_up_round-IsUpTo (looks i) s in
      let (w, _) = catch_up_round-Kept s (looks i) v in
      let (_, further) = catch_up_loop-Kept looks index rounds (i + 1) r.0 w in
      let Served : IndexFile × Bool → Type 0 = λ x. IsServed (looks i) s x.0 in
      if_rule Served (ltb_ℤ index (pos 0) || leb_ℤ s.last index)
        (λ _.
          if_rule Served r.1 (λ _. inr up)
            (λ _.
              if_rule Served (leb_ℤ r.0.last index)
                (λ _. inr (IsUpTo-mono (looks i) _ _ further up)) (λ _. inr up)))
        (λ off. inl (ground (arith, off)))

-- What CatchUp guarantees of an array and an open file.
pub record CaughtUp (looks : ℕ → Look) (index : ℤ) (s : IndexFile) (es : List Entry)
    (r : IndexFile × Bool) : Type 0 where
  pub loaded : IsLoaded r.0
  pub served : IsServed looks index (looks 0) s r.0
  pub ended : Ended looks index s es 0 (suc max_index_catch_up) r

-- With the array loaded and the file open, and whatever the file looks like in the rounds, CatchUp
-- keeps what is loaded in step with the last entry and within its room. The index was before the
-- last entry, or all entries of the first look are counted, if they could be read. And one of three
-- things: the array has only been appended to, and the result is true; or in one of the nine
-- rounds the file could not be read, and then there is no array, the file is shut, and the result
-- is false; or in one of them realloc failed, and then the result says whether there is an array,
-- or it is true with no array, for an index before the last entry.
pub catch_up-CaughtUp :
    (looks : ℕ → Look) (index : ℤ) (s : IndexFile) (es : List Entry)
    → s.index ≡ some es
    → s.is_open ≡ true
    → IsLoaded s
    → CaughtUp looks index s es (catch_up looks index s)
unfolding catch_up
catch_up-CaughtUp looks index s es e open_file v =
    if_rule (CaughtUp looks index s es) (is_some s.index && s.is_open)
      (λ _. record {
        loaded = (catch_up_loop-Kept looks index (suc max_index_catch_up) 0 s v).0;
        served = catch_up_loop-IsServed looks index max_index_catch_up 0 s v;
        ended =
            subst
              (λ hi.
                Ended looks index s es 0 hi
                  (catch_up_loop (suc max_index_catch_up) looks 0 index s))
              (omega arith) (catch_up_loop-Ended looks index (suc max_index_catch_up) 0 s es e);
      })
      (λ off. absurd (shut (ap is_some e) off))
  where
    shut : is_some s.index ≡ true → (is_some s.index && s.is_open) ≡ false → ⊥
    shut there off = cc
