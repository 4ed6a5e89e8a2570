-- ===== src/IndexFile/CatchUp/Loaded.antt =====
-- CatchUp keeps the array and the number of the last entry in step.
use noad.Prelude.{
  ℕ, zero, suc, ◌+◌, ◌≡◌, refl, ◌∙◌, ap, arith, inl, inr, ◌⊎◌, sym, Bool, true, false, if_rule,
  Option, none, some, List, ◌++◌, ◌||◌, length, drop, length-append, length-drop, length-map,
}
use noad.Prelude.Int.{
  ℤ, pos, pos_part, neg_part, ◌+ℤ◌, ◌-ℤ◌, ◌≤ℤ◌, ◌<ℤ◌, ltb_ℤ, leb_ℤ, +ℤ_parts, -ℤ_parts, eq_of_parts,
}
use noad.IndexFile.{Entry, IndexFile}
use noad.IndexFile.Words.{convert_from_pes}
use noad.IndexFile.CatchUp.{
  ReadResult, read_ok, read_failed, seek_failed, Memory, no_memory, memory, Look, stat_failed,
  file_words, is_some, read_entries, grow_capacity, anything, held, read_more, allocate,
  catch_up_round, catch_up_loop,
}
use mathlib.Core.Option.{some-injective}

-- The array, if there is one, holds the entries 0 to `last`, and has room for them.
pub record IsLoaded (s : IndexFile) : Type 0 where
  pub filled : (es : List Entry) → s.index ≡ some es → pos (length es) ≡ s.last +ℤ pos 1
  pub room : s.last +ℤ pos 1 ≤ℤ s.capacity
  pub counted : pos 0 ≤ℤ s.last +ℤ pos 1

grow_capacity-room :
    (size last new_last : ℤ)
    → pos 0 ≤ℤ last +ℤ pos 1
    → last +ℤ pos 1 ≤ℤ size
    → last <ℤ new_last
    → new_last +ℤ pos 1 ≤ℤ grow_capacity size new_last
unfolding grow_capacity ◌+ℤ◌
grow_capacity-room size last new_last h k l = ground arith

length-read_entries : (pes : Bool) (ws : List ℕ) → length (read_entries pes ws) ≡ length ws
unfolding read_entries convert_from_pes
length-read_entries true ws = length-map ws _
length-read_entries false ws = length-map ws _

filled_some :
    (es : List Entry) (last : ℤ) (s : Option (List Entry))
    → s ≡ some es
    → pos (length es) ≡ last +ℤ pos 1
    → (fs : List Entry) → s ≡ some fs
    → pos (length fs) ≡ last +ℤ pos 1
filled_some es last s e h fs f = rw (some-injective fs es (sym f ∙ e)) h

length-more :
    (es fs : List Entry) (last : ℤ)
    → pos (length es) ≡ last +ℤ pos 1
    → last <ℤ pos (length fs) -ℤ pos 1
    → length (es ++ drop (pos_part (last +ℤ pos 1)) fs) ≡ length fs
length-more es fs last h l = omega (
  arith,
  length-append es (drop (pos_part (last +ℤ pos 1)) fs),
  length-drop (pos_part (last +ℤ pos 1)) fs,
  ap pos_part h,
  ap neg_part h,
  +ℤ_parts last (pos 1),
  -ℤ_parts (pos (length fs)) (pos 1),
)

-- A step keeps the array loaded and the last entry.
abbrev pub Kept : IndexFile → IndexFile → Type 0
Kept s t = IsLoaded t × (s.last ≤ℤ t.last)

length-anything : (n : ℕ) (junk : ℕ → Entry) → length (anything n junk) ≡ n
unfolding anything
length-anything zero junk = refl
length-anything (suc n) junk = ap suc (length-anything n (λ i. junk (suc i)))

pos-pos_part : (z : ℤ) → pos 0 ≤ℤ z → pos (pos_part z) ≡ z
pos-pos_part z h = ground arith

length-held :
    (s : IndexFile) (o : Option (List Entry)) (junk : ℕ → Entry)
    → s.index ≡ o
    → IsLoaded s
    → pos (length (held o s.last junk)) ≡ s.last +ℤ pos 1
unfolding held
length-held s (some es) junk e v = v.filled es e
length-held s none junk e v =
    ap pos (length-anything (pos_part (s.last +ℤ pos 1)) junk)
    ∙ pos-pos_part (s.last +ℤ pos 1) v.counted

read_more-Kept :
    (s : IndexFile) (es : List Entry) (ws : List ℕ) (r : ReadResult)
    → pos (length es) ≡ s.last +ℤ pos 1
    → IsLoaded s
    → s.last <ℤ pos (length ws) -ℤ pos 1
    → pos (length ws) -ℤ pos 1 +ℤ pos 1 ≤ℤ s.capacity
    → Kept s (read_more s es ws (pos (length ws) -ℤ pos 1) r).0
unfolding read_more
read_more-Kept s es ws read_ok h v l room =
    let more = drop (pos_part (s.last +ℤ pos 1)) (read_entries s.is_pes ws) in
    (
      record {
        filled = filled_some (es ++ more) (pos (length ws) -ℤ pos 1) (some (es ++ more)) refl (
            eq_of_parts _ _ (
              omega (
                arith,
                length-more es (read_entries s.is_pes ws) s.last h
                    (rw (length-read_entries s.is_pes ws) l),
                length-read_entries s.is_pes ws,
                +ℤ_parts (pos (length ws) -ℤ pos 1) (pos 1),
                -ℤ_parts (pos (length ws)) (pos 1),
              )));
        room = room;
        counted = omega (
          arith,
          v.counted,
          l,
          +ℤ_parts s.last (pos 1),
          +ℤ_parts (pos (length ws) -ℤ pos 1) (pos 1),
        );
      },
      omega (arith, l),
    )
read_more-Kept s es ws read_failed h v l room =
    (record { filled = λ fs e. cc; room = v.room; counted = v.counted }, omega arith)
read_more-Kept s es ws seek_failed h v l room = (
  record { filled = filled_some es s.last (some es) refl h; room = v.room; counted = v.counted },
  omega arith,
)

allocate-Kept :
    (s : IndexFile) (mem : Memory) (ws : List ℕ) (r : ReadResult)
    → IsLoaded s
    → s.last <ℤ pos (length ws) -ℤ pos 1
    → pos (length ws) -ℤ pos 1 +ℤ pos 1 ≤ℤ s.capacity
    → Kept s (allocate s mem ws (pos (length ws) -ℤ pos 1) r).0
unfolding allocate
allocate-Kept s no_memory ws r v l room =
    (record { filled = λ fs e. cc; room = v.room; counted = v.counted }, omega arith)
allocate-Kept s (memory junk) ws r v l room =
    read_more-Kept s _ ws r (length-held s s.index junk refl v) v l room

grow_capacity-le : (size new_last : ℤ) → pos 0 ≤ℤ size → size ≤ℤ grow_capacity size new_last
unfolding grow_capacity ◌+ℤ◌
grow_capacity-le size new_last h = ground arith

grown-IsLoaded :
    (s : IndexFile) (new_last : ℤ)
    → IsLoaded s
    → IsLoaded (record s { capacity = grow_capacity s.capacity new_last })
grown-IsLoaded s new_last v = record {
  filled = v.filled;
  room = omega (
    arith,
    v.room,
    v.counted,
    grow_capacity-le s.capacity new_last (omega (arith, v.room, v.counted)),
  );
  counted = v.counted;
}

pub catch_up_round-Kept :
    (s : IndexFile) (look : Look) → IsLoaded s → Kept s (catch_up_round s look).0
unfolding catch_up_round
catch_up_round-Kept s stat_failed v = (v, omega arith)
catch_up_round-Kept s (file_words mem ws r) v =
    let new_last = pos (length ws) -ℤ pos 1 in
    if_rule (λ (x : IndexFile × Bool). Kept s x.0) (ltb_ℤ s.last new_last)
      (λ new.
        let l : s.last <ℤ new_last = ground (arith, new) in
        allocate-Kept (record s { capacity = grow_capacity s.capacity new_last }) mem ws r
          (grown-IsLoaded s new_last v) l
          (grow_capacity-room s.capacity s.last new_last v.counted v.room l))
      (λ _. (v, omega arith))

module _ (looks : ℕ → Look) (index : ℤ) where
  pub catch_up_loop-Kept :
      (rounds i : ℕ) (s : IndexFile) → IsLoaded s → Kept s (catch_up_loop rounds looks i index s).0
  unfolding catch_up_loop
  catch_up_loop-Kept zero i s v = (v, omega arith)
  catch_up_loop-Kept (suc rounds) i s v =
      let r = catch_up_round s (looks i) in
      let (w, le) = catch_up_round-Kept s (looks i) v in
      let (u, further) = catch_up_loop-Kept rounds (i + 1) r.0 w in
      if_rule (λ (x : IndexFile × Bool). Kept s x.0) (ltb_ℤ index (pos 0) || leb_ℤ s.last index)
        (λ _.
          if_rule (λ (x : IndexFile × Bool). Kept s x.0) r.1 (λ _. (w, le))
            (λ _.
              if_rule (λ (x : IndexFile × Bool). Kept s x.0) (leb_ℤ r.0.last index)
                (λ _. (u, omega (arith, le, further))) (λ _. (w, le))))
        (λ _. (v, omega arith))

  -- The result says whether there is an array, or it is true, with no array, for an index before
  -- the last entry.
  abbrev pub Flag : IndexFile × Bool → Type 0
  Flag r = (r.1 ≡ is_some r.0.index) ⊎ ((r.0.index ≡ none) × (r.1 ≡ true) × (index <ℤ r.0.last))

  early-Flag :
      (s : IndexFile) (o : Option (List Entry)) → s.index ≡ o → index <ℤ s.last → Flag (s, true)
  early-Flag s none e l = inr (e, refl, l)
  early-Flag s (some es) e l = inl (ap is_some (sym e))

  pub catch_up_loop-Flag :
      (rounds i : ℕ) (s : IndexFile) → Flag (catch_up_loop rounds looks i index s)
  unfolding catch_up_loop
  catch_up_loop-Flag zero i s = inl refl
  catch_up_loop-Flag (suc rounds) i s =
      let r = catch_up_round s (looks i) in
      if_rule Flag (ltb_ℤ index (pos 0) || leb_ℤ s.last index)
        (λ _.
          if_rule Flag r.1 (λ _. inl refl)
            (λ _.
              if_rule Flag (leb_ℤ r.0.last index) (λ _. catch_up_loop-Flag rounds (i + 1) r.0)
                (λ past. early-Flag r.0 r.0.index refl (ground (arith, past)))))
        (λ _. inl refl)
