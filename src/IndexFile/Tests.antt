-- ===== src/IndexFile/Tests.antt =====
-- The theorems on the frame index at a concrete recording.
use noad.Prelude.{
  ℕ, zero, suc, ◌+◌, ◌^◌, ◌*◌, ◌≤◌, ◌≡◌, ◌↔◌, refl, arith, Bool, true, false, Option, none, some,
  List, [], ◌∷◌, get_elem?,
}
use noad.Prelude.Int.{◌+ℤ◌, ◌-ℤ◌, ℤ, pos, negsuc, ◌<ℤ◌}
use noad.IndexFile.{
  Entry, Frame, IndexFile, next_i_frame, scan_bound, get_place, noad_get, length_to, is_before,
}
use noad.IndexFile.Words.{ts_entry, length_to-eq}
use noad.IndexFile.Scan.{NextIFrame, PrevIFrame}
use noad.IndexFile.NextFrame.{next_i_frame-forward, next_i_frame-backward}
use noad.IndexFile.Place.{IsAscending, get_place-noad_get}
use noad.IndexFile.CatchUp.{Look, stat_failed, file_words, no_memory, memory, read_ok, catch_up}
use noad.IndexFile.CatchUp.Loaded.{IsLoaded}
use noad.IndexFile.CatchUp.Caught.{CaughtUp, catch_up-CaughtUp}
use noad.IndexFile.Extra.{FrameInfo, get_last, index_ex_size, set_index_ex, set_index_ex-outside}
use noad.IndexFile.Size.{InOneFile}

abbrev entry : ℕ → Bool → Entry
entry o i = record { offset = o; reserved = 0; independent = i; number = 1 }

abbrev four_entries : List Entry
four_entries = entry 0 true ∷ entry 1000 false ∷ entry 2000 true ∷ entry 3000 false ∷ []

abbrev recording : IndexFile
recording = record {
  index = some four_entries;
  last = pos 3;
  capacity = pos 8;
  is_open = true;
  is_pes = false;
  interval = pos 0;
  last_get_value = pos 0;
}

next_i_frame-forward_example :
    (r : Option ℤ) × (next_i_frame 4 recording (pos 0) true false ≡ some r)
    × NextIFrame four_entries (pos 0) (scan_bound recording true false) r
next_i_frame-forward_example =
    next_i_frame-forward recording four_entries (pos 0) false 3 refl (omega arith) (omega arith)

next_i_frame-backward_example :
    (r : Option ℤ) × (next_i_frame 3 recording (pos 2) false false ≡ some r)
    × PrevIFrame four_entries (pos 2) r
next_i_frame-backward_example =
    next_i_frame-backward recording four_entries (pos 2) false 2 refl (omega arith) (omega arith)

four_entries-IsAscending : IsAscending four_entries
unfolding is_before
four_entries-IsAscending zero zero e f l at_k at_j = absurd (omega arith)
four_entries-IsAscending zero (suc zero) e f l at_k at_j = ground arith
four_entries-IsAscending zero (suc (suc zero)) e f l at_k at_j = ground arith
four_entries-IsAscending zero (suc (suc (suc zero))) e f l at_k at_j = ground arith
four_entries-IsAscending zero (suc (suc (suc (suc j)))) e f l at_k at_j = cc
four_entries-IsAscending (suc zero) zero e f l at_k at_j = absurd (omega arith)
four_entries-IsAscending (suc zero) (suc zero) e f l at_k at_j = absurd (omega arith)
four_entries-IsAscending (suc zero) (suc (suc zero)) e f l at_k at_j = ground arith
four_entries-IsAscending (suc zero) (suc (suc (suc zero))) e f l at_k at_j = ground arith
four_entries-IsAscending (suc zero) (suc (suc (suc (suc j)))) e f l at_k at_j = cc
four_entries-IsAscending (suc (suc zero)) (suc (suc (suc zero))) e f l at_k at_j = ground arith
four_entries-IsAscending (suc (suc zero)) (suc (suc (suc (suc j)))) e f l at_k at_j = cc
four_entries-IsAscending (suc (suc zero)) zero e f l at_k at_j = absurd (omega arith)
four_entries-IsAscending (suc (suc zero)) (suc zero) e f l at_k at_j = absurd (omega arith)
four_entries-IsAscending (suc (suc zero)) (suc (suc zero)) e f l at_k at_j = absurd (omega arith)
four_entries-IsAscending (suc (suc (suc zero))) zero e f l at_k at_j = absurd (omega arith)
four_entries-IsAscending (suc (suc (suc zero))) (suc zero) e f l at_k at_j = absurd (omega arith)
four_entries-IsAscending (suc (suc (suc zero))) (suc (suc zero)) e f l at_k at_j =
    absurd (omega arith)
four_entries-IsAscending (suc (suc (suc zero))) (suc (suc (suc zero))) e f l at_k at_j =
    absurd (omega arith)
four_entries-IsAscending (suc (suc (suc zero))) (suc (suc (suc (suc j)))) e f l at_k at_j = cc
four_entries-IsAscending (suc (suc (suc (suc k)))) j e f l at_k at_j = cc

abbrev second_frame : Frame
second_frame = record {
  file_number = 1;
  file_offset = 1000;
  is_independent = false;
  frame_length = pos 1000;
}

get_place-noad_get_example : get_place recording 1 1000 ≡ pos 1
unfolding noad_get ◌+ℤ◌
get_place-noad_get_example =
    get_place-noad_get recording four_entries 1 second_frame refl (omega arith)
      four_entries-IsAscending refl

recording-IsLoaded : IsLoaded recording
unfolding ◌+ℤ◌
recording-IsLoaded = record {
  filled = λ es e. ground arith;
  room = ground arith;
  counted = ground arith;
}

-- The word of an entry that is independent, in file 1.
abbrev independent_word : ℕ → ℕ
independent_word o = o + 2 ^ 47 + 2 ^ 48

abbrev grown_words : List ℕ
grown_words = 0 ∷ 1000 ∷ 2000 ∷ 3000 ∷ independent_word 4000 ∷ []

-- The file grows by one entry in the second round.
abbrev looks : ℕ → Look
looks zero = stat_failed
looks (suc i) = file_words (memory (λ k. entry k true)) grown_words read_ok

catch_up-CaughtUp_example :
    CaughtUp looks (pos 3) recording four_entries (catch_up looks (pos 3) recording)
catch_up-CaughtUp_example =
    catch_up-CaughtUp looks (pos 3) recording four_entries refl refl recording-IsLoaded

abbrev fifth_offset : Option Entry → Option ℕ
fifth_offset none = none
fifth_offset (some e) = some e.offset

abbrev elements : Option (List Entry) → List Entry
elements none = []
elements (some es) = es

fifth_entry :
    fifth_offset (get_elem? (elements (catch_up looks (pos 3) recording).0.index) 4) ≡ some 4000
unfolding catch_up ◌+ℤ◌ ◌-ℤ◌ ts_entry
fifth_entry = refl

-- Without memory CatchUp says that there is an array where there is none.
refused_but_true :
    catch_up (λ i. file_words no_memory grown_words read_ok) (negsuc 0) recording
    ≡ (record recording { index = none }, true)
unfolding catch_up ◌+ℤ◌ ◌-ℤ◌
refused_but_true = refl

length_to-eq_example : length_to (entry 5000000000 true) (entry 5000001000 false) ≡ pos 1000
length_to-eq_example =
    length_to-eq (entry 5000000000 true) (entry 5000001000 false) refl (omega arith) (omega arith)

abbrev no_info : FrameInfo
no_info = record { is_logo = pos 0; black_top = pos 0; black_bottom = pos 0 }

set_index_ex-outside_example :
    (set_index_ex recording (no_info ∷ no_info ∷ no_info ∷ []) (pos 3) no_info ≡ none)
    ↔ ((pos 3 ≡ get_last recording) × (pos 0 <ℤ get_last recording))
unfolding index_ex_size
set_index_ex-outside_example =
    set_index_ex-outside recording (no_info ∷ no_info ∷ no_info ∷ []) (pos 3) no_info refl

recording-InOneFile : InOneFile recording four_entries 1 (λ k. k * 1000)
recording-InOneFile = record {
  has_index = refl;
  no_interval = refl;
  starts = starts;
  grows = λ k. omega arith;
  below = λ k. omega arith;
}
  where
    starts :
        (k : ℕ)
        → k ≤ 3
        → (e : Entry) × (get_elem? four_entries k ≡ some e) × (e.number ≡ 1) × (e.offset ≡ k * 1000)
    starts zero h = (entry 0 true, refl, refl, refl)
    starts (suc zero) h = (entry 1000 false, refl, refl, refl)
    starts (suc (suc zero)) h = (entry 2000 true, refl, refl, refl)
    starts (suc (suc (suc zero))) h = (entry 3000 false, refl, refl, refl)
    starts (suc (suc (suc (suc k)))) h = absurd (omega arith)
