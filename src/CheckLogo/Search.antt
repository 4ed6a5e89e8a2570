-- ===== src/CheckLogo/Search.antt =====
-- CCheckLogo::newData: a picture at the known line offset, and the search at the other offsets.
-- logocb, which only the views of VNOAD read, is left out.
use noad.Prelude.{
  ℕ, zero, suc, ◌+◌, ◌*◌, ◌/◌, ◌≤◌, ◌≡◌, refl, ◌∙◌, arith, Bool, true, false, not, ltb, List, [],
  ◌∷◌, ◌&&◌, if◌then◌else◌, length, inl, inr, ◌⊎◌, Bool-cases, if_rule, sym, subst,
}
use noad.Prelude.Int.{ℤ, pos, pos_part, ◌+ℤ◌, ◌-ℤ◌, eqb_ℤ, ltb_ℤ, eq_of_parts}
use noad.CheckLogo.{
  CheckLogo, Testline, check_testlines, tally_lines, no_tally, cut_off, verdict, settle,
  settle_elsewhere,
}

-- `for( i = …; i < iMax && !isLogo; i++ )` with the rounds left, and iMaxPairs.
unfoldable pub search_loop : ℕ → ℤ → (ℤ → ℕ) → ℤ → ℕ → CheckLogo → CheckLogo
search_loop zero size_x src i max_pairs c = c
search_loop (suc n) size_x src i max_pairs c =
    let r = check_testlines size_x src c.line_hook i c in
    let better = r.0.is_logo && ltb max_pairs r.1 in
    let rest =
      search_loop n size_x src (i +ℤ pos 1) (if better then r.1 else max_pairs)
        (if better then record r.0 { line_offset = i } else r.0) in
    if c.is_logo then c else rest

-- The search with the threshold 0, for a first test line above line 200. `size_y` is m_nSizeY.
unfoldable pub search : ℤ → ℕ → (ℤ → ℕ) → ℤ → CheckLogo → CheckLogo
unfolding search_loop
search size_x size_y src line c =
    let rounds = pos_part (pos size_y -ℤ pos (length c.line_hook)) in
    let found =
      if ltb_ℤ line (pos 200)
      then search_loop rounds size_x src (pos 0 -ℤ line) 0 (record c { treshold = 0 })
      else record c { treshold = 0 } in
    record found { treshold = c.treshold }

-- totalPairsOk, totalChecks and deltaPairsOk, if the logo is there.
unfoldable pub count_pairs : ℕ → CheckLogo → CheckLogo
count_pairs ok c =
    if c.is_logo
    then record c {
      total_pairs_ok = c.total_pairs_ok + ok;
      total_checks = c.total_checks + 1;
      delta_pairs_ok = (c.total_pairs_ok + ok) / (c.total_checks + 1);
    }
    else c

-- With m_pData->extLogoSearch, m_chCornerData, and m_linehook.
unfoldable pub new_data_for : Bool → ℤ → ℕ → (ℤ → ℕ) → List Testline → CheckLogo → CheckLogo
unfolding search count_pairs
new_data_for ext size_x size_y src [] c = record c { is_logo = false }
new_data_for ext size_x size_y src (l ∷ ls) c =
    let r = check_testlines size_x src c.line_hook c.line_offset c in
    let c' = count_pairs r.1 r.0 in
    if not c'.is_logo && ext then search size_x size_y src l.line c' else c'

unfoldable pub new_data : Bool → ℤ → ℕ → (ℤ → ℕ) → CheckLogo → CheckLogo
unfolding new_data_for
new_data ext size_x size_y src c = new_data_for ext size_x size_y src c.line_hook c

-- At another line offset the logo is seen if eight tenths of the pairs fit.
abbrev pub IsHit : ℤ → (ℤ → ℕ) → CheckLogo → Type 0
IsHit size_x src c =
    let t = tally_lines size_x src c.line_offset c.line_hook no_tally in
    (c.is_logo ≡ true) × (t.sum_pair * 8 / 10 ≤ t.rest_pair)

-- The lines and the other offset stay, or the offset is one where the logo is seen.
record Kept (size_x : ℤ) (src : ℤ → ℕ) (c d : CheckLogo) : Type 0 where
  lines : d.line_hook ≡ c.line_hook
  offset : (d.line_offset ≡ c.line_offset) ⊎ IsHit size_x src d

check_testlines-keeps :
    (size_x : ℤ) (src : ℤ → ℕ) (tl : List Testline) (y : ℤ) (c : CheckLogo)
    → let r = check_testlines size_x src tl y c in
      (r.0.line_hook ≡ c.line_hook)
      × (r.0.line_offset ≡ c.line_offset)
      × (r.0.treshold ≡ c.treshold)
unfolding check_testlines settle settle_elsewhere
check_testlines-keeps size_x src tl y c = ground arith

check_testlines-hit :
    (size_x : ℤ) (src : ℤ → ℕ) (tl : List Testline) (y : ℤ) (c : CheckLogo)
    → let r = check_testlines size_x src tl y c in
      r.0.is_logo ≡ true
      → (y ≡ c.line_offset)
        ⊎ (let t = tally_lines size_x src y tl no_tally in t.sum_pair * 8 / 10 ≤ t.rest_pair)
unfolding check_testlines settle_elsewhere verdict cut_off
check_testlines-hit size_x src tl y c h = elim (Bool-cases (eqb_ℤ y c.line_offset)) [
  | inl e ↦ inl (eq_of_parts y c.line_offset (ground arith))
  | inr e ↦ inr (ground arith)
]

and_true : (a b : Bool) → a && b ≡ true → a ≡ true
and_true true b h = refl
and_true false b h = h

-- While the logo is not seen, the line offset is the old one.
offset_off :
    (size_x : ℤ) (src : ℤ → ℕ) (c d : CheckLogo)
    → Kept size_x src c d
    → d.is_logo ≡ false
    → d.line_offset ≡ c.line_offset
offset_off size_x src c d k off = elim k.offset [
  | inl same ↦ same
  | inr hit ↦ let z : true ≡ false = sym hit.0 ∙ off in cc
]

hit-Kept :
    (size_x : ℤ) (src : ℤ → ℕ) (i : ℤ) (c d : CheckLogo)
    → let r = check_testlines size_x src d.line_hook i d in
      d.line_offset ≡ c.line_offset
      → d.line_hook ≡ c.line_hook
      → r.0.is_logo ≡ true
      → Kept size_x src c (record r.0 { line_offset = i })
hit-Kept size_x src i c d same lines on =
    let r = check_testlines size_x src d.line_hook i d in
    let hook = (check_testlines-keeps size_x src d.line_hook i d).0 in
    record {
      lines = hook ∙ lines;
      offset = elim (check_testlines-hit size_x src d.line_hook i d on) [
        | inl here ↦ inl (here ∙ same)
        | inr fit ↦ inr (
          on,
          subst
              (λ tl.
                let t = tally_lines size_x src i tl no_tally in t.sum_pair * 8 / 10 ≤ t.rest_pair)
              (sym hook) fit,
        )
      ];
    }

search_loop-Kept :
    (n : ℕ) (size_x : ℤ) (src : ℤ → ℕ) (i : ℤ) (max_pairs : ℕ) (c d : CheckLogo)
    → Kept size_x src c d
    → Kept size_x src c (search_loop n size_x src i max_pairs d)
unfolding search_loop
search_loop-Kept zero size_x src i max_pairs c d k = k
search_loop-Kept (suc n) size_x src i max_pairs c d k =
    let r = check_testlines size_x src d.line_hook i d in
    let better = r.0.is_logo && ltb max_pairs r.1 in
    let (hook, at, _) = check_testlines-keeps size_x src d.line_hook i d in
    if_rule (Kept size_x src c) d.is_logo (λ on. k)
      (λ off.
        let same = offset_off size_x src c d k off in
        search_loop-Kept n size_x src (i +ℤ pos 1) _ c _ (
          if_rule (Kept size_x src c) better
            (λ hit. hit-Kept size_x src i c d same k.lines (and_true _ _ hit))
            (λ miss. record { lines = hook ∙ k.lines; offset = inl (at ∙ same) })))

-- A new threshold, or new totals, change nothing of this.
search-Kept :
    (size_x : ℤ) (size_y : ℕ) (src : ℤ → ℕ) (line : ℤ) (c : CheckLogo)
    → Kept size_x src c (search size_x size_y src line c)
unfolding search
search-Kept size_x size_y src line c = elim (Bool-cases (ltb_ℤ line (pos 200))) [
  | inl e ↦
      let k =
        search_loop-Kept (pos_part (pos size_y -ℤ pos (length c.line_hook))) size_x src
          (pos 0 -ℤ line) 0 (record c { treshold = 0 }) (record c { treshold = 0 })
          (record { lines = refl; offset = inl refl }) in
      rw e (record { lines = k.lines; offset = k.offset })
  | inr e ↦ rw e (record { lines = refl; offset = inl refl })
]

count_pairs-keeps :
    (ok : ℕ) (c : CheckLogo)
    → ((count_pairs ok c).line_hook ≡ c.line_hook)
      × ((count_pairs ok c).line_offset ≡ c.line_offset)
unfolding count_pairs
count_pairs-keeps ok c = ground arith

new_data_for-Kept :
    (ext : Bool) (size_x : ℤ) (size_y : ℕ) (src : ℤ → ℕ) (tl : List Testline) (c : CheckLogo)
    → Kept size_x src c (new_data_for ext size_x size_y src tl c)
unfolding new_data_for
new_data_for-Kept ext size_x size_y src [] c = record { lines = refl; offset = inl refl }
new_data_for-Kept ext size_x size_y src (l ∷ ls) c =
    let r = check_testlines size_x src c.line_hook c.line_offset c in
    let c' = count_pairs r.1 r.0 in
    let (hook, at, _) = check_testlines-keeps size_x src c.line_hook c.line_offset c in
    let (hook', at') = count_pairs-keeps r.1 r.0 in
    let k = search-Kept size_x size_y src l.line c' in
    if_rule (Kept size_x src c) (not c'.is_logo && ext)
      (λ _. record {
        lines = k.lines ∙ hook' ∙ hook;
        offset = elim k.offset [ inl same ↦ inl (same ∙ at' ∙ at) | inr hit ↦ inr hit ];
      })
      (λ _. record { lines = hook' ∙ hook; offset = inl (at' ∙ at) })

-- NewData keeps the test lines, and it keeps the line offset too, unless the picture shows the
-- logo at the new offset, where at least eight tenths of the pairs fit.
pub new_data-offset :
    (ext : Bool) (size_x : ℤ) (size_y : ℕ) (src : ℤ → ℕ) (c : CheckLogo)
    → let d = new_data ext size_x size_y src c in
      (d.line_hook ≡ c.line_hook) × ((d.line_offset ≡ c.line_offset) ⊎ IsHit size_x src d)
unfolding new_data
new_data-offset ext size_x size_y src c =
    let k = new_data_for-Kept ext size_x size_y src c.line_hook c in (k.lines, k.offset)
