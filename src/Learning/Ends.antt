-- ===== src/Learning/Ends.antt =====
-- newData of CGetLogo over a run of accepted pictures.
use noad.Prelude.{◌+◌, ◌/◌, ◌++◌, ◌≤◌, ◌≡◌, arith, Option, none, some, List, [], ◌∷◌, length}
use noad.CheckLogo.{Testline}
use noad.Learning.{Buffer, Settings, GetLogo, accept}
use noad.Learning.Phase.{
  IsLearning, progress, started_again, filtered, checked, found, accept-Outcome,
}

-- An accepted picture.
abbrev pub taken : Settings → Buffer → GetLogo → GetLogo × Option (List Testline)
taken s p g = accept s p (record g { ref_picture = p })

-- The lines that are handed on, or the start again, of one of the pictures.
pub data Ends (s : Settings) : GetLogo → List Buffer → Type 0 where
  with_logo :
      {g : GetLogo} {p : Buffer} {ps : List Buffer} (lines : List Testline)
      → (taken s p g).1 ≡ some lines
      → Ends s g (p ∷ ps)
  again :
      {g : GetLogo} {p : Buffer} {ps : List Buffer}
      → (taken s p g).1 ≡ none
      → progress (taken s p g).0 ≡ 0
      → Ends s g (p ∷ ps)
  later :
      {g : GetLogo} {p : Buffer} {ps : List Buffer}
      → (taken s p g).1 ≡ none
      → Ends s (taken s p g).0 ps
      → Ends s g (p ∷ ps)

-- While a corner learns, as many accepted pictures as there are filter and check pictures left
-- make it hand on its test lines or start again.
pub accept-Ends :
    (s : Settings) (f : Buffer) (before ps : List Buffer) (g : GetLogo)
    → IsLearning s f before g
    → s.filter_frames + s.check_frames ≤ progress g + length ps
    → Ends s g ps
accept-Ends s f before [] g v h = absurd (omega (arith, v.unfinished, v.checked, v.filtered))
accept-Ends s f before (p ∷ ps) g v h = elim (accept-Outcome s f before p g v) [
  | started_again full poor e i z ↦ again e z
  | found lines e hook many i n ↦ with_logo lines e
  | filtered more none_yet e i n ↦
      later e (accept-Ends s (λ j. p j / 2 + f j / 2) [] ps (taken s p g).0 i (omega (arith, h, n)))
  | checked full many short e i n ↦
      later e (accept-Ends s f (before ++ p ∷ []) ps (taken s p g).0 i (omega (arith, h, n)))
]
