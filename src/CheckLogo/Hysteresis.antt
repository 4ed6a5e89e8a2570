-- ===== src/CheckLogo/Hysteresis.antt =====
-- The two counters of checkTestlines over a run of pictures.
use noad.Prelude.{
  ℕ, suc, ◌+◌, ◌-◌, ◌≡◌, refl, ◌∙◌, ap, arith, Bool, true, false, List, [], ◌∷◌, ltb, ◌==◌, not,
  if◌then◌else◌,
}
use noad.CheckLogo.{CheckLogo, Verdict, logo, no_logo, unsure, settle}

unfoldable pub settle_all : List Verdict → CheckLogo → CheckLogo
settle_all [] c = c
settle_all (v ∷ vs) c = settle_all vs (settle v c)

-- A switch with one counter: the state, how many pictures speak against it, and how many pictures
-- for it are passed over before one of them clears that count.
pub record Switch : Type 0 where
  pub on : Bool
  pub against : ℕ
  pub patience : ℕ

-- A picture that speaks for the state.
unfoldable pub agree : Switch → Switch
agree w = record w { against = if w.patience == 0 then 0 else w.against; patience = w.patience - 1 }

-- A picture that speaks against it: one more than the threshold turns the state, with no patience.
unfoldable pub object : ℕ → Switch → Switch
object t w =
    if ltb t (w.against + 1)
    then record { on = not w.on; against = 0; patience = 0 }
    else record w { against = w.against + 1 }

unfoldable pub observe : ℕ → Verdict → Switch → Switch
unfolding agree object
observe t unsure w = w
observe t logo w = if w.on then agree w else object t w
observe t no_logo w = if w.on then object t w else agree w

pub observe_all : ℕ → List Verdict → Switch → Switch
observe_all t [] w = w
observe_all t (v ∷ vs) w = observe_all t vs (observe t v w)

-- The switch that the two counters stand for.
abbrev pub switch_of : Bool → CheckLogo → Switch
switch_of true c = record { on = true; against = c.n_no_logo; patience = c.treshold - c.n_logo }
switch_of false c = record { on = false; against = c.n_logo; patience = c.treshold - c.n_no_logo }

settle-treshold : (v : Verdict) (c : CheckLogo) → (settle v c).treshold ≡ c.treshold
unfolding settle
settle-treshold logo c = ground arith
settle-treshold no_logo c = ground arith
settle-treshold unsure c = refl

switch-settle :
    (v : Verdict) (c : CheckLogo) (b : Bool)
    → c.is_logo ≡ b
    → switch_of (settle v c).is_logo (settle v c) ≡ observe c.treshold v (switch_of b c)
unfolding settle observe agree object
switch-settle logo c true e = ground arith
switch-settle logo c false e = ground arith
switch-settle no_logo c true e = ground arith
switch-settle no_logo c false e = ground arith
switch-settle unsure c true e = ground arith
switch-settle unsure c false e = ground arith

-- Over any run of pictures, and from any counters, the two counters with their resets act as one
-- switch: the state turns when one more picture than the threshold speaks against it, and behind
-- a turn any picture that speaks for the new state clears what speaks against it; before the first
-- turn as many as are missing to the threshold do not. Unsure pictures do nothing.
pub switch-settle_all :
    (vs : List Verdict) (c : CheckLogo)
    → let d = settle_all vs c in
      switch_of d.is_logo d ≡ observe_all c.treshold vs (switch_of c.is_logo c)
unfolding settle_all observe_all
switch-settle_all [] c = refl
switch-settle_all (v ∷ vs) c =
    switch-settle_all vs (settle v c)
    ∙ ap (λ t. observe_all t vs (switch_of (settle v c).is_logo (settle v c))) (settle-treshold v c)
    ∙ ap (observe_all c.treshold vs) (switch-settle v c c.is_logo refl)

-- The pictures that surely speak against a state, and the count of them in the object.
unfoldable pub objections : Bool → List Verdict → ℕ
objections b [] = 0
objections true (no_logo ∷ vs) = suc (objections true vs)
objections true (logo ∷ vs) = objections true vs
objections true (unsure ∷ vs) = objections true vs
objections false (logo ∷ vs) = suc (objections false vs)
objections false (no_logo ∷ vs) = objections false vs
objections false (unsure ∷ vs) = objections false vs

abbrev pub counted_against : Bool → CheckLogo → ℕ
counted_against true c = c.n_no_logo
counted_against false c = c.n_logo
