-- ===== src/Engine/Termination.antt =====
-- How an action of rust/src/engine.rs may end: with a value, with the source's `Err` where `F` holds, or
-- blocked where `B` does; never in a panic, and never out of fuel.
pub mod Attempts
pub mod Boundary
pub mod Rounds
pub mod Runs
use dssp_bot.Prelude.{◌∷◌, String, Bool, true, false, ◌≡◌, refl, Result, ok, err, if◌then◌else◌}
use dssp_bot.State
use dssp_bot.State.{AutomationState}
use dssp_bot.Engine.Effects
use dssp_bot.Engine.Effects.{
  Event, Trace, Env, World, Ending, done, failed, blocked, panicked, out_of_fuel, Action, pure, end,
  exchange, ◌>>=◌, require, emit, try_transition, transition, raise_refusal, stop_requested,
}

-- What asks nothing of the world.
abbrev pub Anywhere : World → Type 0
Anywhere w = Unit

module _ {A : Type 0} where
  abbrev pub EndsWell : Type 0 → Type 0 → (A → World → Type 0) → Ending A → World → Type 0
  EndsWell F B Q (done a) w = Q a w
  EndsWell F B Q (failed e) w = F
  EndsWell F B Q blocked w = B
  EndsWell F B Q panicked w = ⊥
  EndsWell F B Q out_of_fuel w = ⊥

  pub record Ends (F B : Type 0) (P : World → Type 0) (m : Action A) (Q : A → World → Type 0)
      : Type 0 where
    pub at : (w : World) → P w → EndsWell F B Q (m w).0 (m w).1

module _ {A : Type 0} {F B : Type 0} {P : World → Type 0} {Q : A → World → Type 0} where
  pub Ends-pure : (a : A) → ((w : World) → P w → Q a w) → Ends F B P (pure a) Q
  unfolding pure
  Ends-pure a imp = record { at = imp }

  pub Ends-failed : (e : String) → F → Ends F B P (end {A = A} (failed e)) Q
  unfolding end
  Ends-failed e f = record { at = λ w p. f }

  pub Ends-blocked : B → Ends F B P (end {A = A} blocked) Q
  unfolding end
  Ends-blocked b = record { at = λ w p. b }

  pub Ends-if :
      (b : Bool) (m n : Action A)
      → (b ≡ true → Ends F B P m Q)
      → (b ≡ false → Ends F B P n Q)
      → Ends F B P (if b then m else n) Q
  Ends-if true m n hm hn = hm refl
  Ends-if false m n hm hn = hn refl

  pub Ends-weaken :
      {P' : World → Type 0} {m : Action A}
      → Ends F B P m Q
      → ((w : World) → P' w → P w)
      → Ends F B P' m Q
  Ends-weaken h pre = record { at = λ w p. h.at w (pre w p) }

  pub Ends-absurd : (m : Action A) → ((w : World) → P w → ⊥) → Ends F B P m Q
  Ends-absurd m none = record { at = λ w p. elim (none w p) [ ] }

  pub Ends-exchange :
      (answer : Trace → A) (event : A → Event)
      → ((w : World)
          → P w
          → Q (answer w.trace) (record w { trace = event (answer w.trace) ∷ w.trace }))
      → Ends F B P (exchange answer event) Q
  unfolding exchange
  Ends-exchange answer event step = record { at = step }

module _ {A : Type 0} {F B : Type 0} {Q : A → World → Type 0} where
  -- A fact that the world carries.
  pub Ends-given :
      {X : Type 0} {P : World → Type 0} {m : Action A}
      → ((w : World) → P w → X)
      → (X → Ends F B Anywhere m Q)
      → Ends F B P m Q
  Ends-given fact h = record { at = λ w p. (h (fact w p)).at w tt }

module _ {A C : Type 0} where
  continue_lem :
      (F B : Type 0) (R : A → World → Type 0) (Q : C → World → Type 0) (r : Ending A)
      (f : A → Action C) (w : World)
      → ((a : A) → Ends F B (R a) (f a) Q)
      → EndsWell F B R r w
      → EndsWell F B Q (Effects.continue r f w).0 (Effects.continue r f w).1
  continue_lem F B R Q (done a) f w hf h = (hf a).at w h
  continue_lem F B R Q (failed e) f w hf h = h
  continue_lem F B R Q blocked f w hf h = h
  continue_lem F B R Q panicked f w hf h = elim h [ ]
  continue_lem F B R Q out_of_fuel f w hf h = elim h [ ]

  pub Ends-bind :
      {F B : Type 0} {P : World → Type 0} {R : A → World → Type 0} {Q : C → World → Type 0}
      (m : Action A) (f : A → Action C)
      → Ends F B P m R
      → ((a : A) → Ends F B (R a) (f a) Q)
      → Ends F B P (m >>= f) Q
  unfolding ◌>>=◌
  Ends-bind {F} {B} {R} {Q} m f hm hf = record {
    at = λ w p. let (r, w') = m w in continue_lem F B R Q r f w' hf (hm.at w p);
  }

EndsWell-allow :
    {A : Type 0} {C F : Type 0} (Q : A → World → Type 0) (r : Ending A) (w : World)
    → (C → F)
    → EndsWell C C Q r w
    → EndsWell F C Q r w
EndsWell-allow Q (done a) w imp h = h
EndsWell-allow Q (failed e) w imp h = imp h
EndsWell-allow Q blocked w imp h = h
EndsWell-allow Q panicked w imp h = h
EndsWell-allow Q out_of_fuel w imp h = h

-- Where more failures are allowed.
pub Ends-allow :
    {A : Type 0} {C F : Type 0} {P : World → Type 0} {Q : A → World → Type 0} {m : Action A}
    → (C → F)
    → Ends C C P m Q
    → Ends F C P m Q
Ends-allow {Q} {m} imp h = record { at = λ w p. EndsWell-allow Q (m w).0 (m w).1 imp (h.at w p) }

-- An engine without control neither waits nor fails.
abbrev pub Within : Env → {A : Type 0} → (World → Type 0) → Action A → (A → World → Type 0) → Type 0
Within env P m Q = Ends (env.controlled ≡ true) (env.controlled ≡ true) P m Q

abbrev pub Finishes : Env → {A : Type 0} → Action A → Type 0
Finishes env m = Within env Anywhere m (λ _ w. Unit)

module _ (env : Env) where
  pub require-Finishes :
      (what : String) (r : Result (Unit {0}))
      → env.controlled ≡ true
      → Finishes env (require what r)
  unfolding require
  require-Finishes what (ok u) c = Ends-pure tt (λ w h. tt)
  require-Finishes what (err e) c = Ends-failed _ c

  pub try_transition-Finishes : (s : AutomationState) → Finishes env (try_transition s)
  unfolding try_transition
  try_transition-Finishes s = record { at = λ w h. tt }

  pub emit-Finishes : (e : Event) → Finishes env (emit e)
  unfolding emit
  emit-Finishes e = record { at = λ w h. tt }

  raise_refusal_lem :
      (r : Result (Unit {0})) (w : World)
      → env.controlled ≡ true
      → EndsWell (env.controlled ≡ true) (env.controlled ≡ true) (λ _ w. Unit) (raise_refusal r) w
  raise_refusal_lem (ok u) w c = tt
  raise_refusal_lem (err e) w c = c

  pub transition-Finishes :
      (s : AutomationState) → env.controlled ≡ true → Finishes env (transition s)
  unfolding transition
  transition-Finishes s c = record {
    at = λ w h. raise_refusal_lem (State.transition_to w.machine s).0 _ c;
  }

  -- A stop is read only under control.
  pub Within-stop :
      {A : Type 0} (m n : Action A)
      → (env.controlled ≡ true → Finishes env m)
      → Finishes env n
      → Finishes env (do stop ← stop_requested env; if stop then m else n)
  unfolding stop_requested
  Within-stop m n hm hn =
      Ends-bind {R = λ stop w. stop ≡ true → env.controlled ≡ true} _ _
        (Ends-if env.controlled _ _ (λ c. Ends-exchange _ _ (λ w h e. c))
          (λ c. Ends-pure false (λ w h e. cc)))
        (λ stop.
          Ends-if stop m n (λ e. Ends-given (λ w h. h e) hm) (λ e. Ends-weaken hn (λ w h. tt)))
