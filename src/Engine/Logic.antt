-- ===== src/Engine/Logic.antt =====
-- Rules for what an action of the engine ensures, one for each way to build an action.
use dssp_bot.Prelude.{◌∷◌, String, Bool, true, false, ◌≡◌, refl, Result, ok, err, if◌then◌else◌}
use dssp_bot.State
use dssp_bot.State.{AutomationState}
use dssp_bot.Engine.Effects
use dssp_bot.Engine.Effects.{
  Event, Trace, World, Ending, done, failed, blocked, panicked, out_of_fuel, Action, pure, end,
  exchange, ◌>>=◌, require, emit, try_transition, transition, raise_refusal,
}

module _ {A : Type 0} where
  -- `Q` of a value that was returned, `E` where the action ended in any other way.
  abbrev pub Post : (A → World → Type 0) → (World → Type 0) → Ending A → World → Type 0
  Post Q E (done a) w = Q a w
  Post Q E (failed e) w = E w
  Post Q E blocked w = E w
  Post Q E panicked w = E w
  Post Q E out_of_fuel w = E w

  pub record Ensures (P : World → Type 0) (m : Action A) (Q : A → World → Type 0)
      (E : World → Type 0) : Type 0 where
    pub at : (w : World) → P w → Post Q E (m w).0 (m w).1

  Post-mono :
      (Q R : A → World → Type 0) (E : World → Type 0) (r : Ending A) (w : World)
      → ((a : A) → Q a w → R a w)
      → Post Q E r w
      → Post R E r w
  Post-mono Q R E (done a) w imp h = imp a h
  Post-mono Q R E (failed e) w imp h = h
  Post-mono Q R E blocked w imp h = h
  Post-mono Q R E panicked w imp h = h
  Post-mono Q R E out_of_fuel w imp h = h

module _ {A : Type 0} {P : World → Type 0} {E : World → Type 0} where
  pub Ensures-pure :
      {Q : A → World → Type 0} (a : A) → ((w : World) → P w → Q a w) → Ensures P (pure a) Q E
  unfolding pure
  Ensures-pure a imp = record { at = imp }

  pub Ensures-failed :
      {Q : A → World → Type 0} (e : String)
      → ((w : World) → P w → E w)
      → Ensures P (end {A = A} (failed e)) Q E
  unfolding end
  Ensures-failed e imp = record { at = imp }

  pub Ensures-blocked :
      {Q : A → World → Type 0} → ((w : World) → P w → E w) → Ensures P (end {A = A} blocked) Q E
  unfolding end
  Ensures-blocked imp = record { at = imp }

  pub Ensures-panicked :
      {Q : A → World → Type 0} → ((w : World) → P w → E w) → Ensures P (end {A = A} panicked) Q E
  unfolding end
  Ensures-panicked imp = record { at = imp }

  pub Ensures-out_of_fuel :
      {Q : A → World → Type 0} → ((w : World) → P w → E w) → Ensures P (end {A = A} out_of_fuel) Q E
  unfolding end
  Ensures-out_of_fuel imp = record { at = imp }

  pub Ensures-if :
      {Q : A → World → Type 0} (b : Bool) (m n : Action A)
      → (b ≡ true → Ensures P m Q E)
      → (b ≡ false → Ensures P n Q E)
      → Ensures P (if b then m else n) Q E
  Ensures-if true m n hm hn = hm refl
  Ensures-if false m n hm hn = hn refl

  pub Ensures-weaken :
      {P' : World → Type 0} {Q Q' : A → World → Type 0} {m : Action A}
      → Ensures P m Q E
      → ((w : World) → P' w → P w)
      → ((a : A) (w : World) → Q a w → Q' a w)
      → Ensures P' m Q' E
  Ensures-weaken {Q} {Q'} {m} h pre post = record {
    at = λ w p. let (r, w') = m w in Post-mono Q Q' E r w' (λ a q. post a w' q) (h.at w (pre w p));
  }

  pub Ensures-exchange :
      {Q : A → World → Type 0} (answer : Trace → A) (event : A → Event)
      → ((w : World) (a : A) → P w → Q a (record w { trace = event a ∷ w.trace }))
      → Ensures P (exchange answer event) Q E
  unfolding exchange
  Ensures-exchange answer event step = record { at = λ w p. step w (answer w.trace) p }

module _ {A B : Type 0} where
  continue_lem :
      (R : A → World → Type 0) (Q : B → World → Type 0) (E : World → Type 0) (r : Ending A)
      (f : A → Action B) (w : World)
      → ((a : A) → Ensures (R a) (f a) Q E)
      → Post R E r w
      → Post Q E (Effects.continue r f w).0 (Effects.continue r f w).1
  continue_lem R Q E (done a) f w hf h = (hf a).at w h
  continue_lem R Q E (failed e) f w hf h = h
  continue_lem R Q E blocked f w hf h = h
  continue_lem R Q E panicked f w hf h = h
  continue_lem R Q E out_of_fuel f w hf h = h

  pub Ensures-bind :
      {P E : World → Type 0} {R : A → World → Type 0} {Q : B → World → Type 0} (m : Action A)
      (f : A → Action B)
      → Ensures P m R E
      → ((a : A) → Ensures (R a) (f a) Q E)
      → Ensures P (m >>= f) Q E
  unfolding ◌>>=◌
  Ensures-bind {E} {R} {Q} m f hm hf = record {
    at = λ w p. let (r, w') = m w in continue_lem R Q E r f w' hf (hm.at w p);
  }

-- What a state's assertion says of values alone may be used throughout.
pub Ensures-given :
    {A X : Type 0} {P E : World → Type 0} {Q : A → World → Type 0} (m : Action A)
    → (X → Ensures P m Q E)
    → Ensures (λ w. X × P w) m Q E
Ensures-given m h = record { at = λ w (x, p). (h x).at w p }

-- Whatever the ending.
abbrev pub Keeps : {A : Type 0} → (World → Type 0) → Action A → Type 0
Keeps P m = Ensures P m (λ _ w. P w) P

module _ {A : Type 0} where
  Post-fault :
      (P E : World → Type 0) (r : Ending A) (w : World)
      → ((w : World) → P w → E w)
      → Post (λ _ w. P w) P r w
      → Post (λ _ w. P w) E r w
  Post-fault P E (done a) w imp h = h
  Post-fault P E (failed e) w imp h = imp w h
  Post-fault P E blocked w imp h = imp w h
  Post-fault P E panicked w imp h = imp w h
  Post-fault P E out_of_fuel w imp h = imp w h

  -- Where a fault leaves less to be shown.
  pub Ensures_of_Keeps :
      {P E : World → Type 0} {m : Action A}
      → Keeps P m
      → ((w : World) → P w → E w)
      → Ensures P m (λ _ w. P w) E
  Ensures_of_Keeps {P} {E} {m} h imp = record {
    at = λ w p. let (r, w') = m w in Post-fault P E r w' imp (h.at w p);
  }

-- What holds of the trace.
abbrev pub On : (Trace → Type 0) → World → Type 0
On J w = J w.trace

module _ (J : Trace → Type 0) where
  pub require-Keeps : (what : String) (r : Result (Unit {0})) → Keeps (On J) (require what r)
  unfolding require
  require-Keeps what (ok u) = Ensures-pure tt (λ w h. h)
  require-Keeps what (err e) = Ensures-failed _ (λ w h. h)

  pub try_transition-Keeps : (s : AutomationState) → Keeps (On J) (try_transition s)
  unfolding try_transition
  try_transition-Keeps s = record { at = λ w h. h }

  raise_refusal_lem :
      (r : Result (Unit {0})) (w : World)
      → J w.trace
      → Post (λ _ w. J w.trace) (On J) (raise_refusal r) w
  raise_refusal_lem (ok u) w h = h
  raise_refusal_lem (err e) w h = h

  pub transition-Keeps : (s : AutomationState) → Keeps (On J) (transition s)
  unfolding transition
  transition-Keeps s = record {
    at = λ w h.
        let (r, m) = State.transition_to w.machine s in
        raise_refusal_lem r (record w { machine = m }) h;
  }
