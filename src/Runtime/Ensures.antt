-- ===== src/Runtime/Ensures.antt =====
-- What holds after an action: one property where it returns, which may speak of the value, and one
-- where it raises or leaves the program.
use xkernel.Base.{◌≡◌, sym, subst, Exception}
use xkernel.Runtime.{Host, World, Run, Outcome, returned, raised, exited, continue, ◌>>=◌, pure}
use xkernel.Runtime.{raise, exit, gets}
use xkernel.Runtime.Keeps.{Keeps}

module _ ⦃host : Host⦄ where
  abbrev pub EndsIn :
      {A : Type 0} → (World → Type 0) → (A → World → Type 0) → Outcome A × World → Type 0
  EndsIn F R (returned a, w) = R a w
  EndsIn F R (raised e, w) = F w
  EndsIn F R (exited, w) = F w

  pub record Ensures {A : Type 0} (P F : World → Type 0) (m : Run A) (R : A → World → Type 0)
      : Type 0 where
    pub at : (w : World) → P w → EndsIn F R (m w)

  module _ {A : Type 0} {P F : World → Type 0} {R : A → World → Type 0} where
    pub Ensures-pure : (a : A) → ((w : World) → P w → R a w) → Ensures P F (pure a) R
    unfolding pure
    Ensures-pure a h = record { at = h }

    pub Ensures-raise : (e : Exception) → ((w : World) → P w → F w) → Ensures P F (raise e) R
    unfolding raise
    Ensures-raise e h = record { at = h }

    pub Ensures-exit : ((w : World) → P w → F w) → Ensures P F exit R
    unfolding exit
    Ensures-exit h = record { at = h }

    pub Ensures-gets : (f : World → A) → ((w : World) → P w → R (f w) w) → Ensures P F (gets f) R
    unfolding gets
    Ensures-gets f h = record { at = h }

  kept-EndsIn :
      {A : Type 0} (P : World → Type 0) (r : Outcome A) (w : World) → P w → EndsIn P (λ a. P) (r, w)
  kept-EndsIn P (returned a) w h = h
  kept-EndsIn P (raised e) w h = h
  kept-EndsIn P exited w h = h

  pub Ensures-Keeps :
      {A : Type 0} {P : World → Type 0} {m : Run A} → Keeps P m → Ensures P P m (λ a. P)
  Ensures-Keeps {A} {P} {m} k = record {
    at = λ w h. let (r, v) = m w in kept-EndsIn P r v (k.at w h);
  }

  failing-EndsIn :
      {A : Type 0} (F G : World → Type 0) (R : A → World → Type 0) (r : Outcome A) (w : World)
      → ((v : World) → F v → G v)
      → EndsIn F R (r, w)
      → EndsIn G R (r, w)
  failing-EndsIn F G R (returned a) w k h = h
  failing-EndsIn F G R (raised e) w k h = k w h
  failing-EndsIn F G R exited w k h = k w h

  pub returning-EndsIn :
      {A : Type 0} (F : World → Type 0) (R S : A → World → Type 0) (r : Outcome A) (w : World)
      → ((a : A) (v : World) → R a v → S a v)
      → EndsIn F R (r, w)
      → EndsIn F S (r, w)
  returning-EndsIn F R S (returned a) w k h = k a w h
  returning-EndsIn F R S (raised e) w k h = h
  returning-EndsIn F R S exited w k h = h

  continue-EndsIn :
      {A B : Type 0} (F : World → Type 0) (S : A → World → Type 0) (R : B → World → Type 0)
      → (r : Outcome A) (f : A → Run B) (w : World) → EndsIn F S (r, w)
      → ((a : A) → Ensures (S a) F (f a) R)
      → EndsIn F R (continue r f w)
  unfolding continue
  continue-EndsIn F S R (returned a) f w h kf = (kf a).at w h
  continue-EndsIn F S R (raised e) f w h kf = h
  continue-EndsIn F S R exited f w h kf = h

  module _ {A B : Type 0} {P F : World → Type 0} {S : A → World → Type 0}
      {R : B → World → Type 0} where
    pub Ensures-bind :
        (m : Run A) (f : A → Run B)
        → Ensures P F m S
        → ((a : A) → Ensures (S a) F (f a) R)
        → Ensures P F (m >>= f) R
    unfolding ◌>>=◌
    Ensures-bind m f km kf = record {
      at = λ w h. let (r, v) = m w in continue-EndsIn F S R r f v (km.at w h) kf;
    }

  -- The rest of a block, where the value is known.
  pub Ensures-value :
      {A B : Type 0} {P Q F : World → Type 0} {R : B → World → Type 0}
      → (c : A) (m : Run A) (f : A → Run B) → Ensures P F m (λ a w. (a ≡ c) × Q w)
      → Ensures Q F (f c) R
      → Ensures P F (m >>= f) R
  Ensures-value {F} {R} c m f km kf =
      Ensures-bind m f km
        (λ a. record { at = λ w h. subst (λ x. EndsIn F R (f x w)) (sym h.0) (kf.at w h.1) })

  pub Ensures-failing :
      {A : Type 0} {P F G : World → Type 0} {m : Run A} {R : A → World → Type 0}
      → ((w : World) → F w → G w)
      → Ensures P F m R
      → Ensures P G m R
  Ensures-failing {A} {P} {F} {G} {m} {R} h k = record {
    at = λ w p. let (r, v) = m w in failing-EndsIn F G R r v h (k.at w p);
  }

  pub Ensures-returning :
      {A : Type 0} {P F : World → Type 0} {m : Run A} {R S : A → World → Type 0}
      → ((a : A) (w : World) → R a w → S a w)
      → Ensures P F m R
      → Ensures P F m S
  Ensures-returning {A} {P} {F} {m} {R} {S} h k = record {
    at = λ w p. let (r, v) = m w in returning-EndsIn F R S r v h (k.at w p);
  }
