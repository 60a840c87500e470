-- ===== src/Runtime/Keeps.antt =====
-- What an action leaves true, whether it returns, raises or leaves the program: one rule for each way
-- to build an action.
use xkernel.Base.{Bool, true, false, if◌then◌else◌, List, Option, some, Exception}
use xkernel.Base.Text.{Text}
use xkernel.Base.Int.{ℤ}
use xkernel.Tables.{Tables}
use xkernel.Runtime.{Host, World, Run, Outcome, returned, raised, exited, continue, Command}
use xkernel.Runtime.{State, ◌>>=◌, pure, raise, exit, gets, set_cs_file, set_ss_file, set_guards}
use xkernel.Runtime.{ask, give, when, set_runtime, get_runtime_state, state_of}

module _ ⦃host : Host⦄ where
  pub record Keeps {A : Type 0} (P : World → Type 0) (m : Run A) : Type 0 where
    pub at : (w : World) → P w → P (m w).1

  module _ {A : Type 0} {P : World → Type 0} where
    pub Keeps-pure : (a : A) → Keeps P (pure a)
    unfolding pure
    Keeps-pure a = record { at = λ w h. h }

    pub Keeps-raise : (e : Exception) → Keeps P (raise {A = A} e)
    unfolding raise
    Keeps-raise e = record { at = λ w h. h }

    pub Keeps-exit : Keeps P (exit {A = A})
    unfolding exit
    Keeps-exit = record { at = λ w h. h }

    pub Keeps-gets : (f : World → A) → Keeps P (gets f)
    unfolding gets
    Keeps-gets f = record { at = λ w h. h }

    pub Keeps-if : (b : Bool) (m n : Run A) → Keeps P m → Keeps P n → Keeps P (if b then m else n)
    Keeps-if true m n km kn = km
    Keeps-if false m n km kn = kn

  module _ {A B : Type 0} {P : World → Type 0} where
    continue-keeps :
        (r : Outcome A) (f : A → Run B) (w : World)
        → ((a : A) → Keeps P (f a))
        → P w
        → P (continue r f w).1
    unfolding continue
    continue-keeps (returned a) f w kf h = (kf a).at w h
    continue-keeps (raised e) f w kf h = h
    continue-keeps exited f w kf h = h

    pub Keeps-bind :
        (m : Run A) (f : A → Run B) → Keeps P m → ((a : A) → Keeps P (f a)) → Keeps P (m >>= f)
    unfolding ◌>>=◌
    Keeps-bind m f km kf = record {
      at = λ w h. let (r, v) = m w in continue-keeps r f v kf (km.at w h);
    }

  module _ {P : World → Type 0} where
    pub Keeps-when : (b : Bool) (m : Run Unit) → Keeps P m → Keeps P (when b m)
    unfolding when pure
    Keeps-when true m k = k
    Keeps-when false m k = record { at = λ w h. h }

-- A property of the runtime state and the tables alone.
module _ ⦃host : Host⦄ where
  pub record On (Q : Option State → Tables → Type 0) (w : World) : Type 0 where
    pub holds : Q w.runtime w.tables

  module _ {Q : Option State → Tables → Type 0} where
    pub Keeps-ask : {A : Type 0} (q : host.K → A × host.K) → Keeps (On Q) (ask q)
    unfolding ask
    Keeps-ask q = record { at = λ w h. record { holds = h.holds } }

    pub Keeps-give : (c : Command) → Keeps (On Q) (give c)
    unfolding give
    Keeps-give c = record { at = λ w h. record { holds = h.holds } }

    pub Keeps-set_cs_file : (lines : List Text) → Keeps (On Q) (set_cs_file lines)
    unfolding set_cs_file
    Keeps-set_cs_file lines = record { at = λ w h. record { holds = h.holds } }

    pub Keeps-set_ss_file : (lines : List Text) → Keeps (On Q) (set_ss_file lines)
    unfolding set_ss_file
    Keeps-set_ss_file lines = record { at = λ w h. record { holds = h.holds } }

    pub Keeps-set_guards : (guards : List (Text × ℤ × ℤ)) → Keeps (On Q) (set_guards guards)
    unfolding set_guards
    Keeps-set_guards guards = record { at = λ w h. record { holds = h.holds } }

    pub Keeps-update :
        {B : Type 0} (f : State → State) (m : Run B)
        → ((r : Option State) (t : Tables) → Q r t → Q (some (f (state_of r))) t)
        → Keeps (On Q) m
        → Keeps (On Q) (get_runtime_state >>= λ s. (set_runtime (f s) >>= λ _. m))
    unfolding get_runtime_state set_runtime ◌>>=◌ gets continue
    Keeps-update f m hf k = record {
      at = λ w h.
          k.at (record w { runtime = some (f (state_of w.runtime)) })
            (record { holds = hf w.runtime w.tables h.holds });
    }

pub ruleset keeps_rules = (
  Keeps-pure, Keeps-raise, Keeps-exit, Keeps-gets, Keeps-if, Keeps-bind, Keeps-when, Keeps-ask,
  Keeps-give, Keeps-set_cs_file, Keeps-set_ss_file, Keeps-set_guards,
)
