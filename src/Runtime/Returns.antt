-- ===== src/Runtime/Returns.antt =====
-- Actions that return, from every world.
use xkernel.Base.{Bool, true, false, if◌then◌else◌}
use xkernel.Tables.{Tables}
use xkernel.Runtime.{Host, World, Run, Outcome, returned, raised, exited, continue, Command}
use xkernel.Runtime.{State, ◌>>=◌, pure, gets, ask, give, when, set_runtime, set_tables}

-- The call has returned.
abbrev pub IsReturned : {A : Type 0} → Outcome A → Type 0
IsReturned (returned a) = Unit
IsReturned (raised e) = ⊥
IsReturned exited = ⊥

module _ ⦃host : Host⦄ where
  pub record Returns {A : Type 0} (m : Run A) : Type 0 where
    pub at : (w : World) → IsReturned (m w).0

  module _ {A : Type 0} where
    pub Returns-pure : (a : A) → Returns (pure a)
    unfolding pure
    Returns-pure a = record { at = λ w. tt }

    pub Returns-gets : (f : World → A) → Returns (gets f)
    unfolding gets
    Returns-gets f = record { at = λ w. tt }

    pub Returns-ask : (q : host.K → A × host.K) → Returns (ask q)
    unfolding ask
    Returns-ask q = record { at = λ w. tt }

    pub Returns-if : (b : Bool) (m n : Run A) → Returns m → Returns n → Returns (if b then m else n)
    Returns-if true m n km kn = km
    Returns-if false m n km kn = kn

  pub Returns-give : (c : Command) → Returns (give c)
  unfolding give
  Returns-give c = record { at = λ w. tt }

  pub Returns-set_runtime : (s : State) → Returns (set_runtime s)
  unfolding set_runtime
  Returns-set_runtime s = record { at = λ w. tt }

  pub Returns-set_tables : (f : Tables → Tables) → Returns (set_tables f)
  unfolding set_tables
  Returns-set_tables f = record { at = λ w. tt }

  pub Returns-when : (b : Bool) (m : Run Unit) → Returns m → Returns (when b m)
  unfolding when
  Returns-when true m k = k
  Returns-when false m k = Returns-pure tt

  module _ {A B : Type 0} where
    continue-IsReturned :
        (r : Outcome A) (f : A → Run B) (w : World)
        → IsReturned r
        → ((a : A) → Returns (f a))
        → IsReturned (continue r f w).0
    unfolding continue
    continue-IsReturned (returned a) f w h kf = (kf a).at w
    continue-IsReturned (raised e) f w h kf = absurd h
    continue-IsReturned exited f w h kf = absurd h

    pub Returns-bind :
        (m : Run A) (f : A → Run B) → Returns m → ((a : A) → Returns (f a)) → Returns (m >>= f)
    unfolding ◌>>=◌
    Returns-bind m f km kf = record {
      at = λ w. let (r, v) = m w in continue-IsReturned r f v (km.at w) kf;
    }

pub ruleset returns_rules = (
  Returns-pure, Returns-gets, Returns-ask, Returns-if, Returns-give, Returns-set_runtime,
  Returns-set_tables, Returns-when, Returns-bind,
)
