-- ===== src/Runtime/Unload/Poll.antt =====
-- The turns of the poll for the end of a reverse transition (src/cli.py).
use xkernel.Base.{ℕ, zero, suc, ◌+◌, ◌*◌, ◌≤◌, ◌≡◌, refl, ap, ◌∙◌, arith, Bool, true, false}
use xkernel.Base.{ltb→lt}
use xkernel.Runtime.{Host, World, Run, Command, ask, give, continue, ◌>>=◌, pure}
use xkernel.Runtime.Returns.{Returns, IsReturned}
use xkernel.Runtime.Unload.{poll_turn, poll_within, poll_reverse, poll_from_now}

-- A host's clock: it does not go back, and a sleep of some milliseconds takes no less.
pub record Clock (host : Host) : Type 0 where
  pub now : host.K → ℕ
  pub time_shows : (k : host.K) → (host.time k).0 ≡ now k
  pub time_goes_on : (k : host.K) → now k ≤ now (host.time k).1
  pub dmesg_goes_on : (k : host.K) → now k ≤ now (host.recent_dmesg k).1
  pub sleep_lasts : (n : ℕ) (k : host.K) → now k + n ≤ now (host.command (Command.sleep n) k).1

module _ ⦃host : Host⦄ (clock : Clock host) where
  poll_turn-equal :
      (b : Bool) (m n : Run Bool) (w : World)
      → ((v : World) → clock.now w.kernel + 500 ≤ clock.now v.kernel → m v ≡ n v)
      → poll_turn b m w ≡ poll_turn b n w
  unfolding poll_turn ◌>>=◌ continue give
  poll_turn-equal true m n w h = refl
  poll_turn-equal false m n w h = h _ (clock.sleep_lasts 500 w.kernel)

  poll_within-equal :
      (b : Bool) (m n : Run Bool) (w : World)
      → (b ≡ true → (v : World) → clock.now w.kernel + 500 ≤ clock.now v.kernel → m v ≡ n v)
      → poll_within b m w ≡ poll_within b n w
  unfolding poll_within ◌>>=◌ continue ask
  poll_within-equal false m n w h = refl
  poll_within-equal true m n w h =
      poll_turn-equal _ m n _ (λ v p. h refl v (omega (arith, p, clock.dmesg_goes_on w.kernel)))

  poll_reverse-enough :
      (fuel more start : ℕ) (w : World)
      → start + 30000 ≤ clock.now w.kernel + 500 * fuel
      → poll_reverse (suc fuel) start w ≡ poll_reverse (suc (fuel + more)) start w
  unfolding poll_reverse ◌>>=◌ continue ask
  poll_reverse-enough zero more start w h =
      poll_within-equal _ _ _ _
        (λ e v p. absurd (omega (arith, h, clock.time_shows w.kernel, ltb→lt _ _ e)))
  poll_reverse-enough (suc fuel) more start w h =
      let one_more : suc (fuel + more) ≡ suc fuel + more = omega arith in
      poll_within-equal _ _ _ _ (λ e v p.
        poll_reverse-enough fuel more start v (omega (arith, h, p, clock.time_goes_on w.kernel))
        ∙ ap (λ f. poll_reverse f start v) one_more)

  poll_turn-IsReturned :
      (b : Bool) (m : Run Bool) (w : World)
      → ((v : World) → clock.now w.kernel + 500 ≤ clock.now v.kernel → IsReturned (m v).0)
      → IsReturned (poll_turn b m w).0
  unfolding poll_turn ◌>>=◌ continue give pure
  poll_turn-IsReturned true m w h = tt
  poll_turn-IsReturned false m w h = h _ (clock.sleep_lasts 500 w.kernel)

  poll_within-IsReturned :
      (b : Bool) (m : Run Bool) (w : World)
      → (b ≡ true
          → (v : World) → clock.now w.kernel + 500 ≤ clock.now v.kernel
          → IsReturned (m v).0)
      → IsReturned (poll_within b m w).0
  unfolding poll_within ◌>>=◌ continue ask pure
  poll_within-IsReturned false m w h = tt
  poll_within-IsReturned true m w h =
      poll_turn-IsReturned _ m _ (λ v p. h refl v (omega (arith, p, clock.dmesg_goes_on w.kernel)))

  poll_reverse-IsReturned :
      (fuel start : ℕ) (w : World)
      → start + 30000 ≤ clock.now w.kernel + 500 * fuel
      → IsReturned (poll_reverse (suc fuel) start w).0
  unfolding poll_reverse ◌>>=◌ continue ask
  poll_reverse-IsReturned zero start w h =
      poll_within-IsReturned _ _ _
        (λ e v p. absurd (omega (arith, h, clock.time_shows w.kernel, ltb→lt _ _ e)))
  poll_reverse-IsReturned (suc fuel) start w h = poll_within-IsReturned _ _ _ (λ e v p.
      poll_reverse-IsReturned fuel start v (omega (arith, h, p, clock.time_goes_on w.kernel)))

  -- With a clock that goes on, the poll ends before its turns are used up.
  pub Returns-poll_from_now : Returns poll_from_now
  unfolding poll_from_now ◌>>=◌ continue ask
  Returns-poll_from_now = record {
    at = λ w.
        poll_reverse-IsReturned 60 (host.time w.kernel).0
          (record w { kernel = (host.time w.kernel).1 })
          (omega (arith, clock.time_shows w.kernel, clock.time_goes_on w.kernel));
  }

  -- With a clock that goes on, the turns that the poll is given are enough: it is the same with any
  -- number of turns more, so it always stops because of its thirty seconds, or of what it reads.
  pub poll_from_now-enough :
      (more : ℕ) (w : World)
      → poll_from_now w ≡ (ask host.time >>= λ start. poll_reverse (61 + more) start) w
  unfolding poll_from_now ◌>>=◌ continue ask
  poll_from_now-enough more w =
      let v : World = record w { kernel = (host.time w.kernel).1 } in
      poll_reverse-enough 60 more (host.time w.kernel).0 v
        (omega (arith, clock.time_shows w.kernel, clock.time_goes_on w.kernel))
      ∙ ap (λ f. poll_reverse f (host.time w.kernel).0 v) (omega arith)
