-- ===== src/Runtime/Maps/Epoch.antt =====
-- The epoch of a per-task transition, which is a number of 32 bits.
use xkernel.Base.{ℕ, suc, ◌+◌, ◌^◌, ◌<◌, ◌≡◌, refl, ap, arith, Bool, true, false, List, [], ◌∷◌}
use xkernel.Base.{◌++◌, struct_error, if◌then◌else◌, some, none, ◌⊎◌, inl, inr, ltb, ltb→lt}
use xkernel.Base.{length}
use xkernel.Base.Dict.{Dict}
use xkernel.Base.Text.{Text, text, lstrip_char}
use xkernel.Runtime.{Host, World, Command, raised, ask, give, pure, raise, continue, ◌>>=◌}
use xkernel.Runtime.Maps.{le_bytes, pack, from_bytes, find_map, current_epoch, zero_key, pin_name}
use xkernel.Runtime.Maps.{underscored, pack_or_raise, update_map_by_id, set_map, set_bss_variable}
use xkernel.Runtime.Maps.{bump_found, bump_epoch}
use xkernel.Runtime.Maps.Bytes.{current_epoch-bound, pack-round_trip}

pub pack-cases :
    (n v : ℕ)
    → ((v < 256 ^ n) × (pack n v ≡ some (le_bytes n v))) ⊎ ((256 ^ n < suc v) × (pack n v ≡ none))
unfolding pack
pack-cases n v = by_test (ltb v (256 ^ n)) refl
  where
    by_test :
        (b : Bool)
        → ltb v (256 ^ n) ≡ b
        → ((v < 256 ^ n) × ((if b then some (le_bytes n v) else none) ≡ some (le_bytes n v)))
          ⊎ ((256 ^ n < suc v) × ((if b then some (le_bytes n v) else none) ≡ none))
    by_test true e = inl (ltb→lt v (256 ^ n) e, refl)
    by_test false e = inr (ground arith, refl)

pub pack-fits : (n v : ℕ) → v < 256 ^ n → pack n v ≡ some (le_bytes n v)
pack-fits n v h = elim (pack-cases n v) [ inl p ↦ p.1 | inr p ↦ absurd (omega (arith, h, p.0)) ]

module _ ⦃host : Host⦄ where
  -- The epoch that the map holds, as it is read.
  abbrev pub epoch_in : ℕ → World → ℕ
  epoch_in i w = current_epoch (host.map_dump i w.kernel).0

  set_map-written :
      (i v : ℕ) (bytes : List ℕ) (w : World)
      → pack 4 v ≡ some bytes
      → (set_map (some i) v w).1.log ≡ w.log ++ (Command.map_update i zero_key bytes ∷ [])
  unfolding set_map pack_or_raise update_map_by_id give pure ◌>>=◌ continue
  set_map-written i v bytes w h = rw h refl

  set_map-refused :
      (i v : ℕ) (w : World) → pack 4 v ≡ none → set_map (some i) v w ≡ (raised struct_error, w)
  unfolding set_map pack_or_raise raise ◌>>=◌ continue
  set_map-refused i v w h = rw h refl

  after_read : (i : ℕ) → World → World
  after_read i w = record w { kernel = (host.map_dump i w.kernel).1 }

  bump_epoch-set :
      (map_info : Dict Text ℕ) (i : ℕ) (w : World)
      → find_map (text ".bss.xk_epoch") (text "_bss_xk_epoch") map_info ≡ some i
      → bump_epoch map_info w ≡ set_map (some i) (epoch_in i w + 1) (after_read i w)
  unfolding bump_epoch bump_found set_bss_variable ask pin_name text ◌>>=◌ continue after_read
      underscored lstrip_char
  bump_epoch-set map_info i w h = simp h refl

  -- Where a ConstID has the map of its epoch, the epoch is bumped by one update of that map, to the
  -- four bytes of the number that follows; but the largest number of 32 bits has none: then the call
  -- raises `struct.error`, and nothing is written.
  pub bump_epoch-outcome :
      (map_info : Dict Text ℕ) (i : ℕ) (w : World)
      → find_map (text ".bss.xk_epoch") (text "_bss_xk_epoch") map_info ≡ some i
      → ((epoch_in i w < 4294967295)
          × (bytes : List ℕ) × ((bump_epoch map_info w).1.log
              ≡ w.log ++ (Command.map_update i zero_key bytes ∷ []))
          × (length bytes ≡ 4)
          × (from_bytes bytes ≡ epoch_in i w + 1))
        ⊎ ((epoch_in i w ≡ 4294967295)
            × ((bump_epoch map_info w).0 ≡ raised struct_error)
            × ((bump_epoch map_info w).1.log ≡ w.log))
  unfolding after_read
  bump_epoch-outcome map_info i w h =
      rw (bump_epoch-set map_info i w h) (elim (pack-cases 4 (epoch_in i w + 1)) [
        | inl p ↦
            let q = pack-round_trip 4 (epoch_in i w + 1) _ p.1 in
            inl (
              omega (arith, p.0),
              le_bytes 4 (epoch_in i w + 1),
              set_map-written i (epoch_in i w + 1) _ (after_read i w) p.1,
              q.0,
              q.1,
            )
        | inr p ↦
            let e = set_map-refused i (epoch_in i w + 1) (after_read i w) p.1 in
            inr (
              omega (arith, p.0, current_epoch-bound (host.map_dump i w.kernel).0),
              ap (λ r. r.0) e,
              ap (λ r. r.1.log) e,
            )
      ])
