-- ===== src/Runtime/Spans/Update.antt =====
-- What the span maps hold after their update.
use xkernel.Base.{ℕ, suc, ◌+◌, ◌^◌, ◌<◌, ◌≤◌, ◌≡◌, refl, sym, ap, ◌∙◌, arith, List, [], ◌∷◌, ◌++◌}
use xkernel.Base.{map, append_assoc, append-nil, Option, some, none, All, if◌then◌else◌, ◌=ℕ◌}
use xkernel.Base.{length, take, drop, nat_eq}
use xkernel.Base.Int.{ℤ, pos, negsuc}
use xkernel.Runtime.{Host, World, Command, returned, give, pure, continue, ◌>>=◌}
use xkernel.Runtime.Maps.{le_bytes, from_bytes, pack_or_raise, update_map_by_id}
use xkernel.Runtime.Maps.Bytes.{from_bytes-le_bytes, length-le_bytes}
use xkernel.Runtime.Maps.Epoch.{pack-fits}
use xkernel.Runtime.Spans.{Span, pack_integer, both_bytes, pack_span, update_spans}

-- An address of 64 bits.
abbrev pub IsAddress : ℤ → Type 0
IsAddress (pos n) = n < 256 ^ 8
IsAddress (negsuc n) = ⊥

abbrev pub IsAddresses : Span → Type 0
IsAddresses s = IsAddress s.0 × IsAddress s.1

-- What the programs read from a map after an update: the index and the span.
unfoldable pub decode : ℕ → Command → Option (ℕ × ℤ × ℤ)
decode m (Command.map_update id key val) =
    if id =ℕ m
    then some (from_bytes key, pos (from_bytes (take 8 val)), pos (from_bytes (drop 8 val)))
    else none
decode m _ = none

unfoldable pub numbered : ℕ → List Span → List (Option (ℕ × ℤ × ℤ))
numbered i [] = []
numbered i ((soff, eoff) ∷ ss) = some (i, soff, eoff) ∷ numbered (suc i) ss

pack_span-fits :
    (a b : ℕ)
    → a < 256 ^ 8
    → b < 256 ^ 8
    → pack_span (pos a, pos b) ≡ some (le_bytes 8 a ++ le_bytes 8 b)
unfolding pack_span pack_integer both_bytes
pack_span-fits a b h k = rw (pack-fits 8 a h, pack-fits 8 b k) refl

take-append : (xs ys : List ℕ) → take (length xs) (xs ++ ys) ≡ xs
take-append [] ys = refl
take-append (x ∷ xs) ys = ap (λ l. x ∷ l) (take-append xs ys)

drop-append : (xs ys : List ℕ) → drop (length xs) (xs ++ ys) ≡ ys
drop-append [] ys = refl
drop-append (x ∷ xs) ys = drop-append xs ys

take-le_bytes : (n a : ℕ) (ys : List ℕ) → take n (le_bytes n a ++ ys) ≡ le_bytes n a
take-le_bytes n a ys =
    ap (λ k. take k (le_bytes n a ++ ys)) (sym (length-le_bytes n a))
    ∙ take-append (le_bytes n a) ys

drop-le_bytes : (n a : ℕ) (ys : List ℕ) → drop n (le_bytes n a ++ ys) ≡ ys
drop-le_bytes n a ys =
    ap (λ k. drop k (le_bytes n a ++ ys)) (sym (length-le_bytes n a))
    ∙ drop-append (le_bytes n a) ys

decode-entry :
    (m i a b : ℕ)
    → i < 256 ^ 4
    → a < 256 ^ 8
    → b < 256 ^ 8
    → decode m (Command.map_update m (le_bytes 4 i) (le_bytes 8 a ++ le_bytes 8 b))
      ≡ some (i, pos a, pos b)
unfolding decode
decode-entry m i a b h k l =
    rw
      (
        (nat_eq.means m m).1 refl,
        from_bytes-le_bytes 4 i h,
        take-le_bytes 8 a (le_bytes 8 b),
        drop-le_bytes 8 a (le_bytes 8 b),
        from_bytes-le_bytes 8 a k,
        from_bytes-le_bytes 8 b l,
      )
      refl

module _ ⦃host : Host⦄ where
  -- The updates of a span map from an index on: the call returns, and what was written to the map
  -- reads as the spans, in their order, at the indices that follow.
  pub update_spans-reads :
      (m i : ℕ) (ss : List Span) (w : World)
      → All IsAddresses ss
      → i + length ss ≤ 256 ^ 4
      → ((update_spans m i ss w).0 ≡ returned tt)
        × (given : List Command) × ((update_spans m i ss w).1.log ≡ w.log ++ given)
        × (map (decode m) given ≡ numbered i ss)
  unfolding update_spans numbered pure update_map_by_id ◌>>=◌ continue pack_or_raise give
  update_spans-reads m i [] w h k = (refl, [], sym (append-nil w.log), refl)
  update_spans-reads m i ((pos a, pos b) ∷ ss) w h k =
      let c = Command.map_update m (le_bytes 4 i) (le_bytes 8 a ++ le_bytes 8 b) in
      let v : World = record w { log = w.log ++ (c ∷ []); kernel = (host.command c w.kernel).1 } in
      let ih = update_spans-reads m (suc i) ss v h.1 (omega (arith, k)) in
      rw (pack-fits 4 i (omega (arith, k)), pack_span-fits a b h.0.0 h.0.1)
        (
          ih.0,
          c ∷ ih.1,
          ih.2 ∙ append_assoc w.log (c ∷ []) ih.1,
          rw (decode-entry m i a b (omega (arith, k)) h.0.0 h.0.1)
              (ap (λ l. some (i, pos a, pos b) ∷ l) ih.3),
        )
  update_spans-reads m i ((pos a, negsuc b) ∷ ss) w h k = absurd h.0.1
  update_spans-reads m i ((negsuc a, b) ∷ ss) w h k = absurd h.0.0
