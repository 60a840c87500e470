-- ===== src/Runtime/Maps/Bytes.antt =====
-- The bytes of a number, written by `struct.pack` and read by `int.from_bytes`.
use xkernel.Base.{ℕ, zero, suc, ◌*◌, ◌/◌, ◌^◌, ◌<◌, ◌≡◌, refl, subst, ap, arith, Bool, true}
use xkernel.Base.{false, List, [], ◌∷◌, Option, some, none, ltb, leb, ltb→lt, length}
use xkernel.Base.{if◌then◌else◌}
use xkernel.Base.Int.{ℤ, pos, negsuc}
use xkernel.Base.Text.{Text, parse_int}
use xkernel.Runtime.Maps.{le_bytes, pack, from_bytes, byte_of, cons_option, bytes_of, number_of}
use xkernel.Runtime.Maps.{current_epoch}

quotient_lem : (v b : ℕ) → v < b * 256 → v / 256 < b
quotient_lem v b h = omega arith

pub from_bytes-le_bytes : (n v : ℕ) → v < 256 ^ n → from_bytes (le_bytes n v) ≡ v
unfolding from_bytes le_bytes
from_bytes-le_bytes zero v h = omega arith
from_bytes-le_bytes (suc n) v h =
    let ih = from_bytes-le_bytes n (v / 256) (quotient_lem v (256 ^ n) (omega arith)) in
    rw ih (omega arith)

pub length-le_bytes : (n v : ℕ) → length (le_bytes n v) ≡ n
unfolding le_bytes
length-le_bytes zero v = refl
length-le_bytes (suc n) v = ap suc (length-le_bytes n (v / 256))

-- What `pack` gives is as wide as asked, and is read back as the number.
pub pack-round_trip :
    (n v : ℕ) (bytes : List ℕ) → pack n v ≡ some bytes → (length bytes ≡ n) × (from_bytes bytes ≡ v)
unfolding pack
pack-round_trip n v bytes h = by_test (ltb v (256 ^ n)) refl h
  where
    by_test :
        (b : Bool)
        → ltb v (256 ^ n) ≡ b
        → (if b then some (le_bytes n v) else none) ≡ some bytes
        → (length bytes ≡ n) × (from_bytes bytes ≡ v)
    by_test true e h =
        subst (λ bs. (length bs ≡ n) × (from_bytes bs ≡ v)) (cc)
          (length-le_bytes n v, from_bytes-le_bytes n v (ltb→lt v (256 ^ n) e))
    by_test false e h = cc

byte_of-bound : (o : Option ℤ) (b : ℕ) → byte_of o ≡ some b → b < 256
unfolding byte_of
byte_of-bound none b h = cc
byte_of-bound (some (pos n)) b h = ground arith
byte_of-bound (some (negsuc n)) b h = cc

bytes_of-bound :
    (xs : List Text) (bs : List ℕ) → bytes_of xs ≡ some bs → from_bytes bs < 256 ^ length xs
unfolding bytes_of from_bytes cons_option
bytes_of-bound [] bs h = subst (λ cs. from_bytes cs < 1) {x = []} (cc) (omega arith)
bytes_of-bound (x ∷ xs) bs h =
    by_parts (bytes_of-bound xs) (byte_of (parse_int 16 x)) (bytes_of xs) bs refl refl h
  where
    by_parts :
        ((rs : List ℕ) → bytes_of xs ≡ some rs → from_bytes rs < 256 ^ length xs)
        → (b : Option ℕ) (r : Option (List ℕ)) (cs : List ℕ) → byte_of (parse_int 16 x) ≡ b
        → bytes_of xs ≡ r
        → cons_option b r ≡ some cs
        → from_bytes cs < 256 ^ suc (length xs)
    by_parts ih none r cs e f g = cc
    by_parts ih (some b) none cs e f g = cc
    by_parts ih (some b) (some rs) cs e f g =
        let bound = ih rs f in
        let small = byte_of-bound (parse_int 16 x) b e in
        subst (λ ds. from_bytes ds < 256 ^ suc (length xs)) {x = b ∷ rs} (cc) (omega arith)

four_le : (n : ℕ) → leb 4 (suc (suc (suc (suc n)))) ≡ true
four_le n = ground arith

-- An epoch that is read is below 2³².
pub current_epoch-bound : (o : Option (List Text)) → current_epoch o < 256 ^ 4
unfolding current_epoch number_of
current_epoch-bound none = omega arith
current_epoch-bound (some []) = omega arith
current_epoch-bound (some (a ∷ [])) = omega arith
current_epoch-bound (some (a ∷ b ∷ [])) = omega arith
current_epoch-bound (some (a ∷ b ∷ c ∷ [])) = omega arith
current_epoch-bound (some (a ∷ b ∷ c ∷ d ∷ more)) =
    rw (four_le (length more)) (four (bytes_of (a ∷ b ∷ c ∷ d ∷ [])) refl)
  where
    four : (o : Option (List ℕ)) → bytes_of (a ∷ b ∷ c ∷ d ∷ []) ≡ o → number_of o < 256 ^ 4
    four none e = omega arith
    four (some bs) e = bytes_of-bound (a ∷ b ∷ c ∷ d ∷ []) bs e
