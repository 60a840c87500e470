-- ===== src/Runtime/Spans/Order.antt =====
-- The order in which the spans of a file are put into their map.
use xkernel.Base.{ℕ, ◌+◌, ◌≡◌, refl, arith, Bool, true, false, List, [], ◌∷◌, All, if◌then◌else◌}
use xkernel.Runtime.Spans.{Span, key_lt, insert_span, sort_spans}

-- No span comes before one that has a smaller start, or the same start and a larger end.
abbrev pub IsSorted : List Span → Type 0
IsSorted [] = Unit
IsSorted (s ∷ ss) = All (λ t. key_lt t s ≡ false) ss × IsSorted ss

key_lt_trans : (s t u : Span) → key_lt t s ≡ false → key_lt u t ≡ false → key_lt u s ≡ false
unfolding key_lt
key_lt_trans (a, b) (c, d) (e, f) h k = ground arith

key_lt_asym : (s t : Span) → key_lt t s ≡ true → key_lt s t ≡ false
unfolding key_lt
key_lt_asym (a, b) (c, d) h = ground arith

All-trans :
    (s t : Span) (ss : List Span)
    → key_lt t s ≡ false
    → All (λ u. key_lt u t ≡ false) ss
    → All (λ u. key_lt u s ≡ false) ss
All-trans s t [] h a = tt
All-trans s t (u ∷ ss) h a = (key_lt_trans s t u h a.0, All-trans s t ss h a.1)

All-insert :
    (P : Span → Type 0) (s : Span) (ss : List Span) → P s → All P ss → All P (insert_span s ss)
unfolding insert_span
All-insert P s [] h a = (h, tt)
All-insert P s (t ∷ ss) h a = by_test (key_lt t s) (All-insert P s ss h a.1)
  where
    by_test :
        (b : Bool)
        → All P (insert_span s ss)
        → All P (if b then t ∷ insert_span s ss else s ∷ t ∷ ss)
    by_test true k = (a.0, k)
    by_test false k = (h, a)

insert_span-IsSorted : (s : Span) (ss : List Span) → IsSorted ss → IsSorted (insert_span s ss)
unfolding insert_span
insert_span-IsSorted s [] h = (tt, tt)
insert_span-IsSorted s (t ∷ ss) h = by_test (key_lt t s) refl (insert_span-IsSorted s ss h.1)
  where
    by_test :
        (b : Bool)
        → key_lt t s ≡ b
        → IsSorted (insert_span s ss)
        → IsSorted (if b then t ∷ insert_span s ss else s ∷ t ∷ ss)
    by_test true e k = (All-insert (λ u. key_lt u t ≡ false) s ss (key_lt_asym s t e) h.0, k)
    by_test false e k = ((e, All-trans s t ss e h.0), h)

-- How many spans pass a test.
unfoldable pub count : (Span → Bool) → List Span → ℕ
count p [] = 0
count p (s ∷ ss) = (if p s then 1 else 0) + count p ss

insert_span-count :
    (p : Span → Bool) (s : Span) (ss : List Span) → count p (insert_span s ss) ≡ count p (s ∷ ss)
unfolding insert_span count
insert_span-count p s [] = refl
insert_span-count p s (t ∷ ss) = by_test (key_lt t s) (insert_span-count p s ss)
  where
    by_test :
        (b : Bool)
        → count p (insert_span s ss) ≡ count p (s ∷ ss)
        → count p (if b then t ∷ insert_span s ss else s ∷ t ∷ ss) ≡ count p (s ∷ t ∷ ss)
    by_test true ih = omega (arith, ih)
    by_test false ih = refl

-- The spans of a file are sorted by their start, of equal starts the longer first, and each is as
-- often among them as before.
sort_spans-order :
    (ss : List Span)
    → IsSorted (sort_spans ss) × ((p : Span → Bool) → count p (sort_spans ss) ≡ count p ss)
unfolding sort_spans count
sort_spans-order [] = (tt, λ p. refl)
sort_spans-order (s ∷ ss) =
    let ih = sort_spans-order ss in
    (
      insert_span-IsSorted s (sort_spans ss) ih.0,
      λ p. omega (arith, insert_span-count p s (sort_spans ss), ih.1 p),
    )
