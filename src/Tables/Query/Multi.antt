-- ===== src/Tables/Query/Multi.antt =====
-- A scope entry with several critical spans has its CS indices joined by commas, and
-- `read_scope_table` reads them as one number.
use xkernel.Base.{ℕ, ◌+◌, ◌*◌, ◌≡◌, refl, ◌∙◌, ◌≢◌, false, List, [], ◌∷◌, ◌++◌, map, none, arith}
use xkernel.Base.{All}
use xkernel.Base.Int.{ℤ, pos}
use xkernel.Base.Dict.{Dict}
use xkernel.Base.Text.{Text, text, join, parse_int, parse_signed, skip_prefix, map_option}
use xkernel.Base.Text.{is_space, show_nat, parse_nat, digit}
use xkernel.Base.Text.Number.{IsPrinted, digit_value, parse_digits, parse_digits-digit}
use xkernel.Base.Text.Number.{show_nat-IsPrinted, show_nat-ne-nil}
use xkernel.Base.Text.Laws.{IsSolid, strip_solid, printed-IsSolid}
use xkernel.Tables.Query.{resolve}

IsSolid-append : (s t : Text) → IsSolid s → IsSolid t → IsSolid (s ++ t)
IsSolid-append [] t hs ht = ht
IsSolid-append (c ∷ s) t hs ht = (hs.0, IsSolid-append s t hs.1 ht)

comma_solid : is_space 44 ≡ false
unfolding is_space
comma_solid = refl

join-IsSolid : (ps : List Text) → All IsSolid ps → IsSolid (join (44 ∷ []) ps)
unfolding join
join-IsSolid [] h = tt
join-IsSolid (p ∷ []) h = h.0
join-IsSolid (p ∷ q ∷ ps) h =
    IsSolid-append p (44 ∷ join (44 ∷ []) (q ∷ ps)) h.0 (comma_solid, join-IsSolid (q ∷ ps) h.1)

parse_digits-comma :
    (acc : ℕ) (s r : Text) → All (IsPrinted 10) s → parse_digits 10 acc (s ++ 44 ∷ r) ≡ none
unfolding parse_digits digit_value
parse_digits-comma acc [] r h = refl
parse_digits-comma acc (c ∷ s) r ((d, lt, e), h) = rw (← e) (
    parse_digits-digit 10 (omega arith) (omega arith) acc d (s ++ 44 ∷ r) lt
    ∙ parse_digits-comma (acc * 10 + d) s r h)

skip_prefix_decimal : (s : Text) → skip_prefix 10 s ≡ s
unfolding skip_prefix
skip_prefix_decimal [] = refl
skip_prefix_decimal (c ∷ []) = refl
skip_prefix_decimal (c ∷ d ∷ s) = refl

parse_signed-digit :
    (c : ℕ) (s : Text)
    → IsPrinted 10 c
    → parse_signed 10 (c ∷ s) ≡ map_option pos (parse_nat 10 (c ∷ s))
unfolding parse_signed digit
parse_signed-digit c s (d, lt, e) = rw (skip_prefix_decimal (c ∷ s)) (ground arith)

parse_signed-comma :
    (s r : Text) → s ≢ [] → All (IsPrinted 10) s → parse_signed 10 (s ++ 44 ∷ r) ≡ none
unfolding parse_nat map_option
parse_signed-comma [] r ne h = absurd (ne refl)
parse_signed-comma (c ∷ s) r ne h =
    parse_signed-digit c (s ++ 44 ∷ r) h.0 ∙ rw (parse_digits-comma 0 (c ∷ s) r h) refl

IsSolid-map : (ns : List ℕ) → All IsSolid (map (show_nat 10) ns)
IsSolid-map [] = tt
IsSolid-map (n ∷ ns) = (
  printed-IsSolid 10 (omega arith) _ (show_nat-IsPrinted 10 (omega arith) (omega arith) n),
  IsSolid-map ns,
)

parse_signed-join :
    (m n : ℕ) (ns : List ℕ)
    → parse_signed 10 (join (44 ∷ []) (map (show_nat 10) (m ∷ n ∷ ns))) ≡ none
unfolding join
parse_signed-join m n ns =
    parse_signed-comma (show_nat 10 m) (join (44 ∷ []) (map (show_nat 10) (n ∷ ns)))
      (show_nat-ne-nil 10 (omega arith) (omega arith) m)
      (show_nat-IsPrinted 10 (omega arith) (omega arith) m)

parse_int-join :
    (m n : ℕ) (ns : List ℕ) → parse_int 10 (join (44 ∷ []) (map (show_nat 10) (m ∷ n ∷ ns))) ≡ none
unfolding parse_int
parse_int-join m n ns =
    rw
      (strip_solid (join (44 ∷ []) (map (show_nat 10) (m ∷ n ∷ ns)))
        (join-IsSolid (map (show_nat 10) (m ∷ n ∷ ns)) (IsSolid-map (m ∷ n ∷ ns))))
      (parse_signed-join m n ns)

resolve_unread :
    (label s : Text) (d : Dict ℤ Text)
    → s ≢ []
    → parse_int 10 s ≡ none
    → resolve label s d ≡ text "[Invalid " ++ label ++ text " index: " ++ s ++ text "]"
unfolding resolve
resolve_unread label [] d ne h = absurd (ne refl)
resolve_unread label (c ∷ s) d ne h = rw (h, resolve) refl

join-ne-nil : (m n : ℕ) (ns : List ℕ) → join (44 ∷ []) (map (show_nat 10) (m ∷ n ∷ ns)) ≢ []
unfolding join
join-ne-nil m n ns = nonempty (show_nat 10 m) _ (show_nat-ne-nil 10 (omega arith) (omega arith) m)
  where
    nonempty : (s t : Text) → s ≢ [] → s ++ t ≢ []
    nonempty [] t ne = λ e. ne refl
    nonempty (c ∷ s) t ne = λ e. cc

-- The indices that `add_scope_table_entry_multi_cs` joins for two or more spans stand for no text:
-- whatever the CS table holds, the entry is shown as invalid.
pub resolve_several :
    (m n : ℕ) (ns : List ℕ) (label : Text) (d : Dict ℤ Text)
    → let cell = join (text ",") (map (show_nat 10) (m ∷ n ∷ ns)) in
      resolve label cell d ≡ text "[Invalid " ++ label ++ text " index: " ++ cell ++ text "]"
unfolding text
resolve_several m n ns label d =
    resolve_unread label _ d (join-ne-nil m n ns) (parse_int-join m n ns)
