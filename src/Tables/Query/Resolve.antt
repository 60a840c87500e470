-- ===== src/Tables/Query/Resolve.antt =====
-- What the index cells of the scope table stand for, once the numbering tables are read back.
use xkernel.Base.{ℕ, suc, ◌<◌, ◌≡◌, refl, ◌∙◌, ap, true, false, List, [], ◌∷◌, map, Option, some}
use xkernel.Base.{arith, Bool-cases, inl, inr, Option-cases, ok, ◌==◌, list_eq, nat_eq}
use xkernel.Base.{if◌then◌else◌}
use xkernel.Base.Int.{ℤ, pos, int_eq}
use xkernel.Base.Dict.{Dict, insert, lookup, lookup-insert}
use xkernel.Base.Text.{Text, text_iff}
use xkernel.Base.Text.Laws.{parse_int-show_int}
use xkernel.Tables.{Row, File}
use xkernel.Tables.Index.{entry_row, get_or_add_index}
use xkernel.Tables.Index.Refines.{number, position, file_of, number_of, add_text, position-append}
use xkernel.Tables.Index.Refines.{get_or_add_index-file_of}
use xkernel.Tables.Scope.{skip_header}
use xkernel.Tables.Query.{read_rows, read_cs_table}

-- The text that the last row with number `j` holds.
text_at : ℕ → ℕ → List Text → Option Text → Option Text
text_at k j [] old = old
text_at k j (c ∷ cs) old = text_at (suc k) j cs (if j == k then some c else old)

read_rows-entry_row :
    (k : ℕ) (c : Text) (rows : List Row) (d : Dict ℤ Text)
    → read_rows (entry_row (pos k, c) ∷ rows) d ≡ read_rows rows (insert (pos k) c d)
unfolding read_rows entry_row
read_rows-entry_row k c rows d =
    rw (parse_int-show_int 10 (omega arith) (omega arith) (pos k), read_rows) refl

lookup-insert_pos :
    (k j : ℕ) (c : Text) (d : Dict ℤ Text)
    → lookup (pos j) (insert (pos k) c d) ≡ (if j == k then some c else lookup (pos j) d)
lookup-insert_pos k j c d = rw lookup-insert (ground arith)

lookup-read_rows :
    (k j : ℕ) (cs : List Text) (d : Dict ℤ Text)
    → lookup (pos j) (read_rows (map entry_row (number k cs)) d) ≡ text_at k j cs (lookup (pos j) d)
unfolding number text_at
lookup-read_rows k j [] d = unfold read_rows in refl
lookup-read_rows k j (c ∷ cs) d =
    rw read_rows-entry_row
      (lookup-read_rows (suc k) j cs (insert (pos k) c d) ∙ rw lookup-insert_pos refl)

text_at_later : (k j : ℕ) (cs : List Text) (old : Option Text) → j < k → text_at k j cs old ≡ old
unfolding text_at
text_at_later k j [] old h = refl
text_at_later k j (c ∷ cs) old h =
    let e : (j == k) ≡ false = ground arith in rw e (text_at_later (suc k) j cs old (omega arith))

text_at-position :
    (wanted : Text) (k i : ℕ) (cs : List Text) (old : Option Text)
    → position wanted k cs ≡ some i
    → text_at k i cs old ≡ some wanted
unfolding position text_at
text_at-position wanted k i [] old h = cc
text_at-position wanted k i (c ∷ cs) old h = elim (Bool-cases (c == wanted)) [
  | inl same ↦
      let here : k ≡ i = ground (arith, rw same at h) in
      let e : (i == k) ≡ true = ground arith in
      rw e
        (text_at_later (suc k) i cs (some c) (omega arith) ∙ ap some ((text_iff c wanted).0 same))
  | inr other ↦ text_at-position wanted (suc k) i cs _ (rw other at h)
]

position-add_text :
    (wanted : Text) (cs : List Text)
    → position wanted 1 (add_text wanted cs) ≡ some (number_of wanted cs)
position-add_text wanted cs = elim (Option-cases (position wanted 1 cs)) [
  | inl new ↦ rw new (position-append wanted 1 cs new ∙ ap some (omega arith))
  | inr (i, old) ↦ rw old old
]

-- In a table that holds the texts `cs`, `get_or_add` returns a number and a file in which
-- `read_cs_table` finds the text under that number.
pub get_or_add-read_cs_table :
    (h : Text) (hs : Row) (wanted : Text) (cs : List Text)
    → (index : ℤ) × (g : File) × (get_or_add_index (h ∷ hs) wanted (file_of h hs cs)
        ≡ ok (index, g))
      × (lookup index (read_cs_table g) ≡ some wanted)
unfolding read_cs_table skip_header file_of
get_or_add-read_cs_table h hs wanted cs = (
  pos (number_of wanted cs),
  file_of h hs (add_text wanted cs),
  get_or_add_index-file_of h hs wanted cs,
  lookup-read_rows 1 (number_of wanted cs) (add_text wanted cs) []
      ∙ text_at-position wanted 1 _ (add_text wanted cs) _ (position-add_text wanted cs),
)
