-- ===== src/Tables/Index.antt =====
-- `get_or_add_cs_index` and `get_or_add_ss_index` (src/codegen.py): the tables that number texts.
pub mod Refines
use xkernel.Base.{ℕ, ◌+◌, Bool, true, false, ◌||◌, ◌&&◌, List, [], ◌∷◌, ◌++◌, map, Option, some}
use xkernel.Base.{none, ltb, ◌=ℕ◌, ◌==◌, list_eq, nat_eq, if◌then◌else◌, Result, ok, raised}
use xkernel.Base.{value_error}
use xkernel.Base.Int.{ℤ, pos, ◌+ℤ◌, max_ℤ, ltb_ℤ, int_beq}
use xkernel.Base.Text.{Text, parse_int, show_int}
use xkernel.Tables.{Row, File, init_table, body, cs_table_header, ss_table_header}

abbrev pub Entry : Type 0
Entry = ℤ × Text

-- How the loop over the rows ends: the text is there, a cell is no number, or the entries and the
-- largest index of a table that lacks the text.
pub data Scan : Type 0 where
  found : ℤ → Scan
  malformed : Scan
  absent : List Entry → ℤ → Scan

unfoldable pub scan : Text → List Row → List Entry → ℤ → Scan
scan wanted [] entries max_index = absent entries max_index
scan wanted ([] ∷ rows) entries max_index = scan wanted rows entries max_index
scan wanted ((a ∷ []) ∷ rows) entries max_index = scan wanted rows entries max_index
scan wanted ((cell ∷ content ∷ more) ∷ rows) entries max_index = elim (parse_int 10 cell) [
  | none ↦ malformed
  | some index ↦
      let rest = scan wanted rows (entries ++ ((index, content) ∷ [])) (max_ℤ max_index index) in
      if content == wanted then found index else rest
]

-- Python's order on texts, and on pairs of a number and a text.
unfoldable pub text_lt : Text → Text → Bool
text_lt [] [] = false
text_lt [] (d ∷ t) = true
text_lt (c ∷ s) [] = false
text_lt (c ∷ s) (d ∷ t) = ltb c d || (c =ℕ d && text_lt s t)

unfoldable pub entry_lt : Entry → Entry → Bool
entry_lt (i, s) (j, t) = ltb_ℤ i j || (int_beq i j && text_lt s t)

unfoldable pub insert_entry : Entry → List Entry → List Entry
insert_entry e [] = e ∷ []
insert_entry e (f ∷ es) = if entry_lt f e then f ∷ insert_entry e es else e ∷ f ∷ es

-- `sorted(entries)`
unfoldable pub sort_entries : List Entry → List Entry
sort_entries [] = []
sort_entries (e ∷ es) = insert_entry e (sort_entries es)

unfoldable pub entry_row : Entry → Row
entry_row (index, content) = show_int 10 index ∷ content ∷ []

module _ (header : Row) where
  finish : File → Text → Scan → Result (ℤ × File)
  finish f wanted (found index) = ok (index, f)
  finish f wanted malformed = raised value_error
  finish f wanted (absent entries max_index) =
      let new_index = max_index +ℤ pos 1 in
      ok (
        new_index,
        some (header ∷ map entry_row (sort_entries (entries ++ ((new_index, wanted) ∷ [])))),
      )

  unfoldable pub get_or_add_index : Text → File → Result (ℤ × File)
  unfolding finish
  get_or_add_index wanted f =
      let g = init_table header f in finish g wanted (scan wanted (body g) [] (pos 0))

unfoldable pub get_or_add_cs_index : Text → File → Result (ℤ × File)
get_or_add_cs_index = get_or_add_index cs_table_header

unfoldable pub get_or_add_ss_index : Text → File → Result (ℤ × File)
get_or_add_ss_index = get_or_add_index ss_table_header
