-- ===== src/Tables/Index/Refines.antt =====
-- The numbering tables refine a list of distinct texts in which a text's number is its position,
-- counted from 1.
use xkernel.Base.{ℕ, suc, ◌+◌, ◌≡◌, refl, ◌∙◌, ap, inl, inr, false, List, [], ◌∷◌, ◌++◌, map}
use xkernel.Base.{Option, some, none, arith, append_assoc, ◌==◌, list_eq, nat_eq, beq_refl}
use xkernel.Base.{if◌then◌else◌, ok, length, Option-cases, Bool-cases, append-nil}
use xkernel.Base.Int.{ℤ, pos, ◌+ℤ◌, max_ℤ, int_laws}
use xkernel.Base.Text.{Text, parse_int, show_int}
use xkernel.Base.Text.Laws.{parse_int-show_int}
use xkernel.Tables.{Row, File, init_table, body}
use xkernel.Tables.Index.{Entry, Scan, found, absent, scan, entry_lt, insert_entry, sort_entries}
use xkernel.Tables.Index.{entry_row, get_or_add_index, finish}

-- The specification: the position of a text, and the list with the text in it.
unfoldable pub position : Text → ℕ → List Text → Option ℕ
position wanted k [] = none
position wanted k (c ∷ cs) = if c == wanted then some k else position wanted (suc k) cs

abbrev pub number_at : List Text → Option ℕ → ℕ
number_at cs none = suc (length cs)
number_at cs (some i) = i

abbrev pub texts_at : Text → List Text → Option ℕ → List Text
texts_at wanted cs none = cs ++ (wanted ∷ [])
texts_at wanted cs (some i) = cs

abbrev pub number_of : Text → List Text → ℕ
number_of wanted cs = number_at cs (position wanted 1 cs)

abbrev pub add_text : Text → List Text → List Text
add_text wanted cs = texts_at wanted cs (position wanted 1 cs)

-- The entries of a list whose numbers begin at `k`, and the file that holds a list.
unfoldable pub number : ℕ → List Text → List Entry
number k [] = []
number k (c ∷ cs) = (pos k, c) ∷ number (suc k) cs

unfoldable pub file_of : Text → Row → List Text → File
file_of h hs cs = some ((h ∷ hs) ∷ map entry_row (number 1 cs))

parse_index : (k : ℕ) → parse_int 10 (show_int 10 (pos k)) ≡ some (pos k)
parse_index k = parse_int-show_int 10 (omega arith) (omega arith) (pos k)

max_next : (k : ℕ) → max_ℤ (pos k) (pos (suc k)) ≡ pos (suc k)
unfolding max_ℤ
max_next k = ground arith

-- How a scan from `k + 1` ends, by the position of the text.
abbrev scan_end : List Entry → ℕ → List Text → Option ℕ → Scan
scan_end acc k cs none = absent (acc ++ number (suc k) cs) (pos (k + length cs))
scan_end acc k cs (some i) = found (pos i)

scan_end-cons :
    (acc : List Entry) (k : ℕ) (c : Text) (cs : List Text) (o : Option ℕ)
    → scan_end (acc ++ ((pos (suc k), c) ∷ [])) (suc k) cs o ≡ scan_end acc k (c ∷ cs) o
unfolding number
scan_end-cons acc k c cs none =
    let e : suc k + length cs ≡ k + suc (length cs) = omega arith in rw (append_assoc, e) refl
scan_end-cons acc k c cs (some i) = refl

scan-entry_row :
    (wanted : Text) (k : ℕ) (c : Text) (rows : List Row) (acc : List Entry) (m : ℤ)
    → scan wanted (entry_row (pos k, c) ∷ rows) acc m ≡ (
        if c == wanted
        then found (pos k)
        else scan wanted rows (acc ++ ((pos k, c) ∷ [])) (max_ℤ m (pos k)))
unfolding scan entry_row
scan-entry_row wanted k c rows acc m = rw (parse_index, scan) refl

scan-number :
    (wanted : Text) (k : ℕ) (cs : List Text) (acc : List Entry)
    → scan wanted (map entry_row (number (suc k) cs)) acc (pos k)
      ≡ scan_end acc k cs (position wanted (suc k) cs)
unfolding number position
scan-number wanted k [] acc =
    unfold scan in let e : k + 0 ≡ k = omega arith in rw (append-nil, e) refl
scan-number wanted k (c ∷ cs) acc = elim (Bool-cases (c == wanted)) [
  | inl same ↦ rw (scan-entry_row, same) refl
  | inr other ↦
      rw (scan-entry_row, other, max_next)
        (scan-number wanted (suc k) cs _ ∙ scan_end-cons acc k c cs _)
]

number-append :
    (k : ℕ) (cs : List Text) (c : Text)
    → number k (cs ++ (c ∷ [])) ≡ number k cs ++ ((pos (k + length cs), c) ∷ [])
unfolding number
number-append k [] c = let e : k + 0 ≡ k = omega arith in rw e
number-append k (d ∷ cs) c =
    let e : suc k + length cs ≡ k + suc (length cs) = omega arith in
    rw (number-append (suc k) cs c, e)

next_lt : (k : ℕ) (c d : Text) → entry_lt (pos (suc k), d) (pos k, c) ≡ false
unfolding entry_lt
next_lt k c d = ground arith

-- A numbered list is sorted.
sort_entries-number : (k : ℕ) (cs : List Text) → sort_entries (number k cs) ≡ number k cs
unfolding sort_entries number insert_entry
sort_entries-number k [] = refl
sort_entries-number k (c ∷ []) = refl
sort_entries-number k (c ∷ d ∷ cs) =
    rw (sort_entries-number (suc k) (d ∷ cs)) (rw (next_lt k c d) refl)

finish-scan_end :
    (h : Text) (hs : Row) (f : File) (wanted : Text) (cs : List Text) (o : Option ℕ)
    → f ≡ file_of h hs cs
    → finish (h ∷ hs) f wanted (scan_end [] 0 cs o)
      ≡ ok (pos (number_at cs o), file_of h hs (texts_at wanted cs o))
unfolding finish file_of
finish-scan_end h hs f wanted cs none same =
    let e : pos (0 + length cs) +ℤ pos 1 ≡ pos (suc (length cs)) = omega int_laws in
    let one : 1 + length cs ≡ suc (length cs) = omega arith in
    let more : number 1 (cs ++ (wanted ∷ []))
        ≡ number 1 cs ++ ((pos (suc (length cs)), wanted) ∷ []) =
      rw (number-append, one) in
    rw (e, ← more, sort_entries-number) refl
finish-scan_end h hs f wanted cs (some i) same = rw same refl

-- A call returns the position of the text in the list, and appends the text if it is not there.
pub get_or_add_index-file_of :
    (h : Text) (hs : Row) (wanted : Text) (cs : List Text)
    → get_or_add_index (h ∷ hs) wanted (file_of h hs cs)
      ≡ ok (pos (number_of wanted cs), file_of h hs (add_text wanted cs))
unfolding get_or_add_index init_table body file_of
get_or_add_index-file_of h hs wanted cs =
    rw (scan-number wanted 0 cs []) (finish-scan_end h hs _ wanted cs (position wanted 1 cs) refl)

-- A missing file is as good as one that holds no text.
pub get_or_add_index-none :
    (h : Text) (hs : Row) (wanted : Text)
    → get_or_add_index (h ∷ hs) wanted none ≡ get_or_add_index (h ∷ hs) wanted (file_of h hs [])
unfolding get_or_add_index init_table body file_of number
get_or_add_index-none h hs wanted = refl

pub position-append :
    (wanted : Text) (k : ℕ) (cs : List Text)
    → position wanted k cs ≡ none
    → position wanted k (cs ++ (wanted ∷ [])) ≡ some (k + length cs)
unfolding position
position-append wanted k [] new = rw beq_refl (ap some (omega arith))
position-append wanted k (c ∷ cs) new = elim (Bool-cases (c == wanted)) [
  | inl same ↦ cc (rw same at new)
  | inr other ↦
      let e : suc k + length cs ≡ k + suc (length cs) = omega arith in
      rw other (position-append wanted (suc k) cs (rw other at new) ∙ rw e)
]

-- Adding a text that is there changes nothing, and its number stays.
pub add_text_again :
    (wanted : Text) (cs : List Text)
    → (number_of wanted (add_text wanted cs) ≡ number_of wanted cs)
      × (add_text wanted (add_text wanted cs) ≡ add_text wanted cs)
add_text_again wanted cs = elim (Option-cases (position wanted 1 cs)) [
  | inl new ↦ rw (new, position-append wanted 1 cs new) (omega arith, refl)
  | inr (i, old) ↦ rw (old, old) (refl, refl)
]
