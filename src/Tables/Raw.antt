-- ===== src/Tables/Raw.antt =====
-- The raw span tables (src/codegen.py): one row for each span of a ConstID's function.
pub mod Laws
use xkernel.Base.{Bool, true, false, ◌&&◌, List, [], ◌∷◌, ◌++◌, Option, some, none, ◌==◌, list_eq}
use xkernel.Base.{nat_eq, if◌then◌else◌}
use xkernel.Base.Int.{ℤ}
use xkernel.Base.Text.{Text, text, show_int}
use xkernel.Tables.{Row, File, init_table, body, raw_header}
use xkernel.Tables.Scope.{append_row}

-- The first four cells of a row, compared with a span.
unfoldable pub is_entry : Text → Text → Text → Text → Row → Bool
is_entry id func soff eoff (a ∷ b ∷ c ∷ d ∷ more) = a == id && b == func && c == soff && d == eoff
is_entry id func soff eoff _ = false

unfoldable pub any_entry : Text → Text → Text → Text → List Row → Bool
any_entry id func soff eoff [] = false
any_entry id func soff eoff (row ∷ rows) =
    if is_entry id func soff eoff row then true else any_entry id func soff eoff rows

unfoldable pub add_ss_raw_entry : Text → Text → Text → Text → File → File
add_ss_raw_entry id func soff eoff f =
    let g = init_table raw_header f in
    if any_entry id func soff eoff (body g) then g else append_row (id ∷ func ∷ soff ∷ eoff ∷ []) g

-- `f"0x{offset:x}"`
unfoldable pub hex_offset : ℤ → Text
hex_offset z = text "0x" ++ show_int 16 z

-- The same code, after the offsets have been printed.
unfoldable pub add_cs_raw_entry : Text → Text → ℤ → ℤ → File → File
add_cs_raw_entry id func soff eoff f =
    let soff_str = hex_offset soff in
    let eoff_str = hex_offset eoff in
    let g = init_table raw_header f in
    if any_entry id func soff_str eoff_str (body g)
    then g
    else append_row (id ∷ func ∷ soff_str ∷ eoff_str ∷ []) g
