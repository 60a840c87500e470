-- ===== src/Runtime/Maps.antt =====
-- The variables of a ConstID's BPF programs, which are maps (src/loader.py).
pub mod Bytes
pub mod Epoch
use xkernel.Base.{ℕ, zero, suc, ◌+◌, ◌*◌, ◌/◌, ◌%◌, ◌^◌, Bool, true, false, ◌&&◌, List, [], ◌∷◌}
use xkernel.Base.{◌++◌, map, Option, some, none, if◌then◌else◌, ltb, leb, ◌=ℕ◌, list_eq, nat_eq}
use xkernel.Base.{length, take, keep, contains, struct_error, Exception, Result, ok, raised}
use xkernel.Base.Int.{ℤ, pos, negsuc}
use xkernel.Base.Dict.{Dict, lookup, insert}
use xkernel.Base.Text.{Text, text, lstrip_char, parse_int}
use xkernel.Runtime.{Host, World, Run, Command, Outcome, ◌>>=◌, ◌>>◌, pure, raise, ask, give}

-- `struct.pack`, little-endian, for a number of bytes.
unfoldable pub le_bytes : ℕ → ℕ → List ℕ
le_bytes zero v = []
le_bytes (suc n) v = (v % 256) ∷ le_bytes n (v / 256)

unfoldable pub pack : ℕ → ℕ → Option (List ℕ)
pack width v = if ltb v (256 ^ width) then some (le_bytes width v) else none

-- `int.from_bytes(…, 'little')`
unfoldable pub from_bytes : List ℕ → ℕ
from_bytes [] = 0
from_bytes (b ∷ bs) = b + 256 * from_bytes bs

-- `map_name.replace('.', '_')`, without leading underscores but one.
unfoldable pub underscored : Text → Text
underscored [] = []
underscored (c ∷ s) = (if c =ℕ b'.' then b'_' else c) ∷ underscored s

unfoldable pub pin_name : Text → Text
pin_name map_name = b'_' ∷ lstrip_char b'_' (underscored map_name)

-- A value of `map_info.get`, or that of the other name.
unfoldable pub or_other : Option ℕ → Option ℕ → Option ℕ
or_other none o = o
or_other (some i) o = some i

unfoldable pub find_map : Text → Text → Dict Text ℕ → Option ℕ
find_map name other map_info = or_other (lookup name map_info) (lookup other map_info)

abbrev pub zero_key : List ℕ
zero_key = 0 ∷ 0 ∷ 0 ∷ 0 ∷ []

-- The value of `value[:4]`, where there are four hexadecimal texts of bytes.
unfoldable pub byte_of : Option ℤ → Option ℕ
byte_of (some (pos n)) = if ltb n 256 then some n else none
byte_of _ = none

unfoldable pub cons_option : Option ℕ → Option (List ℕ) → Option (List ℕ)
cons_option (some b) (some bs) = some (b ∷ bs)
cons_option _ _ = none

unfoldable pub bytes_of : List Text → Option (List ℕ)
bytes_of [] = some []
bytes_of (x ∷ xs) = cons_option (byte_of (parse_int 16 x)) (bytes_of xs)

unfoldable pub number_of : Option (List ℕ) → ℕ
number_of none = 0
number_of (some bs) = from_bytes bs

unfoldable pub current_epoch : Option (List Text) → ℕ
current_epoch none = 0
current_epoch (some raw) = if leb 4 (length raw) then number_of (bytes_of (take 4 raw)) else 0

-- `{m['id'] for m in maps}`, and the maps of a list whose number is in a set.
unfoldable pub ids_of : Option (List (ℕ × Text)) → List ℕ
ids_of none = []
ids_of (some maps) = map (λ m. m.0) maps

unfoldable pub named : List ℕ → List (ℕ × Text) → Dict Text ℕ → Dict Text ℕ
named ids [] d = d
named ids ((i, []) ∷ maps) d = named ids maps d
named ids ((i, c ∷ name) ∷ maps) d =
    named ids maps (if contains ids i then insert (c ∷ name) i d else d)

unfoldable pub names_in : List ℕ → Option (List (ℕ × Text)) → Dict Text ℕ
names_in ids none = []
names_in ids (some maps) = named ids maps []

module _ ⦃host : Host⦄ where
  unfoldable pub update_map_by_id : ℕ → List ℕ → List ℕ → Run Bool
  update_map_by_id map_id key val = give (Command.map_update map_id key val)

  unfoldable pub pack_or_raise : Option (List ℕ) → Run (List ℕ)
  pack_or_raise none = raise struct_error
  pack_or_raise (some bytes) = pure bytes

  unfoldable pub set_map : Option ℕ → ℕ → Run Bool
  set_map none value = pure false
  set_map (some map_id) value = do
    val ← pack_or_raise (pack 4 value)
    update_map_by_id map_id zero_key val

  unfoldable pub set_bss_variable : Dict Text ℕ → Text → ℕ → Run Bool
  set_bss_variable map_info map_name value =
      set_map (find_map map_name (pin_name map_name) map_info) value

  unfoldable pub activate_constid : Dict Text ℕ → Run Bool
  activate_constid map_info = set_bss_variable map_info (text ".bss.xk_active") 1

  unfoldable pub deactivate_constid : Dict Text ℕ → Run Bool
  deactivate_constid map_info = set_bss_variable map_info (text ".bss.xk_active") 0

  -- The loop over the pinned maps.
  unfoldable pub add_named : Text → Option ℕ → Dict Text ℕ → Dict Text ℕ
  add_named name none d = d
  add_named name (some i) d = insert name i d

  unfoldable pub collect_maps : Text → List Text → Dict Text ℕ → Run (Dict Text ℕ)
  collect_maps const_id [] map_info = pure map_info
  collect_maps const_id (name ∷ names) map_info = do
    found ← ask (host.pinned_map const_id name)
    collect_maps const_id names (add_named name found map_info)

  unfoldable pub collect_listed : Text → Option (List Text) → Run (Dict Text ℕ)
  collect_listed const_id none = pure []
  collect_listed const_id (some names) = collect_maps const_id names []

  unfoldable pub get_map_info_for_constid : Text → Run (Dict Text ℕ)
  get_map_info_for_constid const_id = do
    names ← ask (host.pinned_names const_id)
    collect_listed const_id names

  unfoldable pub bump_found : Dict Text ℕ → Option ℕ → Run Bool
  bump_found map_info none = pure false
  bump_found map_info (some epoch_id) = do
    raw ← ask (host.map_dump epoch_id)
    set_bss_variable map_info (text ".bss.xk_epoch") (current_epoch raw + 1)

  unfoldable pub bump_epoch : Dict Text ℕ → Run Bool
  bump_epoch map_info =
      bump_found map_info (find_map (text ".bss.xk_epoch") (text "_bss_xk_epoch") map_info)

  unfoldable pub snapshot_map_ids : Run (List ℕ)
  snapshot_map_ids = do maps ← ask host.map_list; pure (ids_of maps)

  -- No query where there are no numbers.
  unfoldable pub resolve_map_names : List ℕ → Run (Dict Text ℕ)
  resolve_map_names [] = pure []
  resolve_map_names (i ∷ ids) = do maps ← ask host.map_list; pure (names_in (i ∷ ids) maps)
