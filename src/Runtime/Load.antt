-- ===== src/Runtime/Load.antt =====
-- The command `load` (src/cli.py), without its flag `--jump-opt`, and what it calls (src/loader.py).
pub mod Kept
pub mod Programs
use xkernel.Base.{ℕ, zero, suc, ◌*◌, Bool, true, false, not, ◌||◌, ◌&&◌, List, [], ◌∷◌, ◌++◌}
use xkernel.Base.{Option, some, none, keep, drop, max, if◌then◌else◌, ltb, leb, ◌=ℕ◌, ◌==◌}
use xkernel.Base.{list_eq, nat_eq, contains, length, get_elem?, value_error}
use xkernel.Base.Int.{ℤ, pos, negsuc, ◌+ℤ◌, int_beq}
use xkernel.Base.Dict.{Dict, lookup, has, insert}
use xkernel.Base.Text.{Text, text, parse_int, isdigit, split}
use xkernel.Tables.{Row, File, Tables}
use xkernel.Tables.Status.{column, cell_is}
use xkernel.Analysis.Jump.{has_part}
use xkernel.Runtime.{Host, World, Run, Command, Active, State, ◌>>=◌, ◌>>◌, pure, raise, exit}
use xkernel.Runtime.{ask, give, gets, when, get_runtime_state, set_runtime, set_guards}
use xkernel.Runtime.Maps.{set_bss_variable, activate_constid, snapshot_map_ids, resolve_map_names}
use xkernel.Runtime.Unload.{is_kfuncs_loaded, is_consistency_loaded, unload_constid}
use xkernel.Runtime.Stop.{mark_status}
use xkernel.Runtime.Spans.{file_lines, load_critical_spans_for_constid}
use xkernel.Runtime.Spans.{load_safe_spans_for_constid}
use xkernel.Runtime.SpanFiles.{generate_cs_file, generate_ss_file}

-- The loop of `resolve_constid_to_bpf`: the file cell of the ConstID's first row.
unfoldable pub bpf_cell : ℕ → Row → Text
bpf_cell bf_col fields = elim (get_elem? fields bf_col) [ none ↦ [] | some c ↦ c ]

unfoldable pub find_bpf : ℕ → ℕ → Text → List Row → Text
find_bpf cid_col bf_col const_id [] = []
find_bpf cid_col bf_col const_id (fields ∷ rows) =
    let rest = find_bpf cid_col bf_col const_id rows in
    if ltb (max cid_col bf_col) (length fields) && cell_is cid_col const_id fields
    then bpf_cell bf_col fields
    else rest

unfoldable pub find_columns : Option ℕ → Option ℕ → Text → List Row → Text
find_columns (some cid_col) (some bf_col) const_id rows = find_bpf cid_col bf_col const_id rows
find_columns _ _ const_id rows = []

-- The BPF file of a ConstID. The empty text says that there is none.
unfoldable pub resolve_constid_to_bpf : Text → File → Text
resolve_constid_to_bpf const_id none = []
resolve_constid_to_bpf const_id (some []) = []
resolve_constid_to_bpf const_id (some (header ∷ rows)) =
    find_columns (column (text "ConstID") header) (column (text "BPF_File") header) const_id rows

-- The span entries of `generate_cs_artifact_header`: those of no width are skipped, and `none` is a
-- `ValueError`.
unfoldable pub guard_of : Text → Option ℤ → Option ℤ → Option (List (Text × ℤ × ℤ))
guard_of name (some soff) (some eoff) =
    some (if int_beq soff eoff then [] else (name, soff, eoff) ∷ [])
guard_of name _ _ = none

unfoldable pub append_option :
    Option (List (Text × ℤ × ℤ)) → Option (List (Text × ℤ × ℤ)) → Option (List (Text × ℤ × ℤ))
append_option (some a) (some b) = some (a ++ b)
append_option _ _ = none

unfoldable pub guards_of : List Text → Option (List (Text × ℤ × ℤ))
guards_of (name ∷ addr ∷ soff ∷ eoff ∷ more) = guard_of name (parse_int 16 soff) (parse_int 16 eoff)
guards_of _ = some []

unfoldable pub parse_guards : List Text → Option (List (Text × ℤ × ℤ))
parse_guards [] = some []
parse_guards (line ∷ lines) = append_option (guards_of (split b',' line)) (parse_guards lines)

-- The last of these lines decides: the transition is done, or has timed out.
unfoldable pub is_done : Text → Bool
is_done line = has_part (text "transition done") line || has_part (text "transition instant") line

unfoldable pub is_timed_out : Text → Bool
is_timed_out line = has_part (text "transition timed out") line

unfoldable pub last_done : List Text → Option Bool
last_done [] = none
last_done (line ∷ lines) = elim (last_done lines) [
  | some b ↦ some b
  | none ↦ if is_done line then some true else if is_timed_out line then some false else none
]

-- `max_wait * 10` turns, for a wait of five seconds more than the timeout.
unfoldable pub turns : ℤ → ℕ
turns (pos n) = n * 10
turns (negsuc n) = 0

module _ ⦃host : Host⦄ where
  unfoldable pub write_guards : Option (List (Text × ℤ × ℤ)) → Run Unit
  write_guards none = raise value_error
  write_guards (some guards) = set_guards guards

  -- The guards of the SS file, or else of the CS file.
  unfoldable pub or_file : Option (List Text) → Option (List Text) → Option (List Text)
  or_file none cs_file = cs_file
  or_file (some lines) cs_file = some lines

  unfoldable pub generate_cs_artifact : Bool → Run Unit
  generate_cs_artifact false = set_guards []
  generate_cs_artifact true = do
    spans_file ← gets (λ w. or_file w.ss_file w.cs_file)
    write_guards (parse_guards (file_lines spans_file))

  unfoldable pub mark_kfuncs : State → Run Unit
  mark_kfuncs state = set_runtime (record state { kfuncs_loaded = true })

  unfoldable pub after_insmod : Bool → Run Bool
  after_insmod false = pure false
  after_insmod true = do state ← get_runtime_state; mark_kfuncs state; pure true

  unfoldable pub insmod_kfuncs : Bool → Run Bool
  insmod_kfuncs false = pure false
  insmod_kfuncs true = do inserted ← give Command.insmod_kfuncs; after_insmod inserted

  -- The module's file, built if it is missing.
  unfoldable pub built : (host.K → Bool × host.K) → Command → Bool → Run Bool
  built exists build true = pure true
  built exists build false = do success ← give build; there ← ask exists; pure (success && there)

  unfoldable pub insert_kfuncs : Bool → Run Bool
  insert_kfuncs true = pure true
  insert_kfuncs false = do
    there ← ask host.kfuncs_built
    ready ← built host.kfuncs_built Command.build_kfuncs there
    insmod_kfuncs ready

  unfoldable pub ensure_kfuncs_loaded : Run Bool
  ensure_kfuncs_loaded = do loaded ← is_kfuncs_loaded; insert_kfuncs loaded

  -- The loop over the BPF files: whether all are loaded.
  unfoldable pub load_existing : Text → Text → Bool → Run Bool
  load_existing const_id bpf_file false = pure false
  load_existing const_id bpf_file true = give (Command.load_programs const_id bpf_file)

  unfoldable pub and_then : Bool → Run Bool → Run Bool
  and_then false m = pure false
  and_then true m = m

  unfoldable pub load_files : Text → List Text → Run Bool
  load_files const_id [] = pure true
  load_files const_id (bpf_file ∷ bpf_files) = do
    there ← ask (host.file_exists bpf_file)
    loaded ← load_existing const_id bpf_file there
    and_then loaded (load_files const_id bpf_files)

  -- The maps that are new, by name; the mode is set, and mode 0 activates at once. `none` is a failure.
  unfoldable pub attached : ℕ → List ℕ → Bool → Run (Option (Dict Text ℕ))
  attached mode maps_before false = pure none
  attached mode maps_before true = do
    maps_after ← snapshot_map_ids
    map_info ← resolve_map_names (keep (λ i. not (contains maps_before i)) maps_after)
    set_bss_variable map_info (text ".bss.xk_mode") mode
    when (mode =ℕ 0) (set_bss_variable map_info (text ".bss.xk_active") 1 >> pure tt)
    pure (some map_info)

  unfoldable pub load_and_attach_per_constid : List Text → Text → ℕ → Run (Option (Dict Text ℕ))
  load_and_attach_per_constid bpf_files const_id mode = do
    give (Command.make_progs_dir const_id)
    give (Command.make_maps_dir const_id)
    maps_before ← snapshot_map_ids
    loaded ← load_files const_id bpf_files
    attached mode maps_before loaded
