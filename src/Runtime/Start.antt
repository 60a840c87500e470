-- ===== src/Runtime/Start.antt =====
-- The command `load` (src/cli.py), called without the flag `--jump-opt`.
pub mod Kept
pub mod Transaction
pub mod Outcomes
pub mod Activation
use xkernel.Base.{ℕ, zero, suc, ◌-◌, Bool, true, false, not, ◌||◌, List, [], ◌∷◌, ◌++◌, Option}
use xkernel.Base.{some, none, drop, length, if◌then◌else◌, ltb, ◌=ℕ◌, value_error, list_eq}
use xkernel.Base.{nat_eq}
use xkernel.Base.Int.{ℤ, pos, negsuc, ◌+ℤ◌}
use xkernel.Base.Dict.{Dict, has, insert}
use xkernel.Base.Text.{Text, text, parse_int, isdigit, starts_with}
use xkernel.Runtime.{Host, World, Run, Command, Active, State, ◌>>=◌, ◌>>◌, pure, raise, exit}
use xkernel.Runtime.{ask, give, gets, when, get_runtime_state, set_runtime}
use xkernel.Runtime.Maps.{activate_constid}
use xkernel.Runtime.Unload.{is_consistency_loaded, unload_constid, any_line}
use xkernel.Runtime.Stop.{mark_status}
use xkernel.Runtime.Spans.{load_critical_spans_for_constid, load_safe_spans_for_constid}
use xkernel.Runtime.SpanFiles.{generate_cs_file, generate_ss_file}
use xkernel.Runtime.Load.{resolve_constid_to_bpf, is_timed_out, last_done, turns}
use xkernel.Runtime.Load.{generate_cs_artifact, ensure_kfuncs_loaded, load_and_attach_per_constid}
use xkernel.Runtime.Load.{built}

-- `s.replace('.bpf.o', '.bpf.c')`, with the characters left of an occurrence that is passed.
unfoldable pub replace_suffix : ℕ → Text → Text
replace_suffix left [] = []
replace_suffix (suc left) (c ∷ s) = replace_suffix left s
replace_suffix zero (c ∷ s) =
    let found = starts_with (c ∷ s) (text ".bpf.o") in
    (if found then text ".bpf.c" else c ∷ []) ++ replace_suffix (if found then 5 else 0) s

-- The path of a stub, from the project's root, and that of its source.
unfoldable pub bpf_o_path : Text → Text
bpf_o_path bpf_filename = text "bpf/stubs/" ++ bpf_filename

unfoldable pub bpf_c_path : Text → Text
bpf_c_path bpf_filename = replace_suffix 0 (bpf_o_path bpf_filename)

-- `re.match(r'^\d+$', const_id)`: the pattern's end is also before a last line feed.
unfoldable pub without_newline : Text → Text
without_newline [] = []
without_newline (c ∷ []) = if c =ℕ 10 then [] else c ∷ []
without_newline (c ∷ d ∷ s) = c ∷ without_newline (d ∷ s)

unfoldable pub is_const_id : Text → Bool
is_const_id s = isdigit (without_newline s)

unfoldable pub timeout_of : List Text → Option ℤ
timeout_of [] = some (pos 5)
timeout_of (t ∷ more) = parse_int 10 t

unfoldable pub line_count : Option (List Text) → ℕ
line_count none = 0
line_count (some lines) = length lines

unfoldable pub is_true : Option Bool → Bool
is_true none = false
is_true (some b) = b

module _ ⦃host : Host⦄ where
  -- The poll for the transition's end: whether it is seen to be done.
  unfoldable pub poll_lines : List Text → Run Bool → Run Bool
  poll_lines new_lines again =
      let transition_done = is_true (last_done new_lines) in
      if transition_done || any_line is_timed_out new_lines then pure transition_done else again

  unfoldable pub poll_output : ℕ → Option (List Text) → Run Bool → Run Bool
  poll_output baseline none again = again
  poll_output baseline (some lines) again = poll_lines (drop baseline lines) again

  unfoldable pub poll_transition : ℕ → ℕ → Run Bool
  poll_transition zero baseline = pure false
  poll_transition (suc left) baseline = do
    give (Command.sleep 100)
    output ← ask host.dmesg
    poll_output baseline output (poll_transition left baseline)

  unfoldable pub give_up : Text → Run Unit
  give_up const_id = do unload_constid const_id; exit

  unfoldable pub after_insmod_consistency : Text → Dict Text ℕ → ℤ → ℕ → Bool → Run Unit
  after_insmod_consistency const_id map_info timeout baseline false = do
    ask host.dmesg
    give_up const_id
  after_insmod_consistency const_id map_info timeout baseline true = do
    poll_transition (turns (timeout +ℤ pos 5)) baseline
    activate_constid map_info
    pure tt

  unfoldable pub insmod_with : Text → Dict Text ℕ → Option ℤ → Run Unit
  insmod_with const_id map_info none = raise value_error
  insmod_with const_id map_info (some timeout) = do
    dmesg_before ← ask host.dmesg
    inserted ← give (Command.insmod_consistency timeout)
    after_insmod_consistency const_id map_info timeout (line_count dmesg_before) inserted

  unfoldable pub run_transition : Text → List Text → Dict Text ℕ → Bool → Run Unit
  run_transition const_id more map_info false = give_up const_id
  run_transition const_id more map_info true = do
    loaded ← is_consistency_loaded
    when loaded (give Command.rmmod_consistency >> give (Command.sleep 500) >> pure tt)
    insmod_with const_id map_info (timeout_of more)

  unfoldable pub global_transition : Text → List Text → Dict Text ℕ → Run Unit
  global_transition const_id more map_info = do
    there ← ask host.consistency_built
    ready ← built host.consistency_built Command.build_consistency there
    run_transition const_id more map_info ready

  -- Steps 6b and 7, by the mode.
  unfoldable pub activate_mode : ℕ → Text → List Text → Dict Text ℕ → Run Unit
  activate_mode (suc zero) const_id more map_info = do activate_constid map_info; pure tt
  activate_mode (suc (suc zero)) const_id more map_info = global_transition const_id more map_info
  activate_mode _ const_id more map_info = pure tt

  -- Step 8
  unfoldable pub record_active : Text → Active → State → Run Unit
  record_active const_id entry state =
      set_runtime (record state { active_const_ids = insert const_id entry state.active_const_ids })

  unfoldable pub commit : ℕ → Text → Text → Run Unit
  commit mode const_id bpf_filename = do
    mark_status const_id (text "active")
    state ← get_runtime_state
    record_active const_id (record { mode = mode; bpf_file = bpf_filename; status = text "active" })
        state

  -- Steps 6 and 7, after the programs are loaded.
  unfoldable pub start : ℕ → Text → List Text → Text → Option (Dict Text ℕ) → Run Unit
  start mode const_id more bpf_filename none = exit
  start mode const_id more bpf_filename (some map_info) = do
    load_critical_spans_for_constid map_info
    load_safe_spans_for_constid map_info
    activate_mode mode const_id more map_info
    commit mode const_id bpf_filename

  unfoldable pub exit_unless : Bool → Run Unit → Run Unit
  exit_unless false m = exit
  exit_unless true m = m

  unfoldable pub load_programs : ℕ → Text → List Text → Text → Run Unit
  load_programs mode const_id more bpf_filename = do
    loaded ← ensure_kfuncs_loaded
    exit_unless loaded do
      map_info ← load_and_attach_per_constid (bpf_o_path bpf_filename ∷ []) const_id mode
      start mode const_id more bpf_filename map_info

  -- Steps 1 and 2
  unfoldable pub load_file : ℕ → Text → List Text → Text → Run Unit
  load_file mode const_id more [] = exit
  load_file mode const_id more (c ∷ name) = do
    there ← ask (host.file_exists (bpf_c_path (c ∷ name)))
    exit_unless there do
      generate_cs_file const_id
      generate_ss_file const_id
      generate_cs_artifact (mode =ℕ 1)
      compiled ← give (Command.compile (bpf_c_path (c ∷ name)))
      exit_unless compiled (load_programs mode const_id more (c ∷ name))

  unfoldable pub load_new : ℕ → Text → List Text → Run Unit
  load_new mode const_id more = do
    bpf_filename ← gets (λ w. resolve_constid_to_bpf const_id w.tables.scope)
    load_file mode const_id more bpf_filename

  unfoldable pub load_unless : ℕ → Text → List Text → State → Run Unit
  load_unless mode const_id more state =
      exit_unless (not (has const_id state.active_const_ids)) (load_new mode const_id more)

  unfoldable pub load_id : ℕ → Text → List Text → Run Unit
  load_id mode const_id more =
      exit_unless (is_const_id const_id)
        do state ← get_runtime_state; load_unless mode const_id more state

  unfoldable pub load_mode : Option ℤ → Text → List Text → Run Unit
  load_mode none const_id more = raise value_error
  load_mode (some (negsuc n)) const_id more = exit
  load_mode (some (pos mode)) const_id more = exit_unless (ltb mode 3) (load_id mode const_id more)

  unfoldable pub cmd_load : List Text → Run Unit
  cmd_load (mode ∷ const_id ∷ more) = load_mode (parse_int 10 mode) const_id more
  cmd_load _ = exit
