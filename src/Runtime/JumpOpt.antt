-- ===== src/Runtime/JumpOpt.antt =====
-- The flag `--jump-opt` of `load` (src/loader.py): `patch_bpf_sec_offset`, `check_kprobe_optimized`
-- and `try_jump_optimization`. What the compiler, bpftool and the kernel's list of kprobes answer is
-- a parameter.
mod Tests
pub mod Listing
pub mod Patch
pub mod Reached
pub mod Outcome
use xkernel.Base.{ℕ, zero, suc, Bool, true, false, not, ◌&&◌, ◌||◌, Option, none, some, List, []}
use xkernel.Base.{◌∷◌, ◌++◌, if◌then◌else◌, ◌==◌, ◌=ℕ◌, list_eq, nat_eq, leb, length, Result, ok}
use xkernel.Base.{raised, ◌>>=◌}
use xkernel.Base.Int.{ℤ, int_eq}
use xkernel.Base.Text.{Text, text, split, starts_with, show_int}
use xkernel.Runtime.JumpOpt.Patch.{KprobeEntry, patch_bpf_sec_offset, kprobes_in, contains_text}
use xkernel.Runtime.JumpOpt.Patch.{hex_of}

-- The compiler reads the source; each call may change the state of what lies outside.
pub record Toolchain : Type 1 where
  pub State : Type 0
  pub compile : Text → State → Bool × State
  pub load : State → Bool × State
  pub list_kprobes : State → Option (List Text) × State

module _ (tools : Toolchain) where
  open tools use {State, compile, load, list_kprobes}

  -- The source file, and what lies outside.
  pub record LoadWorld : Type 0 where
    pub source : Text
    pub outside : State

  -- The first line of the list that names the place decides.
  unfoldable pub optimized_in : Text → ℤ → List Text → Bool
  optimized_in func_name offset [] = false
  optimized_in func_name offset (line ∷ lines) =
      let rest = optimized_in func_name offset lines in
      if contains_text func_name line && contains_text (text "+0x" ++ hex_of offset) line
      then contains_text (text "[OPTIMIZED]") line
      else rest

  unfoldable pub listed : Text → ℤ → Option (List Text) → Bool
  listed func_name offset none = false
  listed func_name offset (some lines) = optimized_in func_name offset lines

  unfoldable pub check_kprobe_optimized : Text → ℤ → LoadWorld → Bool × LoadWorld
  check_kprobe_optimized func_name offset w =
      let (answer, outside') = list_kprobes w.outside in
      (listed func_name offset answer, record w { outside = outside' })

  unfoldable pub compile_source : LoadWorld → Bool × LoadWorld
  compile_source w =
      let (compiled, outside') = compile w.source w.outside in
      (compiled, record w { outside = outside' })

  unfoldable pub load_object : LoadWorld → Bool × LoadWorld
  load_object w =
      let (loaded, outside') = load w.outside in (loaded, record w { outside = outside' })

  unfoldable pub patch : Text → ℤ → ℤ → LoadWorld → LoadWorld
  patch func_name old_offset new_offset w =
      if old_offset == new_offset
      then w
      else record w { source = patch_bpf_sec_offset func_name old_offset new_offset w.source }

  -- Whether the source with this candidate compiles, loads and is optimized.
  unfoldable pub after_load : Text → ℤ → Bool × LoadWorld → Bool × LoadWorld
  after_load func_name cand (false, w) = (false, w)
  after_load func_name cand (true, w) = check_kprobe_optimized func_name cand w

  unfoldable pub after_compile : Text → ℤ → Bool × LoadWorld → Bool × LoadWorld
  after_compile func_name cand (false, w) = (false, w)
  after_compile func_name cand (true, w) = after_load func_name cand (load_object w)

  unfoldable pub try_candidate : Text → ℤ → ℤ → LoadWorld → Bool × LoadWorld
  try_candidate func_name current cand w =
      after_compile func_name cand (compile_source (patch func_name current cand w))

  -- The offset that is in the file at the end, the one to keep, and whether one was optimized.
  pub record Trial : Type 0 where
    pub current : ℤ
    pub best : ℤ
    pub found : Bool
    pub world : LoadWorld

  unfoldable pub try_candidates : Text → ℤ → ℤ → List ℤ → LoadWorld → Trial
  try_candidates func_name original current [] w = record {
    current = current;
    best = original;
    found = false;
    world = w;
  }
  try_candidates func_name original current (cand ∷ cands) w =
      let (optimized, w') = try_candidate func_name current cand w in
      let rest = try_candidates func_name original cand cands w' in
      if optimized then record { current = cand; best = cand; found = true; world = w' } else rest

  -- The offset to keep is put back into the file.
  unfoldable pub settle : Text → Trial → Bool × LoadWorld
  settle func_name trial = (trial.found, patch func_name trial.current trial.best trial.world)

  unfoldable pub optimize_kprobe : KprobeEntry → LoadWorld → Bool × LoadWorld
  optimize_kprobe kp w =
      if leb (length kp.candidates) 1
      then (false, w)
      else settle kp.func_name
          (try_candidates kp.func_name kp.current_offset kp.current_offset kp.candidates w)

  unfoldable pub optimize_each : List KprobeEntry → Bool × LoadWorld → Bool × LoadWorld
  optimize_each [] (any_optimized, w) = (any_optimized, w)
  optimize_each (kp ∷ kps) (any_optimized, w) =
      let (found, w') = optimize_kprobe kp w in optimize_each kps (found || any_optimized, w')

  -- A failure of the last compilation puts the original source back.
  unfoldable pub after_final : Text → Bool → Bool × LoadWorld → Bool × LoadWorld
  after_final original any_optimized (true, w) = (any_optimized, w)
  after_final original any_optimized (false, w) =
      (any_optimized, (compile_source (record w { source = original })).1)

  unfoldable pub conclude_run : Text → Bool × LoadWorld → Bool × LoadWorld
  conclude_run original (any_optimized, w) = after_final original any_optimized (compile_source w)

  unfoldable pub optimize_all : List KprobeEntry → LoadWorld → Bool × LoadWorld
  optimize_all [] w = (false, w)
  optimize_all (kp ∷ kps) w = conclude_run w.source (optimize_each (kp ∷ kps) (false, w))

  unfoldable pub try_jump_optimization : LoadWorld → Result (Bool × LoadWorld)
  try_jump_optimization w = do kps ← kprobes_in w.source; ok (optimize_all kps w)
