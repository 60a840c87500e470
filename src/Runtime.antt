-- ===== src/Runtime.antt =====
-- The runtime state of loaded ConstIDs (src/loader.py, src/cli.py): the state file, the tables, the
-- span files, and the commands that are given to bpftool, the kernel modules and the shell. What
-- those answer is a parameter, the host.
pub mod JumpOpt
pub mod Keeps
pub mod Ensures
pub mod Returns
pub mod Maps
pub mod Unload
pub mod Stop
pub mod Spans
pub mod SpanFiles
pub mod Load
pub mod Start
pub mod Delete
mod Tests
use xkernel.Base.{ℕ, Bool, true, false, List, [], ◌∷◌, ◌++◌, Option, some, none, Exception}
use xkernel.Base.Int.{ℤ}
use xkernel.Base.Dict.{Dict}
use xkernel.Base.Text.{Text}
use xkernel.Tables.{Tables}

-- A value of `active_const_ids`.
pub record Active : Type 0 where
  pub mode : ℕ
  pub bpf_file : Text
  pub status : Text

pub record State : Type 0 where
  pub kfuncs_loaded : Bool
  pub active_const_ids : Dict Text Active

-- The state that a read of the file gives.
unfoldable pub state_of : Option State → State
state_of none = record { kfuncs_loaded = false; active_const_ids = [] }
state_of (some s) = s

-- What is asked of the outside, with what the command line says.
pub data Command : Type 0 where
  remove_pins make_progs_dir make_maps_dir : Text → Command
  remove_all_pins test_all_pins : Command
  load_programs : Text → Text → Command
  map_update : ℕ → List ℕ → List ℕ → Command
  compile : Text → Command
  build_kfuncs build_consistency insmod_kfuncs rmmod_kfuncs rmmod_consistency : Command
  insmod_consistency : ℤ → Command
  sleep : ℕ → Command

-- The answers: a command's success, and what the queries print, as the libraries parse it. `none`
-- is a query that fails, or prints what cannot be parsed.
pub record Host : Type 1 where
  pub K : Type 0
  pub command : Command → K → Bool × K
  pub file_exists : Text → K → Bool × K
  pub kfuncs_built : K → Bool × K
  pub consistency_built : K → Bool × K
  -- `bpftool map list`: the number and the name of each map
  pub map_list : K → Option (List (ℕ × Text)) × K
  -- the names of a ConstID's pinned maps, and the number of one
  pub pinned_names : Text → K → Option (List Text) × K
  pub pinned_map : Text → Text → K → Option ℕ × K
  -- the bytes of a map's first value, as hexadecimal texts
  pub map_dump : ℕ → K → Option (List Text) × K
  pub lsmod : K → Option (List Text) × K
  pub dmesg : K → Option (List Text) × K
  pub recent_dmesg : K → Option (List Text) × K
  -- the clock, in milliseconds
  pub time : K → ℕ × K
  pub function_address : Text → K → Option Text × K

-- How a call ends: it returns, it raises, or it leaves the program by `sys.exit`.
pub data Outcome (A : Type 0) : Type 0 where
  returned : A → Outcome A
  raised : Exception → Outcome A
  exited : Outcome A

module _ ⦃host : Host⦄ where
  -- `log` has the commands given so far. `runtime` is `none` where the file is missing or no JSON.
  pub record World : Type 0 where
    pub runtime : Option State
    pub tables : Tables
    pub cs_file : Option (List Text)
    pub ss_file : Option (List Text)
    -- the function, the entry and the exit of each guard in cs_artifact.bpf.h
    pub guards : List (Text × ℤ × ℤ)
    pub log : List Command
    pub kernel : host.K

  abbrev pub Run : Type 0 → Type 0
  Run A = World → Outcome A × World

  unfoldable pub continue : {A B : Type 0} → Outcome A → (A → Run B) → Run B
  continue (returned a) f w = f a w
  continue (raised e) f w = (raised e, w)
  continue exited f w = (exited, w)

  infixl 5 ◌>>=◌ ◌>>◌
  unfoldable pub ◌>>=◌ : {A B : Type 0} → Run A → (A → Run B) → Run B
  unfolding continue
  ◌>>=◌ m f w = let (r, w') = m w in continue r f w'

  abbrev pub ◌>>◌ : {A B : Type 0} → Run A → Run B → Run B
  m >> n = m >>= λ _. n

  unfoldable pub pure : {A : Type 0} → A → Run A
  pure a w = (returned a, w)

  unfoldable pub raise : {A : Type 0} → Exception → Run A
  raise e w = (raised e, w)

  -- `sys.exit`
  unfoldable pub exit : {A : Type 0} → Run A
  exit w = (exited, w)

  unfoldable pub gets : {A : Type 0} → (World → A) → Run A
  gets f w = (returned (f w), w)

  -- A change of a file: the runtime state, the tables, or the span files.
  unfoldable pub set_runtime : State → Run Unit
  set_runtime s w = (returned tt, record w { runtime = some s })

  unfoldable pub set_tables : (Tables → Tables) → Run Unit
  set_tables f w = (returned tt, record w { tables = f w.tables })

  unfoldable pub set_cs_file : List Text → Run Unit
  set_cs_file lines w = (returned tt, record w { cs_file = some lines })

  unfoldable pub set_ss_file : List Text → Run Unit
  set_ss_file lines w = (returned tt, record w { ss_file = some lines })

  unfoldable pub set_guards : List (Text × ℤ × ℤ) → Run Unit
  set_guards guards w = (returned tt, record w { guards = guards })

  -- A query of the outside, and a command, which is logged.
  unfoldable pub ask : {A : Type 0} → (host.K → A × host.K) → Run A
  ask q w = let (a, k) = q w.kernel in (returned a, record w { kernel = k })

  unfoldable pub give : Command → Run Bool
  give c w =
      let (success, k) = host.command c w.kernel in
      (returned success, record w { kernel = k; log = w.log ++ (c ∷ []) })

  unfoldable pub when : Bool → Run Unit → Run Unit
  when true m = m
  when false m = pure tt

  -- `get_runtime_state`
  unfoldable pub get_runtime_state : Run State
  get_runtime_state = gets (λ w. state_of w.runtime)
