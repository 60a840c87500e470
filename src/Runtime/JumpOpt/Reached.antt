-- ===== src/Runtime/JumpOpt/Reached.antt =====
-- The states of the outside that a run of `try_jump_optimization` goes through (src/loader.py).
use xkernel.Base.{subst, sym, ◌≡◌, refl, Bool, true, false, List, [], ◌∷◌}
use xkernel.Base.{Bool-cases, inl, inr, ◌==◌, leb, length}
use xkernel.Base.Int.{ℤ, int_eq}
use xkernel.Base.Text.{Text}
use xkernel.Runtime.JumpOpt.Patch.{KprobeEntry}
use xkernel.Runtime.JumpOpt.{Toolchain, LoadWorld, check_kprobe_optimized, compile_source}
use xkernel.Runtime.JumpOpt.{load_object, patch, after_load, after_compile, try_candidate}
use xkernel.Runtime.JumpOpt.{try_candidates, settle, optimize_kprobe, optimize_each}

module _ (tools : Toolchain) (start : tools.State) where
  -- The state at the start, and those that a call of a tool gives in a state before.
  pub data Reached : tools.State → Type 0 where
    begun : Reached start
    compiling : (source : Text) (s : tools.State) → Reached s → Reached (tools.compile source s).1
    loading : (s : tools.State) → Reached s → Reached (tools.load s).1
    listing : (s : tools.State) → Reached s → Reached (tools.list_kprobes s).1

  patch-outside :
      (func_name : Text) (a b : ℤ) (w : LoadWorld tools)
      → (patch tools func_name a b w).outside ≡ w.outside
  unfolding patch
  patch-outside func_name a b w = elim (Bool-cases (a == b)) [
    | inl same ↦ rw same refl
    | inr other ↦ rw other refl
  ]

  pub patch-Reached :
      (func_name : Text) (a b : ℤ) (w : LoadWorld tools)
      → Reached w.outside
      → Reached (patch tools func_name a b w).outside
  patch-Reached func_name a b w r = subst Reached (sym (patch-outside func_name a b w)) r

  check-Reached :
      (func_name : Text) (offset : ℤ) (w : LoadWorld tools)
      → Reached w.outside
      → Reached (check_kprobe_optimized tools func_name offset w).1.outside
  unfolding check_kprobe_optimized
  check-Reached func_name offset w r = Reached.listing w.outside r

  after_load-Reached :
      (func_name : Text) (cand : ℤ) (b : Bool) (w : LoadWorld tools)
      → Reached w.outside
      → Reached (after_load tools func_name cand (b, w)).1.outside
  unfolding after_load
  after_load-Reached func_name cand false w r = r
  after_load-Reached func_name cand true w r = check-Reached func_name cand w r

  after_compile-Reached :
      (func_name : Text) (cand : ℤ) (b : Bool) (w : LoadWorld tools)
      → Reached w.outside
      → Reached (after_compile tools func_name cand (b, w)).1.outside
  unfolding after_compile load_object
  after_compile-Reached func_name cand false w r = r
  after_compile-Reached func_name cand true w r =
      after_load-Reached func_name cand _ _ (Reached.loading w.outside r)

  pub try_candidate-Reached :
      (func_name : Text) (current cand : ℤ) (w : LoadWorld tools)
      → Reached w.outside
      → Reached (try_candidate tools func_name current cand w).1.outside
  unfolding try_candidate compile_source
  try_candidate-Reached func_name current cand w r =
      after_compile-Reached func_name cand _ _
        (Reached.compiling _ _ (patch-Reached func_name current cand w r))

  try_candidates-Reached :
      (func_name : Text) (original current : ℤ) (cands : List ℤ) (w : LoadWorld tools)
      → Reached w.outside
      → Reached (try_candidates tools func_name original current cands w).world.outside
  unfolding try_candidates
  try_candidates-Reached func_name original current [] w r = r
  try_candidates-Reached func_name original current (cand ∷ cands) w r =
      let t = try_candidate tools func_name current cand w in
      let here = try_candidate-Reached func_name current cand w r in
      let later = try_candidates-Reached func_name original cand cands t.1 here in
      elim (Bool-cases t.0) [ inl found ↦ rw found here | inr other ↦ rw other later ]

  pub optimize_kprobe-Reached :
      (kp : KprobeEntry) (w : LoadWorld tools)
      → Reached w.outside
      → Reached (optimize_kprobe tools kp w).1.outside
  unfolding optimize_kprobe settle
  optimize_kprobe-Reached kp w r = elim (Bool-cases (leb (length kp.candidates) 1)) [
    | inl single ↦ rw single r
    | inr several ↦ rw several (
        patch-Reached kp.func_name _ _ _ (
          try_candidates-Reached kp.func_name kp.current_offset kp.current_offset kp.candidates w
            r))
  ]

  pub optimize_each-Reached :
      (kps : List KprobeEntry) (b : Bool) (w : LoadWorld tools)
      → Reached w.outside
      → Reached (optimize_each tools kps (b, w)).1.outside
  unfolding optimize_each
  optimize_each-Reached [] b w r = r
  optimize_each-Reached (kp ∷ kps) b w r =
      optimize_each-Reached kps _ _ (optimize_kprobe-Reached kp w r)
