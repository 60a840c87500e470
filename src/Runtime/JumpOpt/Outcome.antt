-- ===== src/Runtime/JumpOpt/Outcome.antt =====
-- What `try_jump_optimization` returns and leaves (src/loader.py).
use xkernel.Base.{◌≡◌, ◌<◌, ◌⊎◌, Bool, true, false}
use xkernel.Base.{List, ◌∷◌, ◌++◌, none, some}
use xkernel.Base.{length, All}
use xkernel.Base.Int.{ℤ, int_eq}
use xkernel.Base.Text.{Text}
use xkernel.Runtime.JumpOpt.Patch.{KprobeEntry}
use xkernel.Runtime.JumpOpt.{Toolchain, LoadWorld}
use xkernel.Runtime.JumpOpt.Reached.{Reached}
use xkernel.Runtime.JumpOpt.Listing.{names_place, Decides}

module _ (tools : Toolchain) (start : tools.State) where
  -- In a state that calls lead to, the kernel's list shows the place as optimized.
  pub Shown : Text → ℤ → Type 0
  Shown func_name offset =
      (s : tools.State) × Reached tools start s
      × (lines : List Text) × ((tools.list_kprobes s).0 ≡ some lines)
      × Decides true func_name offset lines

  -- In a state that calls lead to, the list cannot be read, names the place nowhere, or shows it as not
  -- optimized.
  pub data NotShown (func_name : Text) (offset : ℤ) : Type 0 where
    unread :
        (s : tools.State)
        → Reached tools start s
        → (tools.list_kprobes s).0 ≡ none
        → NotShown func_name offset
    unnamed :
        (s : tools.State) (lines : List Text)
        → Reached tools start s
        → (tools.list_kprobes s).0 ≡ some lines
        → All (λ l. names_place func_name offset l ≡ false) lines
        → NotShown func_name offset
    unflagged :
        (s : tools.State) (lines : List Text)
        → Reached tools start s
        → (tools.list_kprobes s).0 ≡ some lines
        → Decides false func_name offset lines
        → NotShown func_name offset

  -- The compiler or the loader has refused, or the kernel's list does not show the place.
  pub Fails : Text → ℤ → Type 0
  Fails func_name cand =
      ((source : Text) × (s : tools.State) × Reached tools start s
        × ((tools.compile source s).0 ≡ false))
      ⊎ (((s : tools.State) × Reached tools start s × ((tools.load s).0 ≡ false))
          ⊎ NotShown func_name cand)

  abbrev Answer : Bool → Text → ℤ → Type 0
  Answer true func_name offset = Shown func_name offset
  Answer false func_name offset = Fails func_name offset

  -- A candidate of the list that the kernel has shown; or all of them fail.
  pub Tried : Bool → Text → List ℤ → Type 0
  Tried true func_name cands =
      (pre : List ℤ) × (cand : ℤ) × (post : List ℤ) × (cands ≡ pre ++ (cand ∷ post))
      × All (Fails func_name) pre
      × Shown func_name cand
  Tried false func_name cands = All (Fails func_name) cands

  -- A kprobe with several candidates has one that was shown; or, if it has several, all fail.
  pub HasOutcome : Bool → KprobeEntry → Type 0
  HasOutcome true kp = (1 < length kp.candidates) × Tried true kp.func_name kp.candidates
  HasOutcome false kp = 1 < length kp.candidates → Tried false kp.func_name kp.candidates

  -- Some kprobe has a candidate that was shown; or none has.
  pub AnyShown : Bool → List KprobeEntry → Type 0
  AnyShown true kps =
      (pre : List KprobeEntry) × (kp : KprobeEntry) × (post : List KprobeEntry) × (kps
        ≡ pre ++ (kp ∷ post))
      × HasOutcome true kp
  AnyShown false kps = All (HasOutcome false) kps

  -- The source is the one given, or was compiled at the end.
  pub Sound : Text → LoadWorld tools → Type 0
  Sound original w =
      (w.source ≡ original)
      ⊎ ((s : tools.State) × Reached tools start s × ((tools.compile w.source s).0 ≡ true))
