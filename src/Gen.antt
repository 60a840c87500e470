-- ===== src/Gen.antt =====
-- The files of basic blocks made from the output of src/diff.py (src/gen.py). The run of a command
-- is a parameter.
mod Tests
use xkernel.Base.{ℕ, zero, suc, ◌+◌, ◌-◌, ◌≡◌, refl, sym, ap, ◌∙◌, arith, Bool, true, false, not}
use xkernel.Base.{◌&&◌, ◌||◌, Option, none, some, List, [], ◌∷◌, ◌++◌, if◌then◌else◌, ◌==◌, ◌=ℕ◌}
use xkernel.Base.{list_eq, nat_eq, keep, length, drop, All, get_or, Bool-cases, inl, inr}
use xkernel.Base.Text.{Text, text, is_digit, strip, split, join, starts_with, show_nat}
use xkernel.Analysis.Varying.{take_while}
use xkernel.Runtime.JumpOpt.Patch.{contains_text}
use xkernel.Config.{TunableConfig}

-- `\x1b\[[0-9;]*m`: how many characters are to be skipped behind the first.
unfoldable pub is_parameter : ℕ → Bool
is_parameter c = is_digit c || c == b';'

unfoldable pub escape_length : Text → ℕ
escape_length s =
    let parameters = take_while is_parameter (drop 2 s) in
    if starts_with s (27 ∷ b'[' ∷ [])
      && starts_with (drop (length parameters) (drop 2 s)) (text "m")
    then length parameters + 2
    else 0

unfoldable pub strip_from : ℕ → Text → Text
strip_from skip [] = []
strip_from (suc skip) (c ∷ s) = strip_from skip s
strip_from zero (c ∷ s) =
    let behind = strip_from (escape_length (c ∷ s)) s in
    let kept = c ∷ strip_from 0 s in if escape_length (c ∷ s) =ℕ 0 then kept else behind

unfoldable pub strip_ansi : Text → Text
strip_ansi s = strip_from 0 s

unfoldable pub begins_11 : Text → Bool
begins_11 line = starts_with line (text "11. Extracting Basic Blocks for changed instructions...")

unfoldable pub begins_11b : Text → Bool
begins_11b line = starts_with line (text "11b.")

unfoldable pub ends_11b : Text → Bool
ends_11b line =
    starts_with line (text "12.")
    || starts_with line (text "Script finished successfully.")
    || starts_with line (text "All disassembly files saved to")

unfoldable pub ends_11 : Text → Bool
ends_11 line = starts_with line (text "11b.") || ends_11b line

-- `^Instruction at 0x.*found at line`
unfoldable pub tells_line : Text → Bool
tells_line line =
    starts_with line (text "Instruction at 0x")
    && contains_text (text "found at line") (drop 17 line)

-- The lines of a step: behind its head, without those that tell a line, up to its end.
module _ (begins ends : Text → Bool) where
  unfoldable pub step_lines : Bool → List Text → List Text
  step_lines in_step [] = []
  step_lines in_step (line ∷ lines) =
      let begun = step_lines true lines in
      let rest = step_lines in_step lines in
      if begins line
      then begun
      else if not in_step
      then rest
      else if ends line
      then []
      else if tells_line line
      then rest
      else line ∷ rest

unfoldable pub newline : Text
newline = 10 ∷ []

unfoldable pub extract_step11 : Text → Text
extract_step11 output = strip (join newline (step_lines begins_11 ends_11 false (split 10 output)))

unfoldable pub extract_step11b : Text → Text
extract_step11b output =
    strip (join newline (step_lines begins_11b ends_11b false (split 10 output)))

unfoldable pub option_arguments : Text → Option Text → List Text
option_arguments flag none = []
option_arguments flag (some []) = []
option_arguments flag (some (c ∷ s)) = flag ∷ (c ∷ s) ∷ []

-- What a command gave: whether it ended well, and its output; or an exception.
pub record Ran : Type 0 where
  pub ended_well : Bool
  pub output : Text

-- The three files of a ConstID; `none` was not written in this run.
pub record Written : Type 0 where
  pub v1 : Option Text
  pub v2 : Option Text
  pub v3 : Option Text

unfoldable pub file_text : Text → Text → Text
file_text missing [] = missing ++ newline
file_text missing (c ∷ s) = (c ∷ s) ++ newline

unfoldable pub no_step11 : Text
no_step11 = text "# No step 11 output found"

unfoldable pub no_step11b : Text
no_step11b = text "# No step 11b output found"

module _ (python script : Text) (run : List Text → Option Ran) where
  unfoldable pub build_diff_command : TunableConfig → Text → Option Text → List Text
  build_diff_command config modified kernel_dir =
      (text "sudo"
        ∷ python
        ∷ script
        ∷ text "-f"
        ∷ config.file
        ∷ text "-s"
        ∷ config.original
        ∷ modified
        ∷ [])
      ++ (option_arguments (text "-p") kernel_dir ++ option_arguments (text "--lines") config.lines)

  unfoldable pub good_output : Option Ran → Option Text
  good_output none = none
  good_output (some r) = if r.ended_well then some (strip_ansi r.output) else none

  unfoldable pub write_third : Written → Option Text → Bool × Written
  write_third files none = (false, files)
  write_third files (some output) =
      (true, record files { v3 = some (file_text no_step11b (extract_step11b output)) })

  unfoldable pub write_first : List Text → Option Text → Bool × Written
  write_first command2 none = (false, record { v1 = none; v2 = none; v3 = none })
  write_first command2 (some output) =
      write_third
        (record {
          v1 = some (file_text no_step11 (extract_step11 output));
          v2 = some (file_text no_step11b (extract_step11b output));
          v3 = none;
        })
        (good_output (run command2))

  -- Whether all three files were written, and what was written.
  unfoldable pub generate_bb_files_single : TunableConfig → Option Text → Bool × Written
  generate_bb_files_single config kernel_dir =
      write_first (build_diff_command config (get_or config.modified 1 []) kernel_dir)
        (good_output (run (build_diff_command config (get_or config.modified 0 []) kernel_dir)))

module _ (begins ends : Text → Bool) where
  -- The lines of a step have no head and no end.
  abbrev pub IsBody : List Text → Type 0
  IsBody = All (λ line. (begins line ≡ false) × (ends line ≡ false))

  inside :
      (body after : List Text) (last : Text)
      → IsBody body
      → begins last ≡ false
      → ends last ≡ true
      → step_lines begins ends true (body ++ (last ∷ after))
        ≡ keep (λ line. not (tells_line line)) body
  unfolding step_lines keep
  inside [] after last h b e = rw (b, e) refl
  inside (line ∷ body) after last h b e = elim (Bool-cases (tells_line line)) [
    | inl tells ↦ rw (h.0.0, h.0.1, tells) (inside body after last h.1 b e)
    | inr shown ↦ rw (h.0.0, h.0.1, shown) (ap (λ l. line ∷ l) (inside body after last h.1 b e))
  ]

  -- A step is the lines between its head and its end, without those that tell the line of an
  -- instruction; what stands in front of the head and behind the end has no effect.
  pub step_lines_lem :
      (front body after : List Text) (head last : Text)
      → All (λ line. begins line ≡ false) front
      → begins head ≡ true
      → IsBody body
      → begins last ≡ false
      → ends last ≡ true
      → step_lines begins ends false (front ++ (head ∷ (body ++ (last ∷ after))))
        ≡ keep (λ line. not (tells_line line)) body
  unfolding step_lines
  step_lines_lem [] body after head last f h b l e = rw h (inside body after last b l e)
  step_lines_lem (line ∷ front) body after head last f h b l e =
      rw f.0 (step_lines_lem front body after head last f.1 h b l e)
