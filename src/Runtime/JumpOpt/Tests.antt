-- ===== src/Runtime/JumpOpt/Tests.antt =====
-- Runs of `try_jump_optimization` (src/loader.py), and its theorem at a concrete input.
use xkernel.Base.{ℕ, ◌≡◌, refl, true, some, [], ◌∷◌}
use xkernel.Base.Int.{pos}
use xkernel.Base.Text.{text, starts_with, show_int, show_nat}
use xkernel.Runtime.JumpOpt.Patch.{patch_bpf_sec_offset, contains_text, hex_of}
use xkernel.Runtime.JumpOpt.Patch.{replace_text, replace_from, section_of, probe_of, xtune_of}
use xkernel.Runtime.JumpOpt.{Toolchain, LoadWorld, optimized_in}

-- All compiles and loads, and the kernel reports `f+0x2` as optimized.
abbrev tools : Toolchain
tools = record {
  State = ℕ;
  compile = λ source s. (true, s);
  load = λ s. (true, s);
  list_kprobes = λ s. (some (text "f+0x2 [OPTIMIZED]" ∷ []), s);
}

abbrev tested : LoadWorld tools
tested = record { source = text "// Candidates: 0x1, 0x2\nSEC(\"kprobe/f+0x1\")"; outside = 0 }

abbrev left_behind : LoadWorld tools
left_behind = record { source = text "// Candidates: 0x1, 0x2\nSEC(\"kprobe/f+0x2\")"; outside = 0 }

-- A place whose offset only begins with the digits in question is taken for it.
prefix_run : optimized_in tools (text "f") (pos 1) (text "f+0x10 [OPTIMIZED]" ∷ []) ≡ true
unfolding optimized_in contains_text text starts_with hex_of show_int show_nat
prefix_run = refl

-- A patch moves every kprobe of the function that has the old offset.
both_run :
    patch_bpf_sec_offset
      (text "f")
      (pos 2)
      (pos 1)
      (text "SEC(\"kprobe/f+0x2\") SEC(\"kprobe/f+0x2\")")
    ≡ text "SEC(\"kprobe/f+0x1\") SEC(\"kprobe/f+0x1\")"
unfolding patch_bpf_sec_offset text replace_text replace_from starts_with section_of hex_of show_int
    show_nat probe_of xtune_of
both_run = refl
