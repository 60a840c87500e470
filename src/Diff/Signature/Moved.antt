-- ===== src/Diff/Signature/Moved.antt =====
-- The signature of an instruction that stands at another address (src/diff.py).
use xkernel.Base.{ℕ, ◌≡◌, ◌≢◌, refl, sym, ap, ◌∙◌, arith, true, false, Option, none, some, []}
use xkernel.Base.{◌∷◌, ◌++◌, length, drop, leb, contains, ◌||◌}
use xkernel.Base.{beq_refl, List, inl, inr, All, list_eq, nat_eq, beq_ne}
use xkernel.Base.{◌⊎◌}
use xkernel.Base.Text.{Text, text, lower, join, is_space, is_digit, lstrip, starts_with}
use xkernel.Analysis.Varying.{take_while, is_hex}
use xkernel.Diff.Lines.{skip_sign, split_address, at_rest, behind_address}
use xkernel.Diff.Lines.{extract_instruction_bytes, extract_mnemonic, operands_of, joined}
use xkernel.Diff.Lines.{after_spaces, bytes_run, after_bytes, lower_word}
use xkernel.Analysis.Jump.{words}
use xkernel.Diff.Signature.{extract_operand_types, signature_of, plain_signature, of_bytes}
use xkernel.Diff.Signature.{normalize_instruction_for_comparison, is_offset_inst, is_short_jump}
use xkernel.Diff.Signature.{jump_signature, opcode}

-- A removed or an added instruction: a sign, spaces, an address, a colon, and the rest.
pub record IsAt (sign : ℕ) (spaces addr : Text) : Type 0 where
  pub signed : (sign ≡ b'-') ⊎ (sign ≡ b'+')
  pub spaced : All (λ c. is_space c ≡ true) spaces
  pub addressed : All (λ c. is_hex c ≡ true) addr
  pub nonempty : addr ≢ []

unfoldable pub diff_line : ℕ → Text → Text → Text → Text
diff_line sign spaces addr rest = sign ∷ (spaces ++ (addr ++ (b':' ∷ rest)))

hex-solid : (c : ℕ) → is_hex c ≡ true → is_space c ≡ false
unfolding is_hex is_space is_digit
hex-solid c h = ground arith

take_while_hex :
    (addr rest : Text)
    → All (λ c. is_hex c ≡ true) addr
    → take_while is_hex (addr ++ (b':' ∷ rest)) ≡ addr
unfolding take_while
take_while_hex [] rest h = unfold is_hex is_digit in refl
take_while_hex (c ∷ addr) rest h = rw h.0 (ap (λ r. c ∷ r) (take_while_hex addr rest h.1))

drop_addr : (addr rest : Text) → drop (length addr) (addr ++ rest) ≡ rest
drop_addr [] rest = refl
drop_addr (c ∷ addr) rest = drop_addr addr rest

split_address_lem :
    (addr rest : Text)
    → All (λ c. is_hex c ≡ true) addr
    → addr ≢ []
    → split_address (addr ++ (b':' ∷ rest)) ≡ some (addr, rest)
unfolding split_address
split_address_lem addr rest h ne =
    rw (take_while_hex addr rest h, drop_addr addr (b':' ∷ rest), beq_ne {a = addr} {b = []} ne)
      (unfold starts_with text in refl)

lstrip_spaces :
    (spaces addr rest : Text)
    → All (λ c. is_space c ≡ true) spaces
    → All (λ c. is_hex c ≡ true) addr
    → addr ≢ []
    → lstrip (spaces ++ (addr ++ rest)) ≡ addr ++ rest
unfolding lstrip
lstrip_spaces [] [] rest s h ne = absurd (ne refl)
lstrip_spaces [] (c ∷ addr) rest s h ne = rw (hex-solid c h.0) refl
lstrip_spaces (c ∷ spaces) addr rest s h ne = rw s.0 (lstrip_spaces spaces addr rest s.1 h ne)

lstrip_sign : (sign : ℕ) (s : Text) → (sign ≡ b'-') ⊎ (sign ≡ b'+') → lstrip (sign ∷ s) ≡ sign ∷ s
unfolding lstrip is_space
lstrip_sign sign s h = ground arith

skip_sign_lem : (sign : ℕ) (s : Text) → (sign ≡ b'-') ⊎ (sign ≡ b'+') → skip_sign (sign ∷ s) ≡ s
unfolding skip_sign
skip_sign_lem sign s h = ground arith

behind_address_lem :
    (pattern : Text → Option Text) (sign : ℕ) (spaces addr rest : Text)
    → IsAt sign spaces addr
    → behind_address pattern (diff_line sign spaces addr rest) ≡ pattern rest
unfolding behind_address diff_line
behind_address_lem pattern sign spaces addr rest h =
    rw
      (
        lstrip_sign sign (spaces ++ (addr ++ (b':' ∷ rest))) h.signed,
        skip_sign_lem sign (spaces ++ (addr ++ (b':' ∷ rest))) h.signed,
        lstrip_spaces spaces addr (b':' ∷ rest) h.spaced h.addressed h.nonempty,
        split_address_lem addr rest h.addressed h.nonempty,
      )
      (unfold at_rest in refl)

-- The signature depends on the bytes, the mnemonic and the operands of a line.
module _ (line line' : Text) (same : operands_of line ≡ operands_of line') where
  plain_signature_ext :
      (mnemonic : Text) → plain_signature mnemonic line ≡ plain_signature mnemonic line'
  unfolding plain_signature extract_operand_types
  plain_signature_ext mnemonic = rw same refl

  signature_of_ext :
      (bytes_str : Text) (m : Option Text)
      → signature_of line bytes_str m ≡ signature_of line' bytes_str m
  unfolding signature_of
  signature_of_ext bytes_str none = refl
  signature_of_ext bytes_str (some mnemonic) = rw (plain_signature_ext mnemonic) refl

  of_bytes_ext :
      (o : Option Text)
      → extract_mnemonic line ≡ extract_mnemonic line'
      → of_bytes line o ≡ of_bytes line' o
  unfolding of_bytes
  of_bytes_ext none h = refl
  of_bytes_ext (some []) h = refl
  of_bytes_ext (some (c ∷ s)) h = rw h (signature_of_ext (c ∷ s) (extract_mnemonic line'))

-- What the patterns find behind an address.
unfoldable pub bytes_at : Text → Option Text
bytes_at rest = joined (after_spaces bytes_run rest)

unfoldable pub mnemonic_at : Text → Option Text
mnemonic_at rest = after_spaces (after_bytes (after_spaces lower_word)) rest

-- How many bytes of an instruction are its opcode: two behind 0f, if there is a third; one for e8, e9,
-- eb and the short jumps.
pub data HasOpcode : List Text → List Text → Type 0 where
  long_jump :
      (first second third : Text) (more : List Text)
      → lower first ≡ text "0f"
      → HasOpcode (first ∷ second ∷ []) (first ∷ second ∷ third ∷ more)
  short_jump :
      (first second : Text) (more : List Text)
      → lower first ≢ text "0f"
      → (contains (text "e8" ∷ text "e9" ∷ text "eb" ∷ []) (lower first)
          || is_short_jump (lower first))
        ≡ true
      → HasOpcode (first ∷ []) (first ∷ second ∷ more)

-- Two jumps, calls or loops with one mnemonic and one opcode; the offsets may differ.
pub record SameJump (rest rest' : Text) : Type 0 where
  pub mnemonic : Text
  pub is_jump : is_offset_inst mnemonic ≡ true
  pub first_byte : ℕ
  pub first_byte' : ℕ
  pub bytes_str : Text
  pub bytes_str' : Text
  pub opcode_bytes : List Text
  pub left : bytes_at rest ≡ some (first_byte ∷ bytes_str)
  pub right : bytes_at rest' ≡ some (first_byte' ∷ bytes_str')
  pub named : mnemonic_at rest ≡ some mnemonic
  pub named' : mnemonic_at rest' ≡ some mnemonic
  pub code : HasOpcode opcode_bytes (words (first_byte ∷ bytes_str))
  pub code' : HasOpcode opcode_bytes (words (first_byte' ∷ bytes_str'))

opcode-long :
    (first second third : Text) (more : List Text)
    → lower first ≡ text "0f"
    → opcode first (first ∷ second ∷ third ∷ more) ≡ join (text " ") (first ∷ second ∷ [])
unfolding opcode
opcode-long first second third more h =
    let three : leb 3 (length (first ∷ second ∷ third ∷ more)) ≡ true = ground arith in
    rw (h, beq_refl (text "0f"), three) refl

opcode-short :
    (first second : Text) (more : List Text)
    → lower first ≢ text "0f"
    → (contains (text "e8" ∷ text "e9" ∷ text "eb" ∷ []) (lower first)
        || is_short_jump (lower first))
      ≡ true
    → opcode first (first ∷ second ∷ more) ≡ join (text " ") (first ∷ [])
unfolding opcode join
opcode-short first second more ne h = rw (beq_ne ne, h) refl

-- The signature of a jump: its mnemonic and its opcode.
jump_signature-HasOpcode :
    (mnemonic : Text) (opcode_bytes bytes : List Text)
    → HasOpcode opcode_bytes bytes
    → jump_signature mnemonic bytes ≡ some (mnemonic ++ (text ":" ++ join (text " ") opcode_bytes))
unfolding jump_signature
jump_signature-HasOpcode mnemonic _ _ (HasOpcode.long_jump first second third more h) =
    ap (λ o. some (mnemonic ++ (text ":" ++ o))) (opcode-long first second third more h)
jump_signature-HasOpcode mnemonic _ _ (HasOpcode.short_jump first second more ne h) =
    ap (λ o. some (mnemonic ++ (text ":" ++ o))) (opcode-short first second more ne h)

-- The signature of a line with a jump, read behind its address.
normalize-HasOpcode :
    (sign : ℕ) (spaces addr rest mnemonic : Text) (first_byte : ℕ) (bytes_str : Text)
    (opcode_bytes : List Text)
    → IsAt sign spaces addr
    → is_offset_inst mnemonic ≡ true
    → bytes_at rest ≡ some (first_byte ∷ bytes_str)
    → mnemonic_at rest ≡ some mnemonic
    → HasOpcode opcode_bytes (words (first_byte ∷ bytes_str))
    → normalize_instruction_for_comparison (diff_line sign spaces addr rest)
      ≡ some (mnemonic ++ (text ":" ++ join (text " ") opcode_bytes))
unfolding normalize_instruction_for_comparison bytes_at mnemonic_at extract_instruction_bytes
    extract_mnemonic
normalize-HasOpcode sign spaces addr rest mnemonic first_byte bytes_str opcode_bytes h jump b m
      code =
    rw (behind_address_lem (after_spaces bytes_run) sign spaces addr rest h, b)
      (unfold of_bytes extract_mnemonic in
        rw
          (
            behind_address_lem (after_spaces (after_bytes (after_spaces lower_word))) sign spaces
                addr rest h,
            m,
          )
          (unfold signature_of in rw jump (jump_signature-HasOpcode mnemonic opcode_bytes _ code)))

module _ (rest : Text) (sign sign' : ℕ) (spaces spaces' addr addr' : Text)
    (h : IsAt sign spaces addr) (h' : IsAt sign' spaces' addr') where
  behind_same :
      (pattern : Text → Option Text)
      → behind_address pattern (diff_line sign spaces addr rest)
        ≡ behind_address pattern (diff_line sign' spaces' addr' rest)
  behind_same pattern =
      behind_address_lem pattern sign spaces addr rest h
      ∙ sym (behind_address_lem pattern sign' spaces' addr' rest h')

  normalize-moved_same :
      normalize_instruction_for_comparison (diff_line sign spaces addr rest)
      ≡ normalize_instruction_for_comparison (diff_line sign' spaces' addr' rest)
  unfolding normalize_instruction_for_comparison
  normalize-moved_same =
      ap (of_bytes (diff_line sign spaces addr rest)) bytes ∙ of_bytes_ext _ _ operands _ mnemonic
    where
      bytes :
          extract_instruction_bytes (diff_line sign spaces addr rest)
          ≡ extract_instruction_bytes (diff_line sign' spaces' addr' rest)
      bytes = unfold extract_instruction_bytes in ap joined (behind_same (after_spaces bytes_run))

      mnemonic :
          extract_mnemonic (diff_line sign spaces addr rest)
          ≡ extract_mnemonic (diff_line sign' spaces' addr' rest)
      mnemonic = unfold extract_mnemonic in behind_same _

      operands :
          operands_of (diff_line sign spaces addr rest)
          ≡ operands_of (diff_line sign' spaces' addr' rest)
      operands = unfold operands_of in behind_same _

-- An instruction has the same signature at each address and on both sides of a diff, if what stands
-- behind the address is the same, or if both are jumps, calls or loops with the same mnemonic and the
-- same opcode, whatever their offsets are: an opcode is the byte e8, e9, eb or one from 70 to 7f
-- with a byte behind it, or 0f and the byte behind it with one more behind these.
pub normalize-moved :
    (rest rest' : Text) (sign sign' : ℕ) (spaces spaces' addr addr' : Text)
    → IsAt sign spaces addr
    → IsAt sign' spaces' addr'
    → (rest ≡ rest') ⊎ SameJump rest rest'
    → normalize_instruction_for_comparison (diff_line sign spaces addr rest)
      ≡ normalize_instruction_for_comparison (diff_line sign' spaces' addr' rest')
normalize-moved rest rest' sign sign' spaces spaces' addr addr' h h' (inl same) =
    normalize-moved_same rest sign sign' spaces spaces' addr addr' h h'
    ∙ ap (λ r. normalize_instruction_for_comparison (diff_line sign' spaces' addr' r)) same
normalize-moved rest rest' sign sign' spaces spaces' addr addr' h h' (inr j) =
    normalize-HasOpcode sign spaces addr rest j.mnemonic j.first_byte j.bytes_str j.opcode_bytes h
      j.is_jump j.left j.named j.code
    ∙ sym (
        normalize-HasOpcode sign' spaces' addr' rest' j.mnemonic j.first_byte' j.bytes_str'
          j.opcode_bytes h' j.is_jump j.right j.named' j.code')
