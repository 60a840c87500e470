-- ===== src/Runtime/JumpOpt/Listing.antt =====
-- What the kernel's list of kprobes says of a place (src/loader.py).
use xkernel.Base.{◌≡◌, ◌⊎◌, inl, inr, refl, ap, Bool, true}
use xkernel.Base.{false, ◌&&◌, List, [], ◌∷◌, ◌++◌}
use xkernel.Base.{Bool-cases, All}
use xkernel.Base.Int.{ℤ, int_eq}
use xkernel.Base.Text.{Text, text}
use xkernel.Runtime.JumpOpt.Patch.{contains_text, hex_of}
use xkernel.Runtime.JumpOpt.{Toolchain, optimized_in}

-- The line has the name of the function and the offset in it, as parts of its text.
abbrev pub names_place : Text → ℤ → Text → Bool
names_place func_name offset line =
    contains_text func_name line && contains_text (text "+0x" ++ hex_of offset) line

-- The first line that names the place has `[OPTIMIZED]` in it, or has not.
pub record Decides (optimized : Bool) (func_name : Text) (offset : ℤ) (lines : List Text)
    : Type 0 where
  pub before : List Text
  pub line : Text
  pub after : List Text
  pub parts : lines ≡ before ++ (line ∷ after)
  pub others : All (λ l. names_place func_name offset l ≡ false) before
  pub named : names_place func_name offset line ≡ true
  pub flagged : contains_text (text "[OPTIMIZED]") line ≡ optimized

abbrev pub Lists : Bool → Text → ℤ → List Text → Type 0
Lists true func_name offset lines = Decides true func_name offset lines
Lists false func_name offset lines =
    All (λ l. names_place func_name offset l ≡ false) lines ⊎ Decides false func_name offset lines

Decides-behind :
    (b : Bool) (func_name : Text) (offset : ℤ) (line : Text) (lines : List Text)
    → names_place func_name offset line ≡ false
    → Decides b func_name offset lines
    → Decides b func_name offset (line ∷ lines)
Decides-behind b func_name offset line lines other d = record {
  before = line ∷ d.before;
  line = d.line;
  after = d.after;
  parts = ap (λ l. line ∷ l) d.parts;
  others = (other, d.others);
  named = d.named;
  flagged = d.flagged;
}

Lists-behind :
    (b : Bool) (func_name : Text) (offset : ℤ) (line : Text) (lines : List Text)
    → names_place func_name offset line ≡ false
    → Lists b func_name offset lines
    → Lists b func_name offset (line ∷ lines)
Lists-behind true func_name offset line lines other d =
    Decides-behind true func_name offset line lines other d
Lists-behind false func_name offset line lines other (inl none') = inl (other, none')
Lists-behind false func_name offset line lines other (inr d) =
    inr (Decides-behind false func_name offset line lines other d)

Lists-here :
    (b : Bool) (func_name : Text) (offset : ℤ) (line : Text) (lines : List Text)
    → names_place func_name offset line ≡ true
    → contains_text (text "[OPTIMIZED]") line ≡ b
    → Lists b func_name offset (line ∷ lines)
Lists-here true func_name offset line lines h f = record {
  before = [];
  line = line;
  after = lines;
  parts = refl;
  others = tt;
  named = h;
  flagged = f;
}
Lists-here false func_name offset line lines h f = inr (record {
  before = [];
  line = line;
  after = lines;
  parts = refl;
  others = tt;
  named = h;
  flagged = f;
})

pub optimized_in-Lists :
    (tools : Toolchain) (func_name : Text) (offset : ℤ) (lines : List Text)
    → Lists (optimized_in tools func_name offset lines) func_name offset lines
unfolding optimized_in
optimized_in-Lists tools func_name offset [] = inl tt
optimized_in-Lists tools func_name offset (line ∷ lines) =
    elim (Bool-cases (names_place func_name offset line)) [
      | inl named ↦ rw named (Lists-here _ func_name offset line lines named refl)
      | inr other ↦ rw other (
          Lists-behind _ func_name offset line lines other
            (optimized_in-Lists tools func_name offset lines))
    ]
