-- ===== src/Asm/Family.antt =====
-- The base register of a name is of the name's family.
use xkernel.Base.{◌≡◌, refl, ◌∙◌, arith, [], ◌∷◌, map, Bool-cases, inl, inr, list_eq, nat_eq}
use xkernel.Base.{◌==◌, list_beq, contains, if◌then◌else◌}
use xkernel.Base.Dict.{Dict, get, lookup}
use xkernel.Base.Text.{Text, text, text_iff, lower, lower_char, lstrip_char}
use xkernel.Asm.Register.{base_registers, get_base_register, get_register_family, families}
use xkernel.Asm.Register.{find_family}

lower_again : (s : Text) → lower (lower s) ≡ lower s
unfolding lower lower_char
lower_again [] = refl
lower_again (c ∷ s) = rw (lower_again s) (ground arith)

family-lower : (s : Text) → get_register_family (lower s) ≡ get_register_family s
unfolding get_register_family
family-lower s = rw (lower_again s) refl

-- A table whose keys and values have the same families.
abbrev IsFamiliar : Dict Text Text → Type 0
IsFamiliar d = map (λ p. get_register_family p.1) d ≡ map (λ p. get_register_family p.0) d

get-cons :
    (s k v : Text) (d : Dict Text Text) → get s s ((k, v) ∷ d) ≡ (if s == k then v else get s s d)
unfolding get lookup
get-cons s k v d = ground arith

family-empty : (s : Text) → get_register_family (get s s []) ≡ get_register_family s
unfolding get lookup
family-empty s = refl

family-get :
    (d : Dict Text Text) (s : Text)
    → IsFamiliar d
    → get_register_family (get s s d) ≡ get_register_family s
family-get [] s h = family-empty s
family-get ((k, v) ∷ d) s h = elim (Bool-cases (s == k)) [
  | inl same ↦
      let e : s ≡ k = (text_iff s k).0 same in
      let f : get_register_family v ≡ get_register_family k = cc h in
      rw (get-cons s k v d, same) (cc (e, f))
  | inr other ↦ let tail : IsFamiliar d = cc h in rw (get-cons s k v d, other) (family-get d s tail)
]

base_registers-IsFamiliar : IsFamiliar base_registers
unfolding base_registers get_register_family lower lower_char lstrip_char find_family contains
    families list_beq text
base_registers-IsFamiliar = refl

-- The two functions that normalise a register name agree: the base register of any name has the
-- family of that name.
family-base :
    (name : Text) → get_register_family (get_base_register name) ≡ get_register_family name
unfolding get_base_register
family-base name =
    family-get base_registers (lower name) base_registers-IsFamiliar ∙ family-lower name
