-- ===== src/Diff/Functions/Found.antt =====
-- The function that is found for an address stands around it in the disassembly (src/diff.py).
use xkernel.Base.{ℕ, suc, ◌≡◌, inl, inr, refl, sym, ap, subst, ◌∙◌, arith, Bool, true}
use xkernel.Base.{false, Option, none, some, List, [], ◌∷◌, ◌++◌, append_assoc, All-append}
use xkernel.Base.{◌&&◌, All, Bool-cases, Option-cases}
use xkernel.Base.Int.{ℤ, pos, int_beq_iff, leb_ℤ}
use xkernel.Base.Text.{Text, parse_int}
use xkernel.Diff.Instructions.{function_header}
use xkernel.Diff.Functions.{section_in, is_function, inst_address, read_address, FunctionInfo}
use xkernel.Diff.Functions.{Search, is_target, is_nearer, at_instruction, at_line, search_header}
use xkernel.Diff.Functions.{search_kind, search_line, search_lines, no_match, info_of, find_at}
use xkernel.Diff.Functions.{function_info, find_function_for_address_in_file}

unfoldable pub opens_by : Option Text → Option (Text × Text) → Bool
opens_by (some section) header = true
opens_by none (some (start_addr, name)) = is_function name
opens_by none none = false

-- Behind this line another function or another section is open.
unfoldable pub opens : Text → Bool
opens line = opens_by (section_in line) (function_header line)

-- The lines `pre` end in the function `name`.
record InFunction (pre : List Text) (name start_addr : Text) : Type 0 where
  front : List Text
  header : Text
  body : List Text
  parts : pre ≡ front ++ (header ∷ body)
  head : function_header header ≡ some (start_addr, name)
  own : is_function name ≡ true
  inner : All (λ line. opens line ≡ false) body

-- The function has an instruction at the address: its line stands behind the header, and no line
-- that opens another function or section stands between the two.
pub record FoundIn (lines : List Text) (addr : ℤ) (info : FunctionInfo) : Type 0 where
  pub front : List Text
  pub header : Text
  pub body : List Text
  pub inst : Text
  pub digits : Text
  pub after : List Text
  pub parts : lines ≡ front ++ (header ∷ (body ++ (inst ∷ after)))
  pub head : function_header header ≡ some (info.start_addr, info.name)
  pub own : is_function info.name ≡ true
  pub inner : All (λ line. opens line ≡ false) body
  pub at : inst_address inst ≡ some digits
  pub same : pos (read_address digits) ≡ addr
  pub begun : leb_ℤ (pos (read_address info.start_addr)) addr ≡ true

abbrev Standing : List Text → Option (Text × Text) → Type 0
Standing pre none = Unit
Standing pre (some (name, start_addr)) = InFunction pre name start_addr

abbrev Best : List Text → ℤ → Option (FunctionInfo × ℕ) → Type 0
Best lines addr none = Unit
Best lines addr (some (info, line)) = FoundIn lines addr info

InFunction-more :
    (pre : List Text) (line : Text) (func : Option (Text × Text))
    → opens line ≡ false
    → Standing pre func
    → Standing (pre ++ (line ∷ [])) func
InFunction-more pre line none o h = tt
InFunction-more pre line (some (name, start_addr)) o h = record {
  front = h.front;
  header = h.header;
  body = h.body ++ (line ∷ []);
  parts = ap (λ l. l ++ (line ∷ [])) h.parts ∙ append_assoc h.front (h.header ∷ h.body) (line ∷ []);
  head = h.head;
  own = h.own;
  inner = All-append (λ l. opens l ≡ false) h.body line h.inner o;
}

opens-none :
    (line : Text) → section_in line ≡ none → function_header line ≡ none → opens line ≡ false
unfolding opens opens_by
opens-none line s f = rw (s, f) refl

opens_skipped :
    (line start_addr name : Text)
    → section_in line ≡ none
    → function_header line ≡ some (start_addr, name)
    → is_function name ≡ false
    → opens line ≡ false
unfolding opens opens_by
opens_skipped line start_addr name s f e = rw (s, f) e

both_left : (a b : Bool) → (a && b) ≡ true → a ≡ true
both_left true b h = refl
both_left false b h = h

-- A line of the disassembly `lines` with what stands before and behind it.
module _ (lines : List Text) (addr : ℤ) (line_number : Option ℕ) where
  is_target-same :
      (section : Option Text) (name start_addr digits : Text)
      → is_target addr line_number section name start_addr digits ≡ true
      → (pos (read_address digits) ≡ addr) × (leb_ℤ (pos (read_address start_addr)) addr ≡ true)
  unfolding is_target
  is_target-same section name start_addr digits h =
      ground (arith, int_beq_iff (pos (read_address digits)) addr)

  at_instruction-Best :
      (n : ℕ) (pre : List Text) (line : Text) (before after : List Text) (func : Text × Text)
      (digits : Text) (s : Search)
      → lines ≡ pre ++ (line ∷ after)
      → Standing pre (some func)
      → inst_address line ≡ some digits
      → Best lines addr s.best_match
      → (Best lines addr
          (at_instruction addr line_number n line before after func digits s).best_match)
        × ((at_instruction addr line_number n line before after func digits s).current_func
            ≡ s.current_func)
  unfolding at_instruction function_info
  at_instruction-Best n pre line before after (name, start_addr) digits s whole ends at best =
      elim (Bool-cases (
        is_target addr line_number s.current_section name start_addr digits
        && is_nearer line_number n s.best_match)) [
          | inr miss ↦ rw miss (best, refl)
          | inl hit ↦ rw hit (
            record {
              front = ends.front;
              header = ends.header;
              body = ends.body;
              inst = line;
              digits = digits;
              after = after;
              parts =
                  whole
                  ∙ ap (λ l. l ++ (line ∷ after)) ends.parts
                  ∙ append_assoc ends.front (ends.header ∷ ends.body) (line ∷ after);
              head = ends.head;
              own = ends.own;
              inner = ends.inner;
              at = at;
              same =
                  (is_target-same s.current_section name start_addr digits (both_left _ _ hit)).0;
              begun =
                  (is_target-same s.current_section name start_addr digits (both_left _ _ hit)).1;
            },
            refl,
          )
        ]

  -- What holds of the search before a line holds behind it.
  Keeps : List Text → Search → Type 0
  Keeps pre s = Standing pre s.current_func × Best lines addr s.best_match

  at_line-Keeps :
      (n : ℕ) (pre : List Text) (line : Text) (before after : List Text)
      (func : Option (Text × Text)) (found : Option Text) (s : Search)
      → lines ≡ pre ++ (line ∷ after)
      → opens line ≡ false
      → s.current_func ≡ func
      → inst_address line ≡ found
      → Keeps pre s
      → Keeps (pre ++ (line ∷ [])) (at_line addr line_number n line before after func found s)
  unfolding at_line Keeps
  at_line-Keeps n pre line before after none found s whole o f a k =
      (InFunction-more pre line s.current_func o k.0, k.1)
  at_line-Keeps n pre line before after (some func) none s whole o f a k =
      (InFunction-more pre line s.current_func o k.0, k.1)
  at_line-Keeps n pre line before after (some func) (some digits) s whole o f a k =
      let standing = subst (Standing pre) f k.0 in
      let (best, same) =
        at_instruction-Best n pre line before after func digits s whole standing a k.1 in
      (
        subst (Standing (pre ++ (line ∷ []))) (sym (same ∙ f))
            (InFunction-more pre line (some func) o standing),
        best,
      )

  search_line-Keeps :
      (n : ℕ) (pre : List Text) (line : Text) (before after : List Text) (s : Search)
      → lines ≡ pre ++ (line ∷ after)
      → Keeps pre s
      → Keeps (pre ++ (line ∷ [])) (search_line addr line_number n line before after s)
  unfolding search_line search_kind Keeps search_header
  search_line-Keeps n pre line before after s whole k = elim (Option-cases (section_in line)) [
    | inr (section, new) ↦ rw new (tt, k.1)
    | inl same ↦ elim (Option-cases (function_header line)) [
      | inl inst ↦
          rw (same, inst)
            (at_line-Keeps n pre line before after s.current_func (inst_address line) s whole
              (opens-none line same inst) refl refl k)
      | inr ((start_addr, name), header) ↦ elim (Bool-cases (is_function name)) [
        | inr skipped ↦
            rw (same, header, skipped)
              (
                InFunction-more pre line s.current_func
                    (opens_skipped line start_addr name same header skipped) k.0,
                k.1,
              )
        | inl own ↦
            rw (same, header, own)
              (
                record {
                  front = pre;
                  header = line;
                  body = [];
                  parts = refl;
                  head = header;
                  own = own;
                  inner = tt;
                },
                k.1,
              )
      ]
    ]
  ]

  search_lines-Keeps :
      (n : ℕ) (pre before rest : List Text) (s : Search)
      → lines ≡ pre ++ rest
      → Keeps pre s
      → Best lines addr (search_lines addr line_number n before rest s).best_match
  unfolding search_lines Keeps
  search_lines-Keeps n pre before [] s whole k = k.1
  search_lines-Keeps n pre before (line ∷ rest) s whole k =
      search_lines-Keeps (suc n) (pre ++ (line ∷ [])) (line ∷ before) rest _
        (whole ∙ sym (append_assoc pre (line ∷ []) rest))
        (search_line-Keeps n pre line before rest s whole k)

Best-info :
    (lines : List Text) (addr : ℤ) (best : Option (FunctionInfo × ℕ)) (info : FunctionInfo)
    → info_of best ≡ some info
    → Best lines addr best
    → FoundIn lines addr info
unfolding info_of
Best-info lines addr none info h b = absurd (cc)
Best-info lines addr (some (found, line)) info h b =
    subst (FoundIn lines addr) (let k : found ≡ info = cc in k) b

-- Where a function is found for an address, it stands around the address: it has an instruction
-- there, and behind its header no header of another function, prefix symbols and cold parts aside,
-- and no header of a section whose name is `.text` with more behind it stands before that
-- instruction. The header of the section `.text` itself is not seen, and may stand between. The
-- function's start is at most the address, and it is neither a prefix symbol nor a cold part.
pub find_function_for_address-FoundIn :
    (lines : List Text) (addr_str : Text) (line_number : Option ℕ) (info : FunctionInfo)
    → find_function_for_address_in_file lines addr_str line_number ≡ some info
    → (addr : ℤ) × (parse_int 16 addr_str ≡ some addr) × FoundIn lines addr info
unfolding find_function_for_address_in_file find_at Keeps no_match
find_function_for_address-FoundIn lines addr_str line_number info h =
    elim (Option-cases (parse_int 16 addr_str)) [
      | inl bad ↦ absurd (let h' = rw bad at h in cc)
      | inr (addr, good) ↦
          let h' = rw good at h in
          (
            addr,
            good,
            Best-info lines addr _ info h'
                (search_lines-Keeps lines addr line_number 1 [] [] lines no_match refl (tt, tt)),
          )
    ]
