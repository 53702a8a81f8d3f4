-- ===== src/Dwarf/Expressions/Compiled.antt =====
-- DwarfExpressionDecoder::decode of src/dwarf/parser.cpp on the code of arithmetic formulas.
use egalito.Base.{
  ℕ, suc, ◌+◌, ◌-◌, ◌*◌, ◌%◌, ◌^◌, ◌≤◌, ◌<◌, ◌≡◌, refl, ap, ◌∙◌, subst, true, false, List, [], ◌∷◌,
  ◌++◌, length, length-append, ltb, lt→ltb, arith,
}
use egalito.Base.Result.{ok, ◌>>=◌}
use egalito.Dwarf.Cursor.{Memory, DwarfCursor, load}
use egalito.Dwarf.Cursor.Leb128.{AreAt}
use egalito.Dwarf.State.{DwarfState}
use egalito.Dwarf.Expressions.{lit, operation_of, evaluate, evaluate_all, decode_binary_op}

pub data Operator : Type 0 where
  sum : Operator
  difference : Operator
  product : Operator

pub data Formula : Type 0 where
  literal : ℕ → Formula
  combine : Operator → Formula → Formula → Formula

-- The literals are those that have opcodes of their own.
abbrev pub IsSmall : Formula → Type 0
IsSmall (literal n) = n < 32
IsSmall (combine o f g) = IsSmall f × IsSmall g

abbrev pub code : Operator → ℕ
code sum = 0x22
code difference = 0x1c
code product = 0x1e

abbrev pub compile : Formula → List ℕ
compile (literal n) = (0x30 + n) ∷ []
compile (combine o f g) = compile f ++ (compile g ++ code o ∷ [])

abbrev pub apply : Operator → ℕ → ℕ → ℕ
apply sum x y = (x + y) % 2 ^ 64
apply difference x y = (2 ^ 64 + x - y) % 2 ^ 64
apply product x y = (x * y) % 2 ^ 64

-- The value, modulo 2 ^ 64.
abbrev pub value : Formula → ℕ
value (literal n) = n
value (combine o f g) = apply o (value f) (value g)

abbrev pub instructions : Formula → ℕ
instructions (literal n) = 1
instructions (combine o f g) = instructions f + (instructions g + 1)

length-compile : (f : Formula) → length (compile f) ≡ instructions f
length-compile (literal n) = refl
length-compile (combine o f g) = omega (
  arith,
  length-append (compile f) (compile g ++ code o ∷ []),
  length-append (compile g) (code o ∷ []),
  length-compile f,
  length-compile g,
)

code-small : (o : Operator) → code o < 256
code-small sum = omega arith
code-small difference = omega arith
code-small product = omega arith

AreAt-append :
    (m : Memory) (a : ℕ) (xs ys : List ℕ)
    → AreAt m a (xs ++ ys)
    → AreAt m a xs × AreAt m (a + length xs) ys
AreAt-append m a [] ys h = (tt, subst (λ x. AreAt m x ys) (omega arith) h)
AreAt-append m a (x ∷ xs) ys (h, hs) =
    let (first, behind) = AreAt-append m (a + 1) xs ys hs in
    ((h, first), subst (λ x. AreAt m x ys) (omega arith) behind)

abbrev pub move : ℕ → DwarfCursor → DwarfCursor
move k c = record c { cursor = c.cursor + k }

module _ (m : Memory) (state : DwarfState) (stop : DwarfCursor) (bound : stop.cursor < 2 ^ 64) where
  evaluate_one :
      (fuel byte : ℕ) (c : DwarfCursor) (stack : List ℕ)
      → m c.cursor ≡ byte
      → byte < 256
      → c.cursor < stop.cursor
      → evaluate_all m state (suc fuel) stop (c, stack) ≡ (
          evaluate m state (operation_of byte) (move 1 c, stack) >>= λ e.
          evaluate_all m state fuel stop e)
  unfolding evaluate_all load
  evaluate_one fuel byte c stack h small before =
      let here : m c.cursor % 256 + 256 * 0 ≡ byte = rw h (omega arith) in
      let next : (c.cursor + 1) % 2 ^ 64 ≡ c.cursor + 1 = omega arith in
      rw (here, next, lt→ltb c.cursor stop.cursor before) refl

  operation_of-lit : (n : ℕ) → n < 32 → operation_of (0x30 + n) ≡ lit n
  unfolding operation_of
  operation_of-lit n h =
      let above : ltb (48 + n) 48 ≡ false = ground arith in
      let below : ltb (48 + n) 80 ≡ true = ground arith in
      let same : 48 + n - 48 ≡ n = omega arith in rw (above, below, same) refl

  evaluate-code :
      (o : Operator) (x y : ℕ) (c : DwarfCursor) (stack : List ℕ)
      → evaluate m state (operation_of (code o)) (c, y ∷ x ∷ stack) ≡ ok (c, apply o x y ∷ stack)
  unfolding evaluate operation_of decode_binary_op
  evaluate-code sum x y c stack = refl
  evaluate-code difference x y c stack = refl
  evaluate-code product x y c stack = refl

  evaluate-lit :
      (n : ℕ) (c : DwarfCursor) (stack : List ℕ)
      → n < 32
      → evaluate m state (operation_of (0x30 + n)) (c, stack) ≡ ok (c, n ∷ stack)
  unfolding evaluate
  evaluate-lit n c stack h = rw (operation_of-lit n h) refl

  -- The code of a formula, run from the cursor on, pushes the value of the formula, and the cursor is
  -- behind the code then; it takes one unit of fuel for each instruction.
  pub evaluate_all-compile :
      (f : Formula) (fuel : ℕ) (c : DwarfCursor) (stack : List ℕ)
      → IsSmall f
      → AreAt m c.cursor (compile f)
      → c.cursor + instructions f ≤ stop.cursor
      → evaluate_all m state (instructions f + fuel) stop (c, stack)
        ≡ evaluate_all m state fuel stop (move (instructions f) c, value f ∷ stack)
  evaluate_all-compile (literal n) fuel c stack small (at, _) room =
      let one : 1 + fuel ≡ suc fuel = omega arith in
      rw one (
        evaluate_one fuel (0x30 + n) c stack at (omega arith) (omega arith)
        ∙ ap (λ z. z >>= λ e. evaluate_all m state fuel stop e)
            (evaluate-lit n (move 1 c) stack small))
  evaluate_all-compile (combine o f g) fuel c stack (small, small') at room =
      let (at_f, rest) = AreAt-append m c.cursor (compile f) (compile g ++ code o ∷ []) at in
      let (at_g, (at_o, _)) =
        AreAt-append m (c.cursor + length (compile f)) (compile g) (code o ∷ []) rest in
      let c₁ = move (instructions f) c in
      let c₂ = move (instructions g) c₁ in
      let first =
        evaluate_all-compile f (instructions g + suc fuel) c stack small at_f (omega arith) in
      let second =
        evaluate_all-compile g (suc fuel) c₁ (value f ∷ stack) small'
          (subst (λ x. AreAt m (c.cursor + x) (compile g)) (length-compile f) at_g) (omega arith) in
      let here : m c₂.cursor ≡ code o =
        subst (λ x. m x ≡ code o) (omega (arith, length-compile f, length-compile g)) at_o in
      let third =
        evaluate_one fuel (code o) c₂ (value g ∷ value f ∷ stack) here (code-small o) (omega arith)
        ∙ ap (λ z. z >>= λ e. evaluate_all m state fuel stop e)
            (evaluate-code o (value f) (value g) (move 1 c₂) stack) in
      let units : instructions f + (instructions g + 1) + fuel
          ≡ instructions f + (instructions g + suc fuel) =
        omega arith in
      let place : c.cursor + (instructions f + (instructions g + 1))
          ≡ c.cursor + instructions f + instructions g + 1 =
        omega arith in
      rw (units, place) (first ∙ second ∙ third)
