-- ===== src/Dwarf/Expressions.antt =====
-- src/dwarf/parser.cpp, class DwarfExpressionDecoder, and the expression opcodes of defines.h. The
-- stack is a list with its top first; its elements are 64-bit patterns. Where the C++ takes an
-- element that is not there, divides by zero or shifts by 64 or more, the run fails. A branch may go
-- back, so `decode` has fuel.
pub mod Compiled
use Prim.Native.Nat.{bit_and, bit_or, bit_xor}
use egalito.Base.{
  ℕ, zero, suc, ◌+◌, ◌-◌, ◌*◌, ◌/◌, ◌%◌, ◌^◌, Bool, true, false, not, List, [], ◌∷◌, none, some,
  ltb, leb, ◌==◌, get_elem?, get_or, to_ℕ, if◌then◌else◌,
}
use egalito.Base.Result.{Result, ok, fail, out_of_fuel, out_of_bounds, undefined, ◌>>=◌}
use egalito.Dwarf.Cursor.{
  Memory, DwarfCursor, is_before, load, next, next_signed, skip, next_uleb128, next_sleb128,
}
use egalito.Dwarf.State.{DwarfState, get_register}

pub data DwOp : Type 0 where
  addr : DwOp
  deref : DwOp
  const1u : DwOp
  const1s : DwOp
  const2u : DwOp
  const2s : DwOp
  const4u : DwOp
  const4s : DwOp
  const8u : DwOp
  const8s : DwOp
  constu : DwOp
  consts : DwOp
  dup : DwOp
  drop_top : DwOp
  over : DwOp
  pick : DwOp
  swap : DwOp
  rot : DwOp
  xderef : DwOp
  abs : DwOp
  and_op : DwOp
  div : DwOp
  minus : DwOp
  mod_op : DwOp
  mul : DwOp
  neg : DwOp
  not_op : DwOp
  or_op : DwOp
  plus : DwOp
  plus_uconst : DwOp
  shl : DwOp
  shr : DwOp
  shra : DwOp
  xor_op : DwOp
  bra : DwOp
  eq : DwOp
  ge : DwOp
  gt : DwOp
  le : DwOp
  lt : DwOp
  ne : DwOp
  skip_op : DwOp
  lit : ℕ → DwOp
  reg : ℕ → DwOp
  breg : ℕ → DwOp
  regx : DwOp
  bregx : DwOp
  deref_size : DwOp
  not_supported : DwOp

-- The opcodes below 0x30, in order.
abbrev pub low_operations : List DwOp
low_operations =
    not_supported ∷ not_supported ∷ not_supported ∷ addr ∷ not_supported ∷ not_supported ∷ deref
    ∷ not_supported ∷ const1u ∷ const1s ∷ const2u ∷ const2s ∷ const4u ∷ const4s ∷ const8u ∷ const8s
    ∷ constu ∷ consts ∷ dup ∷ drop_top ∷ over ∷ pick ∷ swap ∷ rot ∷ xderef ∷ abs ∷ and_op ∷ div
    ∷ minus ∷ mod_op ∷ mul ∷ neg ∷ not_op ∷ or_op ∷ plus ∷ plus_uconst ∷ shl ∷ shr ∷ shra ∷ xor_op
    ∷ bra ∷ eq ∷ ge ∷ gt ∷ le ∷ lt ∷ ne ∷ skip_op ∷ []

-- The case of the switch for an opcode byte.
unfoldable pub operation_of : ℕ → DwOp
operation_of byte =
    if ltb byte 0x30
    then get_or low_operations byte not_supported
    else if ltb byte 0x50
    then lit (byte - 0x30)
    else if ltb byte 0x70
    then reg (byte - 0x50)
    else if ltb byte 0x90
    then breg (byte - 0x70)
    else if byte == 0x90
    then regx
    else if byte == 0x92
    then bregx
    else if byte == 0x94
    then deref_size
    else not_supported

-- The cursor and the stack.
abbrev pub Evaluation : Type 0
Evaluation = DwarfCursor × List ℕ

unfoldable pub pop : Evaluation → Result (ℕ × Evaluation)
pop (c, []) = fail out_of_bounds
pop (c, x ∷ stack) = ok (x, (c, stack))

abbrev pub push : ℕ → Evaluation → Evaluation
push value (c, stack) = (c, value ∷ stack)

-- decodeConstant
unfoldable pub decode_constant : Memory → ℕ → Bool → Evaluation → Result Evaluation
decode_constant m width signed (c, stack) =
    let (value, c') = if signed then next_signed m width c else next m width c in
    ok (c', value ∷ stack)

-- evalStack.back() = f(evalStack.back())
unfoldable pub decode_unary_op : (ℕ → ℕ) → Evaluation → Result Evaluation
decode_unary_op f (c, []) = fail out_of_bounds
decode_unary_op f (c, x ∷ stack) = ok (c, f x ∷ stack)

-- value = pop(); evalStack.back() = f(evalStack.back(), value)
unfoldable pub decode_binary_op : (ℕ → ℕ → Result ℕ) → Evaluation → Result Evaluation
decode_binary_op f (c, []) = fail out_of_bounds
decode_binary_op f (c, value ∷ []) = fail out_of_bounds
decode_binary_op f (c, value ∷ x ∷ stack) = f x value >>= λ y. ok (c, y ∷ stack)

-- DW_OP_deref, DW_OP_xderef
unfoldable pub dereference : Memory → Evaluation → Result Evaluation
dereference m e = pop e >>= λ (value, e'). ok (push (load m value 8) e')

-- DW_OP_pick, and DW_OP_dup and DW_OP_over with their fixed places
unfoldable pub pick_at : ℕ → Evaluation → Result Evaluation
pick_at place (c, stack) = elim (get_elem? stack place) [
  | none ↦ fail out_of_bounds
  | some value ↦ ok (c, value ∷ stack)
]

unfoldable pub swap_top : Evaluation → Result Evaluation
swap_top (c, x ∷ y ∷ stack) = ok (c, y ∷ x ∷ stack)
swap_top _ = fail out_of_bounds

unfoldable pub rotate : Evaluation → Result Evaluation
rotate (c, x ∷ y ∷ z ∷ stack) = ok (c, y ∷ z ∷ x ∷ stack)
rotate _ = fail out_of_bounds

-- Divisions of 64-bit patterns: the signed divisor is converted to unsigned.
abbrev pub divided : ℕ → ℕ → Result ℕ
divided x value = if value == 0 then fail undefined else ok (x / value)

abbrev pub remainder : ℕ → ℕ → Result ℕ
remainder x value = if value == 0 then fail undefined else ok (x % value)

abbrev pub is_negative : ℕ → Bool
is_negative x = leb (2 ^ 63) x

abbrev pub negated : ℕ → ℕ
negated x = (2 ^ 64 - x) % 2 ^ 64

abbrev pub shifted_left : ℕ → ℕ → Result ℕ
shifted_left x value = if ltb value 64 then ok ((x * 2 ^ value) % 2 ^ 64) else fail undefined

abbrev pub shifted_right : ℕ → ℕ → Result ℕ
shifted_right x value = if ltb value 64 then ok (x / 2 ^ value) else fail undefined

abbrev pub shifted_right_signed : ℕ → ℕ → Result ℕ
shifted_right_signed x value =
    if ltb value 64
    then ok (if is_negative x then x / 2 ^ value + (2 ^ 64 - 2 ^ (64 - value)) else x / 2 ^ value)
    else fail undefined

-- DW_OP_skip, DW_OP_bra
unfoldable pub branch : Memory → Evaluation → Evaluation
branch m (c, stack) = let (svalue, c') = next_signed m 2 c in (skip svalue c', stack)

unfoldable pub branch_if : Memory → Evaluation → Evaluation
branch_if m (c, []) = let (svalue, c') = next_signed m 2 c in (c', [])
branch_if m (c, x ∷ stack) = branch m (c, stack)

-- DW_OP_reg0 ... and DW_OP_regx: the offset that the state has for a register
unfoldable pub push_register : DwarfState → ℕ → Evaluation → Result Evaluation
push_register state r e = get_register r state >>= λ entry. ok (push entry.offset e)

-- DW_OP_breg0 ... and DW_OP_bregx
unfoldable pub push_based : Memory → DwarfState → ℕ → Evaluation → Result Evaluation
push_based m state r (c, stack) = next_sleb128 m c >>= λ (svalue, c').
    get_register r state >>= λ entry. ok (c', (entry.offset + svalue) % 2 ^ 64 ∷ stack)

-- DW_OP_deref_size, which reads the value behind the size, and not through the pointer
unfoldable pub dereference_size : Memory → Evaluation → Result Evaluation
dereference_size m e = pop e >>= λ (value, (c, stack)).
    let (size, c') = next m 1 c in
    let (sized, c'') = next m size c' in
    if (size == 1)
    then ok (c'', sized ∷ stack)
    else if (size == 2)
    then ok (c'', sized ∷ stack)
    else if (size == 4)
    then ok (c'', sized ∷ stack)
    else if (size == 8)
    then ok (c'', sized ∷ stack)
    else ok (c', value ∷ stack)

module _ (m : Memory) (state : DwarfState) where
  -- The body of the switch of decode.
  unfoldable pub evaluate : DwOp → Evaluation → Result Evaluation
  evaluate addr e = decode_constant m 8 false e
  evaluate deref e = dereference m e
  evaluate xderef e = dereference m e
  evaluate const1u e = decode_constant m 1 false e
  evaluate const1s e = decode_constant m 1 true e
  evaluate const2u e = decode_constant m 2 false e
  evaluate const2s e = decode_constant m 2 true e
  evaluate const4u e = decode_constant m 4 false e
  evaluate const4s e = decode_constant m 4 true e
  evaluate const8u e = decode_constant m 8 false e
  evaluate const8s e = decode_constant m 8 true e
  evaluate constu (c, stack) = next_uleb128 m c >>= λ (value, c'). ok (c', value ∷ stack)
  evaluate consts (c, stack) = next_sleb128 m c >>= λ (value, c'). ok (c', value ∷ stack)
  evaluate dup e = pick_at 0 e
  evaluate drop_top e = pop e >>= λ (value, e'). ok e'
  evaluate over e = pick_at 1 e
  evaluate pick (c, stack) = let (place, c') = next m 1 c in pick_at place (c', stack)
  evaluate swap e = swap_top e
  evaluate rot e = rotate e
  evaluate abs e = decode_unary_op (λ x. if is_negative x then negated x else x) e
  evaluate neg e = decode_unary_op negated e
  evaluate not_op e = decode_unary_op (λ x. 2 ^ 64 - 1 - x) e
  evaluate and_op e = decode_binary_op (λ x value. ok (bit_and x value)) e
  evaluate or_op e = decode_binary_op (λ x value. ok (bit_or x value)) e
  evaluate xor_op e = decode_binary_op (λ x value. ok (bit_xor x value)) e
  evaluate div e = decode_binary_op divided e
  evaluate minus e = decode_binary_op (λ x value. ok ((2 ^ 64 + x - value) % 2 ^ 64)) e
  evaluate mod_op e = decode_binary_op remainder e
  evaluate mul e = decode_binary_op (λ x value. ok ((x * value) % 2 ^ 64)) e
  evaluate plus e = decode_binary_op (λ x value. ok ((x + value) % 2 ^ 64)) e
  evaluate plus_uconst (c, stack) =
      next_uleb128 m c >>= λ (value, c'). decode_unary_op (λ x. (x + value) % 2 ^ 64) (c', stack)
  evaluate shl e = decode_binary_op shifted_left e
  evaluate shr e = decode_binary_op shifted_right e
  evaluate shra e = decode_binary_op shifted_right_signed e
  evaluate skip_op e = ok (branch m e)
  evaluate bra e = ok (branch_if m e)
  evaluate eq e = decode_binary_op (λ x value. ok (to_ℕ (x == value))) e
  evaluate ge e = decode_binary_op (λ x value. ok (to_ℕ (leb value x))) e
  evaluate gt e = decode_binary_op (λ x value. ok (to_ℕ (ltb value x))) e
  evaluate le e = decode_binary_op (λ x value. ok (to_ℕ (leb x value))) e
  evaluate lt e = decode_binary_op (λ x value. ok (to_ℕ (ltb x value))) e
  evaluate ne e = decode_binary_op (λ x value. ok (to_ℕ (not (x == value)))) e
  evaluate (lit n) e = ok (push n e)
  evaluate (reg n) e = push_register state n e
  evaluate regx (c, stack) = next_uleb128 m c >>= λ (r, c'). push_register state r (c', stack)
  evaluate (breg n) e = push_based m state n e
  evaluate bregx (c, stack) = next_uleb128 m c >>= λ (r, c'). push_based m state r (c', stack)
  evaluate deref_size e = dereference_size m e
  evaluate not_supported e = ok e

  -- The loop of decode.
  unfoldable pub evaluate_all : ℕ → DwarfCursor → Evaluation → Result Evaluation
  evaluate_all zero stop e = fail out_of_fuel
  evaluate_all (suc fuel) stop (c, stack) =
      let (byte, c') = next m 1 c in
      if is_before c stop
      then (evaluate (operation_of byte) (c', stack) >>= λ e'. evaluate_all fuel stop e')
      else ok (c, stack)

  -- decode
  unfoldable pub decode : ℕ → DwarfCursor → Result ℕ
  decode fuel start = next_uleb128 m start >>= λ (length, c).
      evaluate_all fuel (skip length c) (c, []) >>= λ e. pop e >>= λ (value, e'). ok value
