-- ===== src/Db/Connection/Arithmetic.antt =====
-- `ClientConnection::arithmetic`.
pub mod Computed
pub mod Kept
use csf.Base.{
  ℕ, ◌+◌, ◌/◌, ◌≡◌, refl, Bool, true, false, not, ◌&&◌, ◌||◌, differ, List, [], ◌∷◌, ◌++◌, Option,
  none, some, ltb, ◌==◌, length, if◌then◌else◌,
}
use csf.Base.Int.{ℤ, pos, negsuc, ◌+ℤ◌, ◌-ℤ◌, ◌*ℤ◌, pos_part, neg_part, sub_ℕ}
use csf.Db.{Text, codes, MessageType, Message, Exception}
use csf.Db.Store.{ValueStack}
use csf.Db.Number.{Parsed, stoi, to_string, in_int, has_dot, is_empty_text}
use csf.Db.Connection.{State, Result, operation, send_ok, send_failed, send_error, with_stack}

-- What becomes of one operand.
pub data Operand : Type 0 where
  integer : ℤ → Operand
  not_integer : Operand
  invalid_argument : Operand
  out_of_range : Operand

unfoldable pub operand : Text → Operand
operand s = elim (stoi s) [
  | Parsed.parsed v rest ↦
      if not (is_empty_text rest) || has_dot s then Operand.not_integer else Operand.integer v
  | Parsed.invalid_argument ↦ Operand.invalid_argument
  | Parsed.out_of_range ↦ Operand.out_of_range
]

-- The C++ quotient, rounded towards 0, for a divisor that is not 0.
unfoldable pub div_ℤ : ℤ → ℤ → ℤ
div_ℤ b a =
    let q = (pos_part b + neg_part b) / (pos_part a + neg_part a) in
    if differ (ltb 0 (neg_part b)) (ltb 0 (neg_part a)) then pos 0 -ℤ pos q else pos q

abbrev pub is_zero : ℤ → Bool
is_zero v = pos_part v + neg_part v == 0

-- An `int`, or `none` where C++ defines no result.
abbrev pub int_result : ℤ → Option ℤ
int_result v = if in_int v then some v else none

pub data Computation : Type 0 where
  result : ℤ → Computation
  undefined : Computation
  unexpected : Computation

abbrev pub computed : Option ℤ → Computation
computed none = Computation.undefined
computed (some v) = Computation.result v

-- The switch on the type.
unfoldable pub compute : MessageType → ℤ → ℤ → Computation
compute type b a = elim type [
  | MessageType.add ↦ computed (int_result (b +ℤ a))
  | MessageType.sub ↦ computed (int_result (b -ℤ a))
  | MessageType.mul ↦ computed (int_result (b *ℤ a))
  | MessageType.div ↦ computed (if is_zero a then none else int_result (div_ℤ b a))
  | _ ↦ Computation.unexpected
]

abbrev pub is_div : MessageType → Bool
is_div MessageType.div = true
is_div _ = false

-- The results of the switch; `s1` was on top of `s2`, and `rest` is the stack below.
unfoldable pub finish : Text → Text → ValueStack → State → Computation → Result
finish s1 s2 rest s Computation.unexpected =
    Result.throws (Exception.invalid_message (codes "unexpected operation"))
      (with_stack (s1 ∷ s2 ∷ rest) s)
finish s1 s2 rest s Computation.undefined = Result.undefined (with_stack rest s)
finish s1 s2 rest s (Computation.result v) = send_ok (with_stack (to_string v ∷ rest) s)

-- The second `try` block and what follows, for the two operands as they were read.
unfoldable pub second_operand :
    MessageType → Text → Text → ValueStack → State → ℤ → Operand → Result
second_operand type s1 s2 rest s a Operand.not_integer =
    send_error (codes "non-integer operand") (with_stack (s2 ∷ s1 ∷ rest) s)
second_operand type s1 s2 rest s a Operand.invalid_argument =
    operation (codes "non-integer operand") (with_stack (s2 ∷ s1 ∷ rest) s)
second_operand type s1 s2 rest s a Operand.out_of_range =
    operation (codes "integer overflow") (with_stack (s1 ∷ s2 ∷ rest) s)
second_operand type s1 s2 rest s a (Operand.integer b) =
    if is_div type && is_zero b
    then send_error (codes "Division by zero is not allowed") (with_stack (s2 ∷ s1 ∷ rest) s)
    else finish s1 s2 rest s (compute type b a)

-- The first `try` block.
unfoldable pub first_operand : MessageType → Text → Text → ValueStack → State → Operand → Result
first_operand type s1 s2 rest s Operand.not_integer =
    send_error (codes "non-integer operand") (with_stack (s1 ∷ s2 ∷ rest) s)
first_operand type s1 s2 rest s Operand.invalid_argument =
    operation (codes "non-integer operand") (with_stack (s1 ∷ s2 ∷ rest) s)
first_operand type s1 s2 rest s Operand.out_of_range =
    operation (codes "integer overflow") (with_stack (s1 ∷ s2 ∷ rest) s)
first_operand type s1 s2 rest s (Operand.integer a) =
    second_operand type s1 s2 rest s a (operand s2)

-- The second test of an empty stack never holds, since the size was tested.
unfoldable pub arithmetic_on : MessageType → ValueStack → State → Result
arithmetic_on type [] s = operation (codes "not enough operands") s
arithmetic_on type (s1 ∷ []) s = operation (codes "not enough operands") s
arithmetic_on type (s1 ∷ s2 ∷ rest) s =
    if is_empty_text s1
    then send_failed (codes "stack empty") s
    else if is_empty_text s2
    then send_failed (codes "Insufficient values for operation") (with_stack (s1 ∷ s2 ∷ rest) s)
    else first_operand type s1 s2 rest s (operand s1)

unfoldable pub arithmetic : Message → State → Result
arithmetic req s = arithmetic_on req.message_type s.conn.m_stack s
