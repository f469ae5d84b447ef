-- ===== src/Db/Connection/Arithmetic/Computed.antt =====
-- The arithmetic of two integers on the stack.
use csf.Base.{suc, ◌/◌, ◌≡◌, refl, sym, ◌∙◌, true, false, ◌&&◌, ◌∷◌, arith}
use csf.Base.Int.{ℤ, pos, negsuc, ◌+ℤ◌, ◌-ℤ◌, ◌*ℤ◌}
use csf.Db.{MessageType}
use csf.Db.Store.{ValueStack}
use csf.Db.Number.{to_string, in_int}
use csf.Db.Number.Printed.{stoi-to_string, to_string-has_dot, to_string-is_empty_text}
use csf.Db.Connection.{State, send_ok, with_stack}
use csf.Db.Connection.Arithmetic.{
  Operand, operand, compute, Computation, computed, int_result, div_ℤ, is_div, is_zero, finish,
  second_operand, first_operand, arithmetic_on,
}

operand-to_string : (v : ℤ) → in_int v ≡ true → operand (to_string v) ≡ Operand.integer v
unfolding operand
operand-to_string v h = rw (stoi-to_string v h, operand) (rw (to_string-has_dot v))

-- The quotient of two integers, rounded towards 0, by their signs.
abbrev pub quotient : ℤ → ℤ → ℤ
quotient (pos m) (pos n) = pos (m / n)
quotient (pos m) (negsuc n) = pos 0 -ℤ pos (m / suc n)
quotient (negsuc m) (pos n) = pos 0 -ℤ pos (suc m / n)
quotient (negsuc m) (negsuc n) = pos (suc m / suc n)

-- What an operation makes of its left operand `b` and its right operand `a`.
abbrev pub IsResult : MessageType → ℤ → ℤ → ℤ → Type 0
IsResult MessageType.add b a v = v ≡ b +ℤ a
IsResult MessageType.sub b a v = v ≡ b -ℤ a
IsResult MessageType.mul b a v = v ≡ b *ℤ a
IsResult MessageType.div b a v = (is_zero a ≡ false) × (v ≡ quotient b a)
IsResult _ b a v = ⊥

div_ℤ-quotient : (b a : ℤ) → is_zero a ≡ false → div_ℤ b a ≡ quotient b a
unfolding div_ℤ ◌-ℤ◌
div_ℤ-quotient (pos m) (pos n) h = ground arith
div_ℤ-quotient (pos m) (negsuc n) h = ground arith
div_ℤ-quotient (negsuc m) (pos n) h = ground arith
div_ℤ-quotient (negsuc m) (negsuc n) h = ground arith

int_result-in_int :
    (r v : ℤ) → v ≡ r → in_int v ≡ true → computed (int_result r) ≡ Computation.result v
int_result-in_int r v e h = rw (← e, h) refl

compute-IsResult :
    (type : MessageType) (b a v : ℤ)
    → IsResult type b a v
    → in_int v ≡ true
    → compute type b a ≡ Computation.result v
unfolding compute
compute-IsResult MessageType.add b a v e h = int_result-in_int (b +ℤ a) v e h
compute-IsResult MessageType.sub b a v e h = int_result-in_int (b -ℤ a) v e h
compute-IsResult MessageType.mul b a v e h = int_result-in_int (b *ℤ a) v e h
compute-IsResult MessageType.div b a v (z, e) h =
    rw z (int_result-in_int (div_ℤ b a) v (e ∙ sym (div_ℤ-quotient b a z)) h)
compute-IsResult _ b a v e h = elim e [ ]

-- Two integers on top of the stack are replaced by the text of their sum, difference, product or
-- quotient rounded towards 0, the lower one being the left operand, where the result is an `int` and,
-- for DIV, neither operand is 0.
pub arithmetic_on_lem :
    (type : MessageType) (a b v : ℤ) (rest : ValueStack) (s : State)
    → in_int a ≡ true
    → in_int b ≡ true
    → (is_div type && is_zero b) ≡ false
    → IsResult type b a v
    → in_int v ≡ true
    → arithmetic_on type (to_string a ∷ to_string b ∷ rest) s
      ≡ send_ok (with_stack (to_string v ∷ rest) s)
unfolding arithmetic_on first_operand second_operand finish
arithmetic_on_lem type a b v rest s ha hb d r h = rw (
  to_string-is_empty_text a ha,
  to_string-is_empty_text b hb,
  operand-to_string a ha,
  operand-to_string b hb,
  d,
  compute-IsResult type b a v r h,
)
