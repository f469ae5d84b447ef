-- ===== src/Db/Connection/Arithmetic/Kept.antt =====
-- Arithmetic changes no table.
use csf.Base.{◌&&◌, [], ◌∷◌, if_lem}
use csf.Db.{Text, codes, MessageType, Message}
use csf.Db.Store.{ValueStack}
use csf.Db.Connection.{State, Result, send, with_stack}
use csf.Base.Int.{ℤ}
use csf.Db.Number.{to_string, is_empty_text}
use csf.Db.Connection.Kept.{state_of, Keeps, refl-Keeps, send-Keeps}
use csf.Db.Connection.Arithmetic.{
  arithmetic, arithmetic_on, Operand, operand, Computation, compute, finish, first_operand,
  second_operand, is_div, is_zero,
}

finish-Keeps :
    (s1 s2 : Text) (rest : ValueStack) (s : State) (c : Computation)
    → Keeps s.tables (state_of (finish s1 s2 rest s c)).tables
unfolding finish
finish-Keeps s1 s2 rest s Computation.unexpected = refl-Keeps s.tables
finish-Keeps s1 s2 rest s Computation.undefined = refl-Keeps s.tables
finish-Keeps s1 s2 rest s (Computation.result v) =
    send-Keeps s.tables MessageType.ok [] (with_stack (to_string v ∷ rest) s) (refl-Keeps s.tables)

failed-Keeps :
    (type : MessageType) (text : Text) (stack : ValueStack) (s : State)
    → Keeps s.tables (state_of (send type (text ∷ []) (with_stack stack s))).tables
failed-Keeps type text stack s =
    send-Keeps s.tables type (text ∷ []) (with_stack stack s) (refl-Keeps s.tables)

second_operand-Keeps :
    (type : MessageType) (s1 s2 : Text) (rest : ValueStack) (s : State) (a : ℤ) (o : Operand)
    → Keeps s.tables (state_of (second_operand type s1 s2 rest s a o)).tables
unfolding second_operand
second_operand-Keeps type s1 s2 rest s a Operand.not_integer =
    failed-Keeps MessageType.error (codes "non-integer operand") (s2 ∷ s1 ∷ rest) s
second_operand-Keeps type s1 s2 rest s a Operand.invalid_argument = refl-Keeps s.tables
second_operand-Keeps type s1 s2 rest s a Operand.out_of_range = refl-Keeps s.tables
second_operand-Keeps type s1 s2 rest s a (Operand.integer b) =
    if_lem (λ (r : Result). Keeps s.tables (state_of r).tables) (is_div type && is_zero b)
      (λ q.
        failed-Keeps MessageType.error (codes "Division by zero is not allowed") (s2 ∷ s1 ∷ rest) s)
      (λ q. finish-Keeps s1 s2 rest s (compute type b a))

first_operand-Keeps :
    (type : MessageType) (s1 s2 : Text) (rest : ValueStack) (s : State) (o : Operand)
    → Keeps s.tables (state_of (first_operand type s1 s2 rest s o)).tables
unfolding first_operand
first_operand-Keeps type s1 s2 rest s Operand.not_integer =
    failed-Keeps MessageType.error (codes "non-integer operand") (s1 ∷ s2 ∷ rest) s
first_operand-Keeps type s1 s2 rest s Operand.invalid_argument = refl-Keeps s.tables
first_operand-Keeps type s1 s2 rest s Operand.out_of_range = refl-Keeps s.tables
first_operand-Keeps type s1 s2 rest s (Operand.integer a) =
    second_operand-Keeps type s1 s2 rest s a (operand s2)

pub arithmetic_on-Keeps :
    (type : MessageType) (stack : ValueStack) (s : State)
    → Keeps s.tables (state_of (arithmetic_on type stack s)).tables
unfolding arithmetic_on
arithmetic_on-Keeps type [] s = refl-Keeps s.tables
arithmetic_on-Keeps type (s1 ∷ []) s = refl-Keeps s.tables
arithmetic_on-Keeps type (s1 ∷ s2 ∷ rest) s =
    if_lem (λ (r : Result). Keeps s.tables (state_of r).tables) (is_empty_text s1)
      (λ q.
        send-Keeps s.tables MessageType.failed (codes "stack empty" ∷ []) s (refl-Keeps s.tables))
      (λ q.
        if_lem (λ (r : Result). Keeps s.tables (state_of r).tables) (is_empty_text s2)
          (λ p.
            failed-Keeps MessageType.failed (codes "Insufficient values for operation")
              (s1 ∷ s2 ∷ rest) s)
          (λ p. first_operand-Keeps type s1 s2 rest s (operand s1)))

pub arithmetic-Keeps :
    (req : Message) (s : State) → Keeps s.tables (state_of (arithmetic req s)).tables
unfolding arithmetic
arithmetic-Keeps req s = arithmetic_on-Keeps req.message_type s.conn.m_stack s
