-- ===== src/Db/Connection/Request/Waiting.antt =====
-- Requests that do not make the thread wait for a mutex.
use csf.Base.{
  ◌≡◌, sym, ◌∙◌, Bool, true, false, not, ◌&&◌, List, [], ◌∷◌, ◌++◌, Option, none, some, inl, inr,
  Bool-cases, if_lem, if◌then◌else◌,
}
use mathlib.Core.Bool.{false≢true}
use csf.Base.Int.{ℤ}
use csf.Db.{Text, codes, MessageType, Message, Exception, get_table, get_key, is_valid_identifier}
use csf.Db.Encoding.{Outcome, encode}
use csf.Db.Number.{to_string, is_empty_text}
use csf.Db.Store.{Table, ValueStack, get_top, pop_value, push_value, find_table}
use csf.Db.Connection.{
  State, Result, written, send, send_ok, send_failed, send_data, operation, catch_std,
  catch_operation, then_do, what, with_stack, holds, lock_in_transaction, at_key, buffer_write,
  set_value, set, unlock_table, found_value, read_value, get_value_of, get_from,
}
use csf.Db.Connection.Arithmetic.{
  arithmetic_on, Operand, operand, Computation, compute, finish, first_operand, second_operand,
  is_div, is_zero,
}

-- A result of a thread that does not wait.
abbrev pub Runs : Result → Type 0
Runs (Result.done s) = Unit {0}
Runs (Result.returned s) = Unit {0}
Runs (Result.throws e s) = Unit {0}
Runs (Result.waits s) = ⊥
Runs (Result.undefined s) = Unit {0}

pub if-Runs : (b : Bool) (r r' : Result) → Runs r → Runs r' → Runs (if b then r else r')
if-Runs true r r' h k = h
if-Runs false r r' h k = k

written-Runs : (o : Outcome) (s : State) → Runs (written o s)
unfolding written
written-Runs (Outcome.raises e) s = tt
written-Runs (Outcome.returns text) s = tt

pub send-Runs : (type : MessageType) (args : List Text) (s : State) → Runs (send type args s)
unfolding send
send-Runs type args s = written-Runs (encode (record { message_type = type; args = args })) s

pub catch_std-Runs :
    (r : Result) (handler : Text → State → Result)
    → Runs r
    → ((e : Text) (s : State) → Runs (handler e s))
    → Runs (catch_std r handler)
unfolding catch_std
catch_std-Runs (Result.done s) handler h k = tt
catch_std-Runs (Result.returned s) handler h k = tt
catch_std-Runs (Result.throws e s) handler h k = k (what e) s
catch_std-Runs (Result.waits s) handler h k = h
catch_std-Runs (Result.undefined s) handler h k = tt

catch_operation-Runs :
    (r : Result) (handler : Text → State → Result)
    → Runs r
    → ((e : Text) (s : State) → Runs (handler e s))
    → Runs (catch_operation r handler)
unfolding catch_operation
catch_operation-Runs (Result.throws (Exception.operation_exception e) s) handler h k = k e s
catch_operation-Runs (Result.throws (Exception.invalid_message e) s) handler h k = tt
catch_operation-Runs (Result.throws (Exception.comm_exception e) s) handler h k = tt
catch_operation-Runs (Result.throws (Exception.failed_transaction e) s) handler h k = tt
catch_operation-Runs (Result.done s) handler h k = tt
catch_operation-Runs (Result.returned s) handler h k = tt
catch_operation-Runs (Result.waits s) handler h k = h
catch_operation-Runs (Result.undefined s) handler h k = tt

pub then_do-Runs :
    (r : Result) (next : State → Result)
    → Runs r
    → ((s : State) → Runs (next s))
    → Runs (then_do r next)
then_do-Runs (Result.done s) next h k = k s
then_do-Runs (Result.returned s) next h k = tt
then_do-Runs (Result.throws e s) next h k = tt
then_do-Runs (Result.waits s) next h k = h
then_do-Runs (Result.undefined s) next h k = tt

-- `trylock` does not wait.
lock-Runs : (name : Text) (t : Table) (s : State) → Runs (lock_in_transaction name t s)
unfolding lock_in_transaction
lock-Runs name t s =
    if-Runs (holds name s.conn.m_locked_tables) _ _ tt
      (elim (Bool-cases t.m_lock) [ inl l ↦ rw l tt | inr l ↦ rw l tt ])

set_value-Runs :
    (table key : Text) (t : Table) (stack : ValueStack) (s : State)
    → s.conn.m_in_transaction ≡ true
    → Runs (set_value table key t stack s)
unfolding set_value
set_value-Runs table key t [] s q = tt
set_value-Runs table key t (val ∷ stack) s q =
    if_lem (λ (r : Result). Runs r) s.conn.m_in_transaction
      (λ p.
        then_do-Runs (lock_in_transaction table t (with_stack stack s)) _
          (lock-Runs table t (with_stack stack s))
          (λ s2. send-Runs MessageType.ok [] (at_key table key (buffer_write table key val s2))))
      (λ p. absurd (false≢true (sym p ∙ q)))

set_on-Runs :
    (table key : Text) (o : Option Table) (s : State)
    → s.conn.m_in_transaction ≡ true
    → Runs (elim o [
      | none ↦ send_failed (codes "no such table") s
      | some t ↦ catch_std (set_value table key t s.conn.m_stack s) (λ e s'.
          send_failed
            (codes "set failed: " ++ e)
            (if s'.conn.m_in_transaction then s' else unlock_table table s'))
    ])
set_on-Runs table key none s q = send-Runs MessageType.failed _ s
set_on-Runs table key (some t) s q =
    catch_std-Runs (set_value table key t s.conn.m_stack s) _
      (set_value-Runs table key t s.conn.m_stack s q)
      (λ e s'.
        send-Runs MessageType.failed _
          (if s'.conn.m_in_transaction then s' else unlock_table table s'))

pub set-Runs : (req : Message) (s : State) → s.conn.m_in_transaction ≡ true → Runs (set req s)
unfolding set
set-Runs req s q = if-Runs (not (is_valid_identifier (get_key req))) _ _ tt (
    if-Runs (not (is_valid_identifier (get_table req))) _ _ tt (
      if-Runs (not s.conn.m_has_stack) _ _ (send-Runs MessageType.failed _ s)
        (set_on-Runs (get_table req) (get_key req) (find_table (get_table req) s.tables) s q)))

found_value-Runs :
    (table key : Text) (s : State) (o : Option Text) → Runs (found_value table key s o)
found_value-Runs table key s none = tt
found_value-Runs table key s (some val) =
    let s1 = at_key table key (with_stack (push_value val s.conn.m_stack) s) in
    send-Runs MessageType.ok [] (if s1.conn.m_in_transaction then s1 else unlock_table table s1)

read-Runs : (table key : Text) (t : Table) (s : State) → Runs (get_value_of table key t s)
unfolding get_value_of
read-Runs table key t s =
    catch_operation-Runs (found_value table key s (read_value table key t s)) _
      (found_value-Runs table key s (read_value table key t s))
      (λ e s'.
        if-Runs s'.conn.m_in_transaction _ _ tt
          (send-Runs MessageType.failed _ (unlock_table table s')))

pub get_from-Runs :
    (table key : Text) (o : Option Table) (s : State) → Runs (get_from table key o s)
unfolding get_from
get_from-Runs table key none s = send-Runs MessageType.failed _ s
get_from-Runs table key (some t) s =
    if-Runs s.conn.m_in_transaction _ _
      (then_do-Runs (lock_in_transaction table t s) _ (lock-Runs table t s)
        (λ s'. read-Runs table key t s'))
      (read-Runs table key t s)

pub popped-Runs :
    (stack : ValueStack) (s : State)
    → Runs (elim (pop_value stack) [
      | none ↦ operation (codes "ValueStack is empty") s
      | some rest ↦ send_ok (with_stack rest s)
    ])
popped-Runs [] s = tt
popped-Runs (v ∷ rest) s = send-Runs MessageType.ok [] (with_stack rest s)

pub topped-Runs :
    (stack : ValueStack) (s : State)
    → Runs (elim (get_top stack) [
      | none ↦ operation (codes "ValueStack is empty") s
      | some val ↦ send_data val s
    ])
topped-Runs [] s = tt
topped-Runs (v ∷ rest) s = send-Runs MessageType.«data» (v ∷ []) s

pub on_stack-Runs :
    (s : State) (r : Result)
    → Runs r
    → Runs (
        if not s.conn.m_has_stack
        then send_failed (codes "no active key") s
        else catch_std r (λ e s'. send_failed (codes "stack empty") s'))
on_stack-Runs s r h =
    if-Runs (not s.conn.m_has_stack) _ _ (send-Runs MessageType.failed _ s)
      (catch_std-Runs r _ h (λ e s'. send-Runs MessageType.failed _ s'))

finish-Runs :
    (s1 s2 : Text) (rest : ValueStack) (s : State) (c : Computation) → Runs (finish s1 s2 rest s c)
unfolding finish
finish-Runs s1 s2 rest s Computation.unexpected = tt
finish-Runs s1 s2 rest s Computation.undefined = tt
finish-Runs s1 s2 rest s (Computation.result v) =
    send-Runs MessageType.ok [] (with_stack (to_string v ∷ rest) s)

second_operand-Runs :
    (type : MessageType) (s1 s2 : Text) (rest : ValueStack) (s : State) (a : ℤ) (o : Operand)
    → Runs (second_operand type s1 s2 rest s a o)
unfolding second_operand
second_operand-Runs type s1 s2 rest s a Operand.not_integer =
    send-Runs MessageType.error _ (with_stack _ s)
second_operand-Runs type s1 s2 rest s a Operand.invalid_argument = tt
second_operand-Runs type s1 s2 rest s a Operand.out_of_range = tt
second_operand-Runs type s1 s2 rest s a (Operand.integer b) =
    if-Runs (is_div type && is_zero b) _ _ (send-Runs MessageType.error _ (with_stack _ s))
      (finish-Runs s1 s2 rest s (compute type b a))

first_operand-Runs :
    (type : MessageType) (s1 s2 : Text) (rest : ValueStack) (s : State) (o : Operand)
    → Runs (first_operand type s1 s2 rest s o)
unfolding first_operand
first_operand-Runs type s1 s2 rest s Operand.not_integer =
    send-Runs MessageType.error _ (with_stack _ s)
first_operand-Runs type s1 s2 rest s Operand.invalid_argument = tt
first_operand-Runs type s1 s2 rest s Operand.out_of_range = tt
first_operand-Runs type s1 s2 rest s (Operand.integer a) =
    second_operand-Runs type s1 s2 rest s a (operand s2)

pub arithmetic_on-Runs :
    (type : MessageType) (stack : ValueStack) (s : State) → Runs (arithmetic_on type stack s)
unfolding arithmetic_on
arithmetic_on-Runs type [] s = tt
arithmetic_on-Runs type (s1 ∷ []) s = tt
arithmetic_on-Runs type (s1 ∷ s2 ∷ rest) s =
    if-Runs (is_empty_text s1) _ _ (send-Runs MessageType.failed _ s) (
      if-Runs (is_empty_text s2) _ _
        (send-Runs MessageType.failed _ (with_stack (s1 ∷ s2 ∷ rest) s))
        (first_operand-Runs type s1 s2 rest s (operand s1)))
