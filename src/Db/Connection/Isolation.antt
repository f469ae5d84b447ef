-- ===== src/Db/Connection/Isolation.antt =====
-- What a request leaves of the committed data of the tables.
use csf.Base.{
  ◌≡◌, refl, sym, ◌∙◌, true, [], ◌∷◌, ◌++◌, Option, none, some, inl, inr, Bool-cases, Option-cases,
  if_lem, if◌then◌else◌,
}
use mathlib.Core.Bool.{false≢true}
use csf.Db.{Text, codes, MessageType, Message, get_key, get_table, is_valid_identifier}
use csf.Db.Store.{Tables, Table, ValueStack, push_value, find, update_table, unlock}
use csf.Db.Connection.{
  State, Result, holds, with_stack, at_key, unlock_table, send_failed, found_value, get_failed,
  buffer_write, send_ok, lock_in_transaction, set_value, set, read_value, get_value_of, get_from,
  get,
}
use csf.Db.Connection.Kept.{
  state_of, Keeps, refl-Keeps, trans-Keeps, update_table-Keeps, put-Keeps, send-Keeps,
  rollback-Keeps, catch_std_lem, catch_operation_lem, then_do_lem,
}

lock-Keeps :
    (name : Text) (t : Table) (s : State)
    → find name s.tables ≡ some t
    → Keeps s.tables (state_of (lock_in_transaction name t s)).tables
unfolding lock_in_transaction
lock-Keeps name t s e =
    let s' = record s {
      conn = record s.conn { m_locked_tables = name ∷ s.conn.m_locked_tables };
    } in
    elim (Bool-cases (holds name s.conn.m_locked_tables)) [
      | inl q ↦ rw q (refl-Keeps s.tables)
      | inr q ↦ elim (Bool-cases t.m_lock) [
        | inl l ↦ rw (q, l) (rollback-Keeps s.tables s' (refl-Keeps s.tables))
        | inr l ↦ rw (q, l) (put-Keeps name t (record t { m_lock = true }) s.tables e refl)
      ]
    ]

set_value-Keeps :
    (table key : Text) (t : Table) (stack : ValueStack) (s : State)
    → s.conn.m_in_transaction ≡ true
    → find table s.tables ≡ some t
    → Keeps s.tables (state_of (set_value table key t stack s)).tables
unfolding set_value
set_value-Keeps table key t [] s q e = refl-Keeps s.tables
set_value-Keeps table key t (val ∷ stack) s q e =
    let s1 = with_stack stack s in
    if_lem (λ (r : Result). Keeps s.tables (state_of r).tables) s.conn.m_in_transaction
      (λ p.
        then_do_lem {P = λ s'. Keeps s.tables s'.tables} (lock_in_transaction table t s1)
          (λ s2. send_ok (at_key table key (buffer_write table key val s2)))
          (lock-Keeps table t s1 e)
          (λ s2 h.
            send-Keeps s.tables MessageType.ok [] (at_key table key (buffer_write table key val s2))
              h))
      (λ p. absurd (false≢true (sym p ∙ q)))

unlock_table-Keeps :
    (ts : Tables) (table : Text) (s : State)
    → Keeps ts s.tables
    → Keeps ts (unlock_table table s).tables
unlock_table-Keeps ts table s h =
    trans-Keeps ts s.tables (update_table table unlock s.tables) h
      (update_table-Keeps table unlock s.tables (λ t. refl))

-- The handler of `set`.
set_failed-Keeps :
    (ts : Tables) (table e : Text) (s : State)
    → Keeps ts s.tables
    → Keeps ts
        (state_of
          (send_failed e (if s.conn.m_in_transaction then s else unlock_table table s))).tables
set_failed-Keeps ts table e s h =
    send-Keeps ts MessageType.failed (e ∷ [])
      (if s.conn.m_in_transaction then s else unlock_table table s)
      (if_lem (λ (s' : State). Keeps ts s'.tables) s.conn.m_in_transaction (λ q. h)
        (λ q. unlock_table-Keeps ts table s h))

pub set-Keeps :
    (req : Message) (s : State)
    → s.conn.m_in_transaction ≡ true
    → Keeps s.tables (state_of (set req s)).tables
unfolding set
set-Keeps req s q =
    let here = refl-Keeps s.tables in
    elim (Bool-cases (is_valid_identifier (get_key req))) [
      | inr k ↦ simp k here
      | inl k ↦ elim (Bool-cases (is_valid_identifier (get_table req))) [
        | inr l ↦ simp (k, l) here
        | inl l ↦ elim (Bool-cases s.conn.m_has_stack) [
          | inr m ↦
              simp (k, l, m)
                (send-Keeps s.tables MessageType.failed (codes "no active key" ∷ []) s here)
          | inl m ↦ elim (Option-cases (find (get_table req) s.tables)) [
            | inl n ↦
                simp (k, l, m, n)
                  (send-Keeps s.tables MessageType.failed (codes "no such table" ∷ []) s here)
            | inr (t, n) ↦
                simp (k, l, m, n)
                  (catch_std_lem {P = λ s'. Keeps s.tables s'.tables}
                    (set_value (get_table req) (get_key req) t s.conn.m_stack s)
                    (λ e s'.
                      send_failed (codes "set failed: " ++ e)
                        (if s'.conn.m_in_transaction then s' else unlock_table (get_table req) s'))
                    (set_value-Keeps (get_table req) (get_key req) t s.conn.m_stack s q n)
                    (λ e s' h.
                      set_failed-Keeps s.tables (get_table req) (codes "set failed: " ++ e) s' h))
          ]
        ]
      ]
    ]

read-Keeps :
    (ts : Tables) (table key : Text) (t : Table) (s : State)
    → Keeps ts s.tables
    → Keeps ts (state_of (get_value_of table key t s)).tables
unfolding get_value_of
read-Keeps ts table key t s h =
    catch_operation_lem {P = λ s'. Keeps ts s'.tables}
      (found_value table key s (read_value table key t s)) (λ e s'. get_failed table e s')
      (found_value-Keeps (read_value table key t s))
      (λ e s' k. elim (Bool-cases s'.conn.m_in_transaction) [
        | inl q ↦ simp q (rollback-Keeps ts s' k)
        | inr q ↦ simp q (
            send-Keeps ts MessageType.failed (e ∷ []) (unlock_table table s')
              (unlock_table-Keeps ts table s' k))
      ])
  where
    found_value-Keeps : (o : Option Text) → Keeps ts (state_of (found_value table key s o)).tables
    found_value-Keeps none = h
    found_value-Keeps (some val) =
        let s1 = at_key table key (with_stack (push_value val s.conn.m_stack) s) in
        send-Keeps ts MessageType.ok []
          (if s1.conn.m_in_transaction then s1 else unlock_table table s1)
          (if_lem (λ (s' : State). Keeps ts s'.tables) s.conn.m_in_transaction (λ q. h)
            (λ q. unlock_table-Keeps ts table s1 h))

get_from-Keeps :
    (table key : Text) (o : Option Table) (s : State)
    → find table s.tables ≡ o
    → Keeps s.tables (state_of (get_from table key o s)).tables
unfolding get_from
get_from-Keeps table key none s n =
    send-Keeps s.tables MessageType.failed (codes "no such table" ∷ []) s (refl-Keeps s.tables)
get_from-Keeps table key (some t) s n =
    if_lem (λ (r : Result). Keeps s.tables (state_of r).tables) s.conn.m_in_transaction
      (λ q.
        then_do_lem {P = λ s'. Keeps s.tables s'.tables} (lock_in_transaction table t s)
          (λ s'. get_value_of table key t s') (lock-Keeps table t s n)
          (λ s' h. read-Keeps s.tables table key t s' h))
      (λ q. read-Keeps s.tables table key t s (refl-Keeps s.tables))

pub get-Keeps : (req : Message) (s : State) → Keeps s.tables (state_of (get req s)).tables
unfolding get
get-Keeps req s =
    get_from-Keeps (get_table req) (get_key req) (find (get_table req) s.tables) s refl
