-- ===== src/Db/Connection/Request/Uncommitted.antt =====
-- A transaction that has not been committed changes no committed data.
use csf.Base.{◌&&◌, ◌≡◌, refl, ap, true, not, List, [], ◌∷◌, none, some, if_lem, if◌then◌else◌}
use csf.Db.{
  Text, codes, MessageType, Message, Exception, is_valid, get_value, get_table, get_username,
  is_valid_identifier,
}
use csf.Db.Encoding.{Decoded, decode}
use csf.Db.Store.{Tables, ValueStack, create_table}
use csf.Db.Connection.{
  State, Result, send, catch_std, create, push, pop, top, with_stack, send_failed, send_ok,
  rollback_transaction, begin,
}
use csf.Db.Connection.Kept.{
  state_of, Keeps, refl-Keeps, create_table-Keeps, send-Keeps, rollback-Keeps, catch_std_lem,
  then_do_lem,
}
use csf.Db.Store.{pop_value, get_top}
use csf.Db.Connection.{ClientConnection, send_data, send_error, operation}
use csf.Db.Connection.Isolation.{set-Keeps, get-Keeps}
use csf.Db.Connection.Arithmetic.Kept.{arithmetic-Keeps}
use csf.Db.Connection.Request.{
  dispatch, accept, login, bye, Session, after_reply, catch_all, round, handle, is_login,
}
use mathlib.Core.Logic.{◌≢◌}

create-Keeps : (req : Message) (s : State) → Keeps s.tables (state_of (create req s)).tables
unfolding create
create-Keeps req s =
    let name = get_table req in
    let s' = record s { tables = create_table name s.tables } in
    if_lem (λ (r : Result). Keeps s.tables (state_of r).tables) (not (is_valid_identifier name))
      (λ q. refl-Keeps s.tables)
      (λ q. send-Keeps s.tables MessageType.ok [] s' (create_table-Keeps name s.tables))

-- A reply after a change of the connection alone.
reply-Keeps :
    (type : MessageType) (args : List Text) (s : State) (conn : ClientConnection)
    → Keeps s.tables (state_of (send type args (record s { conn = conn }))).tables
reply-Keeps type args s conn =
    send-Keeps s.tables type args (record s { conn = conn }) (refl-Keeps s.tables)

-- What is refused with a text when the stack is not there or empty.
caught-Keeps :
    (s : State) (r : Result)
    → Keeps s.tables (state_of r).tables
    → Keeps s.tables (state_of (catch_std r (λ e s'. send_failed (codes "stack empty") s'))).tables
caught-Keeps s r h =
    catch_std_lem {P = λ s'. Keeps s.tables s'.tables} r
      (λ e s'. send_failed (codes "stack empty") s') h
      (λ e s' k. send-Keeps s.tables MessageType.failed (codes "stack empty" ∷ []) s' k)

no_key-Keeps :
    (s : State) (r : Result)
    → Keeps s.tables (state_of r).tables
    → Keeps s.tables
        (state_of
          (if not s.conn.m_has_stack then send_failed (codes "no active key") s else r)).tables
no_key-Keeps s r h =
    if_lem (λ (r' : Result). Keeps s.tables (state_of r').tables) (not s.conn.m_has_stack)
      (λ q. reply-Keeps MessageType.failed (codes "no active key" ∷ []) s s.conn) (λ q. h)

popped-Keeps :
    (stack : ValueStack) (s : State)
    → Keeps s.tables
        (state_of (elim (pop_value stack) [
          | none ↦ operation (codes "ValueStack is empty") s
          | some rest ↦ send_ok (with_stack rest s)
        ])).tables
popped-Keeps [] s = refl-Keeps s.tables
popped-Keeps (v ∷ rest) s = reply-Keeps MessageType.ok [] s (with_stack rest s).conn

topped-Keeps :
    (stack : ValueStack) (s : State)
    → Keeps s.tables
        (state_of (elim (get_top stack) [
          | none ↦ operation (codes "ValueStack is empty") s
          | some val ↦ send_data val s
        ])).tables
topped-Keeps [] s = refl-Keeps s.tables
topped-Keeps (v ∷ rest) s = reply-Keeps MessageType.«data» (v ∷ []) s s.conn

push-Keeps : (req : Message) (s : State) → Keeps s.tables (state_of (push req s)).tables
unfolding push
push-Keeps req s =
    let stack = if s.conn.m_has_stack then s.conn.m_stack else [] in
    reply-Keeps MessageType.ok [] s
      (record s.conn { m_stack = get_value req ∷ stack; m_has_stack = true })

pop-Keeps : (s : State) → Keeps s.tables (state_of (pop s)).tables
unfolding pop
pop-Keeps s = no_key-Keeps s (catch_std _ _) (caught-Keeps s _ (popped-Keeps s.conn.m_stack s))

top-Keeps : (s : State) → Keeps s.tables (state_of (top s)).tables
unfolding top
top-Keeps s = no_key-Keeps s (catch_std _ _) (caught-Keeps s _ (topped-Keeps s.conn.m_stack s))

begin-Keeps : (s : State) → Keeps s.tables (state_of (begin s)).tables
unfolding begin
begin-Keeps s =
    if_lem (λ (r : Result). Keeps s.tables (state_of r).tables) s.conn.m_in_transaction
      (λ q. reply-Keeps MessageType.failed (codes "already in transaction" ∷ []) s s.conn)
      (λ q.
        reply-Keeps MessageType.ok [] s
          (record s.conn { m_in_transaction = true; m_locked_tables = [] }))

login-Keeps : (req : Message) (s : State) → Keeps s.tables (state_of (login req s)).tables
unfolding login
login-Keeps req s =
    if_lem (λ (r : Result). Keeps s.tables (state_of r).tables)
      (is_valid_identifier (get_username req))
      (λ q. reply-Keeps MessageType.ok [] s (record s.conn { m_has_logged_in = true }))
      (λ q. refl-Keeps s.tables)

bye-Keeps : (s : State) → Keeps s.tables (state_of (bye s)).tables
unfolding bye
bye-Keeps s =
    then_do_lem {P = λ s'. Keeps s.tables s'.tables} (send_ok s) Result.returned
      (reply-Keeps MessageType.ok [] s s.conn) (λ s' h. h)

dispatch-Keeps :
    (type : MessageType) (args : List Text) (s : State)
    → type ≢ MessageType.commit
    → s.conn.m_in_transaction ≡ true
    → Keeps s.tables (state_of (dispatch (record { message_type = type; args = args }) s)).tables
unfolding dispatch
dispatch-Keeps MessageType.login args s n q = login-Keeps _ s
dispatch-Keeps MessageType.create args s n q = create-Keeps _ s
dispatch-Keeps MessageType.push args s n q = push-Keeps _ s
dispatch-Keeps MessageType.pop args s n q = pop-Keeps s
dispatch-Keeps MessageType.top args s n q = top-Keeps s
dispatch-Keeps MessageType.set args s n q = set-Keeps _ s q
dispatch-Keeps MessageType.get args s n q = get-Keeps _ s
dispatch-Keeps MessageType.add args s n q = arithmetic-Keeps _ s
dispatch-Keeps MessageType.sub args s n q = arithmetic-Keeps _ s
dispatch-Keeps MessageType.mul args s n q = arithmetic-Keeps _ s
dispatch-Keeps MessageType.div args s n q = arithmetic-Keeps _ s
dispatch-Keeps MessageType.begin args s n q = begin-Keeps s
dispatch-Keeps MessageType.commit args s n q = absurd (n refl)
dispatch-Keeps MessageType.bye args s n q = bye-Keeps s
dispatch-Keeps MessageType.none args s n q = refl-Keeps s.tables
dispatch-Keeps MessageType.ok args s n q = refl-Keeps s.tables
dispatch-Keeps MessageType.failed args s n q = refl-Keeps s.tables
dispatch-Keeps MessageType.error args s n q = refl-Keeps s.tables
dispatch-Keeps MessageType.«data» args s n q = refl-Keeps s.tables

accept-Keeps :
    (req : Message) (s : State)
    → req.message_type ≢ MessageType.commit
    → s.conn.m_in_transaction ≡ true
    → Keeps s.tables (state_of (accept req s)).tables
unfolding accept
accept-Keeps req s n q =
    if_lem (λ (r : Result). Keeps s.tables (state_of r).tables)
      (not s.conn.m_has_logged_in && not (is_login req.message_type)) (λ p. refl-Keeps s.tables)
      (λ p.
        if_lem (λ (r : Result). Keeps s.tables (state_of r).tables) (not (is_valid req))
          (λ o. refl-Keeps s.tables) (λ o. dispatch-Keeps req.message_type req.args s n q))

abbrev pub session_state : Session → State
session_state (Session.continues s) = s
session_state (Session.closed s) = s
session_state (Session.blocked s) = s
session_state (Session.terminated s) = s
session_state (Session.undefined s) = s

after_reply-Keeps :
    (ts : Tables) (r : Result) (next : State → Session)
    → Keeps ts (state_of r).tables
    → ((s : State) → Keeps ts s.tables → Keeps ts (session_state (next s)).tables)
    → Keeps ts (session_state (after_reply r next)).tables
after_reply-Keeps ts (Result.done s) next h k = k s h
after_reply-Keeps ts (Result.returned s) next h k = h
after_reply-Keeps ts (Result.throws e s) next h k = h
after_reply-Keeps ts (Result.waits s) next h k = h
after_reply-Keeps ts (Result.undefined s) next h k = h

catch_all-Keeps :
    (ts : Tables) (r : Result)
    → Keeps ts (state_of r).tables
    → Keeps ts (session_state (catch_all r)).tables
unfolding catch_all
catch_all-Keeps ts (Result.done s) h = h
catch_all-Keeps ts (Result.returned s) h = h
catch_all-Keeps ts (Result.waits s) h = h
catch_all-Keeps ts (Result.undefined s) h = h
catch_all-Keeps ts (Result.throws (Exception.comm_exception e) s) h = h
catch_all-Keeps ts (Result.throws (Exception.invalid_message e) s) h =
    after_reply-Keeps ts (send_error e s) Session.closed
      (send-Keeps ts MessageType.error (e ∷ []) s h) (λ s' k. k)
catch_all-Keeps ts (Result.throws (Exception.operation_exception e) s) h =
    after_reply-Keeps ts (send_failed e s) (λ s'. Session.continues (rollback_transaction s'))
      (send-Keeps ts MessageType.failed (e ∷ []) s h) (λ s' k. rollback-Keeps ts s' k)
catch_all-Keeps ts (Result.throws (Exception.failed_transaction e) s) h =
    after_reply-Keeps ts (send_failed e s) (λ s'. Session.continues (rollback_transaction s'))
      (send-Keeps ts MessageType.failed (e ∷ []) s h) (λ s' k. rollback-Keeps ts s' k)

handle-Keeps :
    (line : Text) (s : State)
    → ((args : List Text)
        → decode line ≢ Decoded.message (record { message_type = MessageType.commit; args = args }))
    → s.conn.m_in_transaction ≡ true
    → Keeps s.tables (state_of (handle (some line) s)).tables
unfolding handle
handle-Keeps line s n q = by_decoded (decode line) n
  where
    by_decoded :
        (d : Decoded)
        → ((args : List Text)
            → d ≢ Decoded.message (record { message_type = MessageType.commit; args = args }))
        → Keeps s.tables
            (state_of (elim d [
              | Decoded.raises e ↦ Result.throws e s
              | Decoded.message req ↦ accept req s
            ])).tables
    by_decoded (Decoded.raises e) n = refl-Keeps s.tables
    by_decoded (Decoded.message req) n =
        accept-Keeps req s
          (λ e.
            n req.args (ap (λ t. Decoded.message (record { message_type = t; args = req.args })) e))
          q

-- In a transaction, one round of the loop on any line but a COMMIT leaves every table in place with
-- the committed data that it had, however the round ends.
pub round-Keeps :
    (line : Text) (s : State)
    → ((args : List Text)
        → decode line ≢ Decoded.message (record { message_type = MessageType.commit; args = args }))
    → s.conn.m_in_transaction ≡ true
    → Keeps s.tables (session_state (round (some line) s)).tables
unfolding round
round-Keeps line s n q = catch_all-Keeps s.tables (handle (some line) s) (handle-Keeps line s n q)
