-- ===== src/Db/Connection/Request/Progress.antt =====
-- A round of the loop in a transaction does not wait for the tables that other clients hold.
use csf.Base.{◌≡◌, ◌≢◌, subst, true, not, ◌&&◌, List, [], Option, none, some, if◌then◌else◌}
use csf.Db.{
  Text, MessageType, Message, Exception, get_table, get_key, get_username, get_value, is_valid,
  is_valid_identifier,
}
use csf.Db.Encoding.{Decoded, decode}
use csf.Db.Store.{find_table, create_table, push_value}
use csf.Db.Connection.{
  State, Result, send_ok, send_failed, send_error, create, push, pop, top, get, begin, committed,
  commit,
}
use csf.Db.Connection.Arithmetic.{arithmetic}
use csf.Db.Connection.Request.{
  dispatch, accept, login, bye, Session, after_reply, catch_all, round, handle, is_login,
}
use csf.Db.Connection.Request.Waiting.{
  Runs, if-Runs, send-Runs, catch_std-Runs, then_do-Runs, set-Runs, get_from-Runs, popped-Runs,
  topped-Runs, on_stack-Runs, arithmetic_on-Runs,
}

login-Runs : (req : Message) (s : State) → Runs (login req s)
unfolding login
login-Runs req s =
    if-Runs (is_valid_identifier (get_username req)) _ _
      (send-Runs MessageType.ok [] (record s { conn = record s.conn { m_has_logged_in = true } }))
      tt

create-Runs : (req : Message) (s : State) → Runs (create req s)
unfolding create
create-Runs req s =
    if-Runs (not (is_valid_identifier (get_table req))) _ _ tt
      (send-Runs MessageType.ok [] (record s { tables = create_table (get_table req) s.tables }))

push-Runs : (req : Message) (s : State) → Runs (push req s)
unfolding push
push-Runs req s =
    let stack = if s.conn.m_has_stack then s.conn.m_stack else [] in
    send-Runs MessageType.ok [] (record s {
      conn = record s.conn { m_stack = push_value (get_value req) stack; m_has_stack = true };
    })

get-Runs : (req : Message) (s : State) → Runs (get req s)
unfolding get
get-Runs req s = get_from-Runs (get_table req) (get_key req) (find_table (get_table req) s.tables) s

begin-Runs : (s : State) → Runs (begin s)
unfolding begin
begin-Runs s = if-Runs s.conn.m_in_transaction _ _ (send-Runs MessageType.failed _ s) (
    send-Runs MessageType.ok []
      (record s { conn = record s.conn { m_in_transaction = true; m_locked_tables = [] } }))

commit-Runs : (s : State) → Runs (commit s)
unfolding commit
commit-Runs s = if-Runs (not s.conn.m_in_transaction) _ _ (send-Runs MessageType.failed _ s) (
    catch_std-Runs (send_ok (committed s)) _ (send-Runs MessageType.ok [] (committed s))
      (λ e s'. tt))

dispatch-Runs :
    (type : MessageType) (args : List Text) (s : State)
    → s.conn.m_in_transaction ≡ true
    → Runs (dispatch (record { message_type = type; args = args }) s)
unfolding dispatch pop top bye arithmetic
dispatch-Runs MessageType.login args s q = login-Runs _ s
dispatch-Runs MessageType.create args s q = create-Runs _ s
dispatch-Runs MessageType.push args s q = push-Runs _ s
dispatch-Runs MessageType.pop args s q = on_stack-Runs s _ (popped-Runs s.conn.m_stack s)
dispatch-Runs MessageType.top args s q = on_stack-Runs s _ (topped-Runs s.conn.m_stack s)
dispatch-Runs MessageType.set args s q = set-Runs _ s q
dispatch-Runs MessageType.get args s q = get-Runs _ s
dispatch-Runs MessageType.add args s q = arithmetic_on-Runs MessageType.add s.conn.m_stack s
dispatch-Runs MessageType.sub args s q = arithmetic_on-Runs MessageType.sub s.conn.m_stack s
dispatch-Runs MessageType.mul args s q = arithmetic_on-Runs MessageType.mul s.conn.m_stack s
dispatch-Runs MessageType.div args s q = arithmetic_on-Runs MessageType.div s.conn.m_stack s
dispatch-Runs MessageType.begin args s q = begin-Runs s
dispatch-Runs MessageType.commit args s q = commit-Runs s
dispatch-Runs MessageType.bye args s q =
    then_do-Runs (send_ok s) Result.returned (send-Runs MessageType.ok [] s) (λ s'. tt)
dispatch-Runs MessageType.none args s q = tt
dispatch-Runs MessageType.ok args s q = tt
dispatch-Runs MessageType.failed args s q = tt
dispatch-Runs MessageType.error args s q = tt
dispatch-Runs MessageType.«data» args s q = tt

accept-Runs : (req : Message) (s : State) → s.conn.m_in_transaction ≡ true → Runs (accept req s)
unfolding accept
accept-Runs req s q =
    if-Runs (not s.conn.m_has_logged_in && not (is_login req.message_type)) _ _ tt
      (if-Runs (not (is_valid req)) _ _ tt (dispatch-Runs req.message_type req.args s q))

decoded-Runs :
    (d : Decoded) (s : State)
    → s.conn.m_in_transaction ≡ true
    → Runs (elim d [ Decoded.raises e ↦ Result.throws e s | Decoded.message req ↦ accept req s ])
decoded-Runs (Decoded.raises e) s q = tt
decoded-Runs (Decoded.message req) s q = accept-Runs req s q

handle-Runs :
    (line : Option Text) (s : State) → s.conn.m_in_transaction ≡ true → Runs (handle line s)
unfolding handle
handle-Runs none s q = tt
handle-Runs (some line) s q = decoded-Runs (decode line) s q

abbrev Proceeds : Session → Type 0
Proceeds (Session.continues s) = Unit {0}
Proceeds (Session.closed s) = Unit {0}
Proceeds (Session.blocked s) = ⊥
Proceeds (Session.terminated s) = Unit {0}
Proceeds (Session.undefined s) = Unit {0}

after_reply-Proceeds :
    (r : Result) (next : State → Session)
    → Runs r
    → ((s : State) → Proceeds (next s))
    → Proceeds (after_reply r next)
after_reply-Proceeds (Result.done s) next h k = k s
after_reply-Proceeds (Result.returned s) next h k = tt
after_reply-Proceeds (Result.throws e s) next h k = tt
after_reply-Proceeds (Result.waits s) next h k = h
after_reply-Proceeds (Result.undefined s) next h k = tt

catch_all-Proceeds : (r : Result) → Runs r → Proceeds (catch_all r)
unfolding catch_all
catch_all-Proceeds (Result.done s) h = tt
catch_all-Proceeds (Result.returned s) h = tt
catch_all-Proceeds (Result.waits s) h = h
catch_all-Proceeds (Result.undefined s) h = tt
catch_all-Proceeds (Result.throws (Exception.comm_exception e) s) h = tt
catch_all-Proceeds (Result.throws (Exception.invalid_message e) s) h =
    after_reply-Proceeds (send_error e s) Session.closed (send-Runs MessageType.error _ s)
      (λ s'. tt)
catch_all-Proceeds (Result.throws (Exception.operation_exception e) s) h =
    after_reply-Proceeds (send_failed e s) _ (send-Runs MessageType.failed _ s) (λ s'. tt)
catch_all-Proceeds (Result.throws (Exception.failed_transaction e) s) h =
    after_reply-Proceeds (send_failed e s) _ (send-Runs MessageType.failed _ s) (λ s'. tt)

-- In a transaction, no round of the loop waits for the mutex of a table, whatever line the client sends
-- and whichever tables other clients hold.
pub round_does_not_block :
    (line : Option Text) (s s' : State)
    → s.conn.m_in_transaction ≡ true
    → round line s ≢ Session.blocked s'
unfolding round
round_does_not_block line s s' q e =
    subst Proceeds e (catch_all-Proceeds (handle line s) (handle-Runs line s q))
