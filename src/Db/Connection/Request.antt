-- ===== src/Db/Connection/Request.antt =====
-- `ClientConnection::chat_with_client`.
pub mod Uncommitted
pub mod Waiting
pub mod Progress
use csf.Base.{
  ℕ, ◌≡◌, refl, Bool, true, false, not, ◌&&◌, List, [], ◌∷◌, ◌++◌, Option, none, some,
  if◌then◌else◌,
}
use csf.Db.{
  Text, codes, MessageType, Message, Exception, get_username, is_valid, is_valid_identifier,
}
use csf.Db.Encoding.{Decoded, decode}
use csf.Db.Store.{Tables}
use csf.Db.Connection.{
  ClientConnection, State, Result, send_ok, send_failed, send_error, then_do, create, push, pop,
  top, set, get, begin, commit, rollback_transaction,
}
use csf.Db.Connection.Arithmetic.{arithmetic}

-- The constructor of `ClientConnection`.
abbrev pub new_connection : ClientConnection
new_connection = record {
  m_has_logged_in = false;
  m_in_transaction = false;
  m_transaction_buffer = [];
  m_locked_tables = [];
  m_stack = [];
  m_table = [];
  m_key = [];
  m_has_stack = false;
}

abbrev pub refuse : Text → State → Result
refuse text s = Result.throws (Exception.invalid_message text) s

unfoldable pub login : Message → State → Result
login req s =
    if is_valid_identifier (get_username req)
    then send_ok (record s { conn = record s.conn { m_has_logged_in = true } })
    else refuse (codes "invalid username") s

unfoldable pub bye : State → Result
bye s = then_do (send_ok s) Result.returned

-- The switch.
unfoldable pub dispatch : Message → State → Result
dispatch req s = elim req.message_type [
  | MessageType.login ↦ login req s
  | MessageType.create ↦ create req s
  | MessageType.push ↦ push req s
  | MessageType.pop ↦ pop s
  | MessageType.top ↦ top s
  | MessageType.set ↦ set req s
  | MessageType.get ↦ get req s
  | MessageType.add ↦ arithmetic req s
  | MessageType.sub ↦ arithmetic req s
  | MessageType.mul ↦ arithmetic req s
  | MessageType.div ↦ arithmetic req s
  | MessageType.begin ↦ begin s
  | MessageType.commit ↦ commit s
  | MessageType.bye ↦ bye s
  | _ ↦ refuse (codes "invalid request") s
]

abbrev pub is_login : MessageType → Bool
is_login MessageType.login = true
is_login _ = false

-- The guards in front of the switch.
unfoldable pub accept : Message → State → Result
accept req s =
    if not s.conn.m_has_logged_in && not (is_login req.message_type)
    then refuse (codes "first operation must be LOGIN") s
    else if not (is_valid req)
    then refuse (codes "invalid request") s
    else dispatch req s

-- The `try` block, where `none` is the end of the client's input.
unfoldable pub handle : Option Text → State → Result
handle none s = Result.throws (Exception.comm_exception (codes "I/O error")) s
handle (some line) s = elim (decode line) [
  | Decoded.raises e ↦ Result.throws e s
  | Decoded.message req ↦ accept req s
]

-- After one round of the loop. `terminated` is an exception that leaves the thread's function.
pub data Session : Type 0 where
  continues : State → Session
  closed : State → Session
  blocked : State → Session
  terminated : State → Session
  undefined : State → Session

-- What follows a reply in a `catch` block.
abbrev pub after_reply : Result → (State → Session) → Session
after_reply (Result.done s) next = next s
after_reply (Result.returned s) next = Session.closed s
after_reply (Result.throws e s) next = Session.terminated s
after_reply (Result.waits s) next = Session.blocked s
after_reply (Result.undefined s) next = Session.undefined s

-- The `catch` blocks.
unfoldable pub catch_all : Result → Session
catch_all (Result.done s) = Session.continues s
catch_all (Result.returned s) = Session.closed s
catch_all (Result.waits s) = Session.blocked s
catch_all (Result.undefined s) = Session.undefined s
catch_all (Result.throws e s) = elim e [
  | Exception.invalid_message text ↦ after_reply (send_error text s) Session.closed
  | Exception.comm_exception text ↦ Session.closed s
  | Exception.operation_exception text ↦
      after_reply (send_failed text s) (λ s'. Session.continues (rollback_transaction s'))
  | Exception.failed_transaction text ↦
      after_reply (send_failed text s) (λ s'. Session.continues (rollback_transaction s'))
]

unfoldable pub round : Option Text → State → Session
round line s = catch_all (handle line s)

-- The loop, over the lines that the client sends before it closes its end.
unfoldable pub chat_with_client : List Text → State → Session
chat_with_client [] s = round none s
chat_with_client (line ∷ lines) s = elim (round (some line) s) [
  | Session.continues s' ↦ chat_with_client lines s'
  | Session.closed s' ↦ Session.closed s'
  | Session.blocked s' ↦ Session.blocked s'
  | Session.terminated s' ↦ Session.terminated s'
  | Session.undefined s' ↦ Session.undefined s'
]
