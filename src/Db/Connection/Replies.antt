-- ===== src/Db/Connection/Replies.antt =====
-- csf_assign05/client_connection.cpp: the state of a connection, exceptions as results, and replies.
use csf.Base.{Bool, List, [], ◌∷◌, ◌++◌}
use csf.Db.{Text, MessageType, Exception}
use csf.Db.Encoding.{Outcome, encode}
use csf.Db.Store.{Tables, ValueStack}

-- `m_locked_tables` holds the names of the tables that it points to.
pub record ClientConnection : Type 0 where
  pub m_has_logged_in : Bool
  pub m_in_transaction : Bool
  pub m_transaction_buffer : List (Text × List (Text × Text))
  pub m_locked_tables : List Text
  pub m_stack : ValueStack
  pub m_table : Text
  pub m_key : Text
  pub m_has_stack : Bool

-- `sent` is what the client was sent, the first first.
pub record State : Type 0 where
  pub tables : Tables
  pub conn : ClientConnection
  pub sent : List Text

-- `returned` ends the session; `waits` is a thread at a mutex that is held; `undefined` is what the
-- C++ standard leaves open, such as a division by 0.
pub data Result : Type 0 where
  done : State → Result
  returned : State → Result
  throws : Exception → State → Result
  waits : State → Result
  undefined : State → Result

abbrev pub what : Exception → Text
what (Exception.invalid_message text) = text
what (Exception.comm_exception text) = text
what (Exception.operation_exception text) = text
what (Exception.failed_transaction text) = text

-- `catch (const std::exception &e)`.
unfoldable pub catch_std : Result → (Text → State → Result) → Result
catch_std (Result.throws e s) handler = handler (what e) s
catch_std (Result.done s) handler = Result.done s
catch_std (Result.returned s) handler = Result.returned s
catch_std (Result.waits s) handler = Result.waits s
catch_std (Result.undefined s) handler = Result.undefined s

-- `catch (const OperationException &e)`.
unfoldable pub catch_operation : Result → (Text → State → Result) → Result
catch_operation (Result.throws e s) handler = elim e [
  | Exception.operation_exception text ↦ handler text s
  | Exception.invalid_message text ↦ Result.throws (Exception.invalid_message text) s
  | Exception.comm_exception text ↦ Result.throws (Exception.comm_exception text) s
  | Exception.failed_transaction text ↦ Result.throws (Exception.failed_transaction text) s
]
catch_operation (Result.done s) handler = Result.done s
catch_operation (Result.returned s) handler = Result.returned s
catch_operation (Result.waits s) handler = Result.waits s
catch_operation (Result.undefined s) handler = Result.undefined s

-- `Rio_writen` of what `encode` gave.
unfoldable pub written : Outcome → State → Result
written (Outcome.raises e) s = Result.throws e s
written (Outcome.returns text) s = Result.done (record s { sent = s.sent ++ text ∷ [] })

unfoldable pub send : MessageType → List Text → State → Result
send type args s = written (encode (record { message_type = type; args = args })) s

abbrev pub send_ok : State → Result
send_ok s = send MessageType.ok [] s

abbrev pub send_failed : Text → State → Result
send_failed text s = send MessageType.failed (text ∷ []) s

abbrev pub send_error : Text → State → Result
send_error text s = send MessageType.error (text ∷ []) s

abbrev pub send_data : Text → State → Result
send_data data' s = send MessageType.«data» (data' ∷ []) s

abbrev pub operation : Text → State → Result
operation text s = Result.throws (Exception.operation_exception text) s
