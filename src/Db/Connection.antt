-- ===== src/Db/Connection.antt =====
-- csf_assign05/client_connection.cpp: one client's connection, as functions on the server's tables,
-- the connection and what was sent. A call that throws, or that waits for a mutex, ends the function
-- that makes it, in the state reached.
mod Replies
pub mod Arithmetic
pub mod Request
pub mod Kept
pub mod Isolation
pub mod Committed
pub mod Returned
unfoldable pub use Replies.*
use csf.Base.{◌+◌, Bool, true, false, not, List, [], ◌∷◌, ◌++◌, Option, none, some, if◌then◌else◌}
use csf.Db.{
  Text, codes, same_text, Message, Exception, get_table, get_key, get_value, is_valid_identifier,
}
use csf.Db.Store.{
  Tables, Table, ValueStack, find, assign, lock, unlock, trylock, table_set, table_get, has_key,
  commit_changes, rollback_changes, set_all, get_top, pop_value, push_value, create_table,
  find_table, update_table,
}

unfoldable pub create : Message → State → Result
create req s =
    let name = get_table req in
    if not (is_valid_identifier name)
    then operation (codes "invalid table name") s
    else send_ok (record s { tables = create_table name s.tables })

abbrev pub with_stack : ValueStack → State → State
with_stack stack s = record s { conn = record s.conn { m_stack = stack } }

unfoldable pub push : Message → State → Result
push req s =
    let stack = if s.conn.m_has_stack then s.conn.m_stack else [] in
    send_ok (record s {
      conn = record s.conn { m_stack = push_value (get_value req) stack; m_has_stack = true };
    })

unfoldable pub pop : State → Result
pop s =
    if not s.conn.m_has_stack
    then send_failed (codes "no active key") s
    else catch_std
        (elim (pop_value s.conn.m_stack) [
          | none ↦ operation (codes "ValueStack is empty") s
          | some stack ↦ send_ok (with_stack stack s)
        ])
        (λ e s'. send_failed (codes "stack empty") s')

unfoldable pub top : State → Result
top s =
    if not s.conn.m_has_stack
    then send_failed (codes "no active key") s
    else catch_std
        (elim (get_top s.conn.m_stack) [
          | none ↦ operation (codes "ValueStack is empty") s
          | some val ↦ send_data val s
        ])
        (λ e s'. send_failed (codes "stack empty") s')

-- A loop over `m_locked_tables`.
unfoldable pub for_tables : (Table → Table) → List Text → Tables → Tables
for_tables f [] tables = tables
for_tables f (name ∷ names) tables = for_tables f names (update_table name f tables)

-- The buffer keeps what it holds.
unfoldable pub rollback_transaction : State → State
rollback_transaction s =
    let locked = s.conn.m_locked_tables in
    if s.conn.m_in_transaction
    then record s {
      tables = for_tables unlock locked (for_tables rollback_changes locked s.tables);
      conn = record s.conn { m_locked_tables = []; m_in_transaction = false };
    }
    else s

abbrev pub holds : Text → List Text → Bool
holds name [] = false
holds name (n ∷ names) = if same_text n name then true else holds name names

-- `if (m_locked_tables.insert(t).second) if (!t->trylock()) ...`, where `t` is the table `name`.
unfoldable pub lock_in_transaction : Text → Table → State → Result
lock_in_transaction name t s =
    let s' = record s {
      conn = record s.conn { m_locked_tables = name ∷ s.conn.m_locked_tables };
    } in
    if holds name s.conn.m_locked_tables then Result.done s else elim (trylock t) [
      | none ↦
          Result.throws (Exception.failed_transaction (codes "could not lock table"))
            (rollback_transaction s')
      | some t' ↦ Result.done (record s' { tables = update_table name (λ u. t') s.tables })
    ]

abbrev pub then_do : Result → (State → Result) → Result
then_do (Result.done s) next = next s
then_do (Result.returned s) next = Result.returned s
then_do (Result.throws e s) next = Result.throws e s
then_do (Result.waits s) next = Result.waits s
then_do (Result.undefined s) next = Result.undefined s

-- `m_transaction_buffer[table]`, which is empty where it is new.
abbrev pub buffered : Text → List (Text × List (Text × Text)) → List (Text × Text)
buffered table buffer = elim (find table buffer) [ none ↦ [] | some pairs ↦ pairs ]

abbrev pub buffer_write : Text → Text → Text → State → State
buffer_write table key val s =
    let buffer = s.conn.m_transaction_buffer in
    record s {
      conn = record s.conn {
        m_transaction_buffer = assign table (assign key val (buffered table buffer)) buffer;
      };
    }

abbrev pub at_key : Text → Text → State → State
at_key table key s = record s {
  conn = record s.conn { m_table = table; m_key = key; m_has_stack = true };
}

-- `t->set(key, val); t->commit_changes(); t->unlock();`, after `lock`.
abbrev pub write_table : Text → Text → Table → Table
write_table key val t = unlock (commit_changes (table_set key val t))

-- The body of the `try` of `set`, for the operand stack.
unfoldable pub set_value : Text → Text → Table → ValueStack → State → Result
set_value table key t [] s = operation (codes "ValueStack is empty") s
set_value table key t (val ∷ stack) s =
    let s1 = with_stack stack s in
    if s.conn.m_in_transaction
    then then_do (lock_in_transaction table t s1)
        (λ s2. send_ok (at_key table key (buffer_write table key val s2)))
    else elim (lock t) [
      | none ↦ Result.waits s1
      | some t' ↦ send_ok (
          at_key table key
            (record s1 { tables = update_table table (λ u. write_table key val t') s1.tables }))
    ]

-- The tables after `t->unlock()`.
abbrev pub unlock_table : Text → State → State
unlock_table table s = record s { tables = update_table table unlock s.tables }

unfoldable pub set : Message → State → Result
set req s =
    let table = get_table req in
    let key = get_key req in
    if not (is_valid_identifier key)
    then operation (codes "invalid key name") s
    else if not (is_valid_identifier table)
    then operation (codes "invalid table name") s
    else if not s.conn.m_has_stack
    then send_failed (codes "no active key") s
    else elim (find_table table s.tables) [
      | none ↦ send_failed (codes "no such table") s
      | some t ↦ catch_std (set_value table key t s.conn.m_stack s) (λ e s'.
          send_failed (codes "set failed: " ++ e)
            (if s'.conn.m_in_transaction then s' else unlock_table table s'))
    ]

-- The value that `get` pushes: a write of the transaction, or what the table has.
unfoldable pub read_value : Text → Text → Table → State → Option Text
read_value table key t s =
    let own =
      if s.conn.m_in_transaction
      then find key (buffered table s.conn.m_transaction_buffer)
      else none in
    elim own [ some val ↦ some val | none ↦ if has_key key t then table_get key t else none ]

-- The `try` of `get`, for what it finds.
abbrev pub found_value : Text → Text → State → Option Text → Result
found_value table key s none = operation (codes "no such key") s
found_value table key s (some val) =
    let s1 = at_key table key (with_stack (push_value val s.conn.m_stack) s) in
    send_ok (if s1.conn.m_in_transaction then s1 else unlock_table table s1)

-- What `get` does when an `OperationException` is caught.
abbrev pub get_failed : Text → Text → State → Result
get_failed table e s =
    if s.conn.m_in_transaction
    then Result.throws (Exception.failed_transaction (codes "no such key")) (rollback_transaction s)
    else send_failed e (unlock_table table s)

unfoldable pub get_value_of : Text → Text → Table → State → Result
get_value_of table key t s =
    catch_operation (found_value table key s (read_value table key t s))
      (λ e s'. get_failed table e s')

-- `get`, for what `find_table` gives.
unfoldable pub get_from : Text → Text → Option Table → State → Result
get_from table key none s = send_failed (codes "no such table") s
get_from table key (some t) s =
    if s.conn.m_in_transaction
    then then_do (lock_in_transaction table t s) (λ s'. get_value_of table key t s')
    else get_value_of table key t s

unfoldable pub get : Message → State → Result
get req s = get_from (get_table req) (get_key req) (find_table (get_table req) s.tables) s

unfoldable pub begin : State → Result
begin s =
    if s.conn.m_in_transaction
    then send_failed (codes "already in transaction") s
    else send_ok
        (record s { conn = record s.conn { m_in_transaction = true; m_locked_tables = [] } })

-- A table that is not found is passed over.
unfoldable pub apply_buffer : List (Text × List (Text × Text)) → Tables → Tables
apply_buffer [] tables = tables
apply_buffer ((name, pairs) ∷ buffer) tables =
    apply_buffer buffer (update_table name (set_all pairs) tables)

unfoldable pub committed : State → State
committed s =
    let locked = s.conn.m_locked_tables in
    record s {
      tables =
          for_tables unlock locked
            (for_tables commit_changes locked (apply_buffer s.conn.m_transaction_buffer s.tables));
      conn = record s.conn {
        m_transaction_buffer = [];
        m_locked_tables = [];
        m_in_transaction = false;
      };
    }

unfoldable pub commit : State → Result
commit s =
    if not s.conn.m_in_transaction
    then send_failed (codes "not in transaction") s
    else catch_std (send_ok (committed s)) (λ e s'.
      Result.throws (Exception.failed_transaction (codes "commit failed"))
        (rollback_transaction s'))
