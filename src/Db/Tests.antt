-- ===== src/Db/Tests.antt =====
-- Sessions of one client with the server, and the theorems at inputs that meet their hypotheses.
use csf.Base.{◌≡◌, refl, ap, true, false, Bool, List, [], ◌∷◌, ◌++◌, some, map}
use csf.Base.Int.{pos, negsuc, ◌-ℤ◌, ◌*ℤ◌}
use mathlib.Core.Logic.{◌≢◌}
use mathlib.Core.Bool.{false≢true}
use csf.Db.{Text, codes, MessageType}
use csf.Db.Encoding.{Decoded}
use csf.Db.Encoding.Roundtrip.{decode-encode}
use csf.Db.Store.{Table, new_table}
use csf.Db.Store.Abstract.{view, operate_all, spec_all, write, rollback, view-operate_all}
use csf.Db.Store.Abstract
use csf.Db.Connection.{State, Result, with_stack, send_ok, then_do}
use csf.Db.Connection.Kept.{Keeps}
use csf.Db.Connection.Arithmetic.Computed.{arithmetic_on_lem}
use csf.Db.Connection.Committed.{committed_lem}
use csf.Db.Connection.Returned.{rolled_back_writes_return}
use csf.Db.Connection.Request.{new_connection, Session}
use csf.Db.Connection.Request.Progress.{round_does_not_block}
use csf.Db.Connection.Request.Uncommitted.{round-Keeps, session_state}
use csf.Db.Encoding.{
  type_word, encode_args, encode_all, encode_as, encode, words, tokens, quoted_tokens, find_type,
  decode_tokens, decode,
}
use csf.Db.Connection.{
  catch_std, catch_operation, written, send, create, push, pop, top, for_tables,
  rollback_transaction, lock_in_transaction, set_value, set, read_value, get_value_of, get_from,
  get, begin, apply_buffer, committed, commit,
}
use csf.Db.Connection.Arithmetic.{
  operand, compute, finish, second_operand, first_operand, arithmetic_on, arithmetic,
}
use csf.Db.Connection.Request.{
  login, bye, dispatch, accept, handle, catch_all, round, chat_with_client,
}
use csf.Db.{
  get_username, get_table, get_key, get_value, push_arg, all_identifier_chars, is_valid_identifier,
  is_valid,
}
use csf.Db.Store.{
  find, assign, table_set, table_get, has_key, assign_all, commit_changes, rollback_changes,
  set_all, create_table, update_table,
}
use csf.Base.Text.{digits, print}
use csf.Base.Text.Scan.{scan_digits, scan_sign, skip_space}
use csf.Db.Number.{stoi, to_string}

abbrev line : Text → Text
line s = s ++ 10 ∷ []

abbrev start : State
start = record { tables = []; conn = new_connection; sent = [] }

run : List Text → State
run lines = session_state (chat_with_client (map line lines) start)

abbrev ok : Text
ok = line (codes "OK")

arithmetic_session :
    (run (codes "LOGIN u" ∷ codes "PUSH 7" ∷ codes "PUSH -3" ∷ codes "MUL" ∷ codes "TOP" ∷ [])).sent
    ≡ ok ∷ ok ∷ ok ∷ ok ∷ line (codes "DATA -21") ∷ []
unfolding type_word encode_args encode_all encode_as encode words tokens quoted_tokens find_type
    decode_tokens decode catch_std catch_operation written send create push pop top for_tables
    rollback_transaction lock_in_transaction set_value set read_value get_value_of get_from get
    begin apply_buffer committed commit operand compute finish second_operand first_operand
    arithmetic_on arithmetic login bye dispatch accept handle catch_all round chat_with_client
    get_username get_table get_key get_value push_arg all_identifier_chars is_valid_identifier
    is_valid find assign table_set table_get has_key assign_all commit_changes rollback_changes
    set_all create_table update_table digits scan_digits scan_sign skip_space stoi print to_string
    run ◌*ℤ◌ ◌-ℤ◌
arithmetic_session = refl

-- The ADD fails and rolls the transaction back, but its write comes back with the next COMMIT.
stale_buffer :
    (run (
      codes "LOGIN u"
      ∷ codes "CREATE t"
      ∷ codes "BEGIN"
      ∷ codes "PUSH 1"
      ∷ codes "SET t a"
      ∷ codes "ADD"
      ∷ codes "BEGIN"
      ∷ codes "COMMIT"
      ∷ codes "GET t a"
      ∷ codes "TOP"
      ∷ [])).sent
    ≡ ok
      ∷ ok
      ∷ ok
      ∷ ok
      ∷ ok
      ∷ line (codes "FAILED \"not enough operands\"")
      ∷ ok
      ∷ ok
      ∷ ok
      ∷ line (codes "DATA 1")
      ∷ []
unfolding type_word encode_args encode_all encode_as encode words tokens quoted_tokens find_type
    decode_tokens decode catch_std catch_operation written send create push pop top for_tables
    rollback_transaction lock_in_transaction set_value set read_value get_value_of get_from get
    begin apply_buffer committed commit operand compute finish second_operand first_operand
    arithmetic_on arithmetic login bye dispatch accept handle catch_all round chat_with_client
    get_username get_table get_key get_value push_arg all_identifier_chars is_valid_identifier
    is_valid find assign table_set table_get has_key assign_all commit_changes rollback_changes
    set_all create_table update_table digits scan_digits scan_sign skip_space stoi print to_string
    run
stale_buffer = refl

-- A client that leaves in a transaction leaves its table locked.
lock_left :
    find
      (codes "t")
      (run (
        codes "LOGIN u"
        ∷ codes "CREATE t"
        ∷ codes "BEGIN"
        ∷ codes "PUSH 1"
        ∷ codes "SET t a"
        ∷ [])).tables
    ≡ some (record { m_lock = true; m_data = []; m_temp_data = [] })
unfolding type_word encode_args encode_all encode_as encode words tokens quoted_tokens find_type
    decode_tokens decode catch_std catch_operation written send create push pop top for_tables
    rollback_transaction lock_in_transaction set_value set read_value get_value_of get_from get
    begin apply_buffer committed commit operand compute finish second_operand first_operand
    arithmetic_on arithmetic login bye dispatch accept handle catch_all round chat_with_client
    get_username get_table get_key get_value push_arg all_identifier_chars is_valid_identifier
    is_valid find assign table_set table_get has_key assign_all commit_changes rollback_changes
    set_all create_table update_table digits scan_digits scan_sign skip_space stoi print to_string
    run
lock_left = refl

-- 0 over 5 is refused, and 5 over 0 is computed.
division :
    (run (codes "LOGIN u" ∷ codes "PUSH 0" ∷ codes "PUSH 5" ∷ codes "DIV" ∷ [])).sent
    ≡ ok ∷ ok ∷ ok ∷ line (codes "ERROR \"Division by zero is not allowed\"") ∷ []
unfolding type_word encode_args encode_all encode_as encode words tokens quoted_tokens find_type
    decode_tokens decode catch_std catch_operation written send create push pop top for_tables
    rollback_transaction lock_in_transaction set_value set read_value get_value_of get_from get
    begin apply_buffer committed commit operand compute finish second_operand first_operand
    arithmetic_on arithmetic login bye dispatch accept handle catch_all round chat_with_client
    get_username get_table get_key get_value push_arg all_identifier_chars is_valid_identifier
    is_valid find assign table_set table_get has_key assign_all commit_changes rollback_changes
    set_all create_table update_table digits scan_digits scan_sign skip_space stoi print to_string
    run
division = refl

is_undefined : Session → Bool
is_undefined (Session.undefined s) = true
is_undefined _ = false

division_by_zero :
    is_undefined (
      chat_with_client
        (map line (codes "LOGIN u" ∷ codes "PUSH 5" ∷ codes "PUSH 0" ∷ codes "DIV" ∷ []))
        start)
    ≡ true
unfolding type_word encode_args encode_all encode_as encode words tokens quoted_tokens find_type
    decode_tokens decode catch_std catch_operation written send create push pop top for_tables
    rollback_transaction lock_in_transaction set_value set read_value get_value_of get_from get
    begin apply_buffer committed commit operand compute finish second_operand first_operand
    arithmetic_on arithmetic login bye dispatch accept handle catch_all round chat_with_client
    get_username get_table get_key get_value push_arg all_identifier_chars is_valid_identifier
    is_valid find assign table_set table_get has_key assign_all commit_changes rollback_changes
    set_all create_table update_table digits scan_digits scan_sign skip_space stoi print to_string
    run is_undefined
division_by_zero = refl

is_commit : MessageType → Bool
is_commit MessageType.commit = true
is_commit _ = false

is_commit_message : Decoded → Bool
unfolding is_commit
is_commit_message (Decoded.message req) = is_commit req.message_type
is_commit_message (Decoded.raises e) = false

is_none : MessageType → Bool
is_none MessageType.none = true
is_none _ = false

set_ne_none : MessageType.set ≢ MessageType.none
unfolding is_none
set_ne_none e = false≢true (ap is_none e)

set_ne_commit :
    (args : List Text)
    → decode (line (codes "SET t a"))
      ≢ Decoded.message (record { message_type = MessageType.commit; args = args })
unfolding decode decode_tokens tokens words find_type type_word push_arg is_commit_message is_commit
set_ne_commit args e = false≢true (ap is_commit_message e)

abbrev in_use : Table
in_use = record {
  m_lock = true;
  m_data = (codes "a", codes "1") ∷ (codes "b", codes "2") ∷ [];
  m_temp_data = (codes "b", codes "3") ∷ (codes "c", codes "4") ∷ [];
}

abbrev in_transaction : State
in_transaction = record {
  tables = (codes "t", in_use) ∷ (codes "u", new_table) ∷ [];
  conn = record new_connection {
    m_has_logged_in = true;
    m_in_transaction = true;
    m_locked_tables = codes "t" ∷ [];
    m_stack = codes "5" ∷ [];
    m_has_stack = true;
  };
  sent = [];
}

round-Keeps_example :
    Keeps in_transaction.tables
      (session_state (round (some (line (codes "SET t a"))) in_transaction)).tables
round-Keeps_example = round-Keeps (line (codes "SET t a")) in_transaction set_ne_commit refl

arithmetic_on_lem_example :
    arithmetic_on MessageType.div (to_string (pos 4) ∷ to_string (negsuc 8) ∷ []) start
    ≡ send_ok (with_stack (to_string (negsuc 1) ∷ []) start)
unfolding ◌-ℤ◌
arithmetic_on_lem_example =
    arithmetic_on_lem MessageType.div (pos 4) (negsuc 8) (negsuc 1) [] start refl refl refl
      (refl, refl) refl

decode-encode_example :
    decode (line (codes "SET t key"))
    ≡ Decoded.message
        (record { message_type = MessageType.set; args = codes "t" ∷ codes "key" ∷ [] })
unfolding encode encode_as type_word encode_all encode_args
decode-encode_example =
    decode-encode MessageType.set (codes "t" ∷ codes "key" ∷ []) (line (codes "SET t key")) refl
      set_ne_none ((refl, refl), ((refl, refl), tt)) refl

abbrev with_write : State
with_write = record in_transaction {
  tables = (codes "t", new_table) ∷ [];
  conn = record in_transaction.conn {
    m_transaction_buffer = (codes "t", (codes "k", codes "6") ∷ []) ∷ [];
  };
}

committed_lem_example :
    (t' : Table) × (find (codes "t") (committed with_write).tables ≡ some t')
    × (t'.m_lock ≡ false)
    × (t'.m_temp_data ≡ [])
    × (find (codes "k") t'.m_data ≡ some (codes "6"))
unfolding find
committed_lem_example =
    committed_lem with_write (codes "t") (codes "k") new_table (refl, tt) (refl, tt) refl refl refl

round_does_not_block_example :
    round (some (line (codes "SET u a"))) in_transaction ≢ Session.blocked in_transaction
round_does_not_block_example =
    round_does_not_block (some (line (codes "SET u a"))) in_transaction in_transaction refl

view-operate_all_example :
    view (
      operate_all
        (write (codes "b") (codes "9")
          ∷ rollback
          ∷ write (codes "a") (codes "7")
          ∷ Abstract.commit
          ∷ [])
        in_use)
    ≡ spec_all
        (write (codes "b") (codes "9")
          ∷ rollback
          ∷ write (codes "a") (codes "7")
          ∷ Abstract.commit
          ∷ [])
        (view in_use)
unfolding find
view-operate_all_example =
    view-operate_all
      (write (codes "b") (codes "9")
        ∷ rollback
        ∷ write (codes "a") (codes "7")
        ∷ Abstract.commit
        ∷ [])
      in_use (refl, (refl, tt))

-- The write comes back after a rollback.
rolled_back_writes_return_example :
    (s' : State) × (t' : Table) × (then_do (begin (rollback_transaction with_write)) commit
      ≡ Result.done s')
    × (find (codes "t") s'.tables ≡ some t')
    × (t'.m_data ≡ [])
    × (table_get (codes "k") t' ≡ some (codes "6"))
unfolding find
rolled_back_writes_return_example =
    rolled_back_writes_return with_write (codes "t") (codes "k") new_table refl (refl, tt)
      (refl, tt) refl refl
