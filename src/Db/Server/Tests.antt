-- ===== src/Db/Server/Tests.antt =====
-- Steps of the server, and the theorems at runs that meet their hypotheses.
use csf.Base.{◌≡◌, refl, arith, true, false, List, [], ◌∷◌, ◌++◌, some}
use mathlib.Core.Logic.{◌≢◌}
use csf.Base.Int.{pos, ◌+ℤ◌}
use csf.Db.{Text, codes, MessageType, is_valid_identifier, all_identifier_chars, push_arg, is_valid}
use csf.Db.Encoding.{
  Decoded, decode, words, tokens, quoted_tokens, find_type, type_word, decode_tokens, encode,
  encode_as, encode_all, encode_args,
}
use csf.Db.Number.{to_string}
use csf.Db.Store.{Table, Tables, new_table, find, table_get}
use csf.Db.Connection.Kept.{Keeps}
use csf.Db.Connection.{State, top, send, written}
use csf.Db.Connection.Request.{Session, round, handle, accept, dispatch, catch_all, new_connection}
use csf.Db.Client.{increment}
use csf.Db.Client.Incremented.{IsIncremented}
use csf.Db.Client.Transacted.{increment-IsIncremented}
use csf.Db.Server.{
  Server, Reach, here, next, goes_on, no_thread, new_client, Client, put, server_main, returns_1,
  talking,
}
use csf.Db.Server.Runs.{Reach-Keeps}
use csf.Db.Server.Lost.{IsLost, increment-IsLost}

one_port : server_main (codes "server" ∷ []) true ≡ returns_1
unfolding server_main
one_port = refl

abbrev counter : Table
counter = record {
  m_lock = false;
  m_data = (codes "k", to_string (pos 41)) ∷ (codes "other", codes "7") ∷ [];
  m_temp_data = [];
}

abbrev counters : Tables
counters = (codes "s", new_table) ∷ (codes "t", counter) ∷ []

increment-IsIncremented_example :
    IsIncremented
      (increment true (codes "bob") (codes "t") (codes "k"))
      counters
      (codes "t")
      (codes "k")
      counter
      (pos 41)
unfolding is_valid_identifier all_identifier_chars find table_get ◌+ℤ◌
increment-IsIncremented_example =
    increment-IsIncremented (codes "bob") (codes "t") (codes "k") counters counter (pos 41) refl
      refl refl (omega arith) (omega arith) refl tt refl refl refl refl true

-- One client in a transaction sends TOP, while a second one is accepted.
abbrev in_transaction : Client
in_transaction = record {
  conn = record new_connection { m_has_logged_in = true; m_in_transaction = true };
  input = (codes "TOP" ++ 10 ∷ []) ∷ [];
  sent = [];
}

abbrev two_clients : Server
two_clients = record {
  tables = counters;
  threads = talking in_transaction ∷ talking (new_client []) ∷ [];
}

top_is_other :
    (args : List Text)
    → decode (codes "TOP" ++ 10 ∷ [])
      ≢ Decoded.message (record { message_type = MessageType.commit; args = args })
unfolding words tokens quoted_tokens find_type type_word decode_tokens decode push_arg
top_is_other args e = cc e

abbrev refused : State
refused = record {
  tables = counters;
  conn = in_transaction.conn;
  sent = (codes "FAILED \"no active key\"" ++ 10 ∷ []) ∷ [];
}

top_is_refused :
    round
      (some (codes "TOP" ++ 10 ∷ []))
      (record { tables = counters; conn = in_transaction.conn; sent = [] })
    ≡ Session.continues refused
unfolding words tokens quoted_tokens find_type type_word decode_tokens decode push_arg round handle
    accept dispatch top is_valid send written encode encode_as encode_all encode_args catch_all
top_is_refused = refl

abbrev answered : Server
answered =
    put 0 (talking (record { conn = refused.conn; input = []; sent = refused.sent })) refused
      two_clients

abbrev a_run : Reach two_clients answered
a_run =
    next (next here (no_thread two_clients))
      (goes_on two_clients 0 in_transaction refused refl top_is_refused)

Reach-Keeps_example : Keeps two_clients.tables answered.tables
Reach-Keeps_example = Reach-Keeps a_run ((tt, tt), (refl, top_is_other))

increment-IsLost_example :
    IsLost (codes "bob") (codes "eve") (codes "t") (codes "k") counters (pos 41)
unfolding is_valid_identifier all_identifier_chars find table_get ◌+ℤ◌
increment-IsLost_example =
    increment-IsLost (codes "bob") (codes "eve") (codes "t") (codes "k") counters counter (pos 41)
      refl refl refl refl (omega arith) (omega arith) (omega arith) refl tt refl refl refl
