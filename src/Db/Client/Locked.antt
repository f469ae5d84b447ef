-- ===== src/Db/Client/Locked.antt =====
-- What the server's operations do in a transaction, with a request that they answer with an OK.
use csf.Base.{
  ◌≡◌, refl, ap, ◌∙◌, Bool, true, false, not, List, [], ◌∷◌, Option, none, some, if◌then◌else◌,
  arith,
}
use csf.Db.{
  Text, codes, same_text, same_text_iff, MessageType, Exception, is_valid_identifier, is_valid,
  get_table, get_key,
}
use csf.Db.Encoding.{encode_all, encode_args, type_word}
use csf.Db.Store.{
  Table, find, assign, find_table, update_table, table_get, trylock, has_key, is_some, push_value,
}
use csf.Db.Store.Pending.{has_key_lem}
use csf.Db.Connection.{
  State, Result, unlock_table, catch_operation, holds, rollback_transaction, send_ok, with_stack,
  at_key, begin, commit, committed, lock_in_transaction, then_do, get, get_from, get_value_of,
  found_value, get_failed, read_value, set, set_value, buffer_write, buffered,
}
use csf.Db.Connection.Request.{dispatch}
use csf.Db.Client.{message}
use csf.Db.Client.Served.{IsRequest}
use csf.Db.Client.Requests.{request}
use csf.Db.Client.Dispatched.{if_of_false, catch_operation-send_ok, catch_std-send_ok}

pub begin-IsRequest : IsRequest MessageType.begin []
unfolding type_word is_valid encode_all encode_args
begin-IsRequest = request MessageType.begin (codes "BEGIN") [] refl refl tt refl (omega arith)

pub commit-IsRequest : IsRequest MessageType.commit []
unfolding type_word is_valid encode_all encode_args
commit-IsRequest = request MessageType.commit (codes "COMMIT") [] refl refl tt refl (omega arith)

abbrev pub begun : State → State
begun s = record s { conn = record s.conn { m_in_transaction = true; m_locked_tables = [] } }

pub dispatch-begin :
    (s : State)
    → s.conn.m_in_transaction ≡ false
    → dispatch (message MessageType.begin []) s ≡ send_ok (begun s)
unfolding dispatch begin
dispatch-begin s out = if_of_false s.conn.m_in_transaction _ _ out

if_of_true {ℓ} : {A : Type ℓ} (b : Bool) (x y : A) → b ≡ true → (if b then x else y) ≡ x
if_of_true b x y e = rw e refl

-- A table that the transaction locks.
abbrev locked : Text → Table → State → State
locked table t s = record s {
  conn = record s.conn { m_locked_tables = table ∷ s.conn.m_locked_tables };
  tables = update_table table (λ u. record t { m_lock = true }) s.tables;
}

module _ (table : Text) (t : Table) (s : State) where
  -- `lock_in_transaction`, for what `trylock` gives.
  lock_result : Option Table → Result
  lock_result none = Result.throws (Exception.failed_transaction (codes "could not lock table")) (
      rollback_transaction
        (record s { conn = record s.conn { m_locked_tables = table ∷ s.conn.m_locked_tables } }))
  lock_result (some t') = Result.done (record s {
    conn = record s.conn { m_locked_tables = table ∷ s.conn.m_locked_tables };
    tables = update_table table (λ u. t') s.tables;
  })

  lock_first :
      s.conn.m_locked_tables ≡ []
      → t.m_lock ≡ false
      → lock_in_transaction table t s ≡ Result.done (locked table t s)
  unfolding lock_in_transaction lock_result
  lock_first none_yet free =
      if_of_false (holds table s.conn.m_locked_tables) _ (lock_result (trylock t))
        (ap (holds table) none_yet)
      ∙ ap lock_result (if_of_false t.m_lock none (some (record t { m_lock = true })) free)

  -- A table that the transaction has locked.
  lock_again :
      (names : List Text)
      → s.conn.m_locked_tables ≡ table ∷ names
      → lock_in_transaction table t s ≡ Result.done s
  unfolding lock_in_transaction lock_result
  lock_again names e =
      let same : same_text table table ≡ true = (same_text_iff table table).1 refl in
      if_of_true (holds table s.conn.m_locked_tables) (Result.done s) (lock_result (trylock t))
        (ap (holds table) e ∙ rw same refl)

-- A GET in a transaction that has written nothing.
abbrev pub got : Text → Text → Text → Table → State → State
got table key v t s =
    let s1 = locked table t s in at_key table key (with_stack (push_value v s1.conn.m_stack) s1)

module _ (table key v : Text) (t : Table) (s : State) where
  nothing_buffered :
      s.conn.m_transaction_buffer ≡ []
      → find key (buffered table s.conn.m_transaction_buffer) ≡ none
  unfolding find
  nothing_buffered b = ap (λ l. find key (buffered table l)) b

  -- `read_value`, for what the transaction has written.
  own_or_stored : Option Text → Option Text
  own_or_stored none = if has_key key t then table_get key t else none
  own_or_stored (some w) = some w

  read_value-table_get :
      s.conn.m_in_transaction ≡ true
      → s.conn.m_transaction_buffer ≡ []
      → table_get key t ≡ some v
      → read_value table key t s ≡ some v
  unfolding read_value own_or_stored
  read_value-table_get in_it b e =
      let h : has_key key t ≡ true = has_key_lem key t ∙ ap is_some e in
      ap own_or_stored (if_of_true s.conn.m_in_transaction _ none in_it ∙ nothing_buffered b)
      ∙ rw h e

module _ (table key v : Text) (t : Table) (s : State) where
  pub dispatch-get :
      s.conn.m_in_transaction ≡ true
      → s.conn.m_locked_tables ≡ []
      → s.conn.m_transaction_buffer ≡ []
      → find_table table s.tables ≡ some t
      → t.m_lock ≡ false
      → table_get key t ≡ some v
      → dispatch (message MessageType.get (table ∷ key ∷ [])) s ≡ send_ok (got table key v t s)
  unfolding dispatch get get_from get_value_of get_table get_key
  dispatch-get in_it none_yet b f free e =
      let s1 = locked table t s in
      ap (λ o. get_from table key o s) f
      ∙ if_of_true s.conn.m_in_transaction _ (get_value_of table key t s) in_it
      ∙ ap (λ r. then_do r (λ s'. get_value_of table key t s')) (lock_first table t s none_yet free)
      ∙ ap (λ o. catch_operation (found_value table key s1 o) (λ x s'. get_failed table x s'))
          (read_value-table_get table key v t s1 in_it b e)
      ∙ catch_operation-send_ok
          (if s.conn.m_in_transaction
            then got table key v t s
            else unlock_table table (got table key v t s))
          _
      ∙ ap send_ok (if_of_true s.conn.m_in_transaction (got table key v t s) _ in_it)

-- A SET in a transaction that has locked the table and has written nothing.
abbrev pub stored : Text → Text → Text → List Text → State → State
stored table key v rest s = at_key table key (record s {
  conn = record s.conn { m_stack = rest; m_transaction_buffer = (table, (key, v) ∷ []) ∷ [] };
})

module _ (table key v : Text) (rest names : List Text) (t : Table) (s : State) where
  buffer_write-stored :
      s.conn.m_transaction_buffer ≡ []
      → at_key table key (buffer_write table key v (with_stack rest s)) ≡ stored table key v rest s
  unfolding assign find
  buffer_write-stored b =
      ap
        (λ l. at_key table key (record s {
          conn = record s.conn {
            m_stack = rest;
            m_transaction_buffer = assign table (assign key v (buffered table l)) l;
          };
        }))
        b

  set_value-stored :
      s.conn.m_in_transaction ≡ true
      → s.conn.m_locked_tables ≡ table ∷ names
      → s.conn.m_transaction_buffer ≡ []
      → s.conn.m_stack ≡ v ∷ rest
      → set_value table key t s.conn.m_stack s ≡ send_ok (stored table key v rest s)
  unfolding set_value
  set_value-stored in_it holds_it b stack =
      ap (λ l. set_value table key t l s) stack
      ∙ if_of_true s.conn.m_in_transaction _ _ in_it
      ∙ ap (λ r. then_do r (λ s2. send_ok (at_key table key (buffer_write table key v s2))))
          (lock_again table t (with_stack rest s) names holds_it)
      ∙ ap send_ok (buffer_write-stored b)

  pub dispatch-set :
      is_valid_identifier table ≡ true
      → is_valid_identifier key ≡ true
      → s.conn.m_in_transaction ≡ true
      → s.conn.m_has_stack ≡ true
      → s.conn.m_locked_tables ≡ table ∷ names
      → s.conn.m_transaction_buffer ≡ []
      → s.conn.m_stack ≡ v ∷ rest
      → find_table table s.tables ≡ some t
      → dispatch (message MessageType.set (table ∷ key ∷ [])) s
        ≡ send_ok (stored table key v rest s)
  unfolding dispatch set get_table get_key
  dispatch-set valid_table valid_key in_it has holds_it b stack f =
      rw (valid_table, valid_key)
        (if_of_false (not s.conn.m_has_stack) _ _ (ap not has)
          ∙ rw f (
              catch_std-send_ok (set_value table key t s.conn.m_stack s) (stored table key v rest s)
                _ (set_value-stored in_it holds_it b stack)))

pub dispatch-commit :
    (s : State)
    → s.conn.m_in_transaction ≡ true
    → dispatch (message MessageType.commit []) s ≡ send_ok (committed s)
unfolding dispatch commit
dispatch-commit s in_it =
    if_of_false (not s.conn.m_in_transaction) _ _ (ap not in_it)
    ∙ catch_std-send_ok (send_ok (committed s)) (committed s) _ refl
