-- ===== src/Db/Client/Dispatched.antt =====
-- What the server's operations do outside a transaction, with a request that they answer with an OK.
use csf.Base.{
  ◌≡◌, refl, ap, ◌∙◌, Bool, true, false, not, List, [], ◌∷◌, Option, none, some, if◌then◌else◌,
  arith,
}
use csf.Base.Int.{ℤ, ◌+ℤ◌}
use csf.Db.{
  Text, same_text, same_text_iff, MessageType, is_valid_identifier, get_username, get_table,
  get_key, get_value,
}
use csf.Db.Number.{to_string, in_int}
use csf.Db.Store.{
  Table, Tables, find_table, update_table, table_get, table_set, has_key, commit_changes, lock,
  unlock, is_some, push_value,
}
use csf.Db.Store.Pending.{
  find-update_table, has_key_lem, table_get-table_set, IsMap, assign-IsMap,
  table_get-commit_changes,
}
use csf.Db.Connection.{
  State, Result, send_ok, catch_std, catch_operation, push, get, get_from, get_value_of, read_value,
  found_value, get_failed, at_key, with_stack, unlock_table, set, set_value, write_table,
}
use csf.Db.Connection.Arithmetic.{arithmetic, arithmetic_on}
use csf.Db.Connection.Arithmetic.Computed.{arithmetic_on_lem}
use csf.Db.Connection.Request.{dispatch, login}
use csf.Db.Client.{message}
use csf.Db.Client.Served.{send_ok-after_ok}

abbrev pub logged_in : State → State
logged_in s = record s { conn = record s.conn { m_has_logged_in = true } }

pub dispatch-login :
    (u : Text) (s : State)
    → is_valid_identifier u ≡ true
    → dispatch (message MessageType.login (u ∷ [])) s ≡ send_ok (logged_in s)
unfolding dispatch login get_username
dispatch-login u s h = rw h refl

-- A GET outside a transaction, of a key that has a value.
abbrev pub got : Text → Text → Text → State → State
got table key v s =
    unlock_table table (at_key table key (with_stack (push_value v s.conn.m_stack) s))

pub catch_operation-send_ok :
    (s : State) (handler : Text → State → Result) → catch_operation (send_ok s) handler ≡ send_ok s
unfolding catch_operation
catch_operation-send_ok s handler = rw (send_ok-after_ok s) refl

pub catch_std-send_ok :
    (r : Result) (s : State) (handler : Text → State → Result)
    → r ≡ send_ok s
    → catch_std r handler ≡ send_ok s
unfolding catch_std
catch_std-send_ok r s handler e = rw (e, catch_std, send_ok-after_ok s) refl

read_value-table_get :
    (table key v : Text) (t : Table) (s : State)
    → s.conn.m_in_transaction ≡ false
    → table_get key t ≡ some v
    → read_value table key t s ≡ some v
unfolding read_value
read_value-table_get table key v t s out e =
    let h : has_key key t ≡ true = has_key_lem key t ∙ ap is_some e in rw (out, h) e

pub if_of_false {ℓ} : {A : Type ℓ} (b : Bool) (x y : A) → b ≡ false → (if b then x else y) ≡ y
if_of_false b x y e = rw e refl

pub dispatch-get :
    (table key v : Text) (t : Table) (s : State)
    → s.conn.m_in_transaction ≡ false
    → find_table table s.tables ≡ some t
    → table_get key t ≡ some v
    → dispatch (message MessageType.get (table ∷ key ∷ [])) s ≡ send_ok (got table key v s)
unfolding dispatch get get_from get_value_of get_table get_key
dispatch-get table key v t s out f e =
    let s1 = at_key table key (with_stack (push_value v s.conn.m_stack) s) in
    ap (λ o. get_from table key o s) f
    ∙ if_of_false s.conn.m_in_transaction _ (get_value_of table key t s) out
    ∙ ap (λ o. catch_operation (found_value table key s o) (λ x s'. get_failed table x s'))
        (read_value-table_get table key v t s out e)
    ∙ catch_operation-send_ok (if s.conn.m_in_transaction then s1 else unlock_table table s1) _
    ∙ ap send_ok (if_of_false s.conn.m_in_transaction s1 (unlock_table table s1) out)

abbrev pub pushed : Text → State → State
pushed v s = record s {
  conn = record s.conn { m_stack = push_value v s.conn.m_stack; m_has_stack = true };
}

pub dispatch-push :
    (v : Text) (s : State)
    → s.conn.m_has_stack ≡ true
    → dispatch (message MessageType.push (v ∷ [])) s ≡ send_ok (pushed v s)
unfolding dispatch push get_value
dispatch-push v s h = rw h refl

pub dispatch-add :
    (a b : ℤ) (rest : List Text) (s : State)
    → in_int a ≡ true
    → in_int b ≡ true
    → in_int (b +ℤ a) ≡ true
    → s.conn.m_stack ≡ to_string a ∷ to_string b ∷ rest
    → dispatch (message MessageType.add []) s ≡ send_ok (with_stack (to_string (b +ℤ a) ∷ rest) s)
unfolding dispatch arithmetic
dispatch-add a b rest s ha hb h e =
    ap (λ stack. arithmetic_on MessageType.add stack s) e
    ∙ arithmetic_on_lem MessageType.add a b (b +ℤ a) rest s ha hb refl refl h

-- A SET outside a transaction, on a table that is not locked.
abbrev pub stored : Text → Text → Text → List Text → Table → State → State
stored table key v rest t s = at_key table key (record (with_stack rest s) {
  tables = update_table table (λ u. write_table key v (record t { m_lock = true })) s.tables;
})

module _ (table key v : Text) (rest : List Text) (t : Table) (s : State) where
  -- `set`, for what `lock` gives.
  store_locked : Option Table → Result
  store_locked none = Result.waits (with_stack rest s)
  store_locked (some t') = send_ok (
      at_key table key (record (with_stack rest s) {
        tables = update_table table (λ u. write_table key v t') s.tables;
      }))

  set_value-stored :
      s.conn.m_in_transaction ≡ false
      → s.conn.m_stack ≡ v ∷ rest
      → t.m_lock ≡ false
      → set_value table key t s.conn.m_stack s ≡ send_ok (stored table key v rest t s)
  unfolding set_value store_locked
  set_value-stored out stack free =
      ap (λ l. set_value table key t l s) stack
      ∙ if_of_false s.conn.m_in_transaction _ (store_locked (lock t)) out
      ∙ ap store_locked (if_of_false t.m_lock none (some (record t { m_lock = true })) free)

  pub dispatch-set :
      is_valid_identifier table ≡ true
      → is_valid_identifier key ≡ true
      → s.conn.m_in_transaction ≡ false
      → s.conn.m_has_stack ≡ true
      → s.conn.m_stack ≡ v ∷ rest
      → find_table table s.tables ≡ some t
      → t.m_lock ≡ false
      → dispatch (message MessageType.set (table ∷ key ∷ [])) s
        ≡ send_ok (stored table key v rest t s)
  unfolding dispatch set get_table get_key
  dispatch-set valid_table valid_key out has stack f free =
      rw (valid_table, valid_key)
        (if_of_false (not s.conn.m_has_stack) _ _ (ap not has)
          ∙ rw f (
              catch_std-send_ok (set_value table key t s.conn.m_stack s)
                (stored table key v rest t s) _ (set_value-stored out stack free)))

-- `find` on the table that is updated, and on another.
pub find_updated :
    (table : Text) (f : Table → Table) (tables : Tables) (t : Table)
    → find_table table tables ≡ some t
    → find_table table (update_table table f tables) ≡ some (f t)
find_updated table f tables t e =
    let same : same_text table table ≡ true = (same_text_iff table table).1 refl in
    find-update_table table table f tables ∙ rw (e, same) refl

pub find_other :
    (table name : Text) (f : Table → Table) (tables : Tables)
    → same_text table name ≡ false
    → find_table name (update_table table f tables) ≡ find_table name tables
find_other table name f tables e = ground (arith, e, find-update_table table name f tables)

pub table_get-unlock : (k : Text) (t : Table) → table_get k (unlock t) ≡ table_get k t
unfolding table_get
table_get-unlock k t = refl

-- What a write leaves in a table.
pub table_get-write_table :
    (key v k : Text) (t : Table)
    → IsMap t.m_temp_data
    → table_get k (write_table key v t) ≡ (if same_text key k then some v else table_get k t)
unfolding table_set
table_get-write_table key v k t h =
    table_get-unlock k (commit_changes (table_set key v t))
    ∙ (table_get-commit_changes k (table_set key v t) (assign-IsMap key v t.m_temp_data h)).0
    ∙ table_get-table_set key k v t
