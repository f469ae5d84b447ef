-- ===== src/Db/Client/Incremented.antt =====
-- `incr_value` against the server, outside a transaction.
use csf.Base.{◌+◌, ◌≤◌, ◌≡◌, refl, ap, ◌∙◌, true, false, List, [], ◌∷◌, some, length, if◌then◌else◌}
use csf.Base.Int.{ℤ, pos, ◌+ℤ◌}
use csf.Base.Text.{print}
use csf.Db.{Text, codes, Message, MessageType, same_text, is_valid_identifier}
use csf.Db.Number.{to_string, in_int}
use csf.Db.Store.{Table, Tables, find_table, table_get, commit_changes, unlock, update_table}
use csf.Db.Store.Pending.{IsMap}
use csf.Db.Connection.{State, with_stack, write_table}
use csf.Db.Connection.Request.{new_connection}
use csf.Db.Client.{Talk, Exit, increment, message}
use csf.Db.Client.Script.{increment_script, increment_succeeds}
use csf.Db.Client.Served.{
  Exchanges, nothing, after_ok, answers, bye-Closes, IsServed, script-IsServed,
}
use csf.Db.Client.Requests.{
  login-IsRequest, get-IsRequest, set-IsRequest, push_one-IsRequest, add-IsRequest,
}
use csf.Db.Client.Dispatched.{
  logged_in, got, pushed, stored, dispatch-login, dispatch-get, dispatch-push, dispatch-add,
  dispatch-set, find_updated, find_other, table_get-write_table,
}

-- The server when the program connects.
abbrev pub connected : Tables → State
connected tables = record { tables = tables; conn = new_connection; sent = [] }

-- The program and the server both finish, and one value of one table is greater by 1.
pub record IsIncremented (program : Talk → Exit) (tables : Tables) (table key : Text) (t : Table)
    (v : ℤ) : Type 0 where
  pub end : State
  pub served : IsServed program (connected tables) end
  pub t' : Table
  pub found : find_table table end.tables ≡ some t'
  pub free : t'.m_lock ≡ false
  pub settled : t'.m_temp_data ≡ []
  pub values :
      (k : Text)
      → table_get k t' ≡ (if same_text key k then some (to_string (v +ℤ pos 1)) else table_get k t)
  pub others :
      (name : Text)
      → same_text table name ≡ false
      → find_table name end.tables ≡ find_table name tables

pub one_is_printed : codes "1" ≡ to_string (pos 1)
unfolding to_string print
one_is_printed = refl

module _ (username table key : Text) (tables : Tables) (t : Table) (v : ℤ) where
  abbrev pub successor : Text
  successor = to_string (v +ℤ pos 1)

  abbrev after_login : State
  after_login = after_ok (logged_in (connected tables))

  abbrev after_get : State
  after_get = after_ok (got table key (to_string v) after_login)

  abbrev after_push : State
  after_push = after_ok (pushed (codes "1") after_get)

  abbrev pub after_add : State
  after_add = after_ok (with_stack (successor ∷ []) after_push)

  abbrev pub after_set : State
  after_set = after_ok (stored table key successor [] (unlock t) after_add)

  module _ (valid_username : is_valid_identifier username ≡ true)
      (valid_table : is_valid_identifier table ≡ true) (valid_key : is_valid_identifier key ≡ true)
      (fits_username : length username ≤ 1000) (fits : length table + length key ≤ 1000)
      (found : find_table table tables ≡ some t) (settled : IsMap t.m_temp_data)
      (holds : table_get key t ≡ some (to_string v)) (is_int : in_int v ≡ true)
      (next_is_int : in_int (v +ℤ pos 1) ≡ true) where
    -- The requests up to ADD, and those that come then.
    pub reads :
        {ms : List Message} {s' : State}
        → Exchanges ms after_add s'
        → Exchanges
            (message MessageType.login (username ∷ [])
              ∷ message MessageType.get (table ∷ key ∷ [])
              ∷ message MessageType.push (codes "1" ∷ [])
              ∷ message MessageType.add []
              ∷ ms)
            (connected tables)
            s'
    reads x =
        answers (logged_in (connected tables))
          (login-IsRequest username valid_username fits_username) refl
          (dispatch-login username (connected tables) valid_username) refl
          (answers (got table key (to_string v) after_login)
            (get-IsRequest table valid_table key valid_key fits) refl
            (dispatch-get table key (to_string v) t after_login refl found holds) refl
            (answers (pushed (codes "1") after_get) push_one-IsRequest refl
              (dispatch-push (codes "1") after_get refl) refl
              (answers (with_stack (successor ∷ []) after_push) add-IsRequest refl
                (dispatch-add (pos 1) v [] after_push refl is_int next_is_int
                  (ap (λ l. l ∷ to_string v ∷ []) one_is_printed))
                refl x)))

    pub all_answered :
        Exchanges (increment_script false username table key) (connected tables) after_set
    all_answered = reads (
        answers (stored table key successor [] (unlock t) after_add)
          (set-IsRequest table valid_table key valid_key fits) refl
          (dispatch-set table key successor [] (unlock t) after_add valid_table valid_key refl refl
            refl (find_updated table unlock tables t found) refl)
          refl nothing)

    pub find-after_set :
        find_table table after_set.tables
        ≡ some (write_table key successor (record t { m_lock = true }))
    find-after_set =
        find_updated table (λ u. write_table key successor (record t { m_lock = true }))
          (update_table table unlock tables) (unlock t) (find_updated table unlock tables t found)

    -- For a user, a table and a key of it that are identifiers and short enough for a line, no key that
    -- waits twice in the table, and an `int` at the key whose successor is an `int`: with the server's
    -- answers `incr_value` without `-t` returns 0, the server ends the session, and the table holds the
    -- successor at the key, with nothing left to commit and its mutex free, and what it held at every
    -- other key; every other table is as it was.
    pub increment_plain-IsIncremented :
        IsIncremented (increment false username table key) tables table key t v
    unfolding commit_changes table_get
    increment_plain-IsIncremented = record {
      end = after_ok after_set;
      served =
          script-IsServed (increment false username table key)
            (λ a b c. increment_succeeds false username table key a b c) all_answered
            (bye-Closes after_set refl) refl;
      t' = write_table key successor (record t { m_lock = true });
      found = find-after_set;
      free = refl;
      settled = refl;
      values =
          λ k. table_get-write_table key successor k (record t { m_lock = true }) settled ∙ refl;
      others = λ name e.
          find_other table name (λ u. write_table key successor (record t { m_lock = true }))
            (update_table table unlock tables) e
          ∙ find_other table name unlock tables e;
    }
