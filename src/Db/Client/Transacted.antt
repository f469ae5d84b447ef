-- ===== src/Db/Client/Transacted.antt =====
-- `incr_value -t` against the server: the value is read and written in a transaction.
use csf.Base.{◌+◌, ◌≤◌, ◌≡◌, refl, ap, ◌∙◌, Bool, true, false, [], ◌∷◌, some, length}
use csf.Base.Int.{ℤ, pos, ◌+ℤ◌}
use csf.Db.{Text, codes, is_valid_identifier}
use csf.Db.Number.{to_string, in_int}
use csf.Db.Store.{
  Table, Tables, find_table, table_get, table_set, set_all, commit_changes, unlock, update_table,
}
use csf.Db.Store.Pending.{IsMap}
use csf.Db.Connection.{State, with_stack, write_table, committed, apply_buffer, for_tables}
use csf.Db.Client.{increment}
use csf.Db.Client.Script.{increment_script, increment_succeeds}
use csf.Db.Client.Served.{Exchanges, nothing, after_ok, answers, bye-Closes, script-IsServed}
use csf.Db.Client.Requests.{
  login-IsRequest, get-IsRequest, set-IsRequest, push_one-IsRequest, add-IsRequest,
}
use csf.Db.Client.Dispatched.{
  logged_in, pushed, dispatch-login, dispatch-push, dispatch-add, find_updated, find_other,
  table_get-write_table,
}
use csf.Db.Client.Locked.{
  begun, got, stored, begin-IsRequest, commit-IsRequest, dispatch-begin, dispatch-get, dispatch-set,
  dispatch-commit,
}
use csf.Db.Client.Incremented.{
  connected, IsIncremented, one_is_printed, increment_plain-IsIncremented,
}

module _ (username table key : Text) (tables : Tables) (t : Table) (v : ℤ)
    (valid_username : is_valid_identifier username ≡ true)
    (valid_table : is_valid_identifier table ≡ true) (valid_key : is_valid_identifier key ≡ true)
    (fits_username : length username ≤ 1000) (fits : length table + length key ≤ 1000)
    (found : find_table table tables ≡ some t) (settled : IsMap t.m_temp_data)
    (holds : table_get key t ≡ some (to_string v)) (is_int : in_int v ≡ true)
    (next_is_int : in_int (v +ℤ pos 1) ≡ true) (free : t.m_lock ≡ false) where
  abbrev next : Text
  next = to_string (v +ℤ pos 1)

  abbrev taken : Table
  taken = record t { m_lock = true }

  abbrev after_login : State
  after_login = after_ok (logged_in (connected tables))

  abbrev after_begin : State
  after_begin = after_ok (begun after_login)

  abbrev after_get : State
  after_get = after_ok (got table key (to_string v) t after_begin)

  abbrev after_push : State
  after_push = after_ok (pushed (codes "1") after_get)

  abbrev after_add : State
  after_add = after_ok (with_stack (next ∷ []) after_push)

  abbrev after_set : State
  after_set = after_ok (stored table key next [] after_add)

  abbrev after_commit : State
  after_commit = after_ok (committed after_set)

  all_answered :
      Exchanges (increment_script true username table key) (connected tables) after_commit
  unfolding committed
  all_answered =
      answers (logged_in (connected tables)) (login-IsRequest username valid_username fits_username)
        refl (dispatch-login username (connected tables) valid_username) refl
        (answers (begun after_login) begin-IsRequest refl (dispatch-begin after_login refl) refl (
          answers (got table key (to_string v) t after_begin)
            (get-IsRequest table valid_table key valid_key fits) refl
            (dispatch-get table key (to_string v) t after_begin refl refl refl found free holds)
            refl
            (answers (pushed (codes "1") after_get) push_one-IsRequest refl
              (dispatch-push (codes "1") after_get refl) refl
              (answers (with_stack (next ∷ []) after_push) add-IsRequest refl
                (dispatch-add (pos 1) v [] after_push refl is_int next_is_int
                  (ap (λ l. l ∷ to_string v ∷ []) one_is_printed))
                refl
                (answers (stored table key next [] after_add)
                  (set-IsRequest table valid_table key valid_key fits) refl
                  (dispatch-set table key next [] [] taken after_add valid_table valid_key refl refl
                    refl refl refl (find_updated table (λ u. taken) tables t found))
                  refl
                  (answers (committed after_set) commit-IsRequest refl
                    (dispatch-commit after_set refl) refl nothing))))))

  increment_transaction-IsIncremented :
      IsIncremented (increment true username table key) tables table key t v
  unfolding committed apply_buffer for_tables set_all commit_changes table_get
  increment_transaction-IsIncremented =
      let all1 = update_table table (λ u. taken) tables in
      let all2 = update_table table (λ u. table_set key next u) all1 in
      let all3 = update_table table commit_changes all2 in
      record {
        end = after_ok after_commit;
        served =
            script-IsServed (increment true username table key)
              (λ a b c. increment_succeeds true username table key a b c) all_answered
              (bye-Closes after_commit refl) refl;
        t' = write_table key next taken;
        found = find_updated table unlock all3 (commit_changes (table_set key next taken)) (
            find_updated table commit_changes all2 (table_set key next taken) (
              find_updated table (λ u. table_set key next u) all1 taken
                (find_updated table (λ u. taken) tables t found)));
        free = refl;
        settled = refl;
        values = λ k. table_get-write_table key next k taken settled ∙ refl;
        others = λ name e.
            find_other table name unlock all3 e
            ∙ find_other table name commit_changes all2 e
            ∙ find_other table name (λ u. table_set key next u) all1 e
            ∙ find_other table name (λ u. taken) tables e;
      }

  -- For a user, a table and a key of it that are identifiers and short enough for a line, a table that is
  -- not locked and in which no key waits twice, and an `int` at the key whose successor is an `int`: with
  -- the server's answers
  -- `incr_value`, in a transaction or not, returns 0, the server ends the session, and the table holds
  -- the successor at the key, with nothing left to commit and its mutex free, and what it held at every
  -- other key; every other table is as it was.
  pub increment-IsIncremented :
      (use_transaction : Bool)
      → IsIncremented (increment use_transaction username table key) tables table key t v
  increment-IsIncremented true = increment_transaction-IsIncremented
  increment-IsIncremented false =
      increment_plain-IsIncremented username table key tables t v valid_username valid_table
        valid_key fits_username fits found settled holds is_int next_is_int
