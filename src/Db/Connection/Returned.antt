-- ===== src/Db/Connection/Returned.antt =====
-- What the next COMMIT of a client does with the writes of a transaction that was rolled back.
use csf.Base.{
  ◌≡◌, refl, sym, ap, ◌∙◌, subst, true, false, List, [], ◌∷◌, ◌++◌, Option, none, some, arith, inl,
  inr, Bool-cases,
}
use csf.Db.{Text, codes}
use csf.Db.Encoding.{encode, encode_as, encode_all, type_word}
use csf.Db.Store.{Table, find, unlock, rollback_changes, set_all, table_get}
use csf.Db.Store.Pending.{or_else, IsMap, find-assign_all}
use csf.Db.Connection.{
  State, Result, send, written, then_do, catch_std, for_tables, holds, buffered, committed, begin,
  commit, rollback_transaction,
}
use csf.Db.Connection.Committed.{
  IsBuffer, map_table, find-for_tables, find-apply_buffer, set_all_lem, unlock_twice,
}

-- The table has what it had, with nothing that waits.
abbrev IsBack : Table → Option Table → Type 0
IsBack t none = ⊥
IsBack t (some u) = (u.m_data ≡ t.m_data) × (u.m_temp_data ≡ [])

rollback_twice : (t : Table) → rollback_changes (rollback_changes t) ≡ rollback_changes t
unfolding rollback_changes
rollback_twice t = refl

rollback_transaction-IsBack :
    (s : State) (name : Text) (t : Table)
    → s.conn.m_in_transaction ≡ true
    → find name s.tables ≡ some t
    → t.m_temp_data ≡ []
    → IsBack t (find name (rollback_transaction s).tables)
unfolding rollback_transaction rollback_changes
rollback_transaction-IsBack s name t in_it e settled =
    let locked = s.conn.m_locked_tables in
    let us = for_tables rollback_changes locked s.tables in
    let a = find-for_tables rollback_changes name locked s.tables rollback_twice in
    let b = find-for_tables unlock name locked us unlock_twice in
    elim (Bool-cases (holds name locked)) [
      | inl q ↦
          let e1 : find name us ≡ some (rollback_changes t) = a ∙ rw (q, e) in
          let e2 : find name (for_tables unlock locked us) ≡ some (unlock (rollback_changes t)) =
            b ∙ rw (q, e1) in
          rw (in_it, e2) (refl, refl)
      | inr q ↦
          let e1 : find name us ≡ some t = a ∙ rw (q, e) in
          let e2 : find name (for_tables unlock locked us) ≡ some t = b ∙ rw (q, e1) in
          rw (in_it, e2) (refl, settled)
    ]

abbrev ok_line : Text
ok_line = codes "OK" ++ 10 ∷ []

-- BEGIN and COMMIT, with their replies.
abbrev begun : State → State
begun s = record s {
  conn = record s.conn { m_in_transaction = true; m_locked_tables = [] };
  sent = s.sent ++ ok_line ∷ [];
}

abbrev then_committed : State → State
then_committed s = record (committed s) { sent = (committed s).sent ++ ok_line ∷ [] }

begin-begun : (s : State) → s.conn.m_in_transaction ≡ false → begin s ≡ Result.done (begun s)
unfolding begin send written encode encode_as encode_all type_word
begin-begun s e = rw e refl

commit-begun : (s : State) → commit (begun s) ≡ Result.done (then_committed (begun s))
unfolding commit catch_std send written encode encode_as encode_all type_word
commit-begun s = refl

rollback-conn :
    (s : State)
    → s.conn.m_in_transaction ≡ true
    → ((rollback_transaction s).conn.m_in_transaction ≡ false)
      × ((rollback_transaction s).conn.m_transaction_buffer ≡ s.conn.m_transaction_buffer)
unfolding rollback_transaction
rollback-conn s e = rw e (refl, refl)

-- No table is locked, so what the buffer holds is set in the tables and nothing is committed.
find-then_committed :
    (s : State) (name : Text)
    → IsBuffer s.conn.m_transaction_buffer
    → find name (then_committed (begun s)).tables
      ≡ map_table (λ t. set_all (buffered name s.conn.m_transaction_buffer) t) (find name s.tables)
unfolding committed for_tables
find-then_committed s name h = find-apply_buffer name s.conn.m_transaction_buffer s.tables h

table_get-set_all :
    (key : Text) (changes : List (Text × Text)) (t : Table)
    → IsMap changes
    → t.m_temp_data ≡ []
    → (table_get key (set_all changes t) ≡ or_else (find key changes) (find key t.m_data))
      × ((set_all changes t).m_data ≡ t.m_data)
unfolding table_get find
table_get-set_all key changes t h settled =
    let l = set_all_lem changes t in
    let e = find-assign_all key changes t.m_temp_data h in
    let n : find key t.m_temp_data ≡ none = ap (find key) settled in
    (ap (table_get key) l ∙ ground (arith, e, n), ap (λ u. Table.m_data u) l)

-- What a transaction that was rolled back has written comes back: the BEGIN and the COMMIT that follow
-- leave it in the table, where a GET reads it, though the table's committed data is as it was. The table
-- had nothing waiting, and the buffer is a map of maps.
pub rolled_back_writes_return :
    (s : State) (name key : Text) (t : Table)
    → s.conn.m_in_transaction ≡ true
    → IsBuffer s.conn.m_transaction_buffer
    → IsMap (buffered name s.conn.m_transaction_buffer)
    → find name s.tables ≡ some t
    → t.m_temp_data ≡ []
    → (s' : State) × (t' : Table) × (then_do (begin (rollback_transaction s)) commit
        ≡ Result.done s')
      × (find name s'.tables ≡ some t')
      × (t'.m_data ≡ t.m_data)
      × (table_get key t'
          ≡ or_else (find key (buffered name s.conn.m_transaction_buffer)) (find key t.m_data))
rolled_back_writes_return s name key t in_it hb hm e settled =
    by_table (find name r.tables) refl (rollback_transaction-IsBack s name t in_it e settled)
  where
    r : State
    r = rollback_transaction s

    by_table :
        (o : Option Table)
        → find name r.tables ≡ o
        → IsBack t o
        → (s' : State) × (t' : Table) × (then_do (begin r) commit ≡ Result.done s')
          × (find name s'.tables ≡ some t')
          × (t'.m_data ≡ t.m_data)
          × (table_get key t'
              ≡ or_else (find key (buffered name s.conn.m_transaction_buffer)) (find key t.m_data))
    by_table none p back = elim back [ ]
    by_table (some u) p back =
        let buffer = s.conn.m_transaction_buffer in
        let (outside, same) = rollback-conn s in_it in
        let changes = buffered name buffer in
        let (value, data') = table_get-set_all key changes u hm back.1 in
        (
          then_committed (begun r),
          set_all changes u,
          ap (λ x. then_do x commit) (begin-begun r outside) ∙ commit-begun r,
          find-then_committed r name (subst IsBuffer (sym same) hb)
              ∙ ap (λ b. map_table (λ v. set_all (buffered name b) v) (find name r.tables)) same
              ∙ ap (map_table (λ v. set_all changes v)) p,
          data' ∙ back.0,
          value ∙ ap (λ d. or_else (find key changes) (find key d)) back.0,
        )
