-- ===== src/Db/Connection/Committed.antt =====
-- What a COMMIT makes of the tables.
use csf.Base.{
  ◌≡◌, refl, ap, ◌∙◌, true, false, List, [], ◌∷◌, Option, none, some, arith, inl, inr, Bool-cases,
  Option-cases, if◌then◌else◌,
}
use csf.Db.{Text, same_text, same_text_iff}
use csf.Db.Store.{
  Tables, Table, find, update_table, unlock, commit_changes, set_all, assign_all, table_set, assign,
}
use csf.Db.Store.Pending.{find-update_table, or_else, IsMap, assign-IsMap, find-assign_all}
use csf.Db.Connection.{State, for_tables, holds, apply_buffer, buffered, committed}

abbrev pub map_table : (Table → Table) → Option Table → Option Table
map_table f none = none
map_table f (some t) = some (f t)

-- A loop over names gets to each table that it names, where a second call changes nothing.
pub find-for_tables :
    (f : Table → Table) (k : Text) (names : List Text) (ts : Tables)
    → ((t : Table) → f (f t) ≡ f t)
    → find k (for_tables f names ts)
      ≡ (if holds k names then map_table f (find k ts) else find k ts)
unfolding for_tables
find-for_tables f k [] ts h = refl
find-for_tables f k (n ∷ names) ts h = elim (Option-cases (find k ts)) [
  | inl e ↦
      ground
        (arith, e, find-for_tables f k names (update_table n f ts) h, find-update_table n k f ts)
  | inr (t, e) ↦
      ground (
        arith,
        e,
        find-for_tables f k names (update_table n f ts) h,
        find-update_table n k f ts,
        h t,
      )
]

-- Each name has one entry in the buffer, as in every `std::map`.
abbrev pub IsBuffer : List (Text × List (Text × Text)) → Type 0
IsBuffer [] = Unit
IsBuffer ((name, pairs) ∷ buffer) = (find name buffer ≡ none) × IsBuffer buffer

pub find-apply_buffer :
    (k : Text) (buffer : List (Text × List (Text × Text))) (ts : Tables)
    → IsBuffer buffer
    → find k (apply_buffer buffer ts) ≡ map_table (λ t. set_all (buffered k buffer) t) (find k ts)
unfolding apply_buffer find set_all
find-apply_buffer k [] ts h = elim (find k ts) as (λ o. o ≡ map_table (set_all []) o) [
  | none ↦ refl
  | some t ↦ refl
]
find-apply_buffer k ((name, pairs) ∷ buffer) ts h =
    let ih = find-apply_buffer k buffer (update_table name (set_all pairs) ts) h.1 in
    let u = find-update_table name k (set_all pairs) ts in
    let i = same_text_iff name k in
    elim (Option-cases (find k ts)) [
      | inl e ↦ ground (arith, e, ih, u)
      | inr (t, e) ↦ elim (Bool-cases (same_text name k)) [
        | inl q ↦ ground (arith, e, ih, u, h.0, q, i)
        | inr q ↦ ground (arith, e, ih, u, q)
      ]
    ]

pub set_all_lem :
    (changes : List (Text × Text)) (t : Table)
    → set_all changes t ≡ record t { m_temp_data = assign_all changes t.m_temp_data }
unfolding set_all assign_all table_set
set_all_lem [] t = refl
set_all_lem ((k, v) ∷ changes) t = set_all_lem changes (table_set k v t)

pub unlock_twice : (t : Table) → unlock (unlock t) ≡ unlock t
unlock_twice t = refl

commit_twice : (t : Table) → commit_changes (commit_changes t) ≡ commit_changes t
unfolding commit_changes assign_all
commit_twice t = refl

assign_all-IsMap :
    (changes pairs : List (Text × Text)) → IsMap pairs → IsMap (assign_all changes pairs)
unfolding assign_all
assign_all-IsMap [] pairs h = h
assign_all-IsMap ((k, v) ∷ changes) pairs h =
    assign_all-IsMap changes (assign k v pairs) (assign-IsMap k v pairs h)

-- The committed data of a table after sets and a commit.
find-written :
    (changes : List (Text × Text)) (key : Text) (t : Table)
    → IsMap changes
    → t.m_temp_data ≡ []
    → find key (commit_changes (set_all changes t)).m_data
      ≡ or_else (find key changes) (find key t.m_data)
unfolding commit_changes find
find-written changes key t hm ht =
    let fresh = assign_all changes [] in
    let m : IsMap fresh = assign_all-IsMap changes [] tt in
    let e : find key fresh ≡ or_else (find key changes) none = find-assign_all key changes [] hm in
    let f = find-assign_all key fresh t.m_data m in
    let l : set_all changes t ≡ record t { m_temp_data = fresh } =
      set_all_lem changes t ∙ ap (λ ps. record t { m_temp_data = assign_all changes ps }) ht in
    ap (λ u. find key (assign_all (Table.m_temp_data u) (Table.m_data u))) l ∙ f ∙ ground (arith, e)

-- A COMMIT frees each table that the transaction has locked, with nothing left to wait in it, and
-- leaves as its committed data, for each key, the value that the transaction has written, or else
-- what it was before. The table had nothing waiting, and the buffer is a map of maps.
pub committed_lem :
    (s : State) (name key : Text) (t : Table)
    → IsBuffer s.conn.m_transaction_buffer
    → IsMap (buffered name s.conn.m_transaction_buffer)
    → holds name s.conn.m_locked_tables ≡ true
    → find name s.tables ≡ some t
    → t.m_temp_data ≡ []
    → (t' : Table) × (find name (committed s).tables ≡ some t')
      × (t'.m_lock ≡ false)
      × (t'.m_temp_data ≡ [])
      × (find key t'.m_data
          ≡ or_else (find key (buffered name s.conn.m_transaction_buffer)) (find key t.m_data))
unfolding committed commit_changes
committed_lem s name key t hb hm hl e ht =
    let buffer = s.conn.m_transaction_buffer in
    let locked = s.conn.m_locked_tables in
    let us = apply_buffer buffer s.tables in
    let vs = for_tables commit_changes locked us in
    let a = find-apply_buffer name buffer s.tables hb in
    let b = find-for_tables commit_changes name locked us commit_twice in
    let c = find-for_tables unlock name locked vs unlock_twice in
    let written = set_all (buffered name buffer) t in
    let e1 : find name us ≡ some written =
      a ∙ ap (λ o. map_table (λ u. set_all (buffered name buffer) u) o) e in
    let e2 : find name vs ≡ some (commit_changes written) = b ∙ rw (hl, e1) in
    let e3 : find name (for_tables unlock locked vs) ≡ some (unlock (commit_changes written)) =
      c ∙ rw (hl, e2) in
    (
      unlock (commit_changes written),
      e3,
      refl,
      refl,
      find-written (buffered name buffer) key t hm ht,
    )
