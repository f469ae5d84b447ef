-- ===== src/Db/Store/Pending.antt =====
-- The changes of a table that wait for a commit: what they show, what a commit and a rollback make
-- of them.
use csf.Base.{◌≡◌, refl, true, false, List, [], ◌∷◌, Option, none, some, arith, if◌then◌else◌}
use csf.Db.{Text, same_text, same_text_iff}
use csf.Db.Store.{
  find, assign, Table, table_set, table_get, has_key, assign_all, commit_changes, rollback_changes,
  is_some, Tables, update_table, set_all, create_table, find_table, new_table,
}

module _ {ℓ} {V : Type ℓ} where
  pub find-assign :
      (key k : Text) (v : V) (pairs : List (Text × V))
      → find k (assign key v pairs) ≡ (if same_text key k then some v else find k pairs)
  unfolding find assign
  find-assign key k v [] = refl
  find-assign key k v ((j, w) ∷ pairs) = ground (
    arith,
    same_text_iff j key,
    same_text_iff j k,
    same_text_iff key k,
    find-assign key k v pairs,
  )

pub find-update_table :
    (name k : Text) (f : Table → Table) (tables : Tables)
    → find k (update_table name f tables)
      ≡ elim (find k tables) [ none ↦ none | some t ↦ some (if same_text name k then f t else t) ]
unfolding find update_table
find-update_table name k f [] = refl
find-update_table name k f ((j, t) ∷ tables) = ground (
  arith,
  same_text_iff j name,
  same_text_iff j k,
  same_text_iff name k,
  find-update_table name k f tables,
)

-- A value in place of a missing one.
abbrev pub or_else : Option Text → Option Text → Option Text
or_else (some v) o = some v
or_else none o = o

-- One pair for each key, as in every `std::map`.
abbrev pub IsMap : List (Text × Text) → Type 0
IsMap [] = Unit
IsMap ((k, v) ∷ pairs) = (find k pairs ≡ none) × IsMap pairs

pub assign-IsMap :
    (key v : Text) (pairs : List (Text × Text)) → IsMap pairs → IsMap (assign key v pairs)
unfolding assign find
assign-IsMap key v [] h = (refl, tt)
assign-IsMap key v ((k, w) ∷ pairs) h =
    elim (same_text k key)
        as (λ b.
          same_text k key ≡ b → IsMap (if b then (k, v) ∷ pairs else (k, w) ∷ assign key v pairs)) [
            | true ↦ λ e. h
            | false ↦ λ e. (
              ground
                  (arith, find-assign key k v pairs, h.0, same_text_iff k key, same_text_iff key k),
              assign-IsMap key v pairs h.1,
            )
          ]
      refl

pub find-assign_all :
    (k : Text) (changes pairs : List (Text × Text))
    → IsMap changes
    → find k (assign_all changes pairs) ≡ or_else (find k changes) (find k pairs)
unfolding assign_all find
find-assign_all k [] pairs h = refl
find-assign_all k ((j, v) ∷ changes) pairs h = ground (
  arith,
  same_text_iff j k,
  find-assign_all k changes (assign j v pairs) h.1,
  find-assign j k v pairs,
  h.0,
)

-- A value that is set is what the table gives for its key, and no other key's value changes.
pub table_get-table_set :
    (key k v : Text) (t : Table)
    → table_get k (table_set key v t) ≡ (if same_text key k then some v else table_get k t)
unfolding table_get table_set
table_get-table_set key k v t = ground (arith, find-assign key k v t.m_temp_data)

-- A table has a key exactly if it gives a value for it.
pub has_key_lem : (key : Text) (t : Table) → has_key key t ≡ is_some (table_get key t)
unfolding has_key table_get
has_key_lem key t = ground arith

-- A commit keeps what the table gives for each key, and stores it in the committed data with nothing
-- left to wait, where each key has one change.
pub table_get-commit_changes :
    (key : Text) (t : Table)
    → IsMap t.m_temp_data
    → (table_get key (commit_changes t) ≡ table_get key t)
      × (find key (commit_changes t).m_data ≡ table_get key t)
      × ((commit_changes t).m_temp_data ≡ [])
unfolding table_get commit_changes find
table_get-commit_changes key t h =
    let e = find-assign_all key t.m_temp_data t.m_data h in
    (ground (arith, e), ground (arith, e), refl)

-- After any sets a rollback makes the table give what its committed data holds.
pub table_get-rollback_changes :
    (key : Text) (changes : List (Text × Text)) (t : Table)
    → table_get key (rollback_changes (set_all changes t)) ≡ find key t.m_data
unfolding table_get rollback_changes set_all table_set find
table_get-rollback_changes key [] t = refl
table_get-rollback_changes key ((k, v) ∷ changes) t =
    table_get-rollback_changes key changes (table_set k v t)

-- Creating a table adds an empty one under a new name, and changes no table that is there.
pub find_table-create_table :
    (name k : Text) (tables : Tables)
    → find_table k (create_table name tables) ≡ elim (find_table k tables) [
      | some t ↦ some t
      | none ↦ if same_text name k then some new_table else none
    ]
unfolding create_table
find_table-create_table name k tables =
    ground (arith, same_text_iff name k, find-assign name k new_table tables)
