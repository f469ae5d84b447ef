-- ===== src/Db/Store.antt =====
-- csf_assign05/table.cpp, value_stack.cpp and server.cpp: the tables, the operand stack and the
-- server's map of tables. A `std::map` is the list of its pairs, one for each key.
pub mod Pending
pub mod Abstract
use csf.Base.{
  ℕ, ◌+◌, ◌≡◌, refl, Bool, true, false, not, ◌||◌, List, [], ◌∷◌, ◌++◌, Option, none, some, length,
  if◌then◌else◌,
}
use csf.Db.{Text, codes, same_text, Exception}

module _ {ℓ} {V : Type ℓ} where
  -- `find`.
  unfoldable pub find : Text → List (Text × V) → Option V
  find key [] = none
  find key ((k, v) ∷ pairs) = if same_text k key then some v else find key pairs

  -- `map[key] = value`.
  unfoldable pub assign : Text → V → List (Text × V) → List (Text × V)
  assign key value [] = (key, value) ∷ []
  assign key value ((k, v) ∷ pairs) =
      if same_text k key then (k, value) ∷ pairs else (k, v) ∷ assign key value pairs

-- `is_some`, as `count(key) > 0`.
abbrev pub is_some {ℓ} : {V : Type ℓ} → Option V → Bool
is_some none = false
is_some (some v) = true

-- `m_lock` is whether the mutex is held, by whatever thread.
pub record Table : Type 0 where
  pub m_lock : Bool
  pub m_data : List (Text × Text)
  pub m_temp_data : List (Text × Text)

abbrev pub new_table : Table
new_table = record { m_lock = false; m_data = []; m_temp_data = [] }

unfoldable pub assign_all : List (Text × Text) → List (Text × Text) → List (Text × Text)
assign_all [] pairs = pairs
assign_all ((k, v) ∷ changes) pairs = assign_all changes (assign k v pairs)

-- `lock` returns when the mutex is free. `none` is a thread that waits for it.
abbrev pub lock : Table → Option Table
lock t = if t.m_lock then none else some (record t { m_lock = true })

abbrev pub unlock : Table → Table
unlock t = record t { m_lock = false }

-- `none` is a mutex that is held.
abbrev pub trylock : Table → Option Table
trylock t = if t.m_lock then none else some (record t { m_lock = true })

unfoldable pub table_set : Text → Text → Table → Table
table_set key value t = record t { m_temp_data = assign key value t.m_temp_data }

unfoldable pub table_get : Text → Table → Option Text
table_get key t = elim (find key t.m_temp_data) [
  | some value ↦ some value
  | none ↦ find key t.m_data
]

unfoldable pub has_key : Text → Table → Bool
has_key key t = is_some (find key t.m_temp_data) || is_some (find key t.m_data)

unfoldable pub commit_changes : Table → Table
commit_changes t = record t { m_data = assign_all t.m_temp_data t.m_data; m_temp_data = [] }

unfoldable pub rollback_changes : Table → Table
rollback_changes t = record t { m_temp_data = [] }

-- Several `set`, one after the other.
unfoldable pub set_all : List (Text × Text) → Table → Table
set_all [] t = t
set_all ((k, v) ∷ changes) t = set_all changes (table_set k v t)

-- The top of the stack is the head of the list, where the vector has its back.
abbrev pub ValueStack : Type 0
ValueStack = List Text

-- `none` is the exception of an empty stack.
abbrev pub get_top : ValueStack → Option Text
get_top [] = none
get_top (v ∷ stack) = some v

abbrev pub pop_value : ValueStack → Option ValueStack
pop_value [] = none
pop_value (v ∷ stack) = some stack

abbrev pub push_value : Text → ValueStack → ValueStack
push_value v stack = v ∷ stack

-- The server's `tables`; a pointer to a table is the name that it is found under, since no table is
-- ever removed.
abbrev pub Tables : Type 0
Tables = List (Text × Table)

-- `tables_mutex` is held only within this function and the next one, so it is free between their calls.
unfoldable pub create_table : Text → Tables → Tables
create_table name tables = elim (find name tables) [
  | none ↦ assign name new_table tables
  | some t ↦ tables
]

abbrev pub find_table : Text → Tables → Option Table
find_table name tables = find name tables

-- A member function called through the pointer that `find_table` gave.
unfoldable pub update_table : Text → (Table → Table) → Tables → Tables
update_table name f [] = []
update_table name f ((k, t) ∷ tables) =
    if same_text k name then (k, f t) ∷ tables else (k, t) ∷ update_table name f tables
