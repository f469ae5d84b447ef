-- ===== src/Db/Connection/Kept.antt =====
-- Tables that keep their committed data, through the updates that the requests are made of.
use csf.Base.{
  ◌≡◌, refl, List, [], ◌∷◌, Option, none, some, arith, inl, inr, Bool-cases, Option-cases,
}
use csf.Db.{Text, same_text_iff, MessageType, Exception}
use csf.Db.Encoding.{Outcome, encode}
use csf.Db.Store.{Tables, Table, find, update_table, create_table, unlock, rollback_changes}
use csf.Db.Store.Pending.{find-update_table, find_table-create_table}
use csf.Db.Connection.{
  State, Result, written, send, catch_std, catch_operation, then_do, what, for_tables,
  rollback_transaction,
}

abbrev pub state_of : Result → State
state_of (Result.done s) = s
state_of (Result.returned s) = s
state_of (Result.throws e s) = s
state_of (Result.waits s) = s
state_of (Result.undefined s) = s

abbrev pub data_of : Option Table → Option (List (Text × Text))
data_of none = none
data_of (some t) = some t.m_data

-- Each table of the first map is in the second one, with the same committed data.
abbrev pub Keeps : Tables → Tables → Type 0
Keeps ts us =
    (name : Text) (t : Table) → find name ts ≡ some t → data_of (find name us) ≡ some t.m_data

pub refl-Keeps : (ts : Tables) → Keeps ts ts
refl-Keeps ts name t e = rw e

pub trans-Keeps : (ts us vs : Tables) → Keeps ts us → Keeps us vs → Keeps ts vs
trans-Keeps ts us vs h k name t e = elim (Option-cases (find name us)) [
  | inl q ↦ ground (arith, h name t e)
  | inr (u, q) ↦ ground (arith, h name t e, k name u q)
]

abbrev pub KeepsTable : (Table → Table) → Type 0
KeepsTable f = (t : Table) → (f t).m_data ≡ t.m_data

pub update_table-Keeps :
    (name : Text) (f : Table → Table) (ts : Tables)
    → KeepsTable f
    → Keeps ts (update_table name f ts)
update_table-Keeps name f ts h k t e = ground (arith, find-update_table name k f ts, h t)

pub put-Keeps :
    (name : Text) (t t' : Table) (ts : Tables)
    → find name ts ≡ some t
    → t'.m_data ≡ t.m_data
    → Keeps ts (update_table name (λ u. t') ts)
put-Keeps name t t' ts e h k u q =
    ground (arith, find-update_table name k (λ u. t') ts, same_text_iff name k)

pub for_tables-Keeps :
    (f : Table → Table) (names : List Text) (ts : Tables)
    → KeepsTable f
    → Keeps ts (for_tables f names ts)
unfolding for_tables
for_tables-Keeps f [] ts h = refl-Keeps ts
for_tables-Keeps f (n ∷ names) ts h =
    let us = update_table n f ts in
    trans-Keeps ts us (for_tables f names us) (update_table-Keeps n f ts h)
      (for_tables-Keeps f names us h)

pub create_table-Keeps : (name : Text) (ts : Tables) → Keeps ts (create_table name ts)
create_table-Keeps name ts k t e = ground (arith, find_table-create_table name k ts)

-- A reply changes no table.
pub send-Keeps :
    (ts : Tables) (type : MessageType) (args : List Text) (s : State)
    → Keeps ts s.tables
    → Keeps ts (state_of (send type args s)).tables
unfolding send written
send-Keeps ts type args s h = written-Keeps (encode (record { message_type = type; args = args }))
  where
    written-Keeps : (o : Outcome) → Keeps ts (state_of (written o s)).tables
    written-Keeps (Outcome.raises e) = h
    written-Keeps (Outcome.returns text) = h

pub rollback-Keeps :
    (ts : Tables) (s : State) → Keeps ts s.tables → Keeps ts (rollback_transaction s).tables
unfolding rollback_transaction rollback_changes
rollback-Keeps ts s h = elim (Bool-cases s.conn.m_in_transaction) [
  | inl q ↦
      let names = s.conn.m_locked_tables in
      let us = for_tables rollback_changes names s.tables in
      rw q (
        trans-Keeps ts us (for_tables unlock names us)
          (trans-Keeps ts s.tables us h
            (for_tables-Keeps rollback_changes names s.tables (λ t. refl)))
          (for_tables-Keeps unlock names us (λ t. refl)))
  | inr q ↦ rw q h
]

-- What holds of every state that a body ends in, and that the handler keeps, holds at the end.
module _ {P : State → Type 0} where
  pub catch_std_lem :
      (r : Result) (handler : Text → State → Result)
      → P (state_of r)
      → ((e : Text) (s : State) → P s → P (state_of (handler e s)))
      → P (state_of (catch_std r handler))
  unfolding catch_std
  catch_std_lem (Result.done s) handler h k = h
  catch_std_lem (Result.returned s) handler h k = h
  catch_std_lem (Result.throws e s) handler h k = k (what e) s h
  catch_std_lem (Result.waits s) handler h k = h
  catch_std_lem (Result.undefined s) handler h k = h

  pub catch_operation_lem :
      (r : Result) (handler : Text → State → Result)
      → P (state_of r)
      → ((e : Text) (s : State) → P s → P (state_of (handler e s)))
      → P (state_of (catch_operation r handler))
  unfolding catch_operation
  catch_operation_lem (Result.done s) handler h k = h
  catch_operation_lem (Result.returned s) handler h k = h
  catch_operation_lem (Result.throws (Exception.operation_exception e) s) handler h k = k e s h
  catch_operation_lem (Result.throws (Exception.invalid_message e) s) handler h k = h
  catch_operation_lem (Result.throws (Exception.comm_exception e) s) handler h k = h
  catch_operation_lem (Result.throws (Exception.failed_transaction e) s) handler h k = h
  catch_operation_lem (Result.waits s) handler h k = h
  catch_operation_lem (Result.undefined s) handler h k = h

  pub then_do_lem :
      (r : Result) (next : State → Result)
      → P (state_of r)
      → ((s : State) → P s → P (state_of (next s)))
      → P (state_of (then_do r next))
  then_do_lem (Result.done s) next h k = k s h
  then_do_lem (Result.returned s) next h k = h
  then_do_lem (Result.throws e s) next h k = h
  then_do_lem (Result.waits s) next h k = h
  then_do_lem (Result.undefined s) next h k = h
