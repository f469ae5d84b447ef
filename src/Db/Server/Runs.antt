-- ===== src/Db/Server/Runs.antt =====
-- What holds of every interleaving of the requests of several clients.
use csf.Base.{◌≡◌, ◌≢◌, subst, true, List, Option, none, some}
use csf.Db.{Text, MessageType}
use csf.Db.Encoding.{Decoded, decode}
use csf.Db.Connection.{State}
use csf.Db.Connection.Kept.{Keeps, refl-Keeps, trans-Keeps}
use csf.Db.Connection.Request.{round, catch_all, handle}
use csf.Db.Connection.Request.Uncommitted.{round-Keeps, session_state}
use csf.Db.Server.{
  Server, Step, accepts, no_thread, goes_on, ends, front, seen_by, Reach, here, next,
}

-- The line is not a COMMIT.
abbrev pub IsOther : Option Text → Type 0
IsOther none = Unit {0}
IsOther (some line) =
    (args : List Text)
    → decode line ≢ Decoded.message (record { message_type = MessageType.commit; args = args })

-- A step at most of a client in a transaction, that does not commit it.
abbrev pub IsUncommitted : {s u : Server} → Step s u → Type 0
IsUncommitted (accepts s input) = Unit {0}
IsUncommitted (no_thread s) = Unit {0}
IsUncommitted (goes_on s i c st e r) = (c.conn.m_in_transaction ≡ true) × IsOther (front c.input)
IsUncommitted (ends s i c st e r) = (c.conn.m_in_transaction ≡ true) × IsOther (front c.input)

abbrev pub AllUncommitted : {s u : Server} → Reach s u → Type 0
AllUncommitted here = Unit {0}
AllUncommitted (next r step) = AllUncommitted r × IsUncommitted step

round_front-Keeps :
    (line : Option Text) (st : State)
    → st.conn.m_in_transaction ≡ true
    → IsOther line
    → Keeps st.tables (session_state (round line st)).tables
unfolding round handle catch_all
round_front-Keeps none st in_it other = refl-Keeps st.tables
round_front-Keeps (some line) st in_it other = round-Keeps line st other in_it

Step-Keeps : {s u : Server} (step : Step s u) → IsUncommitted step → Keeps s.tables u.tables
Step-Keeps (accepts s input) h = refl-Keeps s.tables
Step-Keeps (no_thread s) h = refl-Keeps s.tables
Step-Keeps (goes_on s i c st e r) h =
    subst (λ x. Keeps s.tables (session_state x).tables) r
      (round_front-Keeps (front c.input) (seen_by c s) h.0 h.1)
Step-Keeps (ends s i c st e r) h =
    subst (λ x. Keeps s.tables (session_state x).tables) r
      (round_front-Keeps (front c.input) (seen_by c s) h.0 h.1)

-- In every interleaving of the requests of any number of clients, each made in a transaction and none of
-- them a COMMIT, new clients being accepted in between, every table stays with the committed data that
-- it had.
pub Reach-Keeps : {s u : Server} (r : Reach s u) → AllUncommitted r → Keeps s.tables u.tables
Reach-Keeps {s} here h = refl-Keeps s.tables
Reach-Keeps {s} {u} (next {t = t} r step) h =
    trans-Keeps s.tables t.tables u.tables (Reach-Keeps r h.0) (Step-Keeps step h.1)
