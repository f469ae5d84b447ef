-- ===== src/Db/Server.antt =====
-- csf_assign05/server.cpp and server_main.cpp: the loop that accepts clients, their threads, and what they
-- do to the tables in turn. A thread runs from one request to the next in one step: the tables are
-- locked, or reached through a call that locks them, while a request changes them.
pub mod Runs
pub mod Lost
mod Tests
use csf.Base.{
  ℕ, ◌≡◌, Bool, not, List, [], ◌∷◌, ◌++◌, Option, none, some, ◌==◌, length, get_elem?, set,
  if◌then◌else◌,
}
use csf.Db.{Text}
use csf.Db.Store.{Tables}
use csf.Db.Connection.{ClientConnection, State}
use csf.Db.Connection.Request.{Session, new_connection, round}

-- What a thread has: its connection, the lines that its client is going to send, and what it was sent.
pub record Client : Type 0 where
  pub conn : ClientConnection
  pub input : List Text
  pub sent : List Text

-- `ended` is a thread whose `chat_with_client` has returned.
pub data Thread : Type 0 where
  talking : Client → Thread
  ended : List Text → Thread

pub record Server : Type 0 where
  pub tables : Tables
  pub threads : List Thread

abbrev pub new_client : List Text → Client
new_client input = record { conn = new_connection; input = input; sent = [] }

-- The line that is read next, and the lines behind it.
abbrev pub front : List Text → Option Text
front [] = none
front (line ∷ lines) = some line

abbrev pub behind : List Text → List Text
behind [] = []
behind (line ∷ lines) = lines

-- What a request of a client sees.
abbrev pub seen_by : Client → Server → State
seen_by c s = record { tables = s.tables; conn = c.conn; sent = c.sent }

-- The thread `i` and the tables after a request.
abbrev pub put : ℕ → Thread → State → Server → Server
put i thread st s = record { tables = st.tables; threads = set s.threads i thread }

-- A client that is accepted and gets a thread, or none, where `pthread_create` fails; and a round of the
-- loop of one thread. A thread that waits for a mutex makes no step while another holds it.
pub data Step : Server → Server → Type 0 where
  accepts :
      (s : Server) (input : List Text)
      → Step s (record s { threads = s.threads ++ talking (new_client input) ∷ [] })
  no_thread : (s : Server) → Step s s
  goes_on :
      (s : Server) (i : ℕ) (c : Client) (st : State)
      → get_elem? s.threads i ≡ some (talking c)
      → round (front c.input) (seen_by c s) ≡ Session.continues st
      → Step s
          (put i (talking (record { conn = st.conn; input = behind c.input; sent = st.sent })) st s)
  ends :
      (s : Server) (i : ℕ) (c : Client) (st : State)
      → get_elem? s.threads i ≡ some (talking c)
      → round (front c.input) (seen_by c s) ≡ Session.closed st
      → Step s (put i (ended st.sent) st s)

pub data Reach (s : Server) : Server → Type 0 where
  here : Reach s s
  next : {t u : Server} → Reach s t → Step t u → Reach s u

-- `Server server;` and `main`, for whether `listen` succeeds; the loop does not return.
pub data Start : Type 0 where
  returns_1 : Start
  loops_from : Server → Start

unfoldable pub server_main : List Text → Bool → Start
server_main argv listens =
    if not (length argv == 2)
    then returns_1
    else if listens
    then loops_from (record { tables = []; threads = [] })
    else returns_1
