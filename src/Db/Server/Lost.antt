-- ===== src/Db/Server/Lost.antt =====
-- Two clients that count up the same value at once, without a transaction.
use csf.Base.{
  ℕ, ◌+◌, ◌≤◌, ◌≡◌, refl, ◌∙◌, subst, true, false, List, [], ◌∷◌, ◌++◌, append-nil, some, length,
  get_elem?, set,
}
use csf.Base.Int.{ℤ, pos, ◌+ℤ◌}
use csf.Db.{Text, codes, same_text_iff, Message, MessageType, is_valid_identifier}
use csf.Db.Encoding.{Outcome, encode}
use csf.Db.Number.{to_string, in_int}
use csf.Db.Store.{Table, Tables, find_table, table_get, commit_changes, unlock}
use csf.Db.Store.Pending.{IsMap}
use csf.Db.Connection.{State, write_table}
use csf.Db.Client.{message}
use csf.Db.Client.Script.{increment_script}
use csf.Db.Client.Served.{Exchanges, nothing, exchange, texts, oks, after_ok, answers}
use csf.Db.Client.Requests.{set-IsRequest}
use csf.Db.Client.Dispatched.{
  stored, dispatch-set, find_updated, table_get-write_table, table_get-unlock,
}
use csf.Db.Client.Incremented.{connected, after_add, after_set, reads, all_answered, find-after_set}
use csf.Db.Server.{Client, Thread, talking, Server, new_client, goes_on, Reach, here, next}

-- The lines that are the messages.
pub data AreLines : List Message → List Text → Type 0 where
  none : AreLines [] []
  line :
      {m : Message} {ms : List Message} {lines : List Text} (text : Text)
      → encode m ≡ Outcome.returns text
      → AreLines ms lines
      → AreLines (m ∷ ms) (text ∷ lines)

Exchanges-AreLines :
    {ms ns : List Message} {s s' : State} {lines : List Text} (x : Exchanges ms s s')
    → AreLines ns lines
    → AreLines (ms ++ ns) (texts x ++ lines)
Exchanges-AreLines nothing l = l
Exchanges-AreLines (exchange text e r o x) l = line text e (Exchanges-AreLines x l)

trans-Reach : {s t u : Server} → Reach s t → Reach t u → Reach s u
trans-Reach r here = r
trans-Reach r (next r' step) = next (trans-Reach r r') step

-- The thread that has the state `s`, with the lines that it has not read.
abbrev thread : List Text → State → Thread
thread input s = talking (record { conn = s.conn; input = input; sent = s.sent })

-- What a thread exchanges with its client is steps of the server, beside the other threads.
Exchanges-Reach :
    {ms : List Message} {s s' : State} (i : ℕ) (threads : Thread → List Thread)
    → ((x : Thread) → get_elem? (threads x) i ≡ some x)
    → ((x y : Thread) → set (threads x) i y ≡ threads y)
    → (x : Exchanges ms s s') (rest : List Text)
    → Reach
        (record { tables = s.tables; threads = threads (thread (texts x ++ rest) s) })
        (record { tables = s'.tables; threads = threads (thread rest s') })
Exchanges-Reach {s = s} i threads at put nothing rest = here
Exchanges-Reach {s = s} {s' = s'} i threads at put (exchange {s1 = s1} text e r o x) rest =
    let before : Server = record {
      tables = s.tables;
      threads = threads (thread (text ∷ texts x ++ rest) s);
    } in
    let step = goes_on before i _ s1 (at (thread (text ∷ texts x ++ rest) s)) r in
    trans-Reach
      (subst (λ l. Reach before (record { tables = s1.tables; threads = l }))
        (put (thread (text ∷ texts x ++ rest) s) (thread (texts x ++ rest) s1)) (next here step))
      (Exchanges-Reach i threads at put x rest)

-- The requests of both clients were answered with OK, and one of them is lost.
pub record IsLost (user_a user_b table key : Text) (tables : Tables) (v : ℤ) : Type 0 where
  pub input_a : List Text
  pub input_b : List Text
  pub lines_a : AreLines (increment_script false user_a table key) input_a
  pub lines_b : AreLines (increment_script false user_b table key) input_b
  pub end : Server
  pub reached :
      Reach
        (record {
          tables = tables;
          threads = talking (new_client input_a) ∷ talking (new_client input_b) ∷ [];
        })
        end
  pub client_a : Client
  pub client_b : Client
  pub threads : end.threads ≡ talking client_a ∷ talking client_b ∷ []
  pub served_a : (client_a.input ≡ []) × (client_a.sent ≡ oks 5)
  pub served_b : (client_b.input ≡ []) × (client_b.sent ≡ oks 5)
  pub t' : Table
  pub found : find_table table end.tables ≡ some t'
  pub value : table_get key t' ≡ some (to_string (v +ℤ pos 1))

module _ (user_a user_b table key : Text) (tables : Tables) (t : Table) (v : ℤ) where
  abbrev plus_one : Text
  plus_one = to_string (v +ℤ pos 1)

  -- Client A has counted up, but not stored.
  abbrev a_reads : State
  a_reads = after_add user_a table key tables t v

  -- Client B has stored.
  abbrev b_stores : State
  b_stores = after_set user_b table key a_reads.tables (unlock t) v

  abbrev after_b : Table
  after_b = write_table key plus_one (record t { m_lock = true })

  abbrev before_store : State
  before_store = record a_reads { tables = b_stores.tables }

  abbrev a_stores : State
  a_stores = after_ok (stored table key plus_one [] after_b before_store)

  module _ (valid_a : is_valid_identifier user_a ≡ true)
      (valid_b : is_valid_identifier user_b ≡ true) (valid_table : is_valid_identifier table ≡ true)
      (valid_key : is_valid_identifier key ≡ true) (fits_a : length user_a ≤ 1000)
      (fits_b : length user_b ≤ 1000) (fits : length table + length key ≤ 1000)
      (found : find_table table tables ≡ some t) (settled : IsMap t.m_temp_data)
      (holds : table_get key t ≡ some (to_string v)) (is_int : in_int v ≡ true)
      (next_is_int : in_int (v +ℤ pos 1) ≡ true) where
    found_unlocked : find_table table a_reads.tables ≡ some (unlock t)
    found_unlocked = find_updated table unlock tables t found

    a_reads-Exchanges :
        Exchanges
          (message MessageType.login (user_a ∷ [])
            ∷ message MessageType.get (table ∷ key ∷ [])
            ∷ message MessageType.push (codes "1" ∷ [])
            ∷ message MessageType.add []
            ∷ [])
          (connected tables)
          a_reads
    a_reads-Exchanges =
        reads user_a table key tables t v valid_a valid_table valid_key fits_a fits found settled
          holds is_int next_is_int nothing

    b_stores-Exchanges :
        Exchanges (increment_script false user_b table key) (connected a_reads.tables) b_stores
    b_stores-Exchanges =
        all_answered user_b table key a_reads.tables (unlock t) v valid_b valid_table valid_key
          fits_b fits found_unlocked settled (table_get-unlock key t ∙ holds) is_int next_is_int

    found_after_b : find_table table b_stores.tables ≡ some after_b
    found_after_b =
        find-after_set user_b table key a_reads.tables (unlock t) v valid_b valid_table valid_key
          fits_b fits found_unlocked settled (table_get-unlock key t ∙ holds) is_int next_is_int

    a_stores-Exchanges :
        Exchanges (message MessageType.set (table ∷ key ∷ []) ∷ []) before_store a_stores
    a_stores-Exchanges =
        answers (stored table key plus_one [] after_b before_store)
          (set-IsRequest table valid_table key valid_key fits) refl
          (dispatch-set table key plus_one [] after_b before_store valid_table valid_key refl refl
            refl found_after_b refl)
          refl nothing

    lines_of_a : List Text
    lines_of_a = texts a_reads-Exchanges ++ (texts a_stores-Exchanges ++ [])

    lines_of_b : List Text
    lines_of_b = texts b_stores-Exchanges ++ []

    abbrev both : State → List Text → State → List Text → Server
    both s input s' input' = record {
      tables = s'.tables;
      threads = thread input s ∷ thread input' s' ∷ [];
    }

    -- Client A reads, client B does all that it does, and client A stores.
    interleaved :
        Reach
          (record {
            tables = tables;
            threads = talking (new_client lines_of_a) ∷ talking (new_client lines_of_b) ∷ [];
          })
          (record {
            tables = a_stores.tables;
            threads = thread [] a_stores ∷ thread [] b_stores ∷ [];
          })
    unfolding lines_of_a lines_of_b
    interleaved =
        trans-Reach
          (Exchanges-Reach 0 (λ x. x ∷ talking (new_client lines_of_b) ∷ []) (λ x. refl)
            (λ x y. refl) a_reads-Exchanges (texts a_stores-Exchanges ++ []))
          (trans-Reach
            (Exchanges-Reach 1 (λ x. thread (texts a_stores-Exchanges ++ []) a_reads ∷ x ∷ [])
              (λ x. refl) (λ x y. refl) b_stores-Exchanges [])
            (Exchanges-Reach 0 (λ x. x ∷ thread [] b_stores ∷ []) (λ x. refl) (λ x y. refl)
              a_stores-Exchanges []))

    -- For two users, a table and a key of it that are identifiers and short enough for a line, a table
    -- in which no key waits twice, and an `int` at the key whose successor is an `int`: the server can
    -- serve the requests that two runs of `incr_value` without `-t` send it for that key up to their
    -- last SET, each answered with OK, in such an order that the value at the key is only greater by 1.
    pub increment-IsLost : IsLost user_a user_b table key tables v
    unfolding lines_of_a lines_of_b commit_changes
    increment-IsLost = record {
      input_a = lines_of_a;
      input_b = lines_of_b;
      lines_a = Exchanges-AreLines a_reads-Exchanges (Exchanges-AreLines a_stores-Exchanges none);
      lines_b =
          subst (λ ms. AreLines ms lines_of_b)
            (append-nil (increment_script false user_b table key))
            (Exchanges-AreLines b_stores-Exchanges none);
      end = record {
        tables = a_stores.tables;
        threads = thread [] a_stores ∷ thread [] b_stores ∷ [];
      };
      reached = interleaved;
      client_a = record { conn = a_stores.conn; input = []; sent = a_stores.sent };
      client_b = record { conn = b_stores.conn; input = []; sent = b_stores.sent };
      threads = refl;
      served_a = (refl, refl);
      served_b = (refl, refl);
      t' = write_table key plus_one (record after_b { m_lock = true });
      found =
          find_updated table (λ u. write_table key plus_one (record after_b { m_lock = true }))
            b_stores.tables after_b found_after_b;
      value =
          table_get-write_table key plus_one key (record after_b { m_lock = true }) tt
          ∙ rw ((same_text_iff key key).1 refl) refl;
    }
