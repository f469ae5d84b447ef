-- ===== src/Db/Client/Served.antt =====
-- A program and the server: the requests that the one sends are answered by the other, in turn.
use csf.Base.{
  ℕ, ◌≡◌, ◌≢◌, refl, sym, ap, ◌∙◌, true, false, not, ◌&&◌, List, [], ◌∷◌, ◌++◌, append_assoc,
  append-nil, some, length, replicate,
}
use csf.Db.{Text, codes, MessageType, Message, is_valid}
use csf.Db.Encoding.{
  Outcome, Decoded, encode, decode, is_quoted, type_word, encode_all, encode_as, words, tokens,
  quoted_tokens, find_type, decode_tokens,
}
use csf.Db.Encoding.Roundtrip.{AllWords, decode-encode}
use csf.Db.Connection.{State, Result, send_ok, send, written}
use csf.Db.Connection.Request.{
  Session, is_login, dispatch, accept, handle, catch_all, round, chat_with_client, bye,
}
use csf.Db.Client.{Talk, Exit, succeeds, message}
use csf.Db.Client.Script.{Answered, finished, answered, Completes}

abbrev pub ok_line : Text
ok_line = codes "OK" ++ 10 ∷ []

abbrev pub oks : ℕ → List Text
oks n = replicate n ok_line

-- The reply OK.
abbrev pub after_ok : State → State
after_ok s = record s { sent = s.sent ++ ok_line ∷ [] }

pub send_ok-after_ok : (s : State) → send_ok s ≡ Result.done (after_ok s)
unfolding send written encode encode_as encode_all type_word
send_ok-after_ok s = refl

decode-ok_line : decode ok_line ≡ Decoded.message (message MessageType.ok [])
unfolding decode decode_tokens tokens quoted_tokens words find_type type_word
decode-ok_line = refl

-- The server answers the messages in turn, each with an OK, and goes on.
pub data Exchanges : List Message → State → State → Type 0 where
  nothing : {s : State} → Exchanges [] s s
  exchange :
      {m : Message} {ms : List Message} {s s1 s' : State} (text : Text)
      → encode m ≡ Outcome.returns text
      → round (some text) s ≡ Session.continues s1
      → s1.sent ≡ s.sent ++ ok_line ∷ []
      → Exchanges ms s1 s'
      → Exchanges (m ∷ ms) s s'

abbrev pub texts : {ms : List Message} {s s' : State} → Exchanges ms s s' → List Text
texts nothing = []
texts (exchange text e r o x) = text ∷ texts x

-- The client is answered.
pub Exchanges-Answered :
    {ms : List Message} {s s' : State} (x : Exchanges ms s s') (sent rest : List Text)
    → (u : Talk) × Answered ms (record { sent = sent; replies = oks (length ms) ++ rest }) u
      × (u ≡ record { sent = sent ++ texts x; replies = rest })
Exchanges-Answered nothing sent rest =
    (_, finished, ap (λ l. record { sent = l; replies = rest }) (sym (append-nil sent)))
Exchanges-Answered (exchange text e r o x) sent rest =
    let (u, a, f) = Exchanges-Answered x (sent ++ text ∷ []) rest in
    (
      u,
      answered text ok_line _ e refl decode-ok_line refl a,
      f ∙ ap (λ l. record { sent = l; replies = rest }) (append_assoc sent (text ∷ []) (texts x)),
    )

-- The server's loop goes on behind them.
pub chat-texts :
    {ms : List Message} {s s' : State} (x : Exchanges ms s s') (more : List Text)
    → chat_with_client (texts x ++ more) s ≡ chat_with_client more s'
unfolding chat_with_client
chat-texts nothing more = refl
chat-texts (exchange text e r o x) more = rw (r, chat_with_client) (chat-texts x more)

pub sent-Exchanges :
    {ms : List Message} {s s' : State} (x : Exchanges ms s s') → s'.sent ≡ s.sent ++ oks (length ms)
sent-Exchanges {s = s} nothing = sym (append-nil s.sent)
sent-Exchanges {s = s} (exchange {ms = ms} text e r o x) =
    sent-Exchanges x
    ∙ ap (λ l. l ++ oks (length ms)) o
    ∙ append_assoc s.sent (ok_line ∷ []) (oks (length ms))

-- A request that is decoded, and whose operation ends with the reply OK.
round_of_dispatch :
    (req : Message) (text : Text) (s : State) (r : Result)
    → decode text ≡ Decoded.message req
    → (not s.conn.m_has_logged_in && not (is_login req.message_type)) ≡ false
    → is_valid req ≡ true
    → dispatch req s ≡ r
    → round (some text) s ≡ catch_all r
unfolding round handle accept
round_of_dispatch req text s r d g v e = rw (d, handle, g, v, e) refl

-- The session goes on after a reply OK.
catch_all-send_ok : (s : State) → catch_all (send_ok s) ≡ Session.continues (after_ok s)
unfolding catch_all
catch_all-send_ok s = rw (send_ok-after_ok s) refl

-- A message of words that fits into a line.
pub record IsRequest (type : MessageType) (args : List Text) : Type 0 where
  pub unquoted : is_quoted type ≡ false
  pub named : type ≢ MessageType.none
  pub of_words : AllWords args
  pub valid : is_valid (message type args) ≡ true
  pub line : Text
  pub fits : encode (message type args) ≡ Outcome.returns line

pub answers :
    {type : MessageType} {args : List Text} {ms : List Message} {s s' : State} (s1 : State)
    → IsRequest type args
    → (not s.conn.m_has_logged_in && not (is_login type)) ≡ false
    → dispatch (message type args) s ≡ send_ok s1
    → s1.sent ≡ s.sent
    → Exchanges ms (after_ok s1) s'
    → Exchanges (message type args ∷ ms) s s'
answers {type} {args} {ms} {s} s1 r g d o x =
    exchange r.line r.fits
      (round_of_dispatch (message type args) r.line s (send_ok s1)
          (decode-encode type args r.line r.unquoted r.named r.of_words r.fits) g r.valid d
        ∙ catch_all-send_ok s1)
      (ap (λ l. l ++ ok_line ∷ []) o) x

-- BYE ends the session, with one more OK.
pub record Closes (s s' : State) : Type 0 where
  pub text : Text
  pub bye_text : encode (message MessageType.bye []) ≡ Outcome.returns text
  pub closes : chat_with_client (text ∷ []) s ≡ Session.closed s'

bye_line : Text
bye_line = codes "BYE" ++ 10 ∷ []

encode-bye : encode (message MessageType.bye []) ≡ Outcome.returns bye_line
unfolding encode encode_as encode_all type_word bye_line
encode-bye = refl

decode-bye_line : decode bye_line ≡ Decoded.message (message MessageType.bye [])
unfolding decode decode_tokens tokens quoted_tokens words find_type type_word bye_line
decode-bye_line = refl

dispatch-bye : (s : State) → dispatch (message MessageType.bye []) s ≡ Result.returned (after_ok s)
unfolding dispatch bye
dispatch-bye s = rw (send_ok-after_ok s) refl

round-bye :
    (s : State)
    → s.conn.m_has_logged_in ≡ true
    → round (some bye_line) s ≡ Session.closed (after_ok s)
unfolding catch_all is_valid
round-bye s h =
    round_of_dispatch (message MessageType.bye []) bye_line s (Result.returned (after_ok s))
      decode-bye_line (ap (λ b. not b && true) h) refl (dispatch-bye s)

pub bye-Closes : (s : State) → s.conn.m_has_logged_in ≡ true → Closes s (after_ok s)
unfolding chat_with_client
bye-Closes s h = record {
  text = bye_line;
  bye_text = encode-bye;
  closes = rw (round-bye s h, chat_with_client) refl;
}

-- A program runs against a server: it returns 0, having sent what the server's loop reads up to its
-- end, and read, but for the last, what the server sends.
pub record IsServed (program : Talk → Exit) (s s' : State) : Type 0 where
  pub replies : List Text
  pub last : Talk
  pub returns_0 : program (record { sent = []; replies = replies }) ≡ succeeds [] last
  pub closes : chat_with_client last.sent s ≡ Session.closed s'
  pub sent : s'.sent ≡ s.sent ++ replies

pub script-IsServed :
    {ms : List Message} {s s1 s' : State} (program : Talk → Exit)
    → ((t t' : Talk) → Completes ms t t' → program t ≡ succeeds [] t')
    → Exchanges ms s s1
    → Closes s1 s'
    → s'.sent ≡ s1.sent ++ ok_line ∷ []
    → IsServed program s s'
script-IsServed {ms} {s} {s1} program runs x c o =
    let (u, a, e) = Exchanges-Answered x [] (ok_line ∷ []) in
    let last : Talk = record { sent = texts x ++ c.text ∷ []; replies = ok_line ∷ [] } in
    record {
      replies = oks (length ms) ++ ok_line ∷ [];
      last = last;
      returns_0 = runs _ last (record {
        last = u;
        all_answered = a;
        text = c.text;
        bye_text = c.bye_text;
        result = ap (λ v. record { sent = v.sent ++ c.text ∷ []; replies = v.replies }) (sym e);
      });
      closes = chat-texts x (c.text ∷ []) ∙ c.closes;
      sent =
          o
          ∙ ap (λ l. l ++ ok_line ∷ []) (sent-Exchanges x)
          ∙ append_assoc s.sent (oks (length ms)) (ok_line ∷ []);
    }
