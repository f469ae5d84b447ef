-- ===== src/Db/Client/Script.antt =====
-- What a program that succeeds has sent, and what it was answered.
use csf.Base.{
  ◌≡◌, ◌↔◌, ◌∙◌, refl, sym, ap, subst, Bool, true, false, not, List, [], ◌∷◌, ◌++◌, arith, if_lem,
  if◌then◌else◌,
}
use csf.Db.{Text, codes, MessageType, Message}
use csf.Db.Encoding.{Outcome, Decoded, encode, decode}
use csf.Db.Client.{
  Talk, Exit, succeeds, fails, terminates, no_reply, with_reply, read_reply, write_message, ask,
  is_ok, check_ok, handle_message, message, say_bye, handle_if, increment, not_ok, get_quoted_text,
}

-- The messages are sent in turn, and each is answered by an OK.
pub data Answered : List Message → Talk → Talk → Type 0 where
  finished : {t : Talk} → Answered [] t t
  answered :
      {m : Message} {ms : List Message} {t t' : Talk} {reply : Message} (text line : Text)
      (lines : List Text)
      → encode m ≡ Outcome.returns text
      → t.replies ≡ line ∷ lines
      → decode line ≡ Decoded.message reply
      → is_ok reply.message_type ≡ true
      → Answered ms (record { sent = t.sent ++ text ∷ []; replies = lines }) t'
      → Answered (m ∷ ms) t t'

-- A program that succeeds was answered its script, and said BYE.
abbrev pub Scripted : List Message → Talk → Exit → Type 0
Scripted ms t (succeeds out t') =
    (u : Talk) × Answered ms t u
    × (text : Text) × (encode (message MessageType.bye []) ≡ Outcome.returns text)
    × (t' ≡ record { sent = u.sent ++ text ∷ []; replies = u.replies })
Scripted ms t (fails reason t') = Unit {0}
Scripted ms t (terminates t') = Unit {0}
Scripted ms t (no_reply t') = Unit {0}

bye-Scripted :
    (out : List Text) (t : Talk) (o : Outcome)
    → encode (message MessageType.bye []) ≡ o
    → Scripted [] t
        (write_message o t (λ sent. succeeds out (record { sent = sent; replies = t.replies })))
bye-Scripted out t (Outcome.raises x) e = tt
bye-Scripted out t (Outcome.returns text) e = (t, finished, text, e, refl)

pub say_bye-Scripted : (out : List Text) (t : Talk) → Scripted [] t (say_bye out t)
unfolding say_bye
say_bye-Scripted out t = bye-Scripted out t (encode (message MessageType.bye [])) refl

-- One more message in front.
extend :
    (m : Message) (ms : List Message) (t t1 : Talk) (r : Exit)
    → ((u : Talk) → Answered ms t1 u → Answered (m ∷ ms) t u)
    → Scripted ms t1 r
    → Scripted (m ∷ ms) t r
extend m ms t t1 (succeeds out t') step (u, a, text, e, f) = (u, step u a, text, e, f)
extend m ms t t1 (fails reason t') step h = tt
extend m ms t t1 (terminates t') step h = tt
extend m ms t t1 (no_reply t') step h = tt

module _ (m : Message) (ms : List Message) (next : Talk → Exit) (t : Talk)
    (h : (t' : Talk) → Scripted ms t' (next t')) where
  decoded-Scripted :
      (text line : Text) (lines : List Text) (d : Decoded)
      → encode m ≡ Outcome.returns text
      → t.replies ≡ line ∷ lines
      → decode line ≡ d
      → Scripted
          (m ∷ ms)
          t
          (with_reply d (record { sent = t.sent ++ text ∷ []; replies = lines }) (check_ok next))
  unfolding check_ok
  decoded-Scripted text line lines (Decoded.raises x) e f g = tt
  decoded-Scripted text line lines (Decoded.message reply) e f g =
      let t1 : Talk = record { sent = t.sent ++ text ∷ []; replies = lines } in
      if_lem (λ (r : Exit). Scripted (m ∷ ms) t r) (not (is_ok reply.message_type)) (λ p. tt)
        (λ p.
          extend m ms t t1 (next t1) (λ u a. answered text line lines e f g (ground (arith, p)) a)
            (h t1))

  replied-Scripted :
      (text : Text) (lines : List Text)
      → encode m ≡ Outcome.returns text
      → t.replies ≡ lines
      → Scripted (m ∷ ms) t (read_reply (t.sent ++ text ∷ []) lines (check_ok next))
  replied-Scripted text [] e f = tt
  replied-Scripted text (line ∷ lines) e f = decoded-Scripted text line lines (decode line) e f refl

  encoded-Scripted :
      (o : Outcome)
      → encode m ≡ o
      → Scripted (m ∷ ms) t (write_message o t (λ sent. read_reply sent t.replies (check_ok next)))
  encoded-Scripted (Outcome.raises x) e = tt
  encoded-Scripted (Outcome.returns text) e = replied-Scripted text t.replies e refl

  pub handle_message-Scripted : Scripted (m ∷ ms) t (handle_message m next t)
  unfolding handle_message ask
  handle_message-Scripted = encoded-Scripted (encode m) refl

-- The requests of `incr_value`.
abbrev pub transaction : Bool → MessageType → List Message → List Message
transaction true type ms = message type [] ∷ ms
transaction false type ms = ms

abbrev pub increment_script : Bool → Text → Text → Text → List Message
increment_script use_transaction username table key =
    message MessageType.login (username ∷ [])
    ∷ transaction use_transaction MessageType.begin (
        message MessageType.get (table ∷ key ∷ [])
        ∷ message MessageType.push (codes "1" ∷ [])
        ∷ message MessageType.add []
        ∷ message MessageType.set (table ∷ key ∷ [])
        ∷ transaction use_transaction MessageType.commit [])

handle_if-Scripted :
    (b : Bool) (type : MessageType) (ms : List Message) (next : Talk → Exit) (t : Talk)
    → ((t' : Talk) → Scripted ms t' (next t'))
    → Scripted (transaction b type ms) t (handle_if b (message type []) next t)
handle_if-Scripted true type ms next t h = handle_message-Scripted (message type []) ms next t h
handle_if-Scripted false type ms next t h = h t

increment-Scripted :
    (use_transaction : Bool) (username table key : Text) (t : Talk)
    → Scripted
        (increment_script use_transaction username table key)
        t
        (increment use_transaction username table key t)
unfolding increment
increment-Scripted b username table key t = handle_message-Scripted _ _ _ t (λ t1.
    handle_if-Scripted b MessageType.begin _ _ t1 (λ t2. handle_message-Scripted _ _ _ t2 (λ t3.
      handle_message-Scripted _ _ _ t3 (λ t4. handle_message-Scripted _ _ _ t4 (λ t5.
        handle_message-Scripted _ _ _ t5 (λ t6.
          handle_if-Scripted b MessageType.commit [] _ t6 (λ t7. say_bye-Scripted [] t7)))))))

-- An OK leads on to the next message.
next_message :
    (m : Message) (ms : List Message) (next : Talk → Exit) (t u : Talk)
    → Answered (m ∷ ms) t u
    → (t1 : Talk) × (handle_message m next t ≡ next t1) × Answered ms t1 u
unfolding handle_message ask check_ok
next_message m ms next t u (answered {reply = reply} text line lines e f g ok a) =
    let t1 : Talk = record { sent = t.sent ++ text ∷ []; replies = lines } in
    (
      t1,
      ap (λ o. write_message o t (λ sent. read_reply sent t.replies (check_ok next))) e
          ∙ ap (λ l. read_reply (t.sent ++ text ∷ []) l (check_ok next)) f
          ∙ ap (λ d. with_reply d t1 (check_ok next)) g
          ∙ ap (λ b. if not b then fails (not_ok (get_quoted_text reply)) t1 else next t1) ok,
      a,
    )

-- The messages were answered, and BYE was sent.
pub record Completes (ms : List Message) (t t' : Talk) : Type 0 where
  pub last : Talk
  pub all_answered : Answered ms t last
  pub text : Text
  pub bye_text : encode (message MessageType.bye []) ≡ Outcome.returns text
  pub result : t' ≡ record { sent = last.sent ++ text ∷ []; replies = last.replies }

finished_lem : {t u : Talk} → Answered [] t u → u ≡ t
finished_lem finished = refl

said_bye : (t t' : Talk) → Completes [] t t' → say_bye [] t ≡ succeeds [] t'
unfolding say_bye
said_bye t t' c =
    ap (λ o. write_message o t (λ sent. succeeds [] (record { sent = sent; replies = t.replies })))
      c.bye_text
    ∙ ap (λ v. succeeds [] (record { sent = v.sent ++ c.text ∷ []; replies = v.replies }))
        (sym (finished_lem c.all_answered))
    ∙ ap (succeeds []) (sym c.result)

-- A program that goes on from an answered message, and one that succeeds from there on.
next_succeeds :
    (m : Message) (ms : List Message) (next : Talk → Exit) (t t' : Talk)
    → ((t1 : Talk) → Completes ms t1 t' → next t1 ≡ succeeds [] t')
    → Completes (m ∷ ms) t t'
    → handle_message m next t ≡ succeeds [] t'
next_succeeds m ms next t t' h c =
    let (t1, e, a) = next_message m ms next t c.last c.all_answered in
    e
    ∙ h t1 (record {
      last = c.last;
      all_answered = a;
      text = c.text;
      bye_text = c.bye_text;
      result = c.result;
    })

next_if :
    (b : Bool) (type : MessageType) (ms : List Message) (next : Talk → Exit) (t t' : Talk)
    → ((t1 : Talk) → Completes ms t1 t' → next t1 ≡ succeeds [] t')
    → Completes (transaction b type ms) t t'
    → handle_if b (message type []) next t ≡ succeeds [] t'
next_if true type ms next t t' h c = next_succeeds (message type []) ms next t t' h c
next_if false type ms next t t' h c = h t c

pub increment_succeeds :
    (use_transaction : Bool) (username table key : Text) (t t' : Talk)
    → Completes (increment_script use_transaction username table key) t t'
    → increment use_transaction username table key t ≡ succeeds [] t'
unfolding increment
increment_succeeds b username table key t t' c =
    next_succeeds _ _ _ t t'
      (λ t1. next_if b MessageType.begin _ _ t1 t' (λ t2. next_succeeds _ _ _ t2 t' (λ t3.
        next_succeeds _ _ _ t3 t' (λ t4. next_succeeds _ _ _ t4 t' (λ t5.
          next_succeeds _ _ _ t5 t'
            (λ t6. next_if b MessageType.commit [] _ t6 t' (λ t7 c'. said_bye t7 t' c')))))))
      c

completes : (ms : List Message) (t t' : Talk) → Scripted ms t (succeeds [] t') → Completes ms t t'
completes ms t t' (u, a, text, e, f) = record {
  last = u;
  all_answered = a;
  text = text;
  bye_text = e;
  result = f;
}

-- The body of `incr_value` returns 0 exactly where the server answers OK to each of its requests, in
-- their order, with BEGIN and COMMIT around the four on the value where a transaction was asked for;
-- then BYE has been sent after them, and nothing else.
pub increment_lem :
    (use_transaction : Bool) (username table key : Text) (t t' : Talk)
    → (increment use_transaction username table key t ≡ succeeds [] t')
      ↔ Completes (increment_script use_transaction username table key) t t'
increment_lem b username table key t t' = (
  λ e. completes (increment_script b username table key) t t' (
      subst (Scripted (increment_script b username table key) t) e
        (increment-Scripted b username table key t)),
  increment_succeeds b username table key t t',
)
