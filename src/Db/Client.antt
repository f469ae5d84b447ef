-- ===== src/Db/Client.antt =====
-- csf_assign05: get_value.cpp, set_value.cpp and incr_value.cpp, with `get_quoted_text` of message.cpp.
-- A program is connected to a server whose replies are a list of lines; `open_clientfd` has succeeded.
pub mod Script
pub mod Served
pub mod Requests
pub mod Dispatched
pub mod Incremented
pub mod Locked
pub mod Transacted
mod Tests
use csf.Base.{
  ℕ, ◌+◌, Bool, true, false, not, ◌&&◌, ◌||◌, List, [], ◌∷◌, ◌++◌, length, ◌==◌, if◌then◌else◌,
}
use csf.Db.{Text, codes, same_text, MessageType, Message, Exception, arg, get_value}
use csf.Db.Encoding.{Outcome, Decoded, encode, decode}

unfoldable pub get_quoted_text : Message → Text
get_quoted_text m = elim m.message_type [
  | MessageType.failed ↦ if length m.args == 1 then arg m.args 0 else []
  | MessageType.error ↦ if length m.args == 1 then arg m.args 0 else []
  | _ ↦ []
]

-- What was sent, and the replies that are still to be read.
pub record Talk : Type 0 where
  pub sent : List Text
  pub replies : List Text

-- Why a program returns 1: its arguments, a reply that is not OK, or one that is not DATA.
pub data Failure : Type 0 where
  usage : Failure
  not_ok : Text → Failure
  not_data : MessageType → Failure

-- How a program ends, with what it sent: 0 with the lines that it prints, 1, an exception that nothing
-- catches, or a reply that does not come, where it reads a buffer that nothing wrote.
pub data Exit : Type 0 where
  succeeds : List Text → Talk → Exit
  fails : Failure → Talk → Exit
  terminates : Talk → Exit
  no_reply : Talk → Exit

abbrev pub with_reply : Decoded → Talk → (Message → Talk → Exit) → Exit
with_reply (Decoded.raises e) talk next = terminates talk
with_reply (Decoded.message msg) talk next = next msg talk

-- `Rio_readlineb` and `decode`.
abbrev pub read_reply : List Text → List Text → (Message → Talk → Exit) → Exit
read_reply sent [] next = no_reply (record { sent = sent; replies = [] })
read_reply sent (line ∷ lines) next =
    with_reply (decode line) (record { sent = sent; replies = lines }) next

abbrev pub write_message : Outcome → Talk → (List Text → Exit) → Exit
write_message (Outcome.raises e) talk next = terminates talk
write_message (Outcome.returns text) talk next = next (talk.sent ++ text ∷ [])

-- `encode`, `Rio_writen`, `Rio_readlineb` and `decode`.
unfoldable pub ask : Message → Talk → (Message → Talk → Exit) → Exit
ask m talk next = write_message (encode m) talk (λ sent. read_reply sent talk.replies next)

abbrev pub is_ok : MessageType → Bool
is_ok MessageType.ok = true
is_ok _ = false

abbrev pub is_data : MessageType → Bool
is_data MessageType.«data» = true
is_data _ = false

-- What `handle_message` does with the reply.
unfoldable pub check_ok : (Talk → Exit) → Message → Talk → Exit
check_ok next msg talk =
    if not (is_ok msg.message_type) then fails (not_ok (get_quoted_text msg)) talk else next talk

unfoldable pub handle_message : Message → (Talk → Exit) → Talk → Exit
handle_message m next talk = ask m talk (check_ok next)

abbrev pub message : MessageType → List Text → Message
message type args = record { message_type = type; args = args }

-- The last block: BYE, whose reply nobody reads.
unfoldable pub say_bye : List Text → Talk → Exit
say_bye out talk =
    write_message (encode (message MessageType.bye [])) talk
      (λ sent. succeeds out (record { sent = sent; replies = talk.replies }))

-- The block of `get_value` that prints.
unfoldable pub print_data : Message → Talk → Exit
print_data msg talk =
    if is_data msg.message_type
    then say_bye (get_value msg ∷ []) talk
    else fails (not_data msg.message_type) talk

unfoldable pub get_value_main : List Text → Talk → Exit
get_value_main argv talk =
    let table = arg argv 4 in
    let key = arg argv 5 in
    if not (length argv == 6)
    then fails usage talk
    else handle_message (message MessageType.login (arg argv 3 ∷ []))
        (handle_message (message MessageType.get (table ∷ key ∷ []))
          (λ t. ask (message MessageType.top []) t print_data))
        talk

unfoldable pub set_value_main : List Text → Talk → Exit
set_value_main argv talk =
    let table = arg argv 4 in
    let key = arg argv 5 in
    if not (length argv == 7)
    then fails usage talk
    else handle_message (message MessageType.login (arg argv 3 ∷ []))
        (handle_message (message MessageType.push (arg argv 6 ∷ []))
          (handle_message (message MessageType.set (table ∷ key ∷ [])) (say_bye [])))
        talk

-- `if (use_transaction) handle_message(...)`.
abbrev pub handle_if : Bool → Message → (Talk → Exit) → Talk → Exit
handle_if b m next talk = if b then handle_message m next talk else next talk

-- The body of `incr_value` behind its arguments.
unfoldable pub increment : Bool → Text → Text → Text → Talk → Exit
increment use_transaction username table key =
    handle_message (message MessageType.login (username ∷ [])) (
      handle_if use_transaction (message MessageType.begin []) (
        handle_message (message MessageType.get (table ∷ key ∷ [])) (
          handle_message (message MessageType.push (codes "1" ∷ [])) (
            handle_message (message MessageType.add []) (
              handle_message (message MessageType.set (table ∷ key ∷ []))
                (handle_if use_transaction (message MessageType.commit []) (say_bye [])))))))

unfoldable pub incr_value_main : List Text → Talk → Exit
incr_value_main argv talk =
    let use_transaction = length argv == 7 in
    let count = if use_transaction then 2 else 1 in
    if not (length argv == 6)
      && (not (length argv == 7) || not (same_text (arg argv 1) (codes "-t")))
    then fails usage talk
    else increment use_transaction (arg argv (count + 2)) (arg argv (count + 3))
        (arg argv (count + 4)) talk
