-- ===== src/Db.antt =====
-- csf_assign05, the table server: message.h and message.cpp, exceptions.h. A `std::string` is the
-- list of its bytes. The children model the encoding of messages, the tables and the operand stack,
-- the integers that are read from texts, and the requests of a client.
pub mod Encoding
pub mod Store
pub mod Number
pub mod Connection
pub mod Client
pub mod Server
mod Tests
use Prim.Native.String.{String}
use Prim.Native.Char.{code}
use csf.Base.{
  ℕ, ◌≡◌, ◌↔◌, refl, ap₂, Bool, true, false, not, ◌&&◌, ◌||◌, List, [], ◌∷◌, ◌++◌, arith, leb, ◌==◌,
  ==_iff, length, get_or, if◌then◌else◌,
}
pub use csf.Base.Text.{Text, codes, same_text}

pub data MessageType : Type 0 where
  none login create push pop top set get add sub mul div begin commit bye : MessageType
  ok failed error «data» : MessageType

pub record Message : Type 0 where
  pub message_type : MessageType
  pub args : List Text

-- What the functions throw, with `what()`.
pub data Exception : Type 0 where
  invalid_message : Text → Exception
  comm_exception : Text → Exception
  operation_exception : Text → Exception
  failed_transaction : Text → Exception

-- `m_args[i]`, behind a test of the size.
abbrev pub arg : List Text → ℕ → Text
arg args i = get_or args i []

unfoldable pub get_username : Message → Text
get_username m = elim m.message_type [
  | MessageType.login ↦ if length m.args == 1 then arg m.args 0 else []
  | _ ↦ []
]

unfoldable pub get_table : Message → Text
get_table m = elim m.message_type [
  | MessageType.create ↦ if length m.args == 1 then arg m.args 0 else []
  | MessageType.set ↦ if length m.args == 2 then arg m.args 0 else []
  | MessageType.get ↦ if length m.args == 2 then arg m.args 0 else []
  | _ ↦ []
]

unfoldable pub get_key : Message → Text
get_key m = elim m.message_type [
  | MessageType.set ↦ if leb 2 (length m.args) then arg m.args 1 else []
  | MessageType.get ↦ if leb 2 (length m.args) then arg m.args 1 else []
  | _ ↦ []
]

unfoldable pub get_value : Message → Text
get_value m = elim m.message_type [
  | MessageType.push ↦ if length m.args == 1 then arg m.args 0 else []
  | MessageType.«data» ↦ if length m.args == 1 then arg m.args 0 else []
  | _ ↦ []
]

unfoldable pub push_arg : Message → Text → Message
push_arg m a = record m { args = m.args ++ a ∷ [] }

-- `std::isalpha` and `std::isalnum` in the C locale.
abbrev pub is_alpha : ℕ → Bool
is_alpha c = leb b'A' c && leb c b'Z' || leb b'a' c && leb c b'z'

abbrev pub is_alnum : ℕ → Bool
is_alnum c = is_alpha c || leb b'0' c && leb c b'9'

unfoldable pub all_identifier_chars : Text → Bool
all_identifier_chars [] = true
all_identifier_chars (c ∷ rest) = (is_alnum c || c == b'_') && all_identifier_chars rest

-- The same function stands in message.cpp and in client_connection.cpp.
unfoldable pub is_valid_identifier : Text → Bool
is_valid_identifier [] = false
is_valid_identifier (c ∷ rest) = (is_alpha c || c == b'_') && all_identifier_chars rest

unfoldable pub is_valid : Message → Bool
is_valid m =
    let args = m.args in
    elim m.message_type [
      | MessageType.login ↦ length args == 1
      | MessageType.push ↦ length args == 1
      | MessageType.failed ↦ length args == 1
      | MessageType.error ↦ length args == 1
      | MessageType.«data» ↦ length args == 1
      | MessageType.create ↦ length args == 1 && is_valid_identifier (arg args 0)
      | MessageType.set ↦
          length args == 2 && is_valid_identifier (arg args 0) && is_valid_identifier (arg args 1)
      | MessageType.get ↦
          length args == 2 && is_valid_identifier (arg args 0) && is_valid_identifier (arg args 1)
      | MessageType.none ↦ false
      | _ ↦ length args == 0
    ]

-- The name of a type that `print_message` prints.
unfoldable pub type_str : MessageType → Text
type_str MessageType.none = codes "NONE"
type_str MessageType.login = codes "LOGIN"
type_str MessageType.create = codes "CREATE"
type_str MessageType.push = codes "PUSH"
type_str MessageType.pop = codes "POP"
type_str MessageType.top = codes "TOP"
type_str MessageType.set = codes "SET"
type_str MessageType.get = codes "GET"
type_str MessageType.add = codes "ADD"
type_str MessageType.sub = codes "SUB"
type_str MessageType.mul = codes "MUL"
type_str MessageType.div = codes "DIV"
type_str MessageType.begin = codes "BEGIN"
type_str MessageType.commit = codes "COMMIT"
type_str MessageType.bye = codes "BYE"
type_str MessageType.ok = codes "OK"
type_str MessageType.failed = codes "FAILED"
type_str MessageType.error = codes "ERROR"
type_str MessageType.«data» = codes "DATA"

-- The loop, with what follows it.
unfoldable pub print_args : List Text → Text
print_args [] = 10 ∷ []
print_args (a ∷ args) = b' ' ∷ a ++ b' ' ∷ print_args args

-- What `print_message` prints.
unfoldable pub print_message : Message → Text
print_message m = type_str m.message_type ++ print_args m.args

pub same_text_iff : (s t : Text) → (same_text s t ≡ true) ↔ (s ≡ t)
same_text_iff [] [] = ground arith
same_text_iff [] (d ∷ t) = ground arith
same_text_iff (c ∷ s) [] = ground arith
same_text_iff (c ∷ s) (d ∷ t) = ground (arith, ==_iff c d, same_text_iff s t)
