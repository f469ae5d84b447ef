-- ===== src/Db/Encoding.antt =====
-- csf_assign05/message_serialization.cpp.
pub mod Roundtrip
use csf.Base.{
  ℕ, suc, ◌≡◌, refl, Bool, true, false, ◌&&◌, ◌||◌, List, [], ◌∷◌, ◌++◌, Option, none, some, ltb,
  leb, ◌==◌, length, if◌then◌else◌,
}
use csf.Base.Text.{is_space}
use csf.Db.{Text, codes, same_text, MessageType, Message, Exception, push_arg}

abbrev pub max_encoded_len : ℕ
max_encoded_len = 1024

-- The word for a type, and `none` for the default of the switch.
unfoldable pub type_word : MessageType → Option Text
type_word MessageType.none = none
type_word MessageType.login = some (codes "LOGIN")
type_word MessageType.create = some (codes "CREATE")
type_word MessageType.push = some (codes "PUSH")
type_word MessageType.pop = some (codes "POP")
type_word MessageType.top = some (codes "TOP")
type_word MessageType.set = some (codes "SET")
type_word MessageType.get = some (codes "GET")
type_word MessageType.add = some (codes "ADD")
type_word MessageType.sub = some (codes "SUB")
type_word MessageType.mul = some (codes "MUL")
type_word MessageType.div = some (codes "DIV")
type_word MessageType.begin = some (codes "BEGIN")
type_word MessageType.commit = some (codes "COMMIT")
type_word MessageType.bye = some (codes "BYE")
type_word MessageType.ok = some (codes "OK")
type_word MessageType.failed = some (codes "FAILED")
type_word MessageType.error = some (codes "ERROR")
type_word MessageType.«data» = some (codes "DATA")

-- The type whose first argument is written between quotes.
abbrev pub is_quoted : MessageType → Bool
is_quoted MessageType.failed = true
is_quoted MessageType.error = true
is_quoted _ = false

unfoldable pub encode_args : List Text → Text
encode_args [] = []
encode_args (a ∷ args) = b' ' ∷ a ++ encode_args args

unfoldable pub encode_all : MessageType → List Text → Text
encode_all type [] = []
encode_all type (a ∷ args) =
    if is_quoted type then b' ' ∷ b'"' ∷ a ++ b'"' ∷ encode_args args else encode_args (a ∷ args)

-- What a function returns, or throws.
pub data Outcome : Type 0 where
  returns : Text → Outcome
  raises : Exception → Outcome

-- The part after the switch, for the word that it wrote.
unfoldable pub encode_as : MessageType → List Text → Option Text → Outcome
encode_as type args none = Outcome.returns []
encode_as type args (some word) =
    let encoded = word ++ encode_all type args ++ 10 ∷ [] in
    if ltb max_encoded_len (length encoded)
    then Outcome.raises (Exception.invalid_message (codes "Encoded message exceeds maximum size"))
    else Outcome.returns encoded

unfoldable pub encode : Message → Outcome
encode m = encode_as m.message_type m.args (type_word m.message_type)

-- The words that `iss >> token` reads, where `word` is what the current one has so far.
unfoldable pub words : Text → Text → List Text
words [] [] = []
words (w ∷ word) [] = (w ∷ word) ∷ []
words [] (c ∷ s) = elim (is_space c) [ true ↦ words [] s | false ↦ words (c ∷ []) s ]
words (w ∷ word) (c ∷ s) = elim (is_space c) [
  | true ↦ (w ∷ word) ∷ words [] s
  | false ↦ words (w ∷ word ++ c ∷ []) s
]

abbrev pub front_is_quote : Text → Bool
front_is_quote [] = false
front_is_quote (c ∷ s) = c == b'"'

abbrev pub back_is : ℕ → Text → Bool
back_is q [] = false
back_is q (c ∷ []) = c == q
back_is q (c ∷ d ∷ s) = back_is q (d ∷ s)

abbrev pub pop_back : Text → Text
pop_back [] = []
pop_back (c ∷ []) = []
pop_back (c ∷ d ∷ s) = c ∷ pop_back (d ∷ s)

-- `quoted_token.substr(1, quoted_token.size() - 2)`, where the size is at least 2.
abbrev pub strip_quotes : Text → Text
strip_quotes [] = []
strip_quotes (c ∷ []) = c ∷ []
strip_quotes (c ∷ d ∷ s) = if back_is b'"' (d ∷ s) then pop_back (d ∷ s) else c ∷ d ∷ s

-- The loop that joins the words of a quoted text; `quoted` is `quoted_token`.
unfoldable mutual
  pub tokens : List Text → List Text
  tokens [] = []
  tokens (w ∷ ws) = elim (front_is_quote w) [
    | false ↦ w ∷ tokens ws
    | true ↦ elim (back_is b'"' w) [
      | true ↦ strip_quotes w ∷ tokens ws
      | false ↦ quoted_tokens w ws
    ]
  ]

  pub quoted_tokens : Text → List Text → List Text
  quoted_tokens quoted [] = strip_quotes quoted ∷ []
  quoted_tokens quoted (w ∷ ws) =
      let quoted' = quoted ++ b' ' ∷ w in
      elim (back_is b'"' quoted') [
        | true ↦ strip_quotes quoted' ∷ tokens ws
        | false ↦ quoted_tokens quoted' ws
      ]

abbrev pub all_types : List MessageType
all_types =
    MessageType.login ∷ MessageType.create ∷ MessageType.push ∷ MessageType.pop ∷ MessageType.top
    ∷ MessageType.set ∷ MessageType.get ∷ MessageType.add ∷ MessageType.sub ∷ MessageType.mul
    ∷ MessageType.div ∷ MessageType.begin ∷ MessageType.commit ∷ MessageType.bye ∷ MessageType.ok
    ∷ MessageType.failed ∷ MessageType.error ∷ MessageType.«data» ∷ []

abbrev pub is_word_of : Text → MessageType → Bool
is_word_of token type = elim (type_word type) [ none ↦ false | some word ↦ same_text word token ]

-- `type_map.find(tokens[0])`.
unfoldable pub find_type : Text → List MessageType → Option MessageType
find_type token [] = none
find_type token (type ∷ types) = if is_word_of token type then some type else find_type token types

pub data Decoded : Type 0 where
  message : Message → Decoded
  raises : Exception → Decoded

abbrev pub invalid : Text → Decoded
invalid text = Decoded.raises (Exception.invalid_message text)

abbrev pub push_args : Message → List Text → Message
push_args m [] = m
push_args m (a ∷ args) = push_args (push_arg m a) args

unfoldable pub decode_tokens : List Text → Decoded
decode_tokens [] = invalid (codes "Empty message received")
decode_tokens (t ∷ ts) = elim (find_type t all_types) [
  | none ↦ invalid (codes "Unknown message type: " ++ t)
  | some type ↦ Decoded.message (push_args (record { message_type = type; args = [] }) ts)
]

unfoldable pub decode : Text → Decoded
decode [] = invalid (codes "Empty message received")
decode (c ∷ s) =
    if back_is 10 (c ∷ s)
    then decode_tokens (tokens (words [] (pop_back (c ∷ s))))
    else invalid (codes "Message didn't end with a newline")
