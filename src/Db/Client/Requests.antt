-- ===== src/Db/Client/Requests.antt =====
-- The requests of a program, as they are encoded, and what the server's operations do with them.
use csf.Base.{
  ◌+◌, ◌≤◌, ◌≡◌, ◌≢◌, refl, ap, true, false, List, [], ◌∷◌, ◌++◌, some, ltb, length, length-append,
  arith,
}
use csf.Db.{Text, codes, MessageType, is_valid, is_valid_identifier, all_identifier_chars}
use csf.Db.Encoding.{encode, encode_as, encode_all, encode_args, is_quoted, type_word}
use csf.Db.Encoding.Roundtrip.{AllWords, IsWord, no_space}
use csf.Db.Client.{message}
use csf.Db.Client.Served.{IsRequest}

identifier_no_space : (s : Text) → all_identifier_chars s ≡ true → no_space s ≡ true
unfolding all_identifier_chars
identifier_no_space [] h = refl
identifier_no_space (c ∷ s) h = ground (arith, identifier_no_space s)

pub is_valid_identifier-IsWord : (s : Text) → is_valid_identifier s ≡ true → IsWord s
unfolding is_valid_identifier
is_valid_identifier-IsWord [] h = cc
is_valid_identifier-IsWord (c ∷ s) h = (ground (arith, identifier_no_space s), ground arith)

not-none : (type : MessageType) (word : Text) → type_word type ≡ some word → type ≢ MessageType.none
unfolding type_word
not-none type word w e = cc (w, ap type_word e)

-- A message of words whose line is short enough.
pub request :
    (type : MessageType) (word : Text) (args : List Text)
    → is_quoted type ≡ false
    → type_word type ≡ some word
    → AllWords args
    → is_valid (message type args) ≡ true
    → length (word ++ encode_all type args ++ 10 ∷ []) ≤ 1024
    → IsRequest type args
unfolding encode encode_as
request type word args q w a v l =
    let t : ltb 1024 (length (word ++ encode_all type args ++ 10 ∷ [])) ≡ false = ground arith in
    record {
      unquoted = q;
      named = not-none type word w;
      of_words = a;
      valid = v;
      line = word ++ encode_all type args ++ 10 ∷ [];
      fits = rw (w, encode_as, t) refl;
    }

module _ (a : Text) (valid : is_valid_identifier a ≡ true) where
  pub login-IsRequest : length a ≤ 1000 → IsRequest MessageType.login (a ∷ [])
  unfolding type_word is_valid encode_all encode_args
  login-IsRequest h =
      request MessageType.login (codes "LOGIN") (a ∷ []) refl refl
        (is_valid_identifier-IsWord a valid, tt) refl
        (omega (arith, length-append a [], length-append (a ++ []) (10 ∷ [])))

  module _ (b : Text) (valid_b : is_valid_identifier b ≡ true)
      (h : length a + length b ≤ 1000) where
    length-two : length ((b' ' ∷ a ++ (b' ' ∷ b ++ [])) ++ 10 ∷ []) ≡ length a + length b + 3
    length-two = omega (
      arith,
      length-append (a ++ (b' ' ∷ b ++ [])) (10 ∷ []),
      length-append a (b' ' ∷ b ++ []),
      length-append b [],
    )

    pub get-IsRequest : IsRequest MessageType.get (a ∷ b ∷ [])
    unfolding type_word is_valid encode_all encode_args
    get-IsRequest =
        request MessageType.get (codes "GET") (a ∷ b ∷ []) refl refl
          (is_valid_identifier-IsWord a valid, (is_valid_identifier-IsWord b valid_b, tt))
          (rw (valid, valid_b) refl) (omega (arith, length-two, h))

    pub set-IsRequest : IsRequest MessageType.set (a ∷ b ∷ [])
    unfolding type_word is_valid encode_all encode_args
    set-IsRequest =
        request MessageType.set (codes "SET") (a ∷ b ∷ []) refl refl
          (is_valid_identifier-IsWord a valid, (is_valid_identifier-IsWord b valid_b, tt))
          (rw (valid, valid_b) refl) (omega (arith, length-two, h))

pub push_one-IsRequest : IsRequest MessageType.push (codes "1" ∷ [])
unfolding type_word is_valid encode_all encode_args
push_one-IsRequest =
    request MessageType.push (codes "PUSH") (codes "1" ∷ []) refl refl ((refl, refl), tt) refl
      (omega arith)

pub add-IsRequest : IsRequest MessageType.add []
unfolding type_word is_valid encode_all encode_args
add-IsRequest = request MessageType.add (codes "ADD") [] refl refl tt refl (omega arith)
