-- ===== src/Db/Encoding/Roundtrip.antt =====
-- A message of words is read back as it was written.
use mathlib.Core.Logic.{◌≢◌}
use csf.Base.{
  ℕ, ◌≡◌, refl, sym, ap, ◌∙◌, Bool, true, false, not, ◌&&◌, List, [], ◌∷◌, ◌++◌, append-nil,
  append_assoc, Option, none, some, arith, inl, inr, ltb, ◌==◌, length, Bool-cases,
}
use csf.Base.Text.{is_space}
use csf.Db.{Text, MessageType, push_arg}
use csf.Db.Encoding.{
  type_word, is_quoted, encode_args, encode_all, Outcome, encode, encode_as, words, back_is,
  pop_back, tokens, all_types, find_type, Decoded, push_args, decode_tokens, decode,
  max_encoded_len,
}

abbrev pub no_space : Text → Bool
no_space [] = true
no_space (c ∷ s) = not (is_space c) && no_space s

-- A text that `>>` reads whole, and that does not begin like a quoted one.
abbrev pub IsWord : Text → Type 0
IsWord [] = ⊥
IsWord (c ∷ s) = (no_space (c ∷ s) ≡ true) × ((c == b'"') ≡ false)

abbrev pub AllWords : List Text → Type 0
AllWords [] = Unit
AllWords (a ∷ args) = IsWord a × AllWords args

words-append :
    (word s rest : Text) → no_space s ≡ true → words word (s ++ rest) ≡ words (word ++ s) rest
unfolding words
words-append word [] rest h = ap (λ w. words w rest) (sym (append-nil word))
words-append [] (c ∷ s) rest h = elim (Bool-cases (is_space c)) [
  | inl q ↦ absurd (ground (arith, q))
  | inr q ↦ rw (q, words) (words-append (c ∷ []) s rest (ground (arith, q)))
]
words-append (w ∷ word) (c ∷ s) rest h = elim (Bool-cases (is_space c)) [
  | inl q ↦ absurd (ground (arith, q))
  | inr q ↦
      rw (q, words)
        (words-append (w ∷ word ++ c ∷ []) s rest (ground (arith, q))
          ∙ ap (λ v. words (w ∷ v) rest) (append_assoc word (c ∷ []) s))
]

-- The words of a text and the arguments after it.
words-encode_args :
    (word : Text) (args : List Text)
    → IsWord word
    → AllWords args
    → words word (encode_args args) ≡ word ∷ args
unfolding words encode_args
words-encode_args [] args h k = elim h [ ]
words-encode_args (c ∷ word) [] h k = refl
words-encode_args (c ∷ word) ([] ∷ args) h k = elim k.0 [ ]
words-encode_args (c ∷ word) ((d ∷ a) ∷ args) h k =
    ap (λ ws. (c ∷ word) ∷ ws)
      (words-append [] (d ∷ a) (encode_args args) k.0.0 ∙ words-encode_args (d ∷ a) args k.0 k.1)

tokens-AllWords : (args : List Text) → AllWords args → tokens args ≡ args
unfolding tokens
tokens-AllWords [] h = refl
tokens-AllWords ([] ∷ args) h = elim h.0 [ ]
tokens-AllWords ((c ∷ a) ∷ args) h =
    rw (h.0.1, tokens) (ap (λ ws. (c ∷ a) ∷ ws) (tokens-AllWords args h.1))

pop_back-append : (s : Text) (c : ℕ) → pop_back (s ++ c ∷ []) ≡ s
pop_back-append [] c = refl
pop_back-append (d ∷ []) c = refl
pop_back-append (d ∷ e ∷ s) c = ap (λ r. d ∷ r) (pop_back-append (e ∷ s) c)

back_is-append : (s : Text) (c : ℕ) → back_is c (s ++ c ∷ []) ≡ (c == c)
back_is-append [] c = refl
back_is-append (d ∷ []) c = refl
back_is-append (d ∷ e ∷ s) c = back_is-append (e ∷ s) c

decode_line :
    (c : ℕ) (s : Text) → decode (c ∷ s ++ 10 ∷ []) ≡ decode_tokens (tokens (words [] (c ∷ s)))
unfolding decode
decode_line c s = rw (back_is-append (c ∷ s) 10, pop_back-append (c ∷ s) 10)

push_args_lem :
    (type : MessageType) (xs args : List Text)
    → push_args (record { message_type = type; args = xs }) args
      ≡ record { message_type = type; args = xs ++ args }
unfolding push_arg
push_args_lem type xs [] =
    ap (λ ys. record { message_type = type; args = ys }) (sym (append-nil xs))
push_args_lem type xs (a ∷ args) =
    push_args_lem type (xs ++ a ∷ []) args
    ∙ ap (λ ys. record { message_type = type; args = ys }) (append_assoc xs (a ∷ []) args)

-- The word of a type names it, and is a word.
abbrev pub IsNamed : MessageType → Option Text → Type 0
IsNamed type none = type ≡ MessageType.none
IsNamed type (some word) = (find_type word all_types ≡ some type) × IsWord word

type_word-IsNamed : (type : MessageType) → IsNamed type (type_word type)
unfolding find_type type_word
type_word-IsNamed MessageType.none = refl
type_word-IsNamed MessageType.login = (refl, (refl, refl))
type_word-IsNamed MessageType.create = (refl, (refl, refl))
type_word-IsNamed MessageType.push = (refl, (refl, refl))
type_word-IsNamed MessageType.pop = (refl, (refl, refl))
type_word-IsNamed MessageType.top = (refl, (refl, refl))
type_word-IsNamed MessageType.set = (refl, (refl, refl))
type_word-IsNamed MessageType.get = (refl, (refl, refl))
type_word-IsNamed MessageType.add = (refl, (refl, refl))
type_word-IsNamed MessageType.sub = (refl, (refl, refl))
type_word-IsNamed MessageType.mul = (refl, (refl, refl))
type_word-IsNamed MessageType.div = (refl, (refl, refl))
type_word-IsNamed MessageType.begin = (refl, (refl, refl))
type_word-IsNamed MessageType.commit = (refl, (refl, refl))
type_word-IsNamed MessageType.bye = (refl, (refl, refl))
type_word-IsNamed MessageType.ok = (refl, (refl, refl))
type_word-IsNamed MessageType.failed = (refl, (refl, refl))
type_word-IsNamed MessageType.error = (refl, (refl, refl))
type_word-IsNamed MessageType.«data» = (refl, (refl, refl))

encode_all-encode_args :
    (type : MessageType) (args : List Text)
    → is_quoted type ≡ false
    → encode_all type args ≡ encode_args args
unfolding encode_all encode_args
encode_all-encode_args type [] h = refl
encode_all-encode_args type (a ∷ args) h = rw h

decode_written :
    (type : MessageType) (word : Text) (args : List Text)
    → IsNamed type (some word)
    → AllWords args
    → decode (word ++ encode_args args ++ 10 ∷ [])
      ≡ Decoded.message (record { message_type = type; args = args })
unfolding decode_tokens
decode_written type [] args n k = elim n.1 [ ]
decode_written type (c ∷ word) args n k =
    let e : tokens (words [] (c ∷ word ++ encode_args args)) ≡ (c ∷ word) ∷ args =
      ap tokens (
        words-append [] (c ∷ word) (encode_args args) n.1.0
        ∙ words-encode_args (c ∷ word) args n.1 k)
      ∙ tokens-AllWords ((c ∷ word) ∷ args) (n.1, k) in
    decode_line c (word ++ encode_args args)
    ∙ ap decode_tokens e
    ∙ rw (n.0, decode_tokens) (ap Decoded.message (push_args_lem type [] args))

encode_as_lem :
    (type : MessageType) (args : List Text) (o : Option Text) (text : Text)
    → IsNamed type o
    → is_quoted type ≡ false
    → type ≢ MessageType.none
    → AllWords args
    → encode_as type args o ≡ Outcome.returns text
    → decode text ≡ Decoded.message (record { message_type = type; args = args })
unfolding encode_as
encode_as_lem type args none text h q n k e = absurd (n h)
encode_as_lem type args (some word) text h q n k e =
    let encoded = word ++ encode_all type args ++ 10 ∷ [] in
    elim (Bool-cases (ltb max_encoded_len (length encoded))) [
      | inl l ↦ absurd (ground (arith, l, e))
      | inr l ↦
          let t : encoded ≡ text = ground (arith, l, e) in
          ap decode (sym t)
          ∙ ap (λ r. decode (word ++ r ++ 10 ∷ [])) (encode_all-encode_args type args q)
          ∙ decode_written type word args h k
    ]

-- What `encode` returns for a message of words, of a type that is neither FAILED, ERROR nor
-- NONE, is decoded as that message.
pub decode-encode :
    (type : MessageType) (args : List Text) (text : Text)
    → is_quoted type ≡ false
    → type ≢ MessageType.none
    → AllWords args
    → encode (record { message_type = type; args = args }) ≡ Outcome.returns text
    → decode text ≡ Decoded.message (record { message_type = type; args = args })
unfolding encode
decode-encode type args text q n k e =
    encode_as_lem type args (type_word type) text (type_word-IsNamed type) q n k e
