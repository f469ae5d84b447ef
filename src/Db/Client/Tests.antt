-- ===== src/Db/Client/Tests.antt =====
-- The programs with a server that answers, and the theorem at such a server.
use csf.Base.{◌≡◌, ◌↔◌, refl, false, List, [], ◌∷◌, ◌++◌}
use csf.Db.{Text, codes}
use csf.Db.Encoding.{
  type_word, encode_args, encode_all, encode_as, encode, words, tokens, quoted_tokens, find_type,
  decode_tokens, decode,
}
use csf.Db.{push_arg}
use csf.Db.Client.{
  Talk, succeeds, fails, not_ok, get_quoted_text, ask, check_ok, handle_message, say_bye,
  get_value_main, increment, incr_value_main,
}
use csf.Db.Client.Script.{Completes, increment_script, increment_lem}

line : Text → Text
line text = text ++ 10 ∷ []

abbrev all_ok : Talk
all_ok = record {
  sent = [];
  replies =
      line (codes "OK")
      ∷ line (codes "OK")
      ∷ line (codes "OK")
      ∷ line (codes "OK")
      ∷ line (codes "OK")
      ∷ [];
}

abbrev incremented : Talk
incremented = record {
  sent =
      line (codes "LOGIN bob")
      ∷ line (codes "GET t k")
      ∷ line (codes "PUSH 1")
      ∷ line (codes "ADD")
      ∷ line (codes "SET t k")
      ∷ line (codes "BYE")
      ∷ [];
  replies = [];
}

abbrev arguments : List Text
arguments =
    codes "incr_value" ∷ codes "localhost" ∷ codes "5000" ∷ codes "bob" ∷ codes "t" ∷ codes "k" ∷ []

increments : incr_value_main arguments all_ok ≡ succeeds [] incremented
unfolding incr_value_main increment handle_message ask check_ok say_bye line type_word encode_args
    encode_all encode_as encode words tokens quoted_tokens find_type decode_tokens decode push_arg
increments = refl

-- The server answers the GET with FAILED.
no_such_key :
    get_value_main arguments (record {
      sent = [];
      replies = line (codes "OK") ∷ line (codes "FAILED \"no such key\"") ∷ [];
    })
    ≡ fails
        (not_ok (codes "no such key"))
        (record { sent = line (codes "LOGIN bob") ∷ line (codes "GET t k") ∷ []; replies = [] })
unfolding get_value_main handle_message ask check_ok get_quoted_text line type_word encode_args
    encode_all encode_as encode words tokens quoted_tokens find_type decode_tokens decode push_arg
no_such_key = refl

increment_lem_example :
    (increment false (codes "bob") (codes "t") (codes "k") all_ok ≡ succeeds [] incremented)
    ↔ Completes (increment_script false (codes "bob") (codes "t") (codes "k")) all_ok incremented
increment_lem_example = increment_lem false (codes "bob") (codes "t") (codes "k") all_ok incremented
