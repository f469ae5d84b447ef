-- ===== src/Db/Number.antt =====
-- The integers of the operand stack: what client_connection.cpp uses of `std::stoi` and
-- `std::to_string`, with a 32-bit `int`.
pub mod Printed
pub use csf.Base.Text.Scan.{Parsed, in_int}
use csf.Base.{
  ℕ, zero, suc, ◌+◌, ◌-◌, ◌*◌, ◌/◌, ◌%◌, ◌^◌, ◌≡◌, refl, Bool, true, false, ◌&&◌, ◌||◌, List, [],
  ◌∷◌, ◌++◌, Option, none, some, ltb, leb, ◌==◌, if◌then◌else◌,
}
use csf.Base.Int.{ℤ, pos, negsuc, ◌-ℤ◌}
use csf.Db.{Text, codes}
use csf.Base.Text.Scan.{scan_integer}
use csf.Base.Text.{is_space, is_digit, digits, print}

-- What `std::stoi` gives: the integer with the rest of the text after it, or an exception.
unfoldable pub stoi : Text → Parsed
stoi s = scan_integer in_int s

unfoldable pub to_string : ℤ → Text
to_string (pos n) = print 10 n []
to_string (negsuc n) = b'-' ∷ print 10 (suc n) []

-- `s.find('.') != std::string::npos`.
abbrev pub has_dot : Text → Bool
has_dot [] = false
has_dot (c ∷ s) = c == b'.' || has_dot s

-- `s == ""`.
abbrev pub is_empty_text : Text → Bool
is_empty_text [] = true
is_empty_text (c ∷ s) = false
