-- ===== src/Oid/Text.antt =====
-- `Oid::parse` and `Oid::toString` of src/Oid.cpp: the dotted text form.
pub mod RoundTrip
use snmpio.Common.{
  ℕ, zero, suc, ◌+◌, ◌-◌, ◌*◌, ◌/◌, ◌%◌, ◌^◌, Bool, true, false, not, ◌&&◌, Option, none, some,
  List, [], ◌∷◌, ◌++◌, ltb, leb, ◌==◌, if◌then◌else◌, length,
}
use snmpio.Oid.{Oid, max_subids}

-- Characters are their codes.
abbrev pub Text : Type 0
Text = List ℕ

abbrev pub dot : ℕ
dot = 46

abbrev pub is_digit : ℕ → Bool
is_digit c = leb 48 c && leb c 57

-- The digits in front, as `std::from_chars` reads them, and what is behind them.
unfoldable pub digits_value : ℕ → Text → ℕ × Text
digits_value acc [] = (acc, [])
digits_value acc (c ∷ cs) =
    let rest = digits_value (acc * 10 + (c - 48)) cs in if is_digit c then rest else (acc, c ∷ cs)

-- `std::from_chars` into 64 bits.
unfoldable pub from_chars : Text → Option (ℕ × Text)
from_chars text =
    let (v, rest) = digits_value 0 text in if ltb (2 ^ 64 - 1) v then none else some (v, rest)

-- A number that must be the whole of the part and fit a sub-identifier.
unfoldable pub fitting : Option (ℕ × Text) → Option ℕ
fitting none = none
fitting (some (v, x ∷ xs)) = none
fitting (some (v, [])) = if ltb (2 ^ 32 - 1) v then none else some v

unfoldable pub read_subid : Text → Option ℕ
read_subid [] = none
read_subid (c ∷ cs) = if not (is_digit c) then none else fitting (from_chars (c ∷ cs))

-- The part up to the next dot, and what is behind it if there is one.
unfoldable pub split_dot : Text → Text × Option Text
split_dot [] = ([], none)
split_dot (c ∷ cs) =
    let (part, rest) = split_dot cs in if c == dot then ([], some cs) else (c ∷ part, rest)

-- The loop over the parts; each but the last takes a dot at least.
unfoldable pub parse_loop : ℕ → Oid → Text → Option Oid
parse_loop zero result text = none
parse_loop (suc n) result text = elim (read_subid (split_dot text).0) [
  | none ↦ none
  | some v ↦ if length result == max_subids then none else elim (split_dot text).1 [
    | none ↦ some (result ++ v ∷ [])
    | some rest ↦ parse_loop n (result ++ v ∷ []) rest
  ]
]

unfoldable pub parse_parts : Text → Option Oid
parse_parts [] = none
parse_parts (c ∷ cs) = parse_loop (suc (length (c ∷ cs))) [] (c ∷ cs)

-- A leading dot is skipped.
unfoldable pub parse : Text → Option Oid
parse [] = none
parse (c ∷ cs) = if c == dot then parse_parts cs else parse_parts (c ∷ cs)

-- `std::to_chars`; ten digits hold every 32-bit number.
unfoldable pub digits_loop : ℕ → ℕ → Text → Text
digits_loop zero n acc = acc
digits_loop (suc f) n acc =
    let more = digits_loop f (n / 10) ((48 + n % 10) ∷ acc) in
    if ltb n 10 then (48 + n) ∷ acc else more

unfoldable pub to_chars : ℕ → Text
to_chars n = digits_loop 10 n []

unfoldable pub rest_string : Oid → Text
rest_string [] = []
rest_string (x ∷ xs) = dot ∷ (to_chars x ++ rest_string xs)

unfoldable pub to_string : Oid → Text
to_string [] = []
to_string (x ∷ xs) = to_chars x ++ rest_string xs
