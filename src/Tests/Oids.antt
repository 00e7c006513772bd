-- ===== src/Tests/Oids.antt =====
-- OIDs in a table's subtree.
use snmpio.Common.{none, some, All, length, ◌≤◌, ◌<◌, arith, true, [], ◌∷◌, ◌≡◌, refl}
use snmpio.Oid.{Oid, same_until, is_prefix_of, less}
use snmpio.Oid.Text.{
  Text, parse, parse_parts, parse_loop, read_subid, fitting, from_chars, digits_value, split_dot,
  to_string, rest_string, to_chars, digits_loop,
}
use snmpio.Oid.Text.RoundTrip.{parse-to_string, parse-stable}
use snmpio.Oid.{IsSubid, max_subids}
use snmpio.Oid.Order.{is_prefix_of-less}

abbrev table : Oid
table = 1 ∷ 3 ∷ 6 ∷ []

abbrev first : Oid
first = 1 ∷ 3 ∷ 6 ∷ 2 ∷ []

abbrev second : Oid
second = 1 ∷ 3 ∷ 6 ∷ 2 ∷ 7 ∷ []

abbrev third : Oid
third = 1 ∷ 3 ∷ 6 ∷ 300 ∷ []

first_before : less first second ≡ true
unfolding less
first_before = refl

second_before : less second third ≡ true
unfolding less
second_before = refl

first_inside : is_prefix_of table first ≡ true
unfolding is_prefix_of same_until
first_inside = refl

third_inside : is_prefix_of table third ≡ true
unfolding is_prefix_of same_until
third_inside = refl

is_prefix_of-less_example : is_prefix_of table second ≡ true
is_prefix_of-less_example =
    is_prefix_of-less table first second third first_inside third_inside first_before second_before

-- ".1.3.06" is accepted, and written as "1.3.6".
abbrev padded : Text
padded = 46 ∷ 49 ∷ 46 ∷ 51 ∷ 46 ∷ 48 ∷ 54 ∷ []

padded_read : parse padded ≡ some table
unfolding parse parse_parts parse_loop read_subid fitting from_chars digits_value split_dot
padded_read = refl

table_written : to_string table ≡ 49 ∷ 46 ∷ 51 ∷ 46 ∷ 54 ∷ []
unfolding to_string rest_string to_chars digits_loop
table_written = refl

-- "1..3" and "1." are refused.
gap_refused : (parse (49 ∷ 46 ∷ 46 ∷ 51 ∷ []) ≡ none) × (parse (49 ∷ 46 ∷ []) ≡ none)
unfolding parse parse_parts parse_loop read_subid fitting from_chars digits_value split_dot
gap_refused = (refl, refl)

parse-to_string_example : parse (to_string third) ≡ some third
parse-to_string_example = parse-to_string 1 (3 ∷ 6 ∷ 300 ∷ []) (omega arith) (omega arith)

parse-stable_example :
    All IsSubid table
    × (length table ≤ max_subids)
    × (0 < length table)
    × (parse (to_string table) ≡ some table)
parse-stable_example = parse-stable padded table padded_read
