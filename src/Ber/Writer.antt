-- ===== src/Ber/Writer.antt =====
-- src/BerWriter.cpp and include/snmpio/ber/Writer.hpp: BER into a growing buffer.
pub mod Shape
pub mod Values
use snmpio.Common.{
  ℕ, zero, suc, ◌+◌, ◌-◌, ◌*◌, ◌%◌, Bool, true, false, not, ◌&&◌, Option, none, some, List, [], ◌∷◌,
  ◌++◌, ltb, leb, ◌==◌, if◌then◌else◌, length, get_or, set, take, drop, replicate,
}
use snmpio.Common.Int32.{ℤ, is_negative, to_u32}
use snmpio.Common.Bytes.{top_bit, shr, bytes_be}
use snmpio.Error.{Errc, unexpected_tag, oid_not_encodable}
use snmpio.Oid.{Oid, is_encodable}
use snmpio.Value.{Octets, Value, Varbind, ValueException}
use snmpio.Ber.Tag

pub record Writer : Type 0 where
  pub buf : List ℕ
  pub ec : Option Errc

unfoldable pub new : Writer
new = record { buf = []; ec = none }

abbrev pub has_error : Writer → Bool
has_error w = elim w.ec [ none ↦ false | some e ↦ true ]

unfoldable pub fail : Errc → Writer → Writer
fail e w = if has_error w then w else record w { ec = some e }

abbrev pub put : ℕ → Writer → Writer
put b w = record w { buf = w.buf ++ b ∷ [] }

abbrev pub put_tag : ℕ → Writer → Writer
put_tag t w = put t w

-- `put` of each octet of a run, first to last.
abbrev pub put_each : List ℕ → Writer → Writer
put_each [] w = w
put_each (b ∷ bs) w = put_each bs (put b w)

-- `for (v = n; v != 0; v >>= 8) ++significant;` A `std::size_t` is used up after eight rounds.
unfoldable pub significant_loop : ℕ → ℕ → ℕ → ℕ
significant_loop zero v significant = significant
significant_loop (suc f) v significant =
    let rest = significant_loop f (shr v 8) (significant + 1) in
    if v == 0 then significant else rest

unfoldable pub length_octets : ℕ → ℕ
length_octets n = if ltb n 0x80 then 1 else 1 + significant_loop 8 n 0

-- `while (v >= 0x80) { v >>= 7; ++n; }` A `std::uint64_t` is below 0x80 after nine rounds.
unfoldable pub subid_loop : ℕ → ℕ → ℕ → ℕ
subid_loop zero v n = n
subid_loop (suc f) v n = let rest = subid_loop f (shr v 7) (n + 1) in if leb 0x80 v then rest else n

unfoldable pub subid_octets : ℕ → ℕ
subid_octets v = subid_loop 9 v 1

unfoldable pub put_length : ℕ → Writer → Writer
put_length n w =
    if ltb n 0x80
    then put n w
    else put_each (bytes_be (length_octets n - 1) n) (put (0x80 + (length_octets n - 1)) w)

-- A scope is the position of its length octet.
unfoldable pub begin_constructed : ℕ → Writer → Writer × ℕ
begin_constructed t w =
    let w1 = if not (Tag.is_constructed t) then fail unexpected_tag w else w in
    let w2 = put_tag t w1 in (put 0 w2, length w2.buf)

-- The octets of the length, one in each round; `k` rounds are left and `at` is the next position.
unfoldable pub patch_length : ℕ → ℕ → ℕ → List ℕ → List ℕ
patch_length zero at content_len buf = buf
patch_length (suc k) at content_len buf =
    patch_length k (at + 1) content_len (set buf at (shr content_len (k * 8) % 256))

-- `needed` length octets in place of the placeholder at `length_pos`.
unfoldable pub widen : ℕ → ℕ → ℕ → List ℕ → List ℕ
widen length_pos content_len needed buf =
    if ltb 1 needed
    then patch_length (needed - 1) (length_pos + 1) content_len (
        set (take (length_pos + 1) buf ++ (replicate (needed - 1) 0 ++ drop (length_pos + 1) buf))
          length_pos (0x80 + (needed - 1)))
    else set buf length_pos (content_len % 256)

-- `Writer::Scope::~Scope`
unfoldable pub close_scope : ℕ → Writer → Writer
close_scope length_pos w =
    let content_len = length w.buf - (length_pos + 1) in
    record w { buf = widen length_pos content_len (length_octets content_len) w.buf }

-- `{ const auto scope = w.beginConstructed(t); body }`
unfoldable pub in_scope : ℕ → (Writer → Writer) → Writer → Writer
in_scope t body w = let (w', length_pos) = begin_constructed t w in close_scope length_pos (body w')

-- What is left of `encoded` once `first` has passed the leading octets that are pure sign padding.
unfoldable pub strip_sign : ℕ → Bool → List ℕ → List ℕ
strip_sign pad negative [] = []
strip_sign pad negative (a ∷ []) = a ∷ []
strip_sign pad negative (a ∷ b ∷ bs) =
    let rest = strip_sign pad negative (b ∷ bs) in
    if a == pad && (if negative then top_bit b else not (top_bit b)) then rest else a ∷ b ∷ bs

abbrev pub sign_pad : Bool → ℕ
sign_pad negative = if negative then 0xFF else 0x00

-- A tag, a length and the octets, where no error is recorded.
unfoldable pub tlv : ℕ → Octets → Writer → Writer
tlv t content w =
    if has_error w
    then w
    else let w' = put_length (length content) (put_tag t w) in record w' { buf = w'.buf ++ content }

unfoldable pub octet_string : ℕ → Octets → Writer → Writer
octet_string t v w =
    if has_error w
    then w
    else let w' = put_length (length v) (put_tag t w) in record w' { buf = w'.buf ++ v }

unfoldable pub raw : Octets → Writer → Writer
raw bytes w = if has_error w then w else record w { buf = w.buf ++ bytes }

unfoldable pub integer : ℕ → ℤ → Writer → Writer
integer t v w =
    let encoded = bytes_be 4 (to_u32 v) in
    let kept = strip_sign (sign_pad (is_negative v)) (is_negative v) encoded in
    if has_error w then w else put_each kept (put_length (length kept) (put_tag t w))

unfoldable pub unsigned64 : ℕ → ℕ → Writer → Writer
unsigned64 t v w =
    let kept = strip_sign 0 false (0 ∷ bytes_be 8 v) in
    if has_error w then w else put_each kept (put_length (length kept) (put_tag t w))

abbrev pub unsigned32 : ℕ → ℕ → Writer → Writer
unsigned32 t v w = unsigned64 t v w

unfoldable pub null_value : Writer → Writer
null_value w = if has_error w then w else put_length 0 (put_tag Tag.null w)

-- The groups `(v >> (i * 7)) & 0x7F` for i = n - 1 down to 0, with the top bit on all but the last.
unfoldable pub groups : ℕ → ℕ → List ℕ
groups zero v = []
groups (suc i) v =
    let group = shr v (i * 7) % 128 in (if i == 0 then group else group + 0x80) ∷ groups i v

-- The packed first two arcs, then the others: what the loops over `o` visit.
abbrev pub packed : Oid → List ℕ
packed o = (get_or o 0 0 * 40 + get_or o 1 0) ∷ drop 2 o

abbrev pub content_size : List ℕ → ℕ
content_size [] = 0
content_size (v ∷ vs) = subid_octets v + content_size vs

abbrev pub emit_all : List ℕ → Writer → Writer
emit_all [] w = w
emit_all (v ∷ vs) w = emit_all vs (put_each (groups (subid_octets v) v) w)

unfoldable pub encoded_oid_size : Oid → ℕ
encoded_oid_size o =
    let content = content_size (packed o) in
    if not (is_encodable o) then 0 else 1 + length_octets content + content

unfoldable pub object_identifier : Oid → Writer → Writer
object_identifier o w =
    if has_error w
    then w
    else if not (is_encodable o)
    then fail oid_not_encodable w
    else emit_all (packed o)
        (put_length (content_size (packed o)) (put_tag Tag.object_identifier w))

abbrev pub exception_tag : ValueException → ℕ
exception_tag ValueException.no_such_object = Tag.no_such_object
exception_tag ValueException.no_such_instance = Tag.no_such_instance
exception_tag ValueException.end_of_mib_view = Tag.end_of_mib_view

write_held : Value → Writer → Writer
write_held Value.null w = null_value w
write_held (Value.integer v) w = integer Tag.integer v w
write_held (Value.octets v) w = octet_string Tag.octet_string v w
write_held (Value.oid o) w = object_identifier o w
write_held (Value.ip_address v) w = octet_string Tag.ip_address v w
write_held (Value.counter32 v) w = unsigned32 Tag.counter32 v w
write_held (Value.gauge32 v) w = unsigned32 Tag.gauge32 v w
write_held (Value.timeticks v) w = unsigned32 Tag.timeticks v w
write_held (Value.opaque v) w = octet_string Tag.opaque v w
write_held (Value.counter64 v) w = unsigned64 Tag.counter64 v w
write_held (Value.exception e) w = tlv (exception_tag e) [] w

unfoldable pub write_value : Value → Writer → Writer
unfolding write_held
write_value v w = if has_error w then w else write_held v w

unfoldable pub write_varbind : Varbind → Writer → Writer
write_varbind vb = in_scope Tag.sequence (λ w. write_value vb.val (object_identifier vb.name w))

abbrev pub write_each : List Varbind → Writer → Writer
write_each [] w = w
write_each (vb ∷ vbs) w = write_each vbs (write_varbind vb w)

unfoldable pub varbind_list : List Varbind → Writer → Writer
varbind_list vbs = in_scope Tag.sequence (write_each vbs)
