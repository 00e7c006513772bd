-- ===== src/Ber/Reader.antt =====
-- src/BerReader.cpp and include/snmpio/ber/Reader.hpp: a cursor over a buffer that it does not own,
-- with a sticky error. The cursor and the bound are offsets into the whole buffer, as in the source.
pub mod Oid
pub mod Fields
pub mod Cursor
pub mod Outcome
pub mod Headers
pub mod Scopes
pub mod Contents
pub mod Subids
pub mod Decoded
pub mod Varbinds
use snmpio.Common.{
  ℕ, zero, suc, ◌+◌, ◌-◌, ◌*◌, ◌%◌, ◌^◌, Bool, true, false, not, ◌&&◌, ◌||◌, Option, none, some,
  List, [], ◌∷◌, ◌++◌, ltb, leb, ◌==◌, if◌then◌else◌, length, get_or, take, drop,
}
use snmpio.Common.Int32.{ℤ, from_u32}
use snmpio.Common.Bytes.{top_bit, fold_octets}
use snmpio.Error.{
  Errc, truncated, indefinite_length, length_too_large, high_tag_number, unexpected_tag,
  trailing_data, reserved_length, empty_content, integer_too_large, bad_ip_address, bad_null,
  unknown_value_tag,
}
use snmpio.Value.{Octets, Value, Varbind, ValueException}
use snmpio.Ber.Tag
use snmpio.Ber.Writer.{strip_sign, sign_pad}
use Oid.{decode_oid_content}

pub record Reader : Type 0 where
  pub buf : List ℕ
  pub pos : ℕ
  pub end : ℕ
  pub ec : Option Errc

-- A read returns the new state and, unless it failed, a value.
abbrev pub Read : Type 0 → Type 0
Read A = Reader → Reader × Option A

abbrev pub and_then : {A B : Type 0} → Option A → Reader → (A → Read B) → Reader × Option B
and_then none r f = (r, none)
and_then (some a) r f = f a r

-- `const auto a = m; if (!a) return std::nullopt;`
infixl 5 ◌>>=◌
abbrev pub ◌>>=◌ : {A B : Type 0} → Read A → (A → Read B) → Read B
◌>>=◌ m f r = let p = m r in and_then p.1 p.0 f

abbrev pub return : {A : Type 0} → A → Read A
return a r = (r, some a)

unfoldable pub over : List ℕ → Reader
over input = record { buf = input; pos = 0; end = length input; ec = none }

abbrev pub has_error : Reader → Bool
has_error r = elim r.ec [ none ↦ false | some e ↦ true ]

-- The first error stays; the cursor goes to the bound.
unfoldable pub fail : Errc → Reader → Reader
fail e r = record r { pos = r.end; ec = elim r.ec [ none ↦ some e | some d ↦ some d ] }

abbrev pub fails : {A : Type 0} → Errc → Read A
fails e r = (fail e r, none)

-- `m_pos` is never past `m_end` (Bounds), so the difference does not wrap.
unfoldable pub remaining : Reader → ℕ
remaining r = r.end - r.pos

unfoldable pub at_end : Reader → Bool
at_end r = leb r.end r.pos

unfoldable pub byte_at : Reader → ℕ
byte_at r = get_or r.buf r.pos 0

unfoldable pub advance : ℕ → Reader → Reader
advance n r = record r { pos = r.pos + n }

unfoldable pub peek_tag : Reader → Option ℕ
peek_tag r = if has_error r || at_end r then none else some (byte_at r)

unfoldable pub finish : Reader → Reader × Bool
finish r =
    if has_error r
    then (r, false)
    else if not (r.pos == r.end)
    then (fail trailing_data r, false)
    else (r, true)

pub record Header : Type 0 where
  pub tag : ℕ
  pub length : ℕ

-- `length = (length << 8) | octet` for each of the octets that are left, in a 64-bit `std::size_t`.
unfoldable pub read_length : ℕ → ℕ → Reader → Reader × ℕ
read_length zero len r = (r, len)
read_length (suc i) len r = read_length i (len * 256 % 2 ^ 64 + byte_at r) (advance 1 r)

unfoldable pub checked_header : ℕ → Reader × ℕ → Reader × Option Header
checked_header t (r, len) =
    if ltb (remaining r) len
    then (fail truncated r, none)
    else (r, some (record { tag = t; length = len }))

unfoldable pub long_length : ℕ → ℕ → Read Header
long_length t count r =
    if ltb 4 count
    then fails length_too_large r
    else if ltb (remaining r) count
    then fails truncated r
    else checked_header t (read_length count 0 r)

unfoldable pub header_length : ℕ → ℕ → Read Header
header_length t first r =
    if ltb first 0x80
    then checked_header t (r, first)
    else if first == 0x80
    then fails indefinite_length r
    else if first == 0xFF
    then fails reserved_length r
    else long_length t (first % 128) r

unfoldable pub read_header : Read Header
read_header r =
    if has_error r
    then (r, none)
    else if ltb (remaining r) 2
    then fails truncated r
    else let t = byte_at r in
      let r1 = advance 1 r in
      if Tag.is_high_tag_number t
      then fails high_tag_number r1
      else header_length t (byte_at r1) (advance 1 r1)

-- `Reader::Scope`: what its destructor restores.
pub record Scope : Type 0 where
  pub saved_end : ℕ
  pub content_end : ℕ

-- A failed `enter` leaves a scope that is empty.
abbrev empty_scope : ℕ → Reader → Reader × Scope
empty_scope saved_end r = (r, record { saved_end = saved_end; content_end = r.pos })

unfoldable pub enter_header : ℕ → Reader × Option Header → Reader × Scope
enter_header saved_end (r, none) = empty_scope saved_end r
enter_header saved_end (r, some h) = (
  record r { end = r.pos + h.length },
  record { saved_end = saved_end; content_end = r.pos + h.length },
)

abbrev pub is_tag : ℕ → Option ℕ → Bool
is_tag expected none = false
is_tag expected (some t) = t == expected

unfoldable pub enter : ℕ → Reader → Reader × Scope
enter expected r =
    if has_error r
    then empty_scope r.end r
    else if not (Tag.is_constructed expected)
    then empty_scope r.end (fail unexpected_tag r)
    else if not (is_tag expected (peek_tag r))
    then empty_scope r.end (fail unexpected_tag r)
    else enter_header r.end (read_header r)

-- `Reader::Scope::~Scope`
unfoldable pub leave : Scope → Reader → Reader
leave s r =
    let r1 =
      if not (has_error r) && not (r.pos == s.content_end) then fail trailing_data r else r in
    record r1 { end = s.saved_end; pos = s.content_end }

-- `{ const auto s = enter(expected); body }`
unfoldable pub in_scope : {A : Type 0} → ℕ → Read A → Read A
in_scope expected body r =
    let (r1, s) = enter expected r in let (r2, a) = body r1 in (leave s r2, a)

-- `if (m_ec) return std::nullopt;` behind a scope, which may have flagged trailing data.
unfoldable pub unless_failed : {A : Type 0} → Reader × Option A → Reader × Option A
unless_failed (r, a) = if has_error r then (r, none) else (r, a)

unfoldable pub take_content : ℕ → Read Octets
take_content n r = (advance n r, some (take n (drop r.pos r.buf)))

unfoldable pub content_of_tag : ℕ → ℕ → Read Octets
content_of_tag expected t r =
    if not (t == expected)
    then fails unexpected_tag r
    else if Tag.is_constructed expected
    then fails unexpected_tag r
    else (read_header >>= λ h. take_content h.length) r

unfoldable pub content_at : ℕ → Option ℕ → Read Octets
content_at expected none r = fails truncated r
content_at expected (some t) r = content_of_tag expected t r

unfoldable pub primitive_content : ℕ → Read Octets
primitive_content expected r = if has_error r then (r, none) else content_at expected (peek_tag r) r

-- `octetString` copies the content and `octetStringView` borrows it.
abbrev pub octet_string : ℕ → Read Octets
octet_string expected = primitive_content expected

unfoldable pub skip_element : Read Octets
skip_element r =
    if has_error r
    then (r, none)
    else (read_header >>= λ h r1.
          let r2 = advance h.length r1 in (r2, some (take (r2.pos - r.pos) (drop r.pos r.buf))))
        r
