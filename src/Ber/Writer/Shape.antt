-- ===== src/Ber/Writer/Shape.antt =====
-- What the writer of src/BerWriter.cpp appends, as runs of octets: a writer with no error recorded
-- is `ready buf`, and each operation takes `ready buf` to `ready (buf ++ element)`.
use snmpio.Common.{
  ℕ, zero, suc, ◌+◌, ◌-◌, true, false, none, List, [], ◌∷◌, ◌++◌, ltb, if◌then◌else◌, length,
  replicate, ◌≡◌, refl, sym, ap, ◌∙◌, arith, append_assoc, append-nil, length-append,
  length-append_one, take-append_one, drop-append_one, Bool-cases, inl, inr, ◌*◌, ◌%◌, ◌≤◌,
  set-append,
}
use snmpio.Common.Int32.{ℤ, is_negative, to_u32}
use snmpio.Common.Bytes.{shr, bytes_be}
use snmpio.Oid.{Oid, is_encodable}
use snmpio.Value.{Octets}
use snmpio.Ber.Tag
use snmpio.Ber.Writer.{
  Writer, put, put_each, put_length, length_octets, patch_length, widen, close_scope, in_scope,
  begin_constructed, significant_loop, tlv, octet_string, integer, unsigned64, null_value,
  object_identifier, strip_sign, sign_pad, packed, content_size, emit_all, groups, subid_octets,
}

abbrev pub ready : List ℕ → Writer
ready buf = record { buf = buf; ec = none }

-- The definite length of `n` octets, and a whole element.
unfoldable pub length_bytes : ℕ → List ℕ
length_bytes n =
    if ltb n 0x80 then n ∷ [] else (0x80 + (length_octets n - 1)) ∷ bytes_be (length_octets n - 1) n

unfoldable pub element : ℕ → Octets → List ℕ
element t content = t ∷ length_bytes (length content) ++ content

abbrev pub integer_octets : ℤ → Octets
integer_octets v = strip_sign (sign_pad (is_negative v)) (is_negative v) (bytes_be 4 (to_u32 v))

abbrev pub unsigned_octets : ℕ → Octets
unsigned_octets v = strip_sign 0 false (0 ∷ bytes_be 8 v)

abbrev pub subid_run : List ℕ → Octets
subid_run [] = []
subid_run (v ∷ vs) = groups (subid_octets v) v ++ subid_run vs

abbrev pub oid_octets : Oid → Octets
oid_octets o = subid_run (packed o)

pub put_each-ready : (bytes buf : List ℕ) → put_each bytes (ready buf) ≡ ready (buf ++ bytes)
put_each-ready [] buf = rw append-nil
put_each-ready (b ∷ bs) buf = put_each-ready bs (buf ++ b ∷ []) ∙ rw (append_assoc buf (b ∷ []) bs)

pub put_length-ready :
    (n : ℕ) (buf : List ℕ) → put_length n (ready buf) ≡ ready (buf ++ length_bytes n)
unfolding put_length length_bytes
put_length-ready n buf = ground (
  arith,
  put_each-ready (bytes_be (length_octets n - 1) n) (buf ++ (0x80 + (length_octets n - 1)) ∷ []),
  append_assoc buf ((0x80 + (length_octets n - 1)) ∷ []) (bytes_be (length_octets n - 1) n),
)

-- A tag, a length and the content, one behind the other, are an element.
element_parts :
    (t : ℕ) (content buf : List ℕ)
    → ((buf ++ t ∷ []) ++ length_bytes (length content)) ++ content ≡ buf ++ element t content
unfolding element
element_parts t content buf = simp append_assoc

pub tlv-ready :
    (t : ℕ) (content buf : List ℕ) → tlv t content (ready buf) ≡ ready (buf ++ element t content)
unfolding tlv
tlv-ready t content buf = rw (put_length-ready, element_parts)

pub octet_string-ready :
    (t : ℕ) (v buf : List ℕ) → octet_string t v (ready buf) ≡ ready (buf ++ element t v)
unfolding octet_string
octet_string-ready t v buf = rw (put_length-ready, element_parts)

put-element :
    (t : ℕ) (content buf : List ℕ)
    → put_each content (put_length (length content) (put t (ready buf)))
      ≡ ready (buf ++ element t content)
put-element t content buf =
    rw (put_length-ready (length content) (buf ++ t ∷ [])) (rw put_each-ready (rw element_parts))

pub integer-ready :
    (t : ℕ) (v : ℤ) (buf : List ℕ)
    → integer t v (ready buf) ≡ ready (buf ++ element t (integer_octets v))
unfolding integer
integer-ready t v buf = put-element t (integer_octets v) buf

pub unsigned64-ready :
    (t v : ℕ) (buf : List ℕ)
    → unsigned64 t v (ready buf) ≡ ready (buf ++ element t (unsigned_octets v))
unfolding unsigned64
unsigned64-ready t v buf = put-element t (unsigned_octets v) buf

pub null_value-ready : (buf : List ℕ) → null_value (ready buf) ≡ ready (buf ++ element Tag.null [])
unfolding null_value
null_value-ready buf = put-element Tag.null [] buf

pub length-groups : (n v : ℕ) → length (groups n v) ≡ n
unfolding groups
length-groups zero v = refl
length-groups (suc n) v = ap suc (length-groups n v)

content_size-length : (vs : List ℕ) → content_size vs ≡ length (subid_run vs)
content_size-length [] = refl
content_size-length (v ∷ vs) = omega (
  arith,
  content_size-length vs,
  length-append (groups (subid_octets v) v) (subid_run vs),
  length-groups (subid_octets v) v,
)

emit_all-put_each :
    (vs buf : List ℕ) → emit_all vs (ready buf) ≡ put_each (subid_run vs) (ready buf)
emit_all-put_each [] buf = refl
emit_all-put_each (v ∷ vs) buf =
    rw (put_each-ready (groups (subid_octets v) v), put_each-ready)
      (emit_all-put_each vs _ ∙ rw (put_each-ready, append_assoc))

-- The size that is announced is the size of what is emitted, so the whole is one element.
pub object_identifier-ready :
    (o : Oid) (buf : List ℕ)
    → is_encodable o ≡ true
    → object_identifier o (ready buf) ≡ ready (buf ++ element Tag.object_identifier (oid_octets o))
unfolding object_identifier
object_identifier-ready o buf h =
    rw (h, content_size-length (packed o))
      (ap (emit_all (packed o)) (put_length-ready (length (oid_octets o)) _)
        ∙ emit_all-put_each (packed o) _
        ∙ put_each-ready (oid_octets o) _
        ∙ ap ready (element_parts Tag.object_identifier (oid_octets o) buf))

-- The octets that the closing scope writes over the blanks it inserted.
patch_length_lem :
    (k n : ℕ) (pre post : List ℕ)
    → patch_length k (length pre) n (pre ++ (replicate k 0 ++ post)) ≡ pre ++ (bytes_be k n ++ post)
unfolding patch_length bytes_be
patch_length_lem zero n pre post = refl
patch_length_lem (suc k) n pre post =
    let b = shr n (k * 8) % 256 in
    let blanks = replicate k 0 ++ post in
    ap (patch_length k (length pre + 1) n)
      (set-append pre 0 blanks b ∙ sym (append_assoc pre (b ∷ []) blanks))
    ∙ ap (λ (p : ℕ). patch_length k p n ((pre ++ b ∷ []) ++ blanks)) (sym (length-append_one pre b))
    ∙ patch_length_lem k n (pre ++ b ∷ []) post
    ∙ append_assoc pre (b ∷ []) (bytes_be k n ++ post)

patch_behind :
    (k n b : ℕ) (pre post : List ℕ)
    → patch_length k (length pre + 1) n (pre ++ b ∷ (replicate k 0 ++ post))
      ≡ pre ++ b ∷ (bytes_be k n ++ post)
patch_behind k n b pre post =
    rw (← length-append_one pre b, ← append_assoc pre (b ∷ []) (replicate k 0 ++ post))
      (patch_length_lem k n (pre ++ b ∷ []) post ∙ append_assoc pre (b ∷ []) _)

significant_loop-le : (f v s : ℕ) → s ≤ significant_loop f v s
unfolding significant_loop
significant_loop-le zero v s = omega arith
significant_loop-le (suc f) v s = ground (arith, significant_loop-le f (shr v 8) (s + 1))

-- The placeholder is widened exactly when the length has the long form.
long_form : (n : ℕ) → ltb n 0x80 ≡ false → ltb 1 (length_octets n) ≡ true
unfolding length_octets significant_loop
long_form n h = ground (arith, significant_loop-le 7 (shr n 8) (0 + 1))

short_form : (n : ℕ) → ltb n 0x80 ≡ true → length_octets n ≡ 1
unfolding length_octets
short_form n h = rw h

small : (n : ℕ) → ltb n 0x80 ≡ true → n % 256 ≡ n
small n h = ground arith

widen_lem :
    (front content : List ℕ)
    → let n = length content in
      widen (length front) n (length_octets n) (front ++ 0 ∷ content)
      ≡ front ++ (length_bytes n ++ content)
unfolding widen length_bytes
widen_lem front content = elim (Bool-cases (ltb (length content) 0x80)) [
  | inl short ↦
      rw (short, short_form (length content) short)
        (set-append front 0 content _
          ∙ ap (λ (n : ℕ). front ++ n ∷ content) (small (length content) short))
  | inr long ↦
      rw
        (
          long,
          long_form (length content) long,
          take-append_one,
          drop-append_one,
          append_assoc front (0 ∷ []),
          set-append,
        )
        (patch_behind (length_octets (length content) - 1) (length content) _ front content)
]

close_scope_lem :
    (front content : List ℕ)
    → close_scope (length front) (ready (front ++ 0 ∷ content))
      ≡ ready (front ++ (length_bytes (length content) ++ content))
unfolding close_scope
close_scope_lem front content =
    let e : length (front ++ 0 ∷ content) - (length front + 1) ≡ length content =
      omega (arith, length-append front (0 ∷ content)) in
    rw (e, widen_lem)

-- A writer scope, which writes a placeholder length and patches or widens it in place when it
-- closes, leaves the same octets as writing the tag, the definite length and the content forward,
-- for every body that appends that content and never fails.
pub in_scope-ready :
    (t : ℕ) (body : Writer → Writer) (content buf : List ℕ)
    → Tag.is_constructed t ≡ true
    → ((b : List ℕ) → body (ready b) ≡ ready (b ++ content))
    → in_scope t body (ready buf) ≡ ready (buf ++ element t content)
unfolding in_scope begin_constructed
in_scope-ready t body content buf h k = rw h (
    rw (k _, append_assoc (buf ++ t ∷ []) (0 ∷ []) content, close_scope_lem)
      (unfold element in
        ap ready (append_assoc buf (t ∷ []) (length_bytes (length content) ++ content))))
