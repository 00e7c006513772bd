-- ===== src/Ber/RoundTrip/Header.antt =====
-- Headers: the definite lengths that the writer chooses, as the reader takes them.
use snmpio.Common.{
  ℕ, zero, suc, ◌+◌, ◌-◌, ◌*◌, ◌%◌, ◌^◌, ◌≤◌, ◌<◌, true, false, some, Option, List, [], ◌∷◌, ◌++◌,
  ltb, ◌==◌, length, ◌≡◌, sym, ap, ◌∙◌, arith, append_assoc, length-append, Bool-cases, inl, inr,
  le→ltb,
}
use snmpio.Common.Bytes.{
  shr, pow_octet, shr-shr_octet, bytes_be, fold_octets, fold_octets-bytes_be, length-bytes_be,
}
use snmpio.Ber.Tag
use snmpio.Ber.Writer.{length_octets, significant_loop}
use snmpio.Ber.Writer.Shape.{length_bytes, element}
use snmpio.Ber.Reader.{
  Reader, Header, ◌>>=◌, and_then, peek_tag, has_error, remaining, byte_at, advance, read_length,
  checked_header, long_length, header_length, read_header, take_content, content_of_tag, content_at,
  primitive_content,
}
use snmpio.Ber.Reader.Cursor.{
  facing, facing_ok, remaining-facing, byte_at-facing, step-facing, peek_tag-facing,
  read_length-facing, take_content-facing,
}

-- The loop stops once nothing is left to shift out, after at most the octets that the number fills.
significant_loop_lem :
    (f g v s : ℕ)
    → g ≤ f
    → v < 2 ^ (g * 8)
    → (k : ℕ) × (significant_loop f v s ≡ s + k) × (k ≤ g) × (shr v (k * 8) ≡ 0)
unfolding significant_loop
significant_loop_lem zero zero v s hg hv = (0, omega arith, omega arith, omega arith)
significant_loop_lem zero (suc g) v s hg hv = absurd (omega arith)
significant_loop_lem (suc f) zero v s hg hv = (0, ground arith, omega arith, omega arith)
significant_loop_lem (suc f) (suc g) v s hg hv = elim (Bool-cases (v == 0)) [
  | inl done ↦ (0, rw done (omega arith), omega arith, ground arith)
  | inr more ↦
      let (k, e, hk, hz) =
        significant_loop_lem f g (shr v 8) (s + 1) (omega arith) (omega (arith, pow_octet g)) in
      (suc k, rw more (omega (arith, e)), omega arith, sym (shr-shr_octet v k) ∙ hz)
]

some_octets : (k n : ℕ) → 0x80 ≤ n → shr n (k * 8) ≡ 0 → 1 ≤ k
some_octets zero n h e = absurd (omega arith)
some_octets (suc k) n h e = omega arith

-- The octets of a length are the ones that `bytes_be` lists, four of them at most.
length_octets_lem :
    (n : ℕ)
    → ltb n 0x80 ≡ false
    → n < 2 ^ 32
    → let k = length_octets n - 1 in (k ≤ 4) × (1 ≤ k) × (shr n (k * 8) ≡ 0)
unfolding length_octets
length_octets_lem n long h =
    let (k, e, hk, hz) = significant_loop_lem 8 4 n 0 (omega arith) (omega arith) in
    let same : length_octets n - 1 ≡ k = rw long (omega (arith, e)) in
    rw same (hk, some_octets k n (ground arith) hz, hz)

checked_header-facing :
    (t len : ℕ) (pre xs post : List ℕ)
    → len ≤ length xs
    → checked_header t (facing pre xs post, len)
      ≡ (facing pre xs post, some (record { tag = t; length = len }))
unfolding checked_header
checked_header-facing t len pre xs post h =
    rw (remaining-facing pre xs post, le→ltb (length xs) len h)

-- A length read from its octets.
long_length-facing :
    (t n k : ℕ) (pre xs post : List ℕ)
    → n < 2 ^ 32
    → k ≤ 4
    → shr n (k * 8) ≡ 0
    → n ≤ length xs
    → long_length t k (facing pre (bytes_be k n ++ xs) post)
      ≡ (facing (pre ++ bytes_be k n) xs post, some (record { tag = t; length = n }))
unfolding long_length
long_length-facing t n k pre xs post hn hk hz hx =
    rw
      (
        le→ltb 4 k hk,
        remaining-facing pre (bytes_be k n ++ xs) post,
        le→ltb (length (bytes_be k n ++ xs)) k enough,
      )
      (ap (checked_header t) octets ∙ checked_header-facing t n (pre ++ bytes_be k n) xs post hx)
  where
    enough : k ≤ length (bytes_be k n ++ xs)
    enough = omega (arith, length-append (bytes_be k n) xs, length-bytes_be k n)

    value : fold_octets 64 0 (bytes_be k n) ≡ n
    value = rw hz at (fold_octets-bytes_be 64 k n (omega arith))

    octets :
        read_length k 0 (facing pre (bytes_be k n ++ xs) post)
        ≡ (facing (pre ++ bytes_be k n) xs post, n)
    octets =
        ap (λ (j : ℕ). read_length j 0 (facing pre (bytes_be k n ++ xs) post))
          (sym (length-bytes_be k n))
        ∙ read_length-facing (bytes_be k n) 0 pre xs post
        ∙ ap (λ (v : ℕ). (facing (pre ++ bytes_be k n) xs post, v)) value

header_length_short :
    (t n : ℕ) (r : Reader) → ltb n 0x80 ≡ true → header_length t n r ≡ checked_header t (r, n)
unfolding header_length
header_length_short t n r h = rw h

header_length_long :
    (t k : ℕ) (r : Reader) → 1 ≤ k → k ≤ 4 → header_length t (0x80 + k) r ≡ long_length t k r
unfolding header_length
header_length_long t k r lo hi =
    let e : (0x80 + k) % 128 ≡ k = omega arith in
    let a : ltb (0x80 + k) 0x80 ≡ false = ground arith in
    let b : ((0x80 + k) == 0x80) ≡ false = ground arith in
    let c : ((0x80 + k) == 0xFF) ≡ false = ground arith in rw (a, b, c, e)

-- Either form of the length, behind the tag.
header_length-facing :
    (t n : ℕ) (pre xs post : List ℕ)
    → n < 2 ^ 32
    → n ≤ length xs
    → let r = facing pre (length_bytes n ++ xs) post in
      header_length t (byte_at r) (advance 1 r)
      ≡ (facing (pre ++ length_bytes n) xs post, some (record { tag = t; length = n }))
unfolding length_bytes
header_length-facing t n pre xs post hn hx = elim (Bool-cases (ltb n 0x80)) [
  | inl short ↦
      rw (short, byte_at-facing pre n xs post, step-facing pre n xs post)
        (header_length_short t n _ short ∙ checked_header-facing t n (pre ++ n ∷ []) xs post hx)
  | inr long ↦
      let (hk, lo, hz) = length_octets_lem n long hn in
      let k = length_octets n - 1 in
      let front = pre ++ (0x80 + k) ∷ [] in
      rw (long, byte_at-facing, step-facing)
        (header_length_long t k _ lo hk
          ∙ long_length-facing t n k front xs post hn hk hz hx
          ∙ ap (λ (p : List ℕ). (facing p xs post, some (record { tag = t; length = n })))
              (append_assoc pre ((0x80 + k) ∷ []) (bytes_be k n)))
]

-- A reader with no error and two octets ahead of it goes on to the length.
read_header_step :
    (r : Reader)
    → has_error r ≡ false
    → 2 ≤ remaining r
    → Tag.is_high_tag_number (byte_at r) ≡ false
    → read_header r ≡ header_length (byte_at r) (byte_at (advance 1 r)) (advance 1 (advance 1 r))
unfolding read_header
read_header_step r h two ht = rw (h, le→ltb (remaining r) 2 two, ht)

length_bytes_pos : (n : ℕ) → 1 ≤ length (length_bytes n)
unfolding length_bytes
length_bytes_pos n = ground arith

primitive_content_step :
    (t : ℕ) (r : Reader)
    → has_error r ≡ false
    → peek_tag r ≡ some t
    → Tag.is_constructed t ≡ false
    → primitive_content t r ≡ (read_header >>= λ h. take_content h.length) r
unfolding primitive_content content_at content_of_tag
primitive_content_step t r h p hp =
    let same : (t == t) ≡ true = ground arith in
    rw h (ap (λ (o : Option ℕ). content_at t o r) p ∙ rw (same, hp))

-- readHeader takes the tag and the length that the writer puts for any length below 2^32 that the
-- bound leaves room for, and stops at the content.
pub read_header-facing :
    (t n : ℕ) (pre xs post : List ℕ)
    → Tag.is_high_tag_number t ≡ false
    → n < 2 ^ 32
    → n ≤ length xs
    → read_header (facing pre (t ∷ (length_bytes n ++ xs)) post)
      ≡ (facing (pre ++ t ∷ length_bytes n) xs post, some (record { tag = t; length = n }))
read_header-facing t n pre xs post ht hn hx =
    let rest = length_bytes n ++ xs in
    let r = facing pre (t ∷ rest) post in
    let tag : byte_at r ≡ t = byte_at-facing pre t rest post in
    read_header_step r (facing_ok pre (t ∷ rest) post) two (ap Tag.is_high_tag_number tag ∙ ht)
    ∙ ap (λ (q : Reader). header_length (byte_at r) (byte_at q) (advance 1 q))
        (step-facing pre t rest post)
    ∙ ap
        (λ (u : ℕ).
          header_length u (byte_at (facing (pre ++ t ∷ []) rest post))
            (advance 1 (facing (pre ++ t ∷ []) rest post)))
        tag
    ∙ header_length-facing t n (pre ++ t ∷ []) xs post hn hx
    ∙ ap (λ (p : List ℕ). (facing p xs post, some (record { tag = t; length = n })))
        (append_assoc pre (t ∷ []) (length_bytes n))
  where
    two : 2 ≤ remaining (facing pre (t ∷ (length_bytes n ++ xs)) post)
    two = omega (
      arith,
      remaining-facing pre (t ∷ (length_bytes n ++ xs)) post,
      length-append (length_bytes n) xs,
      length_bytes_pos n,
    )

-- A primitive element is read back as its content, and nothing of what follows it is touched.
pub primitive_content-facing :
    (t : ℕ) (c pre xs post : List ℕ)
    → Tag.is_constructed t ≡ false
    → Tag.is_high_tag_number t ≡ false
    → length c < 2 ^ 32
    → primitive_content t (facing pre (element t c ++ xs) post)
      ≡ (facing (pre ++ element t c) xs post, some c)
unfolding element
primitive_content-facing t c pre xs post hp ht hc =
    primitive_content_step t r (facing_ok pre _ post) (peek_tag-facing pre t _ post) hp
    ∙ ap (λ (p : Reader × Option Header). and_then p.1 p.0 (λ h. take_content h.length)) header
    ∙ take_content-facing (pre ++ t ∷ length_bytes (length c)) c xs post
    ∙ ap (λ (p : List ℕ). (facing p xs post, some c))
        (append_assoc pre (t ∷ length_bytes (length c)) c)
  where
    r : Reader
    r = facing pre (t ∷ ((length_bytes (length c) ++ c) ++ xs)) post

    header : read_header r ≡ (
      facing (pre ++ t ∷ length_bytes (length c)) (c ++ xs) post,
      some (record { tag = t; length = length c }),
    )
    header = rw (append_assoc (length_bytes (length c)) c xs) (
        read_header-facing t (length c) pre (c ++ xs) post ht hc
          (omega (arith, length-append c xs)))
