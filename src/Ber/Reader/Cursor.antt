-- ===== src/Ber/Reader/Cursor.antt =====
-- The reader of src/BerReader.cpp between what it has passed and what lies before it: `facing pre xs
-- post` has passed `pre`, may read `xs`, and its bound keeps it from `post`.
use snmpio.Common.{
  ℕ, ◌+◌, ◌*◌, ◌%◌, ◌^◌, false, none, some, List, [], ◌∷◌, ◌++◌, length, take, drop, ◌≡◌, refl, sym,
  ap, ◌∙◌, arith, append_assoc, append-nil, length-append, get_or-append, take-append, drop-append,
}
use snmpio.Common.Bytes.{fold_octets}
use snmpio.Ber.Reader.{
  Reader, over, has_error, remaining, at_end, byte_at, advance, peek_tag, read_length, take_content,
}

unfoldable pub facing : List ℕ → List ℕ → List ℕ → Reader
facing pre xs post = record {
  buf = pre ++ (xs ++ post);
  pos = length pre;
  end = length pre + length xs;
  ec = none;
}

pub over-facing : (input : List ℕ) → over input ≡ facing [] input []
unfolding over facing
over-facing input = rw append-nil (ground arith)

pub facing_eq :
    {pre pre' : List ℕ} (xs post : List ℕ) → pre ≡ pre' → facing pre xs post ≡ facing pre' xs post
facing_eq xs post e = ap (λ (p : List ℕ). facing p xs post) e

-- With nothing behind it an element is all that lies ahead.
pub facing_last : (pre xs post : List ℕ) → facing pre xs post ≡ facing pre (xs ++ []) post
facing_last pre xs post = ap (λ (l : List ℕ). facing pre l post) (sym (append-nil xs))

pub facing_ok : (pre xs post : List ℕ) → has_error (facing pre xs post) ≡ false
unfolding facing
facing_ok pre xs post = refl

pub end-facing : (pre xs post : List ℕ) → (facing pre xs post).end ≡ length pre + length xs
unfolding facing
end-facing pre xs post = refl

pub pos-facing : (pre xs post : List ℕ) → (facing pre xs post).pos ≡ length pre
unfolding facing
pos-facing pre xs post = refl

pub remaining-facing : (pre xs post : List ℕ) → remaining (facing pre xs post) ≡ length xs
unfolding facing remaining
remaining-facing pre xs post = omega arith

pub byte_at-facing :
    (pre : List ℕ) (b : ℕ) (xs post : List ℕ) → byte_at (facing pre (b ∷ xs) post) ≡ b
unfolding facing byte_at
byte_at-facing pre b xs post = get_or-append pre b (xs ++ post) 0

pub peek_tag-facing :
    (pre : List ℕ) (b : ℕ) (xs post : List ℕ) → peek_tag (facing pre (b ∷ xs) post) ≡ some b
unfolding facing peek_tag at_end byte_at
peek_tag-facing pre b xs post = ground (arith, get_or-append pre b (xs ++ post) 0)

pub advance-facing :
    (pre c xs post : List ℕ)
    → advance (length c) (facing pre (c ++ xs) post) ≡ facing (pre ++ c) xs post
unfolding facing advance
advance-facing pre c xs post = λ i. record {
  buf = (ap (◌++◌ pre) (append_assoc c xs post) ∙ sym (append_assoc pre c (xs ++ post))) i;
  pos = sym (length-append pre c) i;
  end = ends i;
  ec = none;
}
  where
    ends : length pre + length (c ++ xs) ≡ length (pre ++ c) + length xs
    ends = omega (arith, length-append c xs, length-append pre c)

pub step-facing :
    (pre : List ℕ) (b : ℕ) (xs post : List ℕ)
    → advance 1 (facing pre (b ∷ xs) post) ≡ facing (pre ++ b ∷ []) xs post
step-facing pre b xs post = advance-facing pre (b ∷ []) xs post

content_ahead :
    (pre c xs post : List ℕ)
    → let r = facing pre (c ++ xs) post in take (length c) (drop r.pos r.buf) ≡ c
unfolding facing
content_ahead pre c xs post =
    rw (drop-append pre, append_assoc c xs post) (take-append c (xs ++ post))

-- The octets that an element's header counts are the content, and the cursor stands behind them.
pub take_content-facing :
    (pre c xs post : List ℕ)
    → take_content (length c) (facing pre (c ++ xs) post) ≡ (facing (pre ++ c) xs post, some c)
unfolding take_content
take_content-facing pre c xs post = rw (advance-facing pre c xs post, content_ahead pre c xs post)

-- The octets of a long-form length.
pub read_length-facing :
    (bytes : List ℕ) (len : ℕ) (pre xs post : List ℕ)
    → read_length (length bytes) len (facing pre (bytes ++ xs) post)
      ≡ (facing (pre ++ bytes) xs post, fold_octets 64 len bytes)
unfolding read_length fold_octets
read_length-facing [] len pre xs post = rw append-nil
read_length-facing (b ∷ bytes) len pre xs post =
    let r = facing pre (b ∷ (bytes ++ xs)) post in
    let len' = len * 256 % 2 ^ 64 + b in
    ap (λ (v : ℕ). read_length (length bytes) (len * 256 % 2 ^ 64 + v) (advance 1 r))
      (byte_at-facing pre b (bytes ++ xs) post)
    ∙ ap (read_length (length bytes) len') (step-facing pre b (bytes ++ xs) post)
    ∙ read_length-facing bytes len' (pre ++ b ∷ []) xs post
    ∙ ap (λ (p : List ℕ). (facing p xs post, fold_octets 64 len' bytes))
        (append_assoc pre (b ∷ []) bytes)
