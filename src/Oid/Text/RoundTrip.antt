-- ===== src/Oid/Text/RoundTrip.antt =====
-- `Oid::parse` of src/Oid.cpp reads back what `Oid::toString` writes.
use snmpio.Common.{
  Option-cases, All-append, append-nil, append_assoc, length-append, ℕ, zero, suc, ◌+◌, ◌-◌, ◌*◌,
  ◌/◌, ◌%◌, ◌^◌, ◌≤◌, ◌<◌, true, false, Option, none, some, [], ◌∷◌, ◌++◌, ltb, ◌==◌, length, All,
  ◌≡◌, refl, ap, ◌∙◌, subst, arith, Bool-cases, inl, inr,
}
use native.Mathlib.Nat.{pow-suc}
use snmpio.Oid.{Oid, IsSubid, max_subids}
use snmpio.Oid.Text.{
  Text, dot, is_digit, digits_value, from_chars, fitting, read_subid, split_dot, parse_loop,
  parse_parts, parse, digits_loop, to_chars, rest_string, to_string,
}

abbrev IsDigit : ℕ → Type 0
IsDigit c = is_digit c ≡ true

digits_value-digit :
    (a n m : ℕ) (acc : Text)
    → n < 10
    → m ≡ a * 10 + n
    → digits_value a ((48 + n) ∷ acc) ≡ digits_value m acc
unfolding digits_value
digits_value-digit a n m acc h e =
    let d : is_digit (48 + n) ≡ true = ground arith in
    rw d (ap (λ x. digits_value x acc) (omega arith))

digits_value-digits_loop :
    (f n : ℕ) (acc : Text)
    → n < 10 ^ suc f
    → digits_value 0 (digits_loop (suc f) n acc) ≡ digits_value n acc
unfolding digits_loop
digits_value-digits_loop zero n acc h =
    let c : ltb n 10 ≡ true = ground (arith, h) in
    rw c (digits_value-digit 0 n n acc (ground (arith, c)) (omega arith))
digits_value-digits_loop (suc f) n acc h =
    let e : 10 ^ suc (suc f) ≡ 10 ^ suc f * 10 = pow-suc 10 (suc f) in
    let shorter = digits_value-digits_loop f (n / 10) ((48 + n % 10) ∷ acc) (omega arith) in
    elim (Bool-cases (ltb n 10)) [
      | inl c ↦ rw c (digits_value-digit 0 n n acc (ground (arith, c)) (omega arith))
      | inr c ↦
          rw c (shorter ∙ digits_value-digit (n / 10) (n % 10) n acc (omega arith) (omega arith))
    ]

digits_loop-AllDigits : (f n : ℕ) (acc : Text) → All IsDigit acc → All IsDigit (digits_loop f n acc)
unfolding digits_loop
digits_loop-AllDigits zero n acc a = a
digits_loop-AllDigits (suc f) n acc a = elim (Bool-cases (ltb n 10)) [
  | inl c ↦ rw c (digit n (ground (arith, c)), a)
  | inr c ↦
      rw c
        (digits_loop-AllDigits f (n / 10) ((48 + n % 10) ∷ acc) (digit (n % 10) (omega arith), a))
]
  where
    digit : (n : ℕ) → n < 10 → IsDigit (48 + n)
    digit n h = ground arith

length-digits_loop : (f n : ℕ) (acc : Text) → length acc ≤ length (digits_loop f n acc)
unfolding digits_loop
length-digits_loop zero n acc = omega arith
length-digits_loop (suc f) n acc = elim (Bool-cases (ltb n 10)) [
  | inl c ↦ rw c (omega arith)
  | inr c ↦ rw c (let h = length-digits_loop f (n / 10) ((48 + n % 10) ∷ acc) in omega arith)
]

digits_loop-pos : (f n : ℕ) (acc : Text) → 0 < length (digits_loop (suc f) n acc)
unfolding digits_loop
digits_loop-pos f n acc = elim (Bool-cases (ltb n 10)) [
  | inl c ↦ rw c (omega arith)
  | inr c ↦ rw c (let h = length-digits_loop f (n / 10) ((48 + n % 10) ∷ acc) in omega arith)
]

split_dot-end : (p : Text) → All IsDigit p → split_dot p ≡ (p, none)
unfolding split_dot
split_dot-end [] a = refl
split_dot-end (c ∷ p) (d, a) =
    let e : (c == dot) ≡ false = ground (arith, d) in let h = split_dot-end p a in rw (e, h) refl

split_dot-dot : (p t : Text) → All IsDigit p → split_dot (p ++ dot ∷ t) ≡ (p, some t)
unfolding split_dot
split_dot-dot [] t a = refl
split_dot-dot (c ∷ p) t (d, a) =
    let e : (c == dot) ≡ false = ground (arith, d) in let h = split_dot-dot p t a in rw (e, h) refl

-- The decimal form of a sub-identifier.
IsDecimal : ℕ → Text → Type 0
IsDecimal x t = All IsDigit t × (0 < length t) × (read_subid t ≡ some x)

to_chars-value : (x : ℕ) → IsSubid x → digits_value 0 (to_chars x) ≡ (x, [])
unfolding to_chars digits_value
to_chars-value x h = digits_value-digits_loop 9 x [] (omega arith)

read_subid-digits :
    (x : ℕ) (t : Text)
    → IsSubid x
    → All IsDigit t
    → 0 < length t
    → digits_value 0 t ≡ (x, [])
    → read_subid t ≡ some x
unfolding read_subid from_chars fitting
read_subid-digits x [] h a l e = absurd (omega arith)
read_subid-digits x (c ∷ cs) h (d, a) l e =
    let big : ltb (2 ^ 64 - 1) x ≡ false = ground arith in
    let wide : ltb (2 ^ 32 - 1) x ≡ false = ground arith in rw (d, e, big, wide) refl

to_chars-AllDigits : (x : ℕ) → All IsDigit (to_chars x)
unfolding to_chars
to_chars-AllDigits x = digits_loop-AllDigits 10 x [] tt

to_chars-pos : (x : ℕ) → 0 < length (to_chars x)
unfolding to_chars
to_chars-pos x = digits_loop-pos 9 x []

read_subid-to_chars : (x : ℕ) → IsSubid x → read_subid (to_chars x) ≡ some x
read_subid-to_chars x h =
    read_subid-digits x (to_chars x) h (to_chars-AllDigits x) (to_chars-pos x) (to_chars-value x h)

module _ (n : ℕ) (result : Oid) (text part : Text) (v : ℕ) (read : read_subid part ≡ some v)
    (room : (length result == max_subids) ≡ false) where
  parse_loop-last :
      split_dot text ≡ (part, none) → parse_loop (suc n) result text ≡ some (result ++ v ∷ [])
  unfolding parse_loop
  parse_loop-last e = ground (arith, e, read, room)

  parse_loop-more :
      (rest : Text)
      → split_dot text ≡ (part, some rest)
      → parse_loop (suc n) result text ≡ parse_loop n (result ++ v ∷ []) rest
  unfolding parse_loop
  parse_loop-more rest e = ground (arith, e, read, room)

parse_loop-string :
    (n : ℕ) (result : Oid) (x : ℕ) (xs : Oid)
    → length xs < n
    → length result + suc (length xs) ≤ max_subids
    → IsSubid x
    → All IsSubid xs
    → parse_loop n result (to_chars x ++ rest_string xs) ≡ some (result ++ x ∷ xs)
unfolding rest_string
parse_loop-string zero result x xs l m h t = absurd (omega arith)
parse_loop-string (suc n) result x [] l m h t =
    let e : split_dot (to_chars x ++ []) ≡ (to_chars x, none) =
      rw (append-nil (to_chars x)) (split_dot-end (to_chars x) (to_chars-AllDigits x)) in
    let f : (length result == max_subids) ≡ false = ground arith in
    parse_loop-last n result (to_chars x ++ []) (to_chars x) x (read_subid-to_chars x h) f e
parse_loop-string (suc n) result x (y ∷ ys) l m h (hy, t) =
    let tail = to_chars y ++ rest_string ys in
    let e : split_dot (to_chars x ++ dot ∷ tail) ≡ (to_chars x, some tail) =
      split_dot-dot (to_chars x) tail (to_chars-AllDigits x) in
    let f : (length result == max_subids) ≡ false = ground arith in
    parse_loop-more n result (to_chars x ++ dot ∷ tail) (to_chars x) x (read_subid-to_chars x h) f
      tail e
    ∙ (parse_loop-string n (result ++ x ∷ []) y ys (omega arith)
          (let g = length-append result (x ∷ []) in omega arith) hy t
        ∙ ap some (append_assoc result (x ∷ []) (y ∷ ys)))

parse-digits :
    (t rest : Text)
    → All IsDigit t
    → 0 < length t
    → parse (t ++ rest) ≡ parse_loop (suc (length (t ++ rest))) [] (t ++ rest)
unfolding parse parse_parts
parse-digits [] rest a l = absurd (omega arith)
parse-digits (c ∷ cs) rest (d, a) l = let e : (c == dot) ≡ false = ground (arith, d) in rw e refl

length-rest_string : (xs : Oid) → length xs ≤ length (rest_string xs)
unfolding rest_string
length-rest_string [] = omega arith
length-rest_string (x ∷ xs) =
    let h = length-rest_string xs in
    let g = length-append (to_chars x) (rest_string xs) in omega arith

-- Every OID of at least one and at most 128 sub-identifiers of 32 bits is read back by parse from
-- the text that toString writes.
pub parse-to_string :
    (x : ℕ) (xs : Oid)
    → All IsSubid (x ∷ xs)
    → length (x ∷ xs) ≤ max_subids
    → parse (to_string (x ∷ xs)) ≡ some (x ∷ xs)
unfolding to_string
parse-to_string x xs (h, t) l =
    let g = length-append (to_chars x) (rest_string xs) in
    let k = length-rest_string xs in
    parse-digits (to_chars x) (rest_string xs) (to_chars-AllDigits x) (to_chars-pos x)
    ∙ parse_loop-string (suc (length (to_chars x ++ rest_string xs))) [] x xs (omega arith)
        (omega arith) h t

-- What `parse` makes of any text.
IsRead : Oid → Type 0
IsRead o = All IsSubid o × (length o ≤ max_subids) × (0 < length o)

fitting-IsSubid : (x : Option (ℕ × Text)) (v : ℕ) → fitting x ≡ some v → IsSubid v
unfolding fitting
fitting-IsSubid none v h = absurd (cc (h))
fitting-IsSubid (some (w, x ∷ xs)) v h = absurd (cc (h))
fitting-IsSubid (some (w, [])) v h = ground (arith, h)

read_subid-IsSubid : (t : Text) (v : ℕ) → read_subid t ≡ some v → IsSubid v
unfolding read_subid
read_subid-IsSubid [] v h = absurd (cc (h))
read_subid-IsSubid (c ∷ cs) v h = elim (Bool-cases (is_digit c)) [
  | inl d ↦ fitting-IsSubid (from_chars (c ∷ cs)) v (ground (arith, h, d))
  | inr d ↦ absurd (ground (arith, h, d))
]

parse_loop-IsRead :
    (n : ℕ) (result : Oid) (text : Text) (o : Oid)
    → All IsSubid result
    → length result ≤ max_subids
    → parse_loop n result text ≡ some o
    → IsRead o
unfolding parse_loop IsRead
parse_loop-IsRead zero result text o a l h = absurd (cc (h))
parse_loop-IsRead (suc n) result text o a l h =
    elim (Option-cases (read_subid (split_dot text).0)) [
      | inl e ↦ absurd (ground (arith, h, e))
      | inr (v, e) ↦
          let g = length-append result (v ∷ []) in
          let more : All IsSubid (result ++ v ∷ []) =
            All-append IsSubid result (v ∷ []) a (read_subid-IsSubid (split_dot text).0 v e, tt) in
          elim (Bool-cases (length result == max_subids)) [
            | inl c ↦ absurd (ground (arith, h, e, c))
            | inr c ↦
                let k : length (result ++ v ∷ []) ≤ max_subids = ground (arith, g, c, l) in
                elim (Option-cases (split_dot text).1) [
                  | inl f ↦
                      let same : result ++ v ∷ [] ≡ o = ground (arith, h, e, c, f) in
                      subst IsRead same (more, k, omega arith)
                  | inr (rest, f) ↦
                      parse_loop-IsRead n (result ++ v ∷ []) rest o more k
                        (ground (arith, h, e, c, f))
                ]
          ]
    ]

parse_parts-IsRead : (text : Text) (o : Oid) → parse_parts text ≡ some o → IsRead o
unfolding parse_parts
parse_parts-IsRead [] o h = absurd (cc (h))
parse_parts-IsRead (c ∷ cs) o h = parse_loop-IsRead _ [] (c ∷ cs) o tt (omega arith) h

parse-IsRead : (text : Text) (o : Oid) → parse text ≡ some o → IsRead o
unfolding parse
parse-IsRead [] o h = absurd (cc (h))
parse-IsRead (c ∷ cs) o h = elim (Bool-cases (c == dot)) [
  | inl d ↦ parse_parts-IsRead cs o (ground (arith, h, d))
  | inr d ↦ parse_parts-IsRead (c ∷ cs) o (ground (arith, h, d))
]

-- Whatever text parse accepts, it yields an OID of at least one and at most 128 sub-identifiers of
-- 32 bits, and reads the same from the text that toString writes for that.
pub parse-stable :
    (text : Text) (o : Oid)
    → parse text ≡ some o
    → All IsSubid o × (length o ≤ max_subids) × (0 < length o) × (parse (to_string o) ≡ some o)
unfolding IsRead
parse-stable text [] h = let (a, l, p) = parse-IsRead text [] h in absurd (omega arith)
parse-stable text (x ∷ xs) h =
    let (a, l, p) = parse-IsRead text (x ∷ xs) h in (a, l, p, parse-to_string x xs a l)
