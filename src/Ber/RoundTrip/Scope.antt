-- ===== src/Ber/RoundTrip/Scope.antt =====
-- A constructed element: the reader's scope on what the writer's scope left behind.
use snmpio.Common.{
  ℕ, ◌+◌, ◌^◌, ◌<◌, true, false, none, some, Option, List, [], ◌∷◌, ◌++◌, ◌==◌, length, ◌≡◌, refl,
  sym, ap, ◌∙◌, arith, append_assoc, length-append,
}
use snmpio.Ber.Tag
use snmpio.Ber.Writer.Shape.{element, length_bytes}
use snmpio.Ber.Reader.{
  Reader, Read, Scope, has_error, peek_tag, read_header, enter, enter_header, is_tag, leave,
  in_scope,
}
use snmpio.Ber.Reader.Cursor.{facing, facing_ok, end-facing, pos-facing, peek_tag-facing}
use snmpio.Ber.RoundTrip.Header.{read_header-facing}

-- The octets in front of the content, and the scope that is open on it.
abbrev pub front : ℕ → List ℕ → List ℕ → List ℕ
front t c pre = pre ++ t ∷ length_bytes (length c)

abbrev pub scope_on : ℕ → List ℕ → List ℕ → List ℕ → Scope
scope_on t c pre xs = record {
  saved_end = length pre + length (element t c ++ xs);
  content_end = length (front t c pre) + length c;
}

enter_step :
    (t : ℕ) (r : Reader)
    → has_error r ≡ false
    → Tag.is_constructed t ≡ true
    → peek_tag r ≡ some t
    → enter t r ≡ enter_header r.end (read_header r)
unfolding enter
enter_step t r h hc hp =
    let same : is_tag t (some t) ≡ true = ground arith in
    let found : is_tag t (peek_tag r) ≡ true = ap (is_tag t) hp ∙ same in rw (h, hc, found)

-- The bound is narrowed to the content, which hides what follows.
narrowed :
    (saved_end n : ℕ) (pre c xs post : List ℕ) (t : ℕ)
    → n ≡ length c
    → enter_header saved_end (facing pre (c ++ xs) post, some (record { tag = t; length = n })) ≡ (
      facing pre c (xs ++ post),
      record { saved_end = saved_end; content_end = length pre + length c },
    )
unfolding enter_header facing
narrowed saved_end n pre c xs post t e = rw (e, append_assoc c xs post)

pub enter-facing :
    (t : ℕ) (c pre xs post : List ℕ)
    → Tag.is_constructed t ≡ true
    → Tag.is_high_tag_number t ≡ false
    → length c < 2 ^ 32
    → enter t (facing pre (element t c ++ xs) post)
      ≡ (facing (front t c pre) c (xs ++ post), scope_on t c pre xs)
unfolding element
enter-facing t c pre xs post hc ht hn =
    enter_step t r (facing_ok pre _ post) hc (peek_tag-facing pre t _ post)
    ∙ ap (enter_header r.end) header
    ∙ ap
        (λ (e : ℕ).
          enter_header e
            (facing (front t c pre) (c ++ xs) post, some (record { tag = t; length = length c })))
        (end-facing pre (element t c ++ xs) post)
    ∙ narrowed _ (length c) (front t c pre) c xs post t refl
  where
    r : Reader
    r = facing pre (t ∷ ((length_bytes (length c) ++ c) ++ xs)) post

    header :
        read_header r
        ≡ (facing (front t c pre) (c ++ xs) post, some (record { tag = t; length = length c }))
    header = rw (append_assoc (length_bytes (length c)) c xs) (
        read_header-facing t (length c) pre (c ++ xs) post ht hn
          (omega (arith, length-append c xs)))

leave_step :
    (s : Scope) (r : Reader)
    → has_error r ≡ false
    → r.pos ≡ s.content_end
    → leave s r ≡ record r { end = s.saved_end; pos = s.content_end }
unfolding leave
leave_step s r h e = let there : (r.pos == s.content_end) ≡ true = ground arith in rw (h, there)

front-append : (t : ℕ) (c pre : List ℕ) → front t c pre ++ c ≡ pre ++ element t c
unfolding element
front-append t c pre = append_assoc pre (t ∷ length_bytes (length c)) c

-- Behind the content the outer bound is back.
pub leave-facing :
    (t : ℕ) (c pre xs post : List ℕ)
    → leave (scope_on t c pre xs) (facing (front t c pre ++ c) [] (xs ++ post))
      ≡ facing (pre ++ element t c) xs post
leave-facing t c pre xs post =
    leave_step (scope_on t c pre xs) _ (facing_ok (front t c pre ++ c) [] (xs ++ post)) there
    ∙ (unfold facing in
        λ i. record {
          buf = front-append t c pre i ++ (xs ++ post);
          pos = (sym there' ∙ ap (λ (l : List ℕ). length l) (front-append t c pre)) i;
          end = outer i;
          ec = none;
        })
  where
    there' : length (front t c pre ++ c) ≡ length (front t c pre) + length c
    there' = length-append (front t c pre) c

    there : (facing (front t c pre ++ c) [] (xs ++ post)).pos ≡ length (front t c pre) + length c
    there = pos-facing (front t c pre ++ c) [] (xs ++ post) ∙ there'

    outer : length pre + length (element t c ++ xs) ≡ length (pre ++ element t c) + length xs
    outer = omega (arith, length-append (element t c) xs, length-append pre (element t c))

-- A block inside a scope reads the content, and nothing in front of it or behind it.
pub in_scope-facing :
    {A : Type 0} (t : ℕ) (body : Read A) (a : A) (c pre xs post : List ℕ)
    → Tag.is_constructed t ≡ true
    → Tag.is_high_tag_number t ≡ false
    → length c < 2 ^ 32
    → ((p q : List ℕ) → body (facing p c q) ≡ (facing (p ++ c) [] q, some a))
    → in_scope t body (facing pre (element t c ++ xs) post)
      ≡ (facing (pre ++ element t c) xs post, some a)
unfolding in_scope
in_scope-facing {A} t body a c pre xs post hc ht hn hb =
    ap (λ (p : Reader × Scope). (leave p.1 (body p.0).0, (body p.0).1))
      (enter-facing t c pre xs post hc ht hn)
    ∙ ap (λ (p : Reader × Option A). (leave (scope_on t c pre xs) p.0, p.1))
        (hb (front t c pre) (xs ++ post))
    ∙ ap (λ (r : Reader). (r, some a)) (leave-facing t c pre xs post)
