-- ===== src/V3Message/Frame.antt =====
-- Where the digest of an SNMPv3 message stands: what `encodeV3Message` of src/V3Message.cpp wraps the
-- field in, and the offset that it keeps.
use snmpio.Common.{
  ℕ, ◌+◌, ◌-◌, ◌<◌, none, [], ◌++◌, lt→ltb, length, replicate, ◌≡◌, refl, sym, ap, ◌∙◌, arith,
  length-append, length-replicate, append_assoc,
}
use snmpio.Value.{Octets}
use snmpio.Ber.Tag
use snmpio.Ber.Writer
use snmpio.Ber.Writer.{Writer}
use snmpio.Ber.Writer.Shape.{
  ready, element, length_bytes, integer-ready, octet_string-ready, tlv-ready, in_scope-ready,
}
use snmpio.Usm.{done}
use snmpio.V3Message.{
  V3Header, UsmParameters, put_global_data, encode_usm_content, assembled, wrap_message, version_v3,
}
use snmpio.V3Message.Layout.{
  string_octets, int_octets, head, user_octets, usm_octets, global_octets, body_octets,
  encode_usm_content_lem, global_data_lem,
}

-- The octets of an element of `n` octets.
abbrev pub size : ℕ → ℕ
size n = 1 + (length (length_bytes n) + n)

pub length-element-size : (t : ℕ) (c : Octets) → length (element t c) ≡ size (length c)
unfolding element
length-element-size t c = omega (arith, length-append (length_bytes (length c)) c)

one_octet : (n : ℕ) → n < 128 → length (length_bytes n) ≡ 1
unfolding length_bytes
one_octet n h = rw (lt→ltb n 0x80 h) refl

module _ (h : V3Header) (usm : UsmParameters) (priv_params payload : Octets) where
  abbrev pub content : Octets → Octets
  content digest = usm_octets usm digest priv_params

  abbrev pub params : Octets → Octets
  params digest = element Tag.sequence (content digest)

  abbrev pub body : Octets → Octets
  body digest = body_octets h (content digest) payload

  -- The datagram with a digest.
  abbrev pub message : Octets → Octets
  message digest = element Tag.sequence (body digest)

  unfoldable pub front_of : ℕ → ℕ → ℕ → ℕ → Octets
  front_of n_body n_params n_content width =
      head Tag.sequence n_body
      ++ (int_octets version_v3
          ++ (element Tag.sequence (global_octets h)
              ++ (head Tag.octet_string n_params
                  ++ (head Tag.sequence n_content
                      ++ (user_octets usm ++ head Tag.octet_string width)))))

  -- What stands in front of the digest, and behind it.
  unfoldable pub front : Octets → Octets
  front digest =
      front_of (length (body digest)) (length (params digest)) (length (content digest))
        (length digest)

  abbrev pub back : Octets
  back = string_octets priv_params ++ payload

  pub message_split : (digest : Octets) → message digest ≡ front digest ++ (digest ++ back)
  unfolding front front_of element body_octets usm_octets
  message_split digest = simp append_assoc

  length-content :
      (x : Octets)
      → length (content x)
        ≡ length (user_octets usm) + (size (length x) + size (length priv_params))
  unfolding usm_octets
  length-content x = omega (
    arith,
    length-append (user_octets usm) (string_octets x ++ string_octets priv_params),
    length-append (string_octets x) (string_octets priv_params),
    length-element-size Tag.octet_string x,
    length-element-size Tag.octet_string priv_params,
  )

  pub length-body :
      (x : Octets)
      → length (body x)
        ≡ length (int_octets version_v3)
          + (length (element Tag.sequence (global_octets h))
              + (size (length (params x)) + length payload))
  unfolding body_octets
  length-body x = omega (
    arith,
    length-append (int_octets version_v3)
        (element Tag.sequence (global_octets h) ++ (string_octets (params x) ++ payload)),
    length-append (element Tag.sequence (global_octets h)) (string_octets (params x) ++ payload),
    length-append (string_octets (params x)) payload,
    length-element-size Tag.octet_string (params x),
  )

  -- Digests of one width have the same octets round them.
  pub front_eq : (x y : Octets) → length x ≡ length y → front x ≡ front y
  unfolding front
  front_eq x y e =
      let n = length (user_octets usm) in
      let c : length (content x) ≡ length (content y) =
        length-content x
        ∙ ap (λ (k : ℕ). n + (size k + size (length priv_params))) e
        ∙ sym (length-content y) in
      let p : length (params x) ≡ length (params y) =
        length-element-size Tag.sequence (content x)
        ∙ ap (λ (k : ℕ). size k) c
        ∙ sym (length-element-size Tag.sequence (content y)) in
      let b : length (body x) ≡ length (body y) =
        length-body x
        ∙ ap
            (λ (k : ℕ).
              length (int_octets version_v3)
              + (length (element Tag.sequence (global_octets h)) + (size k + length payload)))
            p
        ∙ sym (length-body y) in
      λ i. front_of (b i) (p i) (c i) (e i)

  -- The position that the subtractions of `encodeV3Message` arrive at.
  pub length-front :
      (x : Octets)
      → length x < 128
      → length (front x)
        ≡ (length (user_octets usm) + 2)
          + (length (params x) - length (content x))
          + (length (
                int_octets version_v3
                ++ (element Tag.sequence (global_octets h) ++ string_octets (params x)))
              - length (params x))
          + (length (message x) - length (body x))
  unfolding front front_of
  length-front x hx =
      let v = int_octets version_v3 in
      let g = element Tag.sequence (global_octets h) in
      let hp = head Tag.octet_string (length (params x)) in
      let hc = head Tag.sequence (length (content x)) in
      let hd = head Tag.octet_string (length x) in
      let u = user_octets usm in
      omega (
        arith,
        one_octet (length x) hx,
        length-append (head Tag.sequence (length (body x))) (v ++ (g ++ (hp ++ (hc ++ (u ++ hd))))),
        length-append v (g ++ (hp ++ (hc ++ (u ++ hd)))),
        length-append g (hp ++ (hc ++ (u ++ hd))),
        length-append hp (hc ++ (u ++ hd)),
        length-append hc (u ++ hd),
        length-append u hd,
        length-append v (g ++ string_octets (params x)),
        length-append g (string_octets (params x)),
        length-element-size Tag.octet_string (params x),
        length-element-size Tag.sequence (content x),
        length-element-size Tag.sequence (body x),
      )

assembled_done :
    (scoped_content : Writer) (c p d b w : Octets) (n : ℕ)
    → scoped_content.ec ≡ none
    → assembled scoped_content (ready c) (ready p) (ready d) (ready b) (ready w) n
      ≡ done (w, n + (length p - length c) + (length d - length p) + (length w - length b))
unfolding assembled
assembled_done scoped_content c p d b w n hs = rw hs refl

-- What is wrapped, where `put` appends the payload.
pub wrap_message_lem :
    (h : V3Header) (usm : UsmParameters) (priv_params payload : Octets) (width : ℕ)
    (scoped_content : Writer) (put : Writer → Writer)
    → width < 128
    → scoped_content.ec ≡ none
    → ((b : Octets) → put (ready b) ≡ ready (b ++ payload))
    → let blank : Octets = replicate width 0 in
      wrap_message h usm width priv_params scoped_content put
      ≡ done
          (message h usm priv_params payload blank, length (front h usm priv_params payload blank))
unfolding wrap_message Writer.new
wrap_message_lem h usm priv_params payload width scoped_content put hw hs hp =
    let blank : Octets = replicate width 0 in
    let c = content h usm priv_params payload blank in
    let p = params h usm priv_params payload blank in
    let b = body h usm priv_params payload blank in
    let v = int_octets version_v3 in
    let g = element Tag.sequence (global_octets h) in
    let e1 : encode_usm_content usm width priv_params (ready [])
        ≡ (ready c, length (user_octets usm) + 2) =
      encode_usm_content_lem usm width priv_params []
      ∙ ap (λ (n : ℕ). (ready c, n)) (omega arith) in
    let e2 : Writer.tlv Tag.sequence c (ready []) ≡ ready p = tlv-ready Tag.sequence c [] in
    let e3 : Writer.in_scope Tag.sequence (put_global_data h)
          (Writer.integer Tag.integer version_v3 (ready []))
        ≡ ready (v ++ g) =
      ap (Writer.in_scope Tag.sequence (put_global_data h))
        (integer-ready Tag.integer version_v3 [])
      ∙ in_scope-ready Tag.sequence (put_global_data h) (global_octets h) v refl
          (global_data_lem h) in
    let e4 : Writer.octet_string Tag.octet_string p (ready (v ++ g))
        ≡ ready (v ++ (g ++ string_octets p)) =
      octet_string-ready Tag.octet_string p (v ++ g)
      ∙ ap ready (append_assoc v g (string_octets p)) in
    let e5 : put (ready (v ++ (g ++ string_octets p))) ≡ ready b =
      hp (v ++ (g ++ string_octets p))
      ∙ ap ready (simp append_assoc (unfold body_octets in refl)) in
    let e6 : Writer.tlv Tag.sequence b (ready []) ≡ ready (element Tag.sequence b) =
      tlv-ready Tag.sequence b [] in
    let n = length (user_octets usm) + 2 in
    let b1 =
      Writer.in_scope Tag.sequence (put_global_data h)
        (Writer.integer Tag.integer version_v3 (ready [])) in
    let closed : Writer → Writer = λ w. Writer.tlv Tag.sequence w.buf (ready []) in
    ap
      (λ (m : Writer × ℕ).
        let q = closed m.0 in
        let d = Writer.octet_string Tag.octet_string q.buf b1 in
        assembled scoped_content m.0 q d (put d) (closed (put d)) m.1)
      e1
    ∙ ap
        (λ (q : Writer).
          let d = Writer.octet_string Tag.octet_string q.buf b1 in
          assembled scoped_content (ready c) q d (put d) (closed (put d)) n)
        e2
    ∙ ap
        (λ (w : Writer).
          let d = Writer.octet_string Tag.octet_string p w in
          assembled scoped_content (ready c) (ready p) d (put d) (closed (put d)) n)
        e3
    ∙ ap (λ (d : Writer). assembled scoped_content (ready c) (ready p) d (put d) (closed (put d)) n)
        e4
    ∙ ap
        (λ (w : Writer).
          assembled scoped_content (ready c) (ready p) (ready (v ++ (g ++ string_octets p))) w
            (closed w) n)
        e5
    ∙ ap
        (λ (w : Writer).
          assembled scoped_content (ready c) (ready p) (ready (v ++ (g ++ string_octets p)))
            (ready b) w n)
        e6
    ∙ assembled_done scoped_content c p (v ++ (g ++ string_octets p)) b (element Tag.sequence b) n
        hs
    ∙ ap (λ (k : ℕ). done (element Tag.sequence b, k))
        (sym (
          length-front h usm priv_params payload blank
            (omega (arith, length-replicate {A = ℕ} width 0))))
