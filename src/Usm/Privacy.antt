-- ===== src/Usm/Privacy.antt =====
-- `privEncrypt` and `privDecrypt` of src/Usm.cpp, one behind the other.
use snmpio.Common.{
  ℕ, ◌-◌, ◌%◌, ◌^◌, ◌≤◌, Bool, true, false, not, ◌&&◌, Option, none, some, ltb, ◌==◌, if◌then◌else◌,
  length, replicate, length-append, length-replicate, Bool-cases, inl, inr, ◌≡◌, refl, sym, ap, ◌∙◌,
  arith, subst,
}
use snmpio.Common.Int32.{ℤ, to_u32}
use snmpio.Common.Bytes.{bytes_be, length-bytes_be, shr}
use snmpio.Error.{Errc, crypto_failure, unsupported_priv_protocol}
use snmpio.Value.{Octets}
use snmpio.Usm.{
  PrivProtocol, is_des, Result, done, fault, on_success, or_crypto_failure, Crypto, priv_key_size,
  padded, salt_octets, make_iv, crypt, priv_encrypt, priv_decrypt,
}

abbrev IsDone : {A : Type 0} → Result A → Type 0
IsDone (done a) = Unit {0}
IsDone (fault e) = ⊥

abbrev value_or : {A : Type 0} → A → Result A → A
value_or d (done a) = a
value_or d (fault e) = d

pub done_inj : {A : Type 0} (a b : A) → done a ≡ done b → a ≡ b
done_inj a b h = ap (value_or a) h

pub not_done : {A : Type 0} (e : Errc) (a : A) → ¬ (fault e ≡ done a)
not_done e a h = subst IsDone (sym h) tt

pub on_success-done :
    {A B : Type 0} (r : Result A) (f : A → Result B) (b : B)
    → on_success r f ≡ done b
    → (a : A) × ((r ≡ done a) × (f a ≡ done b))
on_success-done (done a) f b h = (a, (refl, h))
on_success-done (fault e) f b h = absurd (not_done e b h)

pub or_crypto_failure-done :
    (o : Option Octets) (b : Octets) → or_crypto_failure o ≡ done b → o ≡ some b
or_crypto_failure-done none b h = absurd (not_done crypto_failure b h)
or_crypto_failure-done (some a) b h = ap some (done_inj a b h)

length-salt_octets :
    (p : PrivProtocol) (boots : ℤ) (salt : ℕ) → length (salt_octets p boots salt) ≡ 8
unfolding salt_octets
length-salt_octets p boots salt = elim (Bool-cases (is_des p)) [
  | inl e ↦ rw e (
      omega (
        arith,
        length-append (bytes_be 4 (to_u32 boots % 2 ^ 32)) (bytes_be 4 (salt % 2 ^ 32)),
        length-bytes_be 4 (to_u32 boots % 2 ^ 32),
        length-bytes_be 4 (salt % 2 ^ 32),
      ))
  | inr e ↦ rw e (
      omega (
        arith,
        length-append (bytes_be 4 (shr salt 32 % 2 ^ 32)) (bytes_be 4 (salt % 2 ^ 32)),
        length-bytes_be 4 (shr salt 32 % 2 ^ 32),
        length-bytes_be 4 (salt % 2 ^ 32),
      ))
]

length-padded : (x : Octets) → (length (padded x) % 8 ≡ 0) × (length x ≤ length (padded x))
unfolding padded
length-padded x =
    let n = (8 - length x % 8) % 8 in
    let e = length-append x (replicate n 0) in
    let r = length-replicate {A = ℕ} n 0 in (omega (arith, e, r), omega (arith, e))

-- What is encrypted.
abbrev pub plaintext_of : PrivProtocol → Octets → Octets
plaintext_of p plaintext = if is_des p then padded plaintext else plaintext

-- A cipher that is its own inverse in the other direction, and keeps the length.
abbrev pub IsInvertible : Crypto → Type 0
IsInvertible crypto =
    (p : PrivProtocol) (key iv x y : Octets)
    → crypto.cipher p true key iv x ≡ some y
    → (crypto.cipher p false key iv y ≡ some x) × (length y ≡ length x)

module _ (crypto : Crypto) (inverse : IsInvertible crypto) where
  crypt-crypt :
      (p : PrivProtocol) (key iv x y : Octets)
      → crypt crypto p key iv x true ≡ done y
      → (crypt crypto p key iv y false ≡ done x) × (length y ≡ length x)
  unfolding crypt
  crypt-crypt p key iv x y h = elim (Bool-cases (is_des p && not crypto.has_legacy)) [
    | inl c ↦ absurd (not_done _ y (rw c at h))
    | inr c ↦ elim (Bool-cases (not (crypto.has_cipher p))) [
      | inl d ↦ absurd (not_done _ y (rw (c, d) at h))
      | inr d ↦
          let (back, len) =
            inverse p key iv x y
              (or_crypto_failure-done (crypto.cipher p true key iv x) y (rw (c, d) at h)) in
          (rw (c, d, back) refl, len)
    ]
  ]

  -- The guards of `privDecrypt` pass on what `privEncrypt` returned.
  opened :
      (p : PrivProtocol) (key : Octets) (boots time : ℤ) (params x y : Octets)
      → (priv_key_size p == 0) ≡ false
      → ltb (length key) (priv_key_size p) ≡ false
      → length params ≡ 8
      → (is_des p ≡ true → (1 ≤ length y) × (length y % 8 ≡ 0))
      → crypt crypto p key (make_iv p key boots time params) y false ≡ done x
      → priv_decrypt crypto p key boots time params y ≡ done x
  unfolding priv_decrypt
  opened p key boots time params x y hs hk hp hd hc =
      let eight : (length params == 8) ≡ true = ground arith in
      rw (hk, hs, eight)
        (elim (Bool-cases (is_des p)) [
          | inl d ↦
              let some_octets : (length y == 0) ≡ false = ground (arith, (hd d).0) in
              let blocks : (length y % 8 == 0) ≡ true = ground (arith, (hd d).1) in
              rw (d, some_octets, blocks) hc
          | inr d ↦ rw d hc
        ])

  whole_blocks :
      (p : PrivProtocol) (x y : Octets)
      → (is_des p ≡ true → 1 ≤ length x)
      → length y ≡ length (plaintext_of p x)
      → is_des p ≡ true
      → (1 ≤ length y) × (length y % 8 ≡ 0)
  whole_blocks p x y hx e d =
      let same : length y ≡ length (padded x) =
        e ∙ ap (λ (b : Bool). length (if b then padded x else x)) d in
      let (m, l) = length-padded x in (omega (arith, hx d, l, same), ap (λ (n : ℕ). n % 8) same ∙ m)

  sealed :
      (salt : ℕ) (p : PrivProtocol) (key : Octets) (boots time : ℤ) (x params out : Octets)
      → priv_encrypt crypto salt p key boots time x ≡ done (params, out)
      → ((priv_key_size p == 0) ≡ false)
        × ((ltb (length key) (priv_key_size p) ≡ false)
            × ((params ≡ salt_octets p boots salt)
                × (crypt crypto p key
                      (make_iv p key boots time (salt_octets p boots salt))
                      (plaintext_of p x)
                      true
                    ≡ done out)))
  unfolding priv_encrypt
  sealed salt p key boots time x params out h = elim (Bool-cases (priv_key_size p == 0)) [
    | inl c ↦ absurd (not_done unsupported_priv_protocol (params, out) (rw c at h))
    | inr c ↦ elim (Bool-cases (ltb (length key) (priv_key_size p))) [
      | inl d ↦ absurd (not_done unsupported_priv_protocol (params, out) (rw (c, d) at h))
      | inr d ↦
          let (o, (hc, ho)) =
            on_success-done
              (crypt crypto p key (make_iv p key boots time (salt_octets p boots salt))
                (plaintext_of p x) true)
              (λ o. done (salt_octets p boots salt, o)) (params, out) (rw (c, d) at h) in
          let e = done_inj (salt_octets p boots salt, o) (params, out) ho in
          (
            c,
            (
              d,
              (
                sym (ap (λ (q : Octets × Octets). q.0) e),
                hc ∙ ap (λ (q : Octets × Octets). done q.1) e,
              ),
            ),
          )
    ]
  ]

  -- If the cipher undoes itself in the other direction and keeps the length, what privEncrypt
  -- returned is opened by privDecrypt under the same protocol, key, boots and time and the privacy
  -- parameters that it chose: to the plaintext, which under DES is padded with zeros to whole
  -- blocks and must not be empty.
  pub priv_decrypt-priv_encrypt :
      (salt : ℕ) (p : PrivProtocol) (key : Octets) (boots time : ℤ) (x params out : Octets)
      → (is_des p ≡ true → 1 ≤ length x)
      → priv_encrypt crypto salt p key boots time x ≡ done (params, out)
      → priv_decrypt crypto p key boots time params out ≡ done (plaintext_of p x)
  priv_decrypt-priv_encrypt salt p key boots time x params out hx h =
      let (hs, (hk, (hp, hc))) = sealed salt p key boots time x params out h in
      let iv = make_iv p key boots time (salt_octets p boots salt) in
      let (back, len) = crypt-crypt p key iv (plaintext_of p x) out hc in
      opened p key boots time params (plaintext_of p x) out hs hk
        (ap (λ (l : Octets). length l) hp ∙ length-salt_octets p boots salt)
        (whole_blocks p x out hx len) (rw hp back)
