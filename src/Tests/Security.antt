-- ===== src/Tests/Security.antt =====
-- The security model with a toy in place of OpenSSL: hashes that do not look at their input and a
-- cipher that changes nothing.
use snmpio.Common.{true, some, Option, [], ◌∷◌, length, replicate, ◌≡◌, refl, sym, ap, arith, none}
use snmpio.Common.Int32.{pos, to_u32}
use snmpio.Common.Bytes.{bytes_be}
use snmpio.Value.{Octets}
use snmpio.Usm.{
  AuthProtocol, PrivProtocol, SecurityLevel, Crypto, Credentials, done, is_des, is_no_auth,
  is_reeder, priv_key_size, auth_params_size, padded, salt_octets, crypt, priv_encrypt,
  priv_decrypt, hash_of, password_to_key, localize_key, more_key, extend_loop, localized_priv_key,
  auth_digest,
}
use snmpio.Usm.Privacy.{IsInvertible, plaintext_of, priv_decrypt-priv_encrypt}
use snmpio.Usm.Keys.{length-localized_priv_key}

abbrev pub toy : Crypto
toy = record {
  hash = λ p message. some (replicate 16 7);
  hmac = λ p key message. some (replicate 20 9);
  memcmp = λ a b. 0;
  has_legacy = true;
  has_cipher = λ p. true;
  cipher = λ p encrypt key iv input. some input;
}

some_inj : (x y : Octets) → some x ≡ some y → x ≡ y
some_inj x y h = ap (λ (o : Option Octets). elim o [ none ↦ x | some z ↦ z ]) h

pub toy_inverse : IsInvertible toy
toy_inverse p k iv x y h =
    let e = some_inj x y h in (ap some (sym e), ap (λ (l : Octets). length l) (sym e))

abbrev pub key : Octets
key = replicate 16 1

abbrev plain : Octets
plain = 1 ∷ 2 ∷ 3 ∷ []

abbrev salt : Octets
salt = 0 ∷ 0 ∷ 0 ∷ 2 ∷ 0 ∷ 0 ∷ 1 ∷ 4 ∷ []

abbrev sealed : Octets
sealed = 1 ∷ 2 ∷ 3 ∷ 0 ∷ 0 ∷ 0 ∷ 0 ∷ 0 ∷ []

encrypted_once :
    priv_encrypt toy 260 PrivProtocol.des key (pos 2) (pos 9) plain ≡ done (salt, sealed)
unfolding priv_encrypt priv_key_size is_des crypt padded salt_octets bytes_be to_u32
encrypted_once = refl

priv_decrypt-priv_encrypt_example :
    priv_decrypt toy PrivProtocol.des key (pos 2) (pos 9) salt sealed
    ≡ done (plaintext_of PrivProtocol.des plain)
priv_decrypt-priv_encrypt_example =
    priv_decrypt-priv_encrypt toy toy_inverse 260 PrivProtocol.des key (pos 2) (pos 9) plain salt
      sealed (λ d. omega arith) encrypted_once

abbrev long_key : Octets
long_key = replicate 24 7

abbrev short_digest : Octets
short_digest = replicate 12 9

abbrev alice : Credentials
alice = record {
  user_name = b'a' ∷ [];
  level = SecurityLevel.auth_priv;
  auth_protocol = AuthProtocol.md5;
  auth_password = b'p' ∷ [];
  priv_protocol = PrivProtocol.aes192;
  priv_password = b'q' ∷ [];
}

alice_key : localized_priv_key toy alice (5 ∷ []) ≡ done long_key
unfolding localized_priv_key priv_key_size password_to_key localize_key extend_loop more_key hash_of
    is_no_auth is_reeder
alice_key = refl

length-localized_priv_key_example : length long_key ≡ priv_key_size PrivProtocol.aes192
length-localized_priv_key_example = length-localized_priv_key toy alice (5 ∷ []) long_key alice_key

digest_cut : auth_digest toy AuthProtocol.sha1 key plain ≡ done short_digest
unfolding auth_digest auth_params_size is_no_auth
digest_cut = refl
