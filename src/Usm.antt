-- ===== src/Usm.antt =====
-- include/snmpio/Usm.hpp and src/Usm.cpp: the User-based Security Model. The digests and ciphers are
-- OpenSSL's and a parameter.
pub mod Privacy
pub mod Keys
use snmpio.Common.{
  ℕ, zero, suc, ◌+◌, ◌-◌, ◌*◌, ◌/◌, ◌%◌, ◌^◌, Bool, true, false, not, ◌&&◌, ◌||◌, Option, none,
  some, List, [], ◌∷◌, ◌++◌, ltb, leb, ◌==◌, if◌then◌else◌, length, get_or, take, drop, replicate,
}
use snmpio.Common.Int32.{ℤ, to_u32}
use snmpio.Common.Bytes.{shr, bytes_be}
use snmpio.Error.{
  Errc, unsupported_auth_protocol, unsupported_priv_protocol, empty_password, crypto_failure,
  legacy_provider_unavailable, decryption_failed,
}
use snmpio.Value.{Octets}
use Prim.Native.Nat.{bit_xor}

pub data AuthProtocol : Type 0 where
  no_auth md5 sha1 sha224 sha256 sha384 sha512 : AuthProtocol

pub data PrivProtocol : Type 0 where
  no_priv des aes128 aes192 aes256 aes192c aes256c : PrivProtocol

pub data SecurityLevel : Type 0 where
  no_auth_no_priv auth_no_priv auth_priv : SecurityLevel

-- The msgFlags bits.
unfoldable pub level_bits : SecurityLevel → ℕ
level_bits no_auth_no_priv = 0
level_bits auth_no_priv = 1
level_bits auth_priv = 3

unfoldable pub is_authenticated : SecurityLevel → Bool
is_authenticated no_auth_no_priv = false
is_authenticated _ = true

unfoldable pub is_encrypted : SecurityLevel → Bool
is_encrypted auth_priv = true
is_encrypted _ = false

unfoldable pub is_no_auth : AuthProtocol → Bool
is_no_auth no_auth = true
is_no_auth _ = false

unfoldable pub is_no_priv : PrivProtocol → Bool
is_no_priv no_priv = true
is_no_priv _ = false

unfoldable pub is_des : PrivProtocol → Bool
is_des des = true
is_des _ = false

-- What a function that sets `ec` returns: a value with `ec` clear, or the error.
pub data Result (A : Type 0) : Type 0 where
  done : A → Result A
  fault : Errc → Result A

abbrev pub on_success : {A B : Type 0} → Result A → (A → Result B) → Result B
on_success (done a) f = f a
on_success (fault e) f = fault e

-- OpenSSL: a hash and an HMAC over a whole message and a cipher pass, each `none` if a call fails, and
-- `CRYPTO_memcmp`.
pub record Crypto : Type 0 where
  pub hash : AuthProtocol → Octets → Option Octets
  pub hmac : AuthProtocol → Octets → Octets → Option Octets
  pub memcmp : Octets → Octets → ℕ
  pub has_legacy : Bool
  pub has_cipher : PrivProtocol → Bool
  pub cipher : PrivProtocol → Bool → Octets → Octets → Octets → Option Octets

unfoldable pub priv_key_size : PrivProtocol → ℕ
priv_key_size no_priv = 0
priv_key_size des = 16
priv_key_size aes128 = 16
priv_key_size aes192 = 24
priv_key_size aes192c = 24
priv_key_size aes256 = 32
priv_key_size aes256c = 32

unfoldable pub auth_params_size : AuthProtocol → ℕ
auth_params_size no_auth = 0
auth_params_size md5 = 12
auth_params_size sha1 = 12
auth_params_size sha224 = 16
auth_params_size sha256 = 24
auth_params_size sha384 = 32
auth_params_size sha512 = 48

pub record Credentials : Type 0 where
  pub user_name : Octets
  pub level : SecurityLevel
  pub auth_protocol : AuthProtocol
  pub auth_password : Octets
  pub priv_protocol : PrivProtocol
  pub priv_password : Octets

abbrev pub or_crypto_failure : Option Octets → Result Octets
or_crypto_failure none = fault crypto_failure
or_crypto_failure (some out) = done out

-- One chunk: `octet = password[index % password.size()]; ++index;`, n times.
unfoldable pub chunk : ℕ → ℕ → Octets → Octets
chunk zero index password = []
chunk (suc n) index password =
    get_or password (index % length password) 0 ∷ chunk n (index + 1) password

-- The chunks of 64 octets that are hashed, one behind the other.
unfoldable pub chunks : ℕ → ℕ → Octets → Octets
chunks zero index password = []
chunks (suc n) index password = chunk 64 index password ++ chunks n (index + 64) password

abbrev pub big_endian32 : ℕ → Octets
big_endian32 v = bytes_be 4 (v % 2 ^ 32)

abbrev pub xor_each : Octets → Octets → Octets
xor_each [] bs = []
xor_each (a ∷ as') [] = []
xor_each (a ∷ as') (b ∷ bs) = bit_xor a b ∷ xor_each as' bs

unfoldable pub make_iv : PrivProtocol → Octets → ℤ → ℤ → Octets → Octets
make_iv p priv_key boots time priv_params =
    if is_des p
    then xor_each (take 8 (drop 8 priv_key)) (take 8 priv_params)
    else big_endian32 (to_u32 boots) ++ (big_endian32 (to_u32 time) ++ priv_params)

-- The zeros that fill the last block.
unfoldable pub padded : Octets → Octets
padded plaintext = plaintext ++ replicate ((8 - length plaintext % 8) % 8) 0

-- The msgPrivacyParameters that the encryption chooses.
unfoldable pub salt_octets : PrivProtocol → ℤ → ℕ → Octets
salt_octets p boots salt =
    if is_des p
    then big_endian32 (to_u32 boots) ++ big_endian32 salt
    else big_endian32 (shr salt 32) ++ big_endian32 salt

unfoldable pub is_reeder : PrivProtocol → Bool
is_reeder aes192c = true
is_reeder aes256c = true
is_reeder _ = false

module _ (crypto : Crypto) where
  unfoldable pub hash_of : AuthProtocol → Octets → Result Octets
  hash_of p input =
      if is_no_auth p
      then fault unsupported_auth_protocol
      else or_crypto_failure (crypto.hash p input)

  -- A megabyte of the password, hashed once.
  unfoldable pub password_to_key : AuthProtocol → Octets → Result Octets
  password_to_key p password =
      if is_no_auth p
      then fault unsupported_auth_protocol
      else if length password == 0
      then fault empty_password
      else or_crypto_failure (crypto.hash p (chunks 16384 0 password))

  unfoldable pub localize_key : AuthProtocol → Octets → Octets → Result Octets
  localize_key p master_key engine_id =
      if is_no_auth p
      then fault unsupported_auth_protocol
      else or_crypto_failure (crypto.hash p (master_key ++ (engine_id ++ master_key)))

  unfoldable pub localized_auth_key : Credentials → Octets → Result Octets
  localized_auth_key creds engine_id =
      on_success (password_to_key creds.auth_protocol creds.auth_password)
        (λ master. localize_key creds.auth_protocol master engine_id)

  -- What a round of the extension appends.
  unfoldable pub more_key : Credentials → Octets → Octets → Result Octets
  more_key creds engine_id key =
      if is_reeder creds.priv_protocol
      then on_success (password_to_key creds.auth_protocol key)
          (λ next. localize_key creds.auth_protocol next engine_id)
      else hash_of creds.auth_protocol key

  -- `while (key.size() < want)`. A round appends an octet at least, so `want` rounds are enough.
  unfoldable pub extend_loop : ℕ → Credentials → Octets → ℕ → Octets → Result Octets
  extend_loop zero creds engine_id want key = done key
  extend_loop (suc f) creds engine_id want key =
      let next = on_success (more_key creds engine_id key) (λ more.
        let rest = extend_loop f creds engine_id want (key ++ more) in
        if length more == 0 then fault crypto_failure else rest) in
      if ltb (length key) want then next else done key

  unfoldable pub localized_priv_key : Credentials → Octets → Result Octets
  localized_priv_key creds engine_id =
      let want = priv_key_size creds.priv_protocol in
      if want == 0
      then fault unsupported_priv_protocol
      else on_success (password_to_key creds.auth_protocol creds.priv_password) (λ master.
        on_success (localize_key creds.auth_protocol master engine_id) (λ key.
          on_success (extend_loop want creds engine_id want key) (λ long. done (take want long))))

  -- One pass of the cipher.
  unfoldable pub crypt : PrivProtocol → Octets → Octets → Octets → Bool → Result Octets
  crypt p priv_key iv input encrypt =
      if is_des p && not crypto.has_legacy
      then fault legacy_provider_unavailable
      else if not (crypto.has_cipher p)
      then fault (if is_des p then legacy_provider_unavailable else crypto_failure)
      else or_crypto_failure (crypto.cipher p encrypt priv_key iv input)

  -- `salt` is what `nextSalt` returned. With the ciphertext come the msgPrivacyParameters.
  unfoldable pub priv_encrypt :
      ℕ → PrivProtocol → Octets → ℤ → ℤ → Octets → Result (Octets × Octets)
  priv_encrypt salt p priv_key boots time plaintext =
      if priv_key_size p == 0 || ltb (length priv_key) (priv_key_size p)
      then fault unsupported_priv_protocol
      else let priv_params = salt_octets p boots salt in
        let iv = make_iv p priv_key boots time priv_params in
        on_success (crypt p priv_key iv (if is_des p then padded plaintext else plaintext) true)
          (λ out. done (priv_params, out))

  unfoldable pub priv_decrypt : PrivProtocol → Octets → ℤ → ℤ → Octets → Octets → Result Octets
  priv_decrypt p priv_key boots time priv_params ciphertext =
      if ltb (length priv_key) (priv_key_size p) || priv_key_size p == 0
      then fault unsupported_priv_protocol
      else if not (length priv_params == 8)
      then fault decryption_failed
      else if is_des p && (length ciphertext == 0 || not (length ciphertext % 8 == 0))
      then fault decryption_failed
      else crypt p priv_key (make_iv p priv_key boots time priv_params) ciphertext false

  unfoldable pub auth_digest : AuthProtocol → Octets → Octets → Result Octets
  auth_digest p localized_key message =
      if is_no_auth p
      then fault unsupported_auth_protocol
      else on_success (or_crypto_failure (crypto.hmac p localized_key message)) (λ mac.
        if ltb (length mac) (auth_params_size p)
        then fault crypto_failure
        else done (take (auth_params_size p) mac))
