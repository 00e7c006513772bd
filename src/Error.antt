-- ===== src/Error.antt =====
-- include/snmpio/Error.hpp, src/Error.cpp and the error half of include/snmpio/Pdu.hpp: the
-- library's own faults, the Agent's error-status, and what a caller can do about each.
pub mod Classes
use snmpio.Common.{
  ℕ, zero, suc, Bool, true, false, Option, none, some, List, [], ◌∷◌, if◌then◌else◌,
}
use snmpio.Common.Int32.{ℤ, pos, negsuc}

pub data Errc : Type 0 where
  ok : Errc
  truncated indefinite_length length_too_large high_tag_number unexpected_tag : Errc
  trailing_data reserved_length : Errc
  empty_content integer_too_large bad_ip_address bad_null : Errc
  oid_empty oid_too_long oid_subid_overflow oid_non_minimal oid_truncated_subid : Errc
  oid_not_encodable oid_bad_syntax : Errc
  unknown_value_tag : Errc
  bad_version unexpected_pdu_type missing_varbind : Errc
  timeout client_stopped non_increasing_oid walk_incomplete : Errc
  unsupported_auth_protocol unsupported_security_level unsupported_priv_protocol : Errc
  legacy_provider_unavailable unsupported_security_model bad_message_flags : Errc
  empty_password crypto_failure auth_failed decryption_failed : Errc
  unknown_user_name unknown_engine_id not_in_time_window decryption_error : Errc
  unexpected_report : Errc

-- RFC 3416's error-status, in the order of its wire numbers 0 to 18.
pub data ErrorStatus : Type 0 where
  no_error too_big no_such_name bad_value read_only gen_err no_access : ErrorStatus
  wrong_type wrong_length wrong_encoding wrong_value no_creation : ErrorStatus
  inconsistent_value resource_unavailable commit_failed undo_failed : ErrorStatus
  authorization_error not_writable inconsistent_name : ErrorStatus

pub data ErrorClass : Type 0 where
  ok retriable configuration fatal unclassified : ErrorClass

-- The enumerators in the order of their values, which start at 0.
abbrev pub errcs : List Errc
errcs =
    Errc.ok ∷ truncated ∷ indefinite_length ∷ length_too_large ∷ high_tag_number ∷ unexpected_tag
    ∷ trailing_data ∷ reserved_length ∷ empty_content ∷ integer_too_large ∷ bad_ip_address
    ∷ bad_null ∷ oid_empty ∷ oid_too_long ∷ oid_subid_overflow ∷ oid_non_minimal
    ∷ oid_truncated_subid ∷ oid_not_encodable ∷ oid_bad_syntax ∷ unknown_value_tag ∷ bad_version
    ∷ unexpected_pdu_type ∷ missing_varbind ∷ timeout ∷ client_stopped ∷ non_increasing_oid
    ∷ walk_incomplete ∷ unsupported_auth_protocol ∷ unsupported_security_level
    ∷ unsupported_priv_protocol ∷ legacy_provider_unavailable ∷ unsupported_security_model
    ∷ bad_message_flags ∷ empty_password ∷ crypto_failure ∷ auth_failed ∷ decryption_failed
    ∷ unknown_user_name ∷ unknown_engine_id ∷ not_in_time_window ∷ decryption_error
    ∷ unexpected_report ∷ []

abbrev pub statuses : List ErrorStatus
statuses =
    no_error ∷ too_big ∷ no_such_name ∷ bad_value ∷ read_only ∷ gen_err ∷ no_access ∷ wrong_type
    ∷ wrong_length ∷ wrong_encoding ∷ wrong_value ∷ no_creation ∷ inconsistent_value
    ∷ resource_unavailable ∷ commit_failed ∷ undo_failed ∷ authorization_error ∷ not_writable
    ∷ inconsistent_name ∷ []

-- The enumerator with the value `n`, as `static_cast` finds it; none stands outside the range.
abbrev pub nth {ℓ} : {A : Type ℓ} → List A → ℕ → Option A
nth [] n = none
nth (x ∷ xs) zero = some x
nth (x ∷ xs) (suc n) = nth xs n

abbrev pub enumerator {ℓ} : {A : Type ℓ} → List A → ℤ → Option A
enumerator xs (pos n) = nth xs n
enumerator xs (negsuc n) = none

-- The three categories that a completion can carry, the generic one, and any other.
pub data Category : Type 0 where
  snmpio_category agent_category system_category generic_category : Category
  foreign_category : Category

pub record ErrorCode : Type 0 where
  pub value : ℤ
  pub category : Category

-- The enumerators' values.
pub errc_value : Errc → ℕ
errc_value Errc.ok = 0
errc_value truncated = 1
errc_value indefinite_length = 2
errc_value length_too_large = 3
errc_value high_tag_number = 4
errc_value unexpected_tag = 5
errc_value trailing_data = 6
errc_value reserved_length = 7
errc_value empty_content = 8
errc_value integer_too_large = 9
errc_value bad_ip_address = 10
errc_value bad_null = 11
errc_value oid_empty = 12
errc_value oid_too_long = 13
errc_value oid_subid_overflow = 14
errc_value oid_non_minimal = 15
errc_value oid_truncated_subid = 16
errc_value oid_not_encodable = 17
errc_value oid_bad_syntax = 18
errc_value unknown_value_tag = 19
errc_value bad_version = 20
errc_value unexpected_pdu_type = 21
errc_value missing_varbind = 22
errc_value timeout = 23
errc_value client_stopped = 24
errc_value non_increasing_oid = 25
errc_value walk_incomplete = 26
errc_value unsupported_auth_protocol = 27
errc_value unsupported_security_level = 28
errc_value unsupported_priv_protocol = 29
errc_value legacy_provider_unavailable = 30
errc_value unsupported_security_model = 31
errc_value bad_message_flags = 32
errc_value empty_password = 33
errc_value crypto_failure = 34
errc_value auth_failed = 35
errc_value decryption_failed = 36
errc_value unknown_user_name = 37
errc_value unknown_engine_id = 38
errc_value not_in_time_window = 39
errc_value decryption_error = 40
errc_value unexpected_report = 41

pub status_value : ErrorStatus → ℕ
status_value no_error = 0
status_value too_big = 1
status_value no_such_name = 2
status_value bad_value = 3
status_value read_only = 4
status_value gen_err = 5
status_value no_access = 6
status_value wrong_type = 7
status_value wrong_length = 8
status_value wrong_encoding = 9
status_value wrong_value = 10
status_value no_creation = 11
status_value inconsistent_value = 12
status_value resource_unavailable = 13
status_value commit_failed = 14
status_value undo_failed = 15
status_value authorization_error = 16
status_value not_writable = 17
status_value inconsistent_name = 18

-- `make_error_code`, once for each enumeration.
unfoldable pub make_error_code : Errc → ErrorCode
unfolding errc_value
make_error_code e = record { value = pos (errc_value e); category = snmpio_category }

unfoldable pub make_status_code : ErrorStatus → ErrorCode
unfolding status_value
make_status_code e = record { value = pos (status_value e); category = agent_category }

-- The `std::errc` values that the code tells apart.
pub data Condition : Type 0 where
  timed_out interrupted network_down network_unreachable network_reset : Condition
  host_unreachable connection_refused connection_reset no_buffer_space : Condition
  other : Condition

unfoldable pub classify_errc : Errc → ErrorClass
classify_errc Errc.ok = ErrorClass.ok
classify_errc timeout = retriable
classify_errc unknown_engine_id = retriable
classify_errc not_in_time_window = retriable
classify_errc oid_not_encodable = configuration
classify_errc oid_bad_syntax = configuration
classify_errc unsupported_auth_protocol = configuration
classify_errc unsupported_security_level = configuration
classify_errc unsupported_priv_protocol = configuration
classify_errc legacy_provider_unavailable = configuration
classify_errc empty_password = configuration
classify_errc auth_failed = configuration
classify_errc decryption_failed = configuration
classify_errc unknown_user_name = configuration
classify_errc decryption_error = configuration
classify_errc _ = fatal

unfoldable pub classify_error_status : ErrorStatus → ErrorClass
classify_error_status no_error = ErrorClass.ok
classify_error_status gen_err = retriable
classify_error_status resource_unavailable = retriable
classify_error_status commit_failed = fatal
classify_error_status undo_failed = fatal
classify_error_status _ = configuration

-- `none` is a condition outside the generic category.
unfoldable pub classify_system : Option Condition → ErrorClass
classify_system none = fatal
classify_system (some other) = fatal
classify_system (some _) = retriable

abbrev or_unclassified {ℓ} : {A : Type ℓ} → (A → ErrorClass) → Option A → ErrorClass
or_unclassified f none = unclassified
or_unclassified f (some a) = f a

-- `condition` is the standard library's `default_error_condition` of a system code, and `none` when
-- that is not of the generic category.
module _ (condition : ErrorCode → Option Condition) where
  classify_category : Category → ErrorCode → ErrorClass
  classify_category snmpio_category ec = or_unclassified classify_errc (enumerator errcs ec.value)
  classify_category agent_category ec =
      or_unclassified classify_error_status (enumerator statuses ec.value)
  classify_category system_category ec = classify_system (condition ec)
  classify_category generic_category ec = classify_system (condition ec)
  classify_category foreign_category ec = unclassified

  is_zero : ℤ → Bool
  is_zero (pos zero) = true
  is_zero _ = false

  unfoldable pub classify : ErrorCode → ErrorClass
  unfolding classify_category is_zero
  classify ec = if is_zero ec.value then ErrorClass.ok else classify_category ec.category ec
