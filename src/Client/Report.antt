-- ===== src/Client/Report.antt =====
-- The Reports of RFC 3414 section 5 in src/Client.cpp: which counter a Report names, what it means,
-- and what Engine Discovery sends to provoke one.
use snmpio.Common.{
  ℕ, Bool, true, false, not, ◌&&◌, ◌||◌, Option, none, some, [], ◌∷◌, leb, ◌==◌, if◌then◌else◌,
  length, get_or,
}
use snmpio.Common.Int32.{ℤ}
use snmpio.Error.{
  Errc, unexpected_report, unsupported_security_level, not_in_time_window, unknown_user_name,
  unknown_engine_id, auth_failed, decryption_error,
}
use snmpio.Oid.{Oid, is_prefix_of}
use snmpio.Value.{Octets}
use snmpio.Pdu.{Pdu, PduType, get, response, report}
use snmpio.V3Message.{ScopedPdu, no_scoped}
use snmpio.Client.{no_pdu}

abbrev pub usm_stats_prefix : Oid
usm_stats_prefix = 1 ∷ 3 ∷ 6 ∷ 1 ∷ 6 ∷ 3 ∷ 15 ∷ 1 ∷ 1 ∷ []

abbrev pub unsupported_sec_levels : ℕ
unsupported_sec_levels = 1

abbrev pub not_in_time_windows : ℕ
not_in_time_windows = 2

abbrev pub unknown_user_names : ℕ
unknown_user_names = 3

abbrev pub unknown_engine_ids : ℕ
unknown_engine_ids = 4

abbrev pub wrong_digests : ℕ
wrong_digests = 5

abbrev pub decryption_errors : ℕ
decryption_errors = 6

-- The counter that a name stands for.
unfoldable pub counter_of : Oid → Option ℕ
counter_of name =
    if not (is_prefix_of usm_stats_prefix name) || leb (length name) (length usm_stats_prefix)
    then none
    else some (get_or name (length usm_stats_prefix) 0)

unfoldable pub usm_stats_counter : Pdu → Option ℕ
usm_stats_counter p = elim p.varbinds [ [] ↦ none | vb ∷ vbs ↦ counter_of vb.name ]

unfoldable pub is_report : PduType → Bool
is_report report = true
is_report _ = false

unfoldable pub is_response : PduType → Bool
is_response response = true
is_response _ = false

abbrev pub is_counter : ℕ → Option ℕ → Bool
is_counter n none = false
is_counter n (some c) = c == n

unfoldable pub reports_not_in_time_windows : Pdu → Bool
reports_not_in_time_windows p =
    is_report p.type && is_counter not_in_time_windows (usm_stats_counter p)

unfoldable pub report_error : Option ℕ → Errc
report_error none = unexpected_report
report_error (some c) =
    if c == unsupported_sec_levels
    then unsupported_security_level
    else if c == not_in_time_windows
    then not_in_time_window
    else if c == unknown_user_names
    then unknown_user_name
    else if c == unknown_engine_ids
    then unknown_engine_id
    else if c == wrong_digests
    then auth_failed
    else if c == decryption_errors
    then decryption_error
    else unexpected_report

unfoldable pub discovery_scoped_pdu : ℤ → Octets → ScopedPdu
discovery_scoped_pdu id context_engine_id = record no_scoped {
  context_engine_id = context_engine_id;
  pdu = record no_pdu { type = get; request_id = id };
}
