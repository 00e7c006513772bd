-- ===== src/Tests/Errors.antt =====
-- The classes of src/Error.cpp at concrete codes.
use snmpio.Common.{◌≡◌, refl, Option, some}
use snmpio.Error.{
  ErrorStatus, ErrorClass, ErrorCode, Condition, classify, make_status_code, classify_error_status,
}

-- A system on which every code means a timeout.
abbrev always : ErrorCode → Option Condition
always ec = some Condition.timed_out

commit_failed_is_fatal :
    classify always (make_status_code ErrorStatus.commit_failed) ≡ ErrorClass.fatal
unfolding classify make_status_code classify_error_status
commit_failed_is_fatal = refl
