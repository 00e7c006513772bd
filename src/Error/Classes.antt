-- ===== src/Error/Classes.antt =====
-- `classify` of src/Error.cpp over all codes: the library's own, the Agent's, the system's, and those
-- of a category that the library does not know.
use snmpio.Common.{ℕ, ◌≤◌, ◌≡◌, refl, ◌≢◌, ◌⊎◌, inl, inr, Option, arith}
use snmpio.Common.Int32.{pos}
use snmpio.Error.{
  Errc, ErrorStatus, ErrorClass, ErrorCode, Category, Condition, fatal, retriable, configuration,
  make_error_code, make_status_code, classify_errc, classify_error_status, classify,
}

-- A class names what a caller can do next.
abbrev pub IsAction : ErrorClass → Type 0
IsAction c = (c ≡ retriable) ⊎ ((c ≡ configuration) ⊎ (c ≡ fatal))

module _ (condition : ErrorCode → Option Condition) where
  -- Every one of the library's own codes has a class other than Unclassified, and Ok is the class
  -- of the success code alone.
  pub classify-make_error_code :
      (e : Errc)
      → ((e ≡ Errc.ok) × (classify condition (make_error_code e) ≡ ErrorClass.ok))
        ⊎ ((e ≢ Errc.ok) × IsAction (classify condition (make_error_code e)))
  unfolding classify make_error_code classify_errc
  classify-make_error_code Errc.ok = inl (refl, refl)
  classify-make_error_code _ = inr ((λ e. cc), ground arith)

  -- Every one of the Agent's error-status codes has a class other than Unclassified, and Ok is the
  -- class of noError alone.
  pub classify-make_status_code :
      (e : ErrorStatus)
      → ((e ≡ ErrorStatus.no_error) × (classify condition (make_status_code e) ≡ ErrorClass.ok))
        ⊎ ((e ≢ ErrorStatus.no_error) × IsAction (classify condition (make_status_code e)))
  unfolding classify make_status_code classify_error_status
  classify-make_status_code ErrorStatus.no_error = inl (refl, refl)
  classify-make_status_code _ = inr ((λ e. cc), ground arith)

abbrev code : Category → ℕ → ErrorCode
code c n = record { value = pos n; category = c }

-- The codes that no enumeration of their category has, and all of an unknown category.
abbrev pub IsUnknown : Category → ℕ → Type 0
IsUnknown Category.snmpio_category n = 42 ≤ n
IsUnknown Category.agent_category n = 19 ≤ n
IsUnknown Category.system_category n = ⊥
IsUnknown Category.generic_category n = ⊥
IsUnknown Category.foreign_category n = 1 ≤ n
