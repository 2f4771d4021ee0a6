-- ===== src/Sqllite/Errors.antt =====
-- internal/sqllite/error.go: which driver errors are transient.
use synapse_platform.Prelude.{
  Option-cases, inl, inr, ℕ, Bool, false, ◌||◌, ◌==◌, ◌-◌, ◌%◌, ◌≡◌, refl, String, Option, none,
  some, if◌then◌else◌, ℤ, pos, negsuc, arith,
}
use synapse_platform.Ingestor.Errors.{
  GoError, other, wrapped, new_transient_error, new_terminal_error, classify, class_transient,
  class_terminal, errors_as_classified,
}

-- The errors that the code tells apart.
pub data DriverError : Type 0 where
  conn_done tx_done : DriverError
  sqlite_error : ℤ → DriverError
  other_error : String → DriverError

-- `code & 0xff` in two's complement.
unfoldable pub primary_sqlite_code : ℤ → ℕ
primary_sqlite_code (pos n) = n % 256
primary_sqlite_code (negsuc n) = 255 - n % 256

-- SQLITE_BUSY, SQLITE_LOCKED, SQLITE_IOERR and SQLITE_CONSTRAINT
abbrev pub is_retryable_code : ℕ → Bool
is_retryable_code c = c == 5 || (c == 6 || c == 10)

abbrev pub is_constraint_code : ℕ → Bool
is_constraint_code c = c == 19

-- The text of an error is its wrapped cause; no driver error has a class of its own.
abbrev pub error_text : String → DriverError → GoError
error_text m e = wrapped m (other "driver")

classify_code : ℕ → GoError → Option GoError
classify_code c e =
    if is_retryable_code c
    then new_transient_error (some e)
    else if is_constraint_code c
    then new_terminal_error (some e)
    else new_transient_error (some e)

unfoldable pub classify_store_error : String → Option DriverError → Option GoError
unfolding classify_code
classify_store_error m none = none
classify_store_error m (some conn_done) = new_transient_error (some (error_text m conn_done))
classify_store_error m (some tx_done) = new_transient_error (some (error_text m tx_done))
classify_store_error m (some (sqlite_error code)) =
    classify_code (primary_sqlite_code code) (error_text m (sqlite_error code))
classify_store_error m (some (other_error t)) =
    new_transient_error (some (error_text m (other_error t)))

-- Whether the code is 19 up to a multiple of 256, as the extended codes of a constraint violation are.
-- For the code -n - 1, which is `negsuc n`, that is n = 236 up to a multiple of 256.
abbrev is_constraint : DriverError → Bool
is_constraint (sqlite_error (pos n)) = n % 256 == 19
is_constraint (sqlite_error (negsuc n)) = n % 256 == 236
is_constraint _ = false

-- A store error is terminal for the ingestor exactly if it is an error of SQLite with a code that
-- differs from 19 by a multiple of 256; every other driver error is transient.
pub classify_store_error-terminal :
    (m : String) (e : DriverError)
    → classify (classify_store_error m (some e))
      ≡ (if is_constraint e then class_terminal else class_transient)
unfolding classify_store_error classify_code classify new_transient_error new_terminal_error
    errors_as_classified primary_sqlite_code
classify_store_error-terminal m conn_done = refl
classify_store_error-terminal m tx_done = refl
classify_store_error-terminal m (sqlite_error (pos n)) = ground arith
classify_store_error-terminal m (sqlite_error (negsuc n)) = ground arith
classify_store_error-terminal m (other_error t) = refl

classify_code-some : (c : ℕ) (e : GoError) → (x : GoError) × (classify_code c e ≡ some x)
unfolding classify_code new_transient_error new_terminal_error
classify_code-some c e = elim (Option-cases (classify_code c e)) [
  | inl bad ↦ absurd (ground arith)
  | inr found ↦ found
]

-- A driver error is never lost.
pub classify_store_error-some :
    (m : String) (e : DriverError) → (x : GoError) × (classify_store_error m (some e) ≡ some x)
unfolding classify_store_error new_transient_error
classify_store_error-some m conn_done = (_, refl)
classify_store_error-some m tx_done = (_, refl)
classify_store_error-some m (sqlite_error code) =
    classify_code-some (primary_sqlite_code code) (error_text m (sqlite_error code))
classify_store_error-some m (other_error t) = (_, refl)
