-- ===== src/Error.antt =====
-- src/error.h and src/error.c: the error codes and the global ERROR.
use ipk2024_projekt.Base.{Bool, M, false, some, true}

pub data Error : Type 0 where
  no_error out_of_memory stack_overflow invalid_argument duplicated_argument socket connection :
      Error
  invalid_payload recv_from_wrong_address bad_query invalid_input internal : Error

-- A run of code whose only global is ERROR.
abbrev pub Exec : Type 0 → Type 0
Exec = M Error

abbrev pub set_error : Error → Exec (Unit {0})
set_error type error = some (tt, type)

abbrev pub error_clear : Exec (Unit {0})
error_clear error = some (tt, no_error)

abbrev pub get_error : Exec Error
get_error error = some (error, error)

-- An error code as a condition: `if (get_error())`.
abbrev pub is_set : Error → Bool
is_set no_error = false
is_set _ = true
