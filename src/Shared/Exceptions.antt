-- ===== src/Shared/Exceptions.antt =====
-- shared/src/shared/utils/exceptions.py
use back_end.Prelude.{ℕ, String, Option, none, some}
use back_end.Prelude.Exec.{Exn, app_error, raised}

abbrev pub not_found_error : String → Exn
not_found_error detail = app_error 404 detail

abbrev pub conflict_error : String → Exn
conflict_error detail = app_error 409 detail

abbrev pub forbidden_error : String → Exn
forbidden_error detail = app_error 403 detail

-- The response to a request whose handler raised: an `AppError` becomes its status and detail;
-- any other exception is not handled, and the server answers 500 (`none`).
pub record ErrorResponse : Type 0 where
  pub status_code : ℕ
  pub detail : String

abbrev pub handle_app_error : Exn → Option ErrorResponse
handle_app_error (app_error status detail) = some (record { status_code = status; detail = detail })
handle_app_error (raised _) = none
