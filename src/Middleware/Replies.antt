-- ===== src/Middleware/Replies.antt =====
-- internal/httpapi/errors.go and response.go: the status and the error code of an answer. The texts of the
-- errors and the bodies of the other answers are left out.
use youtube_stream_tracker.Prelude.{ℕ, Option, none, some}

pub data ErrorCode : Type 0 where
  bad_request unauthorized forbidden not_found duplicate_monitor max_monitors validation : ErrorCode
  invalid_url invalid_config rate_limit_exceeded monitor_not_active : ErrorCode
  internal database kubernetes : ErrorCode

pub record HttpReply : Type 0 where
  pub status : ℕ
  pub code : Option ErrorCode

abbrev pub respond_error : ℕ → ErrorCode → HttpReply
respond_error status code = record { status = status; code = some code }

abbrev pub respond_unauthorized : HttpReply
respond_unauthorized = respond_error 401 ErrorCode.unauthorized

abbrev pub respond_not_found : HttpReply
respond_not_found = respond_error 404 ErrorCode.not_found

abbrev pub respond_conflict : ErrorCode → HttpReply
respond_conflict code = respond_error 409 code

abbrev pub respond_internal_error : HttpReply
respond_internal_error = respond_error 500 ErrorCode.internal

abbrev pub respond_validation_error : HttpReply
respond_validation_error = respond_error 400 ErrorCode.validation

abbrev pub respond_ok : HttpReply
respond_ok = record { status = 200; code = none }

abbrev pub respond_created : HttpReply
respond_created = record { status = 201; code = none }
