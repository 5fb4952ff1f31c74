-- ===== src/Api/ErrorResponse.antt =====
-- src/common/all-exceptions.filter.ts: what a client sees of what is thrown. Of the body the message is
-- kept.
use lotus_build_server.Base.{ℕ, String}
use lotus_build_server.World.Exec.{Thrown, http}

pub record ErrorResponse : Type 0 where
  pub status : ℕ
  pub message : String

unfoldable pub error_response : Thrown → ErrorResponse
error_response (http status message) = record { status = status; message = message }
error_response _ = record { status = 500; message = "Internal server error" }
