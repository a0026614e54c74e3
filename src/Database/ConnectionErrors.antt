-- ===== src/Database/ConnectionErrors.antt =====
-- Which errors mean that a node is down: `isConnectionError` and the regular expressions of
-- src/database/db-router.service.ts. The groups of CONNECTION_RE are written out, one text for
-- each alternative.
use booking_hotel.Prelude.{Bool, true, false, List, [], ◌∷◌, JsString, js, str_eq, includes_ci, any}
use booking_hotel.Runtime.Errors.{
  Error, http, saga_aborted, known_request, initialization, unknown_request, plain, message,
}

unfoldable pub connection_codes : List JsString
unfolding js
connection_codes = js "P1001" ∷ js "P1002" ∷ js "P1008" ∷ js "P1017" ∷ []

unfoldable pub connection_texts : List JsString
unfolding js
connection_texts =
    js "can't reach database"
    ∷ js "server has closed the connection"
    ∷ js "connection refused"
    ∷ js "connection reset"
    ∷ js "connection closed"
    ∷ js "terminating connection"
    ∷ js "the database system is shutting down"
    ∷ js "the database system is starting up"
    ∷ js "the database system is in recovery mode"
    ∷ js "ECONNREFUSED"
    ∷ js "ENOTFOUND"
    ∷ js "EAI_AGAIN"
    ∷ []

unfoldable pub is_connection_error : Error → Bool
unfolding connection_codes connection_texts includes_ci
is_connection_error (initialization text) = true
is_connection_error (known_request code text) = any (str_eq code) connection_codes
is_connection_error (unknown_request text) = any (λ p. includes_ci p text) connection_texts
is_connection_error (http status text) = false
is_connection_error (saga_aborted status text from to steps) = false
is_connection_error (plain text) = false

-- RECOVERY_CONFLICT_RE
unfoldable pub is_recovery_conflict : Error → Bool
unfolding js includes_ci
is_recovery_conflict e = includes_ci (js "conflict with recovery") (message e)
