-- ===== src/Client/Checks.antt =====
-- The checks of arguments and of transport errors.
use meshquill.Common.{
  Bool, List, Outcome, String, false, length, ltb, not, ok, reject_if, take, true, ℕ, ◌==◌, ◌>>◌,
}
use meshquill.Common.Utf8.{Text}
use meshquill.Error.{CoreError, TransportError, IoKind, invalid_argument}

-- The kinds of `is_disconnect_error`.
abbrev pub ends_connection : IoKind → Bool
ends_connection IoKind.other = false
ends_connection kind = true

unfoldable pub is_disconnect_error : TransportError → Bool
is_disconnect_error TransportError.not_connected = true
is_disconnect_error TransportError.closed = true
is_disconnect_error (TransportError.io kind) = ends_connection kind
is_disconnect_error error = false

unfoldable pub is_terminal_write_error : TransportError → Bool
is_terminal_write_error TransportError.not_connected = true
is_terminal_write_error TransportError.closed = true
is_terminal_write_error TransportError.timeout = true
is_terminal_write_error (TransportError.reconnect_failed reason) = true
is_terminal_write_error (TransportError.io kind) = true
is_terminal_write_error error = false

unfoldable pub key_prefix : List ℕ → Outcome CoreError (List ℕ)
key_prefix public_key = do
  reject_if (not (length public_key == 32)) (invalid_argument "public_key")
  ok (take 6 public_key)

unfoldable pub validate_destination_prefix : List ℕ → Outcome CoreError (Unit {0})
validate_destination_prefix prefix =
    reject_if (not (length prefix == 6)) (invalid_argument "destination_prefix")

unfoldable pub validate_text : Text → ℕ → String → Outcome CoreError (Unit {0})
validate_text text maximum_bytes field = do
  reject_if (length text == 0) (invalid_argument field)
  reject_if (ltb maximum_bytes (length text)) (invalid_argument field)
