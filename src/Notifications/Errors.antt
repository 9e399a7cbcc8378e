-- ===== src/Notifications/Errors.antt =====
-- What the notification code reads of an exception: its class, as isinstance tests it, the name of
-- its type and its text. app/apis/notifications/exceptions.py (UnprocessableMessageError).
use Prim.Native.String.{◌++◌}
use family_inventory.Prelude.{String}

pub data ExceptionClass : Type 0 where
  unprocessable_message value_error type_error runtime_error integrity_error other_error :
      ExceptionClass

pub record Exception : Type 0 where
  pub exception_class : ExceptionClass
  pub type_name : String
  pub message : String

-- f"{type(exc).__name__}: {exc}"
unfoldable pub error_text : Exception → String
error_text exc = exc.type_name ++ ": " ++ exc.message
