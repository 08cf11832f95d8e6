-- ===== src/Exceptions/Todo.antt =====
-- exceptions/todo.py: the classes, the class that each extends, and the fields that clients see.
use todo_api.Base.{String, Option, none, some}

pub data TodoError : Type 0 where
  todo_service : TodoError
  todo_not_found : TodoError
  todo_state_conflict : TodoError
  todo_service_unavailable : TodoError

-- The base class, where it is one of this file; the others extend `ApplicationError`.
unfoldable pub base : TodoError → Option TodoError
base todo_service = none
base todo_not_found = some todo_service
base todo_state_conflict = some todo_service
base todo_service_unavailable = some todo_service

unfoldable pub error_code : TodoError → String
error_code todo_service = "todo_service_error"
error_code todo_not_found = "todo_not_found"
error_code todo_state_conflict = "todo_state_conflict"
error_code todo_service_unavailable = "todo_service_unavailable"

unfoldable pub public_message : TodoError → String
public_message todo_service = "Todo operation failed."
public_message todo_not_found = "Todo not found."
public_message todo_state_conflict = "The requested Todo status transition is not allowed."
public_message todo_service_unavailable = "Todo service is temporarily unavailable."
