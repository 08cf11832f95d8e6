-- ===== src/Dispatch.antt =====
-- background/dispatch.py: handing mails to the queue. The queue and its broker are Celery's.
use todo_api.Base.{ℕ, String, Bool, true, false, Option, none, some, List, [], ◌∷◌}
use todo_api.Results.{Result, ok, err, ◌>>=◌}

-- The arguments of `apply_async` that the program chooses.
pub record Task : Type 0 where
  pub name : String
  pub kwargs : List (String × Option String)
  pub request_id : String
  pub expires : Option ℕ

-- `task.apply_async`: the identifier of the queued task, or what it raises.
abbrev pub Broker : Type 0
Broker = Task → Result String

-- `except Exception`: whatever is raised, the handler goes on in its place.
abbrev pub except_exception : {A : Type 0} → Result A → Result A → Result A
except_exception (ok a) handler = ok a
except_exception (err e) handler = handler

-- `_publish`
unfoldable pub publish : Broker → Task → Result Bool
publish apply_async task = except_exception (do result ← apply_async task; ok true) (ok false)

abbrev pub verification_email : String → String → Option String → String → ℕ → Task
verification_email recipient token full_name request_id expires_at = record {
  name = "todo_api.email.send_registration_verification_email";
  kwargs = ("recipient", some recipient) ∷ ("token", some token) ∷ ("full_name", full_name) ∷ [];
  request_id = request_id;
  expires = some expires_at;
}

abbrev pub welcome_email : String → Option String → String → Task
welcome_email recipient full_name request_id = record {
  name = "todo_api.email.send_registration_welcome_email";
  kwargs = ("recipient", some recipient) ∷ ("full_name", full_name) ∷ [];
  request_id = request_id;
  expires = none;
}

unfoldable pub enqueue_registration_verification_email :
    Broker → String → String → Option String → String → ℕ → Result Bool
unfolding publish
enqueue_registration_verification_email apply_async recipient token full_name request_id
      expires_at =
    publish apply_async (verification_email recipient token full_name request_id expires_at)

unfoldable pub enqueue_registration_welcome_email :
    Broker → String → Option String → String → Result Bool
unfolding publish
enqueue_registration_welcome_email apply_async recipient full_name request_id =
    publish apply_async (welcome_email recipient full_name request_id)
