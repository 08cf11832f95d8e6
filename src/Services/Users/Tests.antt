-- ===== src/Services/Users/Tests.antt =====
-- A deactivated account, at a concrete input.
use todo_api.Base.{◌≡◌, refl, arith, false, nat_eq, none, some, [], ◌∷◌}
use todo_api.Models.User.{User}
use todo_api.Database.{Tables, Session, run, ok, next_answer}
use todo_api.Text.{strip, is_space}
use todo_api.Text.Decimal.{int}
use todo_api.Tokens.{validate_base}
use todo_api.Tokens.Decode.{decode_access_token, decode, base_payload, access_payload}
use todo_api.Repositories.User.{get_user_by_id}
use todo_api.Dependencies.{get_current_user, select_access_token, authenticate_access_token}
use todo_api.Services.Users.{deactivate_account}
use todo_api.Services.Users.Lockout.{
  IsInactive, deactivate_account-IsInactive, access_token, enter, LetsIn, enter-locked_out,
}
use todo_api.Samples.{settings, plain_platform, tables, ann}

deactivates : (run (deactivate_account ann) [] tables).0 ≡ ok tt
unfolding deactivate_account next_answer
deactivates = refl

deactivate_account-IsInactive_example : IsInactive 7 (run (deactivate_account ann) [] tables).1
deactivate_account-IsInactive_example = deactivate_account-IsInactive ann [] tables refl deactivates

-- Ann's account beside a deactivated one.
abbrev bob : User
bob = record ann { id = 8; email = "bob@example.com"; is_active = false }

abbrev with_bob : Tables
with_bob = record tables { users = ann ∷ bob ∷ [] }

abbrev bobs : Session
bobs = record { db = with_bob; stored = with_bob; answers = [] }

anns_token :
    (enter plain_platform settings "" (access_token none (some "token") 2000000) bobs).0 ≡ ok ann
unfolding enter get_current_user select_access_token authenticate_access_token get_user_by_id
    decode_access_token decode access_payload base_payload validate_base strip is_space int
    next_answer
anns_token = refl

enter-locked_out_example : ¬ (LetsIn plain_platform settings "" bobs 8)
enter-locked_out_example =
    enter-locked_out plain_platform settings "" 8 bobs refl
      ((λ e. absurd (ground arith)), ((λ e. refl), tt))
