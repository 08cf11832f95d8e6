-- ===== src/Repositories/Oauth.antt =====
-- repositories/oauth.py: the queries on the table of authorization codes.
use todo_api.Base.{
  ℕ, String, Bool, ◌&&◌, ◌==◌, string_eq, Option, none, some, leb, ltb, is_none, find?,
  update_where, delete_where, count_where, [], ◌∷◌, ◌++◌,
}
use todo_api.Models.OauthAuthorizationCode.{OauthAuthorizationCode}
use todo_api.Database.{Action, ◌>>=◌, ◌>>◌, pure, gets, modify, call}

unfoldable pub create_authorization_code : OauthAuthorizationCode → Action OauthAuthorizationCode
create_authorization_code row = do
  modify (λ db. record db { oauth_authorization_codes = db.oauth_authorization_codes ++ row ∷ [] })
  call
  pure row

abbrev pub has_expired : ℕ → OauthAuthorizationCode → Bool
has_expired expired_at r = leb r.expires_at expired_at

unfoldable pub prune_expired_authorization_codes : ℕ → Action ℕ
prune_expired_authorization_codes expired_at = do
  call
  deleted ← gets (λ db. count_where (has_expired expired_at) db.oauth_authorization_codes)
  modify (λ db. record db {
    oauth_authorization_codes = delete_where (has_expired expired_at) db.oauth_authorization_codes;
  })
  pure deleted

-- The keyword arguments of `consume_authorization_code`.
pub record Grant : Type 0 where
  pub code_hash : String
  pub client_id : String
  pub redirect_uri : String
  pub code_challenge : String

abbrev pub is_consumable : Grant → ℕ → OauthAuthorizationCode → Bool
is_consumable g consumed_at r =
    r.code_hash == g.code_hash
    && r.client_id == g.client_id
    && r.redirect_uri == g.redirect_uri
    && r.code_challenge == g.code_challenge
    && ltb consumed_at r.expires_at
    && is_none r.consumed_at

abbrev pub user_of : Option OauthAuthorizationCode → Option ℕ
user_of none = none
user_of (some r) = some r.user_id

-- One UPDATE … RETURNING: the rows that it selects are marked, and the first one's user is returned.
unfoldable pub consume_authorization_code : Grant → ℕ → Action (Option ℕ)
consume_authorization_code g consumed_at = do
  call
  found ← gets (λ db. find? (is_consumable g consumed_at) db.oauth_authorization_codes)
  modify (λ db. record db {
    oauth_authorization_codes =
        update_where (is_consumable g consumed_at)
          (λ r. record r { consumed_at = some consumed_at }) db.oauth_authorization_codes;
  })
  pure (user_of found)
