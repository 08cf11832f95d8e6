-- ===== src/Models/RefreshSession/Lifecycle.antt =====
-- What the methods of `RefreshSession` keep: the absolute deadline, a revocation, and the identity
-- of the session.
use todo_api.Base.{ℕ, String, ◌≡◌, arith, false, some}
use todo_api.Models.RefreshSession.{RefreshSession, is_active, revoke, rotate, IsBounded}

-- What a later version of a session may differ in: it has the same identity, owner and absolute
-- deadline, and keeps an earlier revocation with its time.
pub record Follows (a b : RefreshSession) : Type 0 where
  pub id : b.id ≡ a.id
  pub user_id : b.user_id ≡ a.user_id
  pub absolute : b.absolute_expires_at ≡ a.absolute_expires_at
  pub stays_revoked : (t : ℕ) → a.revoked_at ≡ some t → b.revoked_at ≡ some t

pub Follows-refl : (a : RefreshSession) → Follows a a
Follows-refl a = ground arith

pub Follows-trans : (a b c : RefreshSession) → Follows a b → Follows b c → Follows a c
Follows-trans a b c h k = record {
  id = ground arith;
  user_id = ground arith;
  absolute = ground arith;
  stays_revoked = λ t e. k.stays_revoked t (h.stays_revoked t e);
}

pub revoke-Follows : (now : ℕ) (r : RefreshSession) → Follows r (revoke now r)
unfolding revoke
revoke-Follows now r = ground arith

pub rotate-Follows :
    (hash : String) (expires now : ℕ) (r r' : RefreshSession)
    → rotate hash expires now r ≡ some r'
    → Follows r r'
unfolding rotate
rotate-Follows hash expires now r r' e = ground arith

-- A rotation keeps the expiry within the absolute deadline, whatever expiry it is given.
pub rotate-IsBounded :
    (hash : String) (expires now : ℕ) (r r' : RefreshSession)
    → rotate hash expires now r ≡ some r'
    → IsBounded r'
unfolding rotate
rotate-IsBounded hash expires now r r' e = ground arith

-- A revoked session is never active, and so is never rotated.
pub revoke-inactive : (now at : ℕ) (r : RefreshSession) → is_active (revoke now r) at ≡ false
unfolding revoke is_active
revoke-inactive now at r = ground arith
