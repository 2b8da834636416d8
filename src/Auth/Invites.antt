-- ===== src/Auth/Invites.antt =====
-- auth/service.py: invites.
use multi_agent_ai_analyst.Prelude.{
  ℕ, ◌+◌, ◌*◌, Bool, true, not, ◌||◌, [], ◌∷◌, Option, none, some, first, filter, Outcome, ok, ◌==◌,
}
use multi_agent_ai_analyst.Prelude.Text.{Text, codes, text_eq}
use multi_agent_ai_analyst.Auth.Rows.{
  User, Membership, Invite, Db, Principal, CreatedInvite, AuthError, invitation, minutes,
}
use multi_agent_ai_analyst.Auth.Credentials.{
  Site, Draws, is_set, normalize_email, required_text, hash_password, verify_password, is_expired,
}
use multi_agent_ai_analyst.Auth.Sessions.{user_by_email, membership_of, record_audit}
use multi_agent_ai_analyst.Auth.Transactions.{◌>>=◌, guard, require, transact}

abbrev pub is_role : Text → Bool
is_role role = text_eq role (codes "admin") || text_eq role (codes "member")

module _ (site : Site) where
  open site use {tables, platform, settings}

  abbrev pub invite_row : Draws → Principal → (email role : Text) → Invite
  invite_row draws principal email role = record {
    id = draws.row_id;
    organization_id = principal.organization_id;
    email = email;
    role = role;
    token_hash = platform.sha256 draws.token;
    expires_at = draws.issued_at + minutes (settings.invite_expire_hours * 60);
    accepted_at = none;
    created_by_user_id = some principal.user_id;
    created_at = draws.stored_at;
  }

  unfoldable pub create_invite :
      Draws
      → Principal
      → (email role : Text) → Db tables
      → Outcome AuthError CreatedInvite × Db tables
  unfolding normalize_email record_audit
  create_invite draws principal email role db = transact db (
      normalize_email platform email >>= λ normalized.
      guard (not (is_role role)) invitation >>= λ _.
      let invite = invite_row draws principal normalized role in
      ok (
        (record {
          id = invite.id;
          email = invite.email;
          expires_at = invite.expires_at;
          token = draws.token;
        }),
        record_audit site draws (codes "auth.invite_created") (some principal.organization_id)
            (some principal.user_id) (some invite.id) ((codes "role", role) ∷ [])
            (record db { invites = tables.invites.insert invite db.invites }),
      ))

  unfoldable pub invite_by_hash : Text → Db tables → Option Invite
  invite_by_hash hash db =
      first (filter (λ i. text_eq i.token_hash hash) (tables.invites.rows db.invites))

  -- The account that accepts an invite: the one with its address, or a new one.
  unfoldable pub invitee :
      Draws
      → Invite
      → (password display_name : Text) → Option User
      → Db tables
      → Outcome AuthError (User × Db tables)
  unfolding verify_password required_text hash_password
  invitee draws invite password display_name (some user) db =
      guard (not user.is_active || not (verify_password platform password user.password_hash))
        invitation
      >>= λ _. ok (user, db)
  invitee draws invite password display_name none db = required_text 120 display_name >>= λ name.
      hash_password platform draws.salt password >>= λ hash.
      let user : User = record {
        id = draws.user_id;
        email = invite.email;
        display_name = name;
        password_hash = hash;
        is_active = true;
        created_at = draws.stored_at;
        updated_at = draws.stored_at;
      } in
      ok (user, record db { users = tables.users.insert user db.users })

  -- The membership of the account in the organization, which is added where it is missing.
  unfoldable pub enrolled :
      Draws → Invite → User → Option Membership → Db tables → Membership × Db tables
  enrolled draws invite user (some membership) db = (membership, db)
  enrolled draws invite user none db =
      let membership : Membership = record {
        id = draws.membership_id;
        organization_id = invite.organization_id;
        user_id = user.id;
        role = invite.role;
        created_at = draws.stored_at;
      } in
      (membership, record db { memberships = tables.memberships.insert membership db.memberships })

  unfoldable pub set_accepted : (now invite_id : ℕ) → Db tables → Db tables
  set_accepted now invite_id db = record db {
    invites =
        tables.invites.update (λ i. i.id == invite_id) (λ i. record i { accepted_at = some now })
          db.invites;
  }

  unfoldable pub accept_invite :
      Draws
      → (token password display_name : Text) → Db tables
      → Outcome AuthError Principal × Db tables
  unfolding invite_by_hash user_by_email invitee membership_of enrolled set_accepted record_audit
  accept_invite draws token password display_name db = transact db (
      require (invite_by_hash (platform.sha256 token) db) invitation >>= λ invite.
      guard (is_set invite.accepted_at || is_expired draws.checked_at invite.expires_at) invitation
      >>= λ _.
          invitee draws invite password display_name (user_by_email site invite.email db) db
          >>= λ (user, db1).
              let (membership, db2) =
                enrolled draws invite user (membership_of site invite.organization_id user.id db1)
                  db1 in
              ok (
                (record {
                  user_id = user.id;
                  organization_id = invite.organization_id;
                  role = membership.role;
                  email = user.email;
                }),
                record_audit site draws (codes "auth.invite_accepted") (some invite.organization_id)
                    (some user.id) (some invite.id) []
                    (set_accepted draws.changed_at invite.id db2),
              ))
