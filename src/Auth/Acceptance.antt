-- ===== src/Auth/Acceptance.antt =====
-- What an accepted invite gives, and that it works once.
use multi_agent_ai_analyst.Prelude.{
  ℕ, ◌≡◌, refl, true, false, Option, none, some, ok, raise, arith, ◌==◌, first-filter,
}
use multi_agent_ai_analyst.Prelude.Text.{Text, text_eq, text_eq→eq}
use multi_agent_ai_analyst.Database.{change_where}
use multi_agent_ai_analyst.Database.Queries.{first-change}
use multi_agent_ai_analyst.Auth.Rows.{User, Membership, Invite, Principal, Db, invitation}
use multi_agent_ai_analyst.Auth.Credentials.{Site, Draws, is_set}
use multi_agent_ai_analyst.Auth.Transactions.{
  ◌>>=◌, transact, Yields, Yields-ok, Yields-using, Yields-bind, Yields-require, Yields-guard,
  transact-ok,
}
use multi_agent_ai_analyst.Auth.Sessions.{user_by_email, record_audit}
use multi_agent_ai_analyst.Auth.Invites.{
  accept_invite, invite_by_hash, invitee, enrolled, set_accepted,
}

abbrev accepted : ℕ → Invite → Invite
accepted now i = record i { accepted_at = some now }

module _ (site : Site) where
  open site use {tables, platform}

  -- The account that accepted an invite, and the change of the table of invites.
  record IsAccepted (draws : Draws) (invite : Invite) (db : Db tables) (q : Principal × Db tables)
      : Type 0 where
    organization : q.0.organization_id ≡ invite.organization_id
    address : q.0.email ≡ invite.email
    open_before : is_set invite.accepted_at ≡ false
    invites :
        tables.invites.rows q.1.invites
        ≡ change_where
            (λ i. i.id == invite.id)
            (accepted draws.changed_at)
            (tables.invites.rows db.invites)

  -- The account has the address of the invite, and the invites are as they were.
  invitee-Yields :
      (draws : Draws) (invite : Invite) (password display_name : Text) (found : Option User)
      (db : Db tables)
      → user_by_email site invite.email db ≡ found
      → Yields
          (λ q. (q.0.email ≡ invite.email) × (q.1.invites ≡ db.invites))
          (invitee site draws invite password display_name found db)
  unfolding invitee user_by_email
  invitee-Yields draws invite password display_name none db e =
      Yields-bind _ _ _ λ name. Yields-bind _ _ _ λ hash. Yields-ok _ _ (refl, refl)
  invitee-Yields draws invite password display_name (some user) db e = Yields-bind _ _ _ λ _.
      Yields-ok _ _ (
        text_eq→eq user.email invite.email
            (first-filter (λ u. text_eq u.email invite.email) _ user e),
        refl,
      )

  enrolled-invites :
      (draws : Draws) (invite : Invite) (user : User) (found : Option Membership) (db : Db tables)
      → (enrolled site draws invite user found db).1.invites ≡ db.invites
  unfolding enrolled
  enrolled-invites draws invite user none db = refl
  enrolled-invites draws invite user (some membership) db = refl

  accept_invite-Yields :
      (draws : Draws) (token password display_name : Text) (db : Db tables) (p : Principal)
      → (accept_invite site draws token password display_name db).0 ≡ ok p
      → (invite : Invite) × (invite_by_hash site (platform.sha256 token) db ≡ some invite)
        × IsAccepted draws invite db
            (p, (accept_invite site draws token password display_name db).1)
  unfolding accept_invite set_accepted record_audit
  accept_invite-Yields draws token password display_name db p =
      transact-ok
        (λ q.
          (invite : Invite) × (invite_by_hash site (platform.sha256 token) db ≡ some invite)
          × IsAccepted draws invite db q)
        db _ p
        (Yields-using _ _ _ _
          (Yields-require (invite_by_hash site (platform.sha256 token) db) invitation)
          λ invite found. Yields-using _ _ _ _ (Yields-guard _ invitation) λ _ fresh.
            Yields-using _ _ _ _
              (invitee-Yields draws invite password display_name
                (user_by_email site invite.email db) db refl)
              λ q same. Yields-ok _ _ (
                invite,
                found,
                (record {
                  organization = refl;
                  address = same.0;
                  open_before = ground (arith, fresh);
                  invites =
                      rw
                        (
                          tables.invites.rows-update _ _ _,
                          enrolled-invites draws invite q.0 _ q.1,
                          same.1,
                        )
                        refl;
                }),
              ))

  accept_invite-used :
      (draws : Draws) (token password display_name : Text) (db : Db tables) (invite : Invite)
      → invite_by_hash site (platform.sha256 token) db ≡ some invite
      → is_set invite.accepted_at ≡ true
      → accept_invite site draws token password display_name db ≡ (raise invitation, db)
  unfolding accept_invite transact ◌>>=◌
  accept_invite-used draws token password display_name db invite found used = rw (found, used) refl

  -- An accepted invite gives its organization and the account with its address, and works once: another
  -- acceptance with the same token raises and stores nothing.
  pub accept_invite-once :
      (draws draws' : Draws) (token password password' display_name display_name' : Text)
      (db : Db tables) (p : Principal)
      → (accept_invite site draws token password display_name db).0 ≡ ok p
      → let db' = (accept_invite site draws token password display_name db).1 in
        (invite : Invite) × (invite_by_hash site (platform.sha256 token) db ≡ some invite)
        × (is_set invite.accepted_at ≡ false)
        × (p.organization_id ≡ invite.organization_id)
        × (p.email ≡ invite.email)
        × (accept_invite site draws' token password' display_name' db' ≡ (raise invitation, db'))
  unfolding invite_by_hash
  accept_invite-once draws draws' token password password' display_name display_name' db p done =
      let (invite, found, stored) =
        accept_invite-Yields draws token password display_name db p done in
      (
        invite,
        found,
        stored.open_before,
        stored.organization,
        stored.address,
        accept_invite-used draws' token password' display_name' _ (accepted draws.changed_at invite)
            (rw stored.invites (
              first-change (λ i. i.id) (λ i. text_eq i.token_hash (platform.sha256 token))
                (accepted draws.changed_at) _ invite (λ i. refl) found))
            refl,
      )
