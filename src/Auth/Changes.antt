-- ===== src/Auth/Changes.antt =====
-- The calls of the service, and what they do to the table of sessions.
use mathlib.Core.Option.{some-injective}
use multi_agent_ai_analyst.Prelude.{
  ◌+◌, ◌&&◌, length, inr, ◌==◌, inl, Outcome, ℕ, ◌≡◌, refl, Bool, List, [], ◌∷◌, ◌++◌, Option, none,
  some, zero, suc, Bool-cases, any,
}
use multi_agent_ai_analyst.Prelude.Text.{Text}
use multi_agent_ai_analyst.Database.{change_where}
use multi_agent_ai_analyst.Auth.Rows.{
  Membership, AuthError, Invite, User, IssuedSession, RefreshSession, Db, Principal,
}
use multi_agent_ai_analyst.Auth.Credentials.{Site, Draws, is_set}
use multi_agent_ai_analyst.Auth.Transactions.{
  ◌>>=◌, Yields-ok, Yields, Yields-bind, Yields-using, transact-Yields,
}
use multi_agent_ai_analyst.Auth.Sessions.{
  record_audit, replace_by, revoked, set_session, issue_session, revoke, revoke_from,
  revoke_session_lineage,
}
use multi_agent_ai_analyst.Auth.Accounts.{add_account, bootstrap_admin, register}
use multi_agent_ai_analyst.Auth.Passwords.{
  mint_reset, store_password, request_password_reset, reset_password,
}
use multi_agent_ai_analyst.Auth.Invites.{
  set_accepted, enrolled, invitee, create_invite, accept_invite,
}
use multi_agent_ai_analyst.Auth.Login.{
  logged_out, refreshed, replayed, login, refresh, logout, rotate,
}
use multi_agent_ai_analyst.Auth.Lineage.Rounds.{rows_of}
use multi_agent_ai_analyst.Auth.Calls.{
  Call, bootstrapping, registering, requesting_reset, resetting, inviting, accepting, signing_in,
  refreshing, signing_out, perform,
}

-- Sessions are added open, revoked, and linked to the one that replaced them; none is removed or opened again.
pub data Steps (from : List RefreshSession) : List RefreshSession → Type 0 where
  stay : Steps from from
  opened :
      {rows : List RefreshSession} (r : RefreshSession)
      → Steps from rows
      → Steps from (rows ++ r ∷ [])
  closed :
      {rows : List RefreshSession} (p : RefreshSession → Bool) (now : ℕ)
      → Steps from rows
      → Steps from (change_where p (revoked now) rows)
  linked :
      {rows : List RefreshSession} (p : RefreshSession → Bool) (o : Option RefreshSession)
      → Steps from rows
      → Steps from (change_where p (replace_by o) rows)

module _ (site : Site) where
  open site use {tables}

  abbrev Changes : Db tables → Db tables → Type 0
  Changes db db' = Steps (rows_of site db) (rows_of site db')

  bootstrap_admin-Changes :
      (draws : Draws) (email password display_name organization_name : Text) (db : Db tables)
      → Changes db (bootstrap_admin site draws email password display_name organization_name db).1
  unfolding bootstrap_admin record_audit add_account
  bootstrap_admin-Changes draws email password display_name organization_name db =
      transact-Yields (Changes db) db _ stay (search (Yields-bind, Yields-ok, stay) depth 16)

  -- A session is issued, and the rest leaves the sessions as they are.
  issuing-Changes {ℓ} :
      {B : Type ℓ} (draws : Draws) (principal : Principal) (start db : Db tables)
      (k : IssuedSession × Db tables → Outcome AuthError (B × Db tables))
      → Changes start db
      → ((r : IssuedSession × Db tables)
          → Changes start r.1
          → Yields (λ r. Changes start r.1) (k r))
      → Yields (λ r. Changes start r.1) (issue_session site draws principal db >>= k)
  unfolding issue_session
  issuing-Changes draws principal start db k s rest =
      Yields-using (λ r. Changes start r.1) _ _ k
        (Yields-bind _ _ _
          λ secret. Yields-ok _ _ (rw (tables.sessions.rows-insert _ _) (opened _ s)))
        rest

  register-Changes :
      (draws : Draws) (email password display_name : Text) (organization_name : Option Text)
      (db : Db tables)
      → Changes db (register site draws email password display_name organization_name db).1
  unfolding register record_audit add_account
  register-Changes draws email password display_name organization_name db =
      transact-Yields (Changes db) db _ stay
        (search (Yields-bind, issuing-Changes, Yields-ok, stay) depth 16)

  mint_reset-Changes :
      (draws : Draws) (found : Option User) (db : Db tables)
      → Changes db (mint_reset site draws found db).1
  unfolding mint_reset
  mint_reset-Changes draws none db = stay
  mint_reset-Changes draws (some user) db = stay

  request_password_reset-Changes :
      (draws : Draws) (email : Text) (db : Db tables)
      → Changes db (request_password_reset site draws email db).1
  unfolding request_password_reset
  request_password_reset-Changes draws email db = mint_reset-Changes draws _ db

  reset_password-Changes :
      (draws : Draws) (token password : Text) (db : Db tables)
      → Changes db (reset_password site draws token password db).1
  unfolding reset_password store_password record_audit
  reset_password-Changes draws token password db = transact-Yields (Changes db) db _ stay (
      Yields-bind _ _ _ λ reset. Yields-bind _ _ _ λ _. Yields-bind _ _ _ λ user.
        Yields-bind _ _ _ λ _. Yields-bind _ _ _ λ hash.
          Yields-ok _ _ (rw (tables.sessions.rows-update _ _ _) (closed _ draws.issued_at stay)))

  create_invite-Changes :
      (draws : Draws) (principal : Principal) (email role : Text) (db : Db tables)
      → Changes db (create_invite site draws principal email role db).1
  unfolding create_invite record_audit
  create_invite-Changes draws principal email role db =
      transact-Yields (Changes db) db _ stay (search (Yields-bind, Yields-ok, stay) depth 16)

  invitee-Changes :
      (draws : Draws) (invite : Invite) (password display_name : Text) (found : Option User)
      (db : Db tables)
      → Yields (λ r. Changes db r.1) (invitee site draws invite password display_name found db)
  unfolding invitee
  invitee-Changes draws invite password display_name none db =
      search (Yields-bind, Yields-ok, stay) depth 16
  invitee-Changes draws invite password display_name (some user) db =
      search (Yields-bind, Yields-ok, stay) depth 16

  enrolled-Changes :
      (draws : Draws) (invite : Invite) (user : User) (found : Option Membership)
      (start db : Db tables)
      → Changes start db
      → Changes start (enrolled site draws invite user found db).1
  unfolding enrolled
  enrolled-Changes draws invite user none start db s = s
  enrolled-Changes draws invite user (some membership) start db s = s

  accept_invite-Changes :
      (draws : Draws) (token password display_name : Text) (db : Db tables)
      → Changes db (accept_invite site draws token password display_name db).1
  unfolding accept_invite set_accepted record_audit
  accept_invite-Changes draws token password display_name db =
      transact-Yields (Changes db) db _ stay (
        Yields-bind _ _ _ λ invite. Yields-bind _ _ _ λ _.
          Yields-using (λ r. Changes db r.1) _ _ _
            (invitee-Changes draws invite password display_name _ db)
            λ r s. Yields-ok _ _ (enrolled-Changes draws invite r.0 _ db r.1 s))

  login-Changes :
      (draws : Draws) (email password : Text) (organization_id : Option ℕ) (db : Db tables)
      → Changes db (login site draws email password organization_id db).1
  unfolding login record_audit
  login-Changes draws email password organization_id db =
      transact-Yields (Changes db) db _ stay
        (search (Yields-bind, issuing-Changes, Yields-ok, stay) depth 16)

  revoke-Changes :
      (now : ℕ) (current : RefreshSession) (start db : Db tables)
      → Changes start db
      → Changes start (revoke site now current db)
  unfolding revoke set_session
  revoke-Changes now current start db s = elim (Bool-cases (is_set current.revoked_at)) [
    | inl e ↦ rw e s
    | inr e ↦ rw (e, tables.sessions.rows-update _ _ _) (closed _ now s)
  ]

  revoke_from-Changes :
      (fuel now : ℕ) (seen : List ℕ) (total : ℕ) (current : Option RefreshSession)
      (start db : Db tables) (result : ℕ × Db tables)
      → Changes start db
      → revoke_from site fuel now seen total current db ≡ some result
      → Changes start result.1
  unfolding revoke_from
  revoke_from-Changes fuel now seen total none start db result s e = rw (← some-injective _ _ e) s
  revoke_from-Changes zero now seen total (some current) start db result s e = cc
  revoke_from-Changes (suc fuel) now seen total (some current) start db result s e =
      elim (Bool-cases (any (λ id. id == current.id) seen)) [
        | inl found ↦ rw (← some-injective _ _ (rw found at e)) s
        | inr new ↦
            revoke_from-Changes fuel now (current.id ∷ seen) _ _ start (revoke site now current db)
              result (revoke-Changes now current start db s) (rw new at e)
      ]

  replayed-Changes :
      (draws : Draws) (r : RefreshSession) (result : Option (ℕ × Db tables)) (db : Db tables)
      → revoke_session_lineage site draws.changed_at r db ≡ result
      → Changes db (replayed site draws r result db).1
  unfolding replayed record_audit revoke_session_lineage
  replayed-Changes draws r none db e = stay
  replayed-Changes draws r (some result) db e =
      revoke_from-Changes (length (rows_of site db) + 1) draws.changed_at [] 0 (some r) db db result
        stay e

  set_session-Changes :
      (id : ℕ) (f : RefreshSession → RefreshSession) (start db : Db tables)
      → ((rows : List RefreshSession)
          → Steps (rows_of site start) rows
          → Steps (rows_of site start) (change_where (λ r. r.id == id) f rows))
      → Changes start db
      → Changes start (set_session site id f db)
  unfolding set_session
  set_session-Changes id f start db step s =
      rw (tables.sessions.rows-update _ _ _) (step (rows_of site db) s)

  rotate-Changes :
      (draws : Draws) (r : RefreshSession) (db : Db tables)
      → Yields (λ q. Changes db q.1) (rotate site draws r db)
  unfolding rotate record_audit
  rotate-Changes draws r db = Yields-bind _ _ _ λ _. Yields-bind _ _ _ λ user.
      Yields-bind _ _ _ λ _. Yields-bind _ _ _ λ membership.
        issuing-Changes draws _ db _ _
          (set_session-Changes r.id _ db db (λ rows s. closed _ draws.changed_at s) stay)
          λ q s. Yields-ok _ _ (set_session-Changes r.id _ db q.1 (λ rows s. linked _ _ s) s)

  refreshed-Changes :
      (draws : Draws) (found : Option RefreshSession) (db : Db tables)
      → Changes db (refreshed site draws found db).1
  unfolding refreshed
  refreshed-Changes draws none db = stay
  refreshed-Changes draws (some r) db =
      elim (Bool-cases (is_set r.revoked_at && is_set r.replaced_by_session_id)) [
        | inl e ↦ rw e (replayed-Changes draws r _ db refl)
        | inr e ↦ rw e (transact-Yields (Changes db) db _ stay (rotate-Changes draws r db))
      ]

  logged_out-Changes :
      (draws : Draws) (found : Option RefreshSession) (db : Db tables)
      → Changes db (logged_out site draws found db)
  unfolding logged_out record_audit
  logged_out-Changes draws none db = stay
  logged_out-Changes draws (some r) db = elim (Bool-cases (is_set r.revoked_at)) [
    | inl e ↦ rw e stay
    | inr e ↦ rw e (set_session-Changes r.id _ db db (λ rows s. closed _ draws.changed_at s) stay)
  ]

  logout-Changes :
      (draws : Draws) (token : Option Text) (db : Db tables)
      → Changes db (logout site draws token db)
  unfolding logout
  logout-Changes draws none db = stay
  logout-Changes draws (some []) db = stay
  logout-Changes draws (some (c ∷ token)) db = logged_out-Changes draws _ db

  -- Whatever a call does to the sessions is made of these steps.
  pub perform-Steps :
      (call : Call) (db : Db tables) → Steps (rows_of site db) (rows_of site (perform site call db))
  unfolding perform refresh
  perform-Steps (bootstrapping draws e p n o) db = bootstrap_admin-Changes draws e p n o db
  perform-Steps (registering draws e p n o) db = register-Changes draws e p n o db
  perform-Steps (requesting_reset draws e) db = request_password_reset-Changes draws e db
  perform-Steps (resetting draws t p) db = reset_password-Changes draws t p db
  perform-Steps (inviting draws principal e r) db = create_invite-Changes draws principal e r db
  perform-Steps (accepting draws t p n) db = accept_invite-Changes draws t p n db
  perform-Steps (signing_in draws e p o) db = login-Changes draws e p o db
  perform-Steps (refreshing draws t) db = refreshed-Changes draws _ db
  perform-Steps (signing_out draws t) db = logout-Changes draws t db
