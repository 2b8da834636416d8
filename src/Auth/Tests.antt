-- ===== src/Auth/Tests.antt =====
-- The service on the accounts of Accounts.
mod Tokens
mod Accounts
use multi_agent_ai_analyst.Database.Queries.{order_by}
use mathlib.Core.Option.{some-injective, none-ne-some}
use multi_agent_ai_analyst.Prelude.{
  sym, ◌⊎◌, inl, inr, filter, ℕ, zero, suc, ◌+◌, ◌-◌, ◌*◌, ◌≤◌, ◌≡◌, refl, Bool, true, false, ◌&&◌,
  List, [], ◌∷◌, ◌++◌, map, Option, none, some, ok, raise, arith,
}
use multi_agent_ai_analyst.Prelude.Text.{Text, codes, text_eq}
use multi_agent_ai_analyst.Database.{plain_table}
use multi_agent_ai_analyst.RunStore.Rows.{Ids}
use multi_agent_ai_analyst.Auth.Rows.{
  Organization, User, Membership, Invite, RefreshSession, AuditEvent, PasswordResetToken, Tables,
  Db, Principal, IssuedSession, authentication, invitation, value_error,
}
use multi_agent_ai_analyst.Auth.Credentials.{
  Site, Draws, Platform, Settings, is_set, normalize_email, required_text,
}
use multi_agent_ai_analyst.Auth.Tests.Tokens.{encode, decode, decode-encode}
use multi_agent_ai_analyst.Auth.Sessions.{claims_of, session_row, session_by_id, session_by_hash}
use multi_agent_ai_analyst.Auth.Login.{
  login, refresh, refreshed, principal_from_access_token, principal_of, membership_for_login,
  rotate, replayed,
}
use multi_agent_ai_analyst.Auth.Lineage.{is_revoked, next_of, Descends, here, exchanged}
use multi_agent_ai_analyst.Auth.Lineage.Rounds.{rows_of}
use multi_agent_ai_analyst.Auth.Lineage.Loop.{revoke_session_lineage_ends}
use multi_agent_ai_analyst.Auth.Calls.{Call, signing_in, refreshing, perform, perform_all}
use multi_agent_ai_analyst.Auth.Changes.{Steps, perform-Steps}
use multi_agent_ai_analyst.Auth.Replay.{Presents, IsRotated, refresh-replay, refresh-replay_others}
use multi_agent_ai_analyst.Auth.Access.{
  IsMember, IsSound, principal_from_access_token-IsMember,
  principal_from_access_token-issue_session,
}
use multi_agent_ai_analyst.Auth.Failures.{login_raises}
use multi_agent_ai_analyst.Auth.Resets.{reset_password-revoked, reset_password-twice}
use multi_agent_ai_analyst.Auth.Acceptance.{accept_invite-once}
use multi_agent_ai_analyst.Auth.Rotation.{refresh_rotates}
use multi_agent_ai_analyst.Auth.Passwords.{reset_password, reset_by_hash}
use multi_agent_ai_analyst.Auth.Invites.{accept_invite, invite_by_hash}
use multi_agent_ai_analyst.Auth.Transactions.{◌>>=◌, transact}
use multi_agent_ai_analyst.Auth.Sessions.{
  claims_of, session_row, issue_session, user_by_id, membership_of, revoke_session_lineage,
}
use multi_agent_ai_analyst.Auth.Tests.Accounts.{
  tables, parse_id, platform, site, draws, password, ada, membership, session, db,
}

normalize_email_test : normalize_email platform (codes " ada@x.org ") ≡ ok (codes "ada@x.org")
unfolding normalize_email
normalize_email_test = refl

normalize_email_rejects : normalize_email platform (codes "ada@x@org") ≡ raise value_error
unfolding normalize_email
normalize_email_rejects = refl

required_text_test : required_text 120 (codes " a  b ") ≡ ok (codes "a b")
unfolding required_text
required_text_test = refl

first_presented : Presents site (codes "first") db (session 1 (codes "first") (some 50) (some 2))
unfolding session_by_hash session_by_id filter text_eq
first_presented = record { by_hash = refl; by_id = refl }

second_presented : Presents site (codes "second") db (session 2 (codes "second") none none)
unfolding session_by_hash session_by_id filter text_eq
second_presented = record { by_hash = refl; by_id = refl }

-- A sign-in, a reset of the password, and two more refreshes come between.
abbrev calls : List Call
calls =
    signing_in (draws 8 (codes "new")) (codes "ada@x.org") password none
    ∷ refreshing (draws 9 (codes "newer")) (codes "new")
    ∷ refreshing (draws 10 (codes "none")) (codes "other")
    ∷ []

first_to_second : Descends (next_of (rows_of site db)) 1 2
unfolding next_of session_by_id filter
first_to_second = exchanged {a = 1} {b = 2} {c = 2} refl here

refresh-replay_example :
    ((refresh site (draws 7 (codes "x")) (codes "first") db).0 ≡ raise authentication)
    × ((refresh site
          (draws 11 (codes "y"))
          (codes "second")
          (perform_all site calls (refresh site (draws 7 (codes "x")) (codes "first") db).1)).0
        ≡ raise authentication)
unfolding session_by_hash session_by_id perform_all filter text_eq refresh login transact ◌>>=◌
    order_by
refresh-replay_example =
    refresh-replay site (draws 7 (codes "x")) (codes "first") db
      (session 1 (codes "first") (some 50) (some 2)) first_presented 2
      (record { revoked = refl; replaced = refl }) calls (draws 11 (codes "y")) (codes "second")
      (session 2 (codes "second") (some 101) none) first_to_second
      (record { by_hash = refl; by_id = refl }) refl

apart : (a : ℕ) → Descends (next_of (rows_of site db)) a 3 → (a ≡ 1) ⊎ (a ≡ 2) → ⊥
unfolding next_of session_by_id filter
apart a here h = omega (arith, h)
apart a (exchanged {b = b} e d) (inl h) = apart b d (inr (some-injective _ _ (rw h at (sym e))))
apart a (exchanged {b = b} e d) (inr h) = none-ne-some b (rw h at e)

refresh-replay_others_example :
    session_by_id 3 (rows_of site (refresh site (draws 7 (codes "x")) (codes "first") db).1)
    ≡ session_by_id 3 (rows_of site db)
refresh-replay_others_example =
    refresh-replay_others site (draws 7 (codes "x")) (codes "first") db
      (session 1 (codes "first") (some 50) (some 2)) first_presented 3
      (record { revoked = refl; replaced = refl }) (λ d. apart 1 d (inl refl))

revoke_session_lineage_ends_example :
    (result : ℕ × Db tables) × (revoke_session_lineage site 9
        (session 1 (codes "first") (some 50) (some 2))
        db
      ≡ some result)
revoke_session_lineage_ends_example =
    revoke_session_lineage_ends site 9 (session 1 (codes "first") (some 50) (some 2)) db
      first_presented.by_id

perform-Steps_example :
    Steps
      (rows_of site db)
      (rows_of site (perform site (refreshing (draws 9 (codes "x")) (codes "first")) db))
perform-Steps_example = perform-Steps site (refreshing (draws 9 (codes "x")) (codes "first")) db

refresh_rotates_example :
    let rows = rows_of site (refresh site (draws 9 (codes "x")) (codes "second") db).1 in
    (is_set none ≡ false)
    × (is_revoked rows 2 ≡ true)
    × (next_of rows 2 ≡ some 9)
    × (is_revoked rows 9 ≡ false)
    × (codes "x" ≡ codes "x")
unfolding refresh filter text_eq transact ◌>>=◌
refresh_rotates_example =
    refresh_rotates site (draws 9 (codes "x")) (codes "second") db
      (session 2 (codes "second") none none) _ second_presented refl refl refl

login_raises_example :
    (authentication ≡ authentication)
    × ((login site (draws 9 (codes "x")) (codes "ada@x.org") (codes "wrong horse") none db).1 ≡ db)
unfolding login transact ◌>>=◌ filter text_eq
login_raises_example =
    login_raises site (draws 9 (codes "x")) (codes "ada@x.org") (codes "wrong horse") none db
      authentication refl

reset_password-revoked_example : is_set (some 102) ≡ true
unfolding reset_password filter text_eq transact ◌>>=◌ session_by_id
reset_password-revoked_example =
    reset_password-revoked site (draws 9 (codes "x")) (codes "reset") (codes "another horse") db _ 3
      (session 3 (codes "other") (some 102) none) refl refl refl refl

reset_password-twice_example :
    let db' =
      (reset_password site (draws 9 (codes "x")) (codes "reset") (codes "another horse") db).1 in
    reset_password site (draws 10 (codes "y")) (codes "reset") (codes "a third horse") db'
    ≡ (raise invitation, db')
unfolding reset_password transact ◌>>=◌ filter text_eq
reset_password-twice_example =
    reset_password-twice site (draws 9 (codes "x")) (draws 10 (codes "y")) (codes "reset")
      (codes "another horse") (codes "a third horse") db refl

abbrev bob : Principal
bob = record { user_id = 9; organization_id = 7; role = codes "member"; email = codes "bob@x.org" }

accept_invite-once_example :
    let db' =
      (accept_invite site (draws 9 (codes "x")) (codes "invite") password (codes "Bob") db).1 in
    (invite : Invite) × (invite_by_hash site (codes "invite") db ≡ some invite)
    × (is_set invite.accepted_at ≡ false)
    × (7 ≡ invite.organization_id)
    × (codes "bob@x.org" ≡ invite.email)
    × (accept_invite site (draws 10 (codes "y")) (codes "invite") password (codes "Eve") db'
        ≡ (raise invitation, db'))
unfolding accept_invite transact ◌>>=◌ filter text_eq
accept_invite-once_example =
    accept_invite-once site (draws 9 (codes "x")) (draws 10 (codes "y")) (codes "invite") password
      password (codes "Bob") (codes "Eve") db bob refl

sound : IsSound site
sound = record {
  decode-encode = λ now claims secret after before aud iss.
      decode-encode now claims secret (codes "HS256") (codes "api") (codes "analyst") after before
        aud iss;
  parse-print = λ id. refl;
}

abbrev principal : Principal
principal = record {
  user_id = 1;
  organization_id = 7;
  role = codes "admin";
  email = codes "ada@x.org";
}

abbrev issued : IssuedSession
issued = record {
  access_token =
      encode (claims_of site (draws 9 (codes "x")) principal) (codes "key") (codes "HS256");
  refresh_token = codes "x";
  expires_in = 900;
  principal = principal;
}

principal_from_access_token-issue_session_example :
    principal_from_access_token site 200 issued.access_token db ≡ ok (principal_of ada membership)
unfolding issue_session ◌>>=◌ user_by_id filter membership_of
principal_from_access_token-issue_session_example =
    principal_from_access_token-issue_session site sound (draws 9 (codes "x")) principal db db
      (
        issued,
        record db {
          sessions = db.sessions ++ session_row site (draws 9 (codes "x")) principal ∷ [];
        },
      )
      200 ada membership refl (omega arith) (omega arith) refl refl refl

principal_from_access_token-IsMember_example : IsMember site db (principal_of ada membership)
principal_from_access_token-IsMember_example =
    principal_from_access_token-IsMember site 200 issued.access_token db
      (principal_of ada membership) principal_from_access_token-issue_session_example
