-- ===== src/Auth/Tests/Accounts.antt =====
-- Accounts on concrete tables: a user with three sessions, an invitation and a token to reset.
use multi_agent_ai_analyst.Prelude.{ℕ, true, [], ◌∷◌, Option, none, some}
use multi_agent_ai_analyst.Prelude.Text.{Text, codes, text_eq}
use multi_agent_ai_analyst.Database.{plain_table}
use multi_agent_ai_analyst.Auth.Rows.{
  Organization, User, Membership, Invite, RefreshSession, AuditEvent, PasswordResetToken, Tables,
  Db,
}
use multi_agent_ai_analyst.Auth.Credentials.{Site, Draws, Platform}
use multi_agent_ai_analyst.Auth.Tests.Tokens.{encode, decode}

abbrev pub tables : Tables
tables = record {
  organizations = plain_table Organization;
  users = plain_table User;
  memberships = plain_table Membership;
  invites = plain_table Invite;
  sessions = plain_table RefreshSession;
  audit = plain_table AuditEvent;
  resets = plain_table PasswordResetToken;
}

abbrev pub parse_id : Text → Option ℕ
parse_id (id ∷ []) = some id
parse_id _ = none

-- Hashes that show what they hash.
abbrev pub platform : Platform
platform = record {
  casefold = λ t. t;
  sha256 = λ t. t;
  hash = λ salt password. password;
  verify = λ password password_hash. some (text_eq password password_hash);
  encode = encode;
  decode = decode;
  ids = record { print = λ id. id ∷ []; parse = parse_id };
}

abbrev pub site : Site
site = record {
  tables = tables;
  platform = platform;
  settings = record {
    jwt_secret_key = some (codes "key");
    jwt_algorithm = codes "HS256";
    jwt_audience = codes "api";
    jwt_issuer = codes "analyst";
    access_token_expire_minutes = 15;
    refresh_token_expire_days = 7;
    invite_expire_hours = 72;
    password_reset_expire_minutes = 30;
  };
}

abbrev pub draws : ℕ → Text → Draws
draws id token = record {
  checked_at = 100;
  changed_at = 101;
  issued_at = 102;
  stored_at = 103;
  organization_id = id;
  user_id = id;
  membership_id = id;
  row_id = id;
  audit_id = id;
  salt = [];
  jti = codes "jti";
  token = token;
}

abbrev pub password : Text
password = codes "correct horse"

abbrev pub ada : User
ada = record {
  id = 1;
  email = codes "ada@x.org";
  display_name = codes "Ada";
  password_hash = password;
  is_active = true;
  created_at = 0;
  updated_at = 0;
}

abbrev pub membership : Membership
membership = record {
  id = 1;
  organization_id = 7;
  user_id = 1;
  role = codes "admin";
  created_at = 0;
}

abbrev pub session : ℕ → Text → Option ℕ → Option ℕ → RefreshSession
session id token revoked_at replaced = record {
  id = id;
  user_id = 1;
  organization_id = 7;
  token_hash = token;
  expires_at = 1000;
  revoked_at = revoked_at;
  replaced_by_session_id = replaced;
  created_at = 0;
}

-- The first session was exchanged for the second, which is open, as is the third, of another device.
abbrev pub db : Db tables
db = record {
  organizations = [];
  users = ada ∷ [];
  memberships = membership ∷ [];
  invites =
      (record {
        id = 5;
        organization_id = 7;
        email = codes "bob@x.org";
        role = codes "member";
        token_hash = codes "invite";
        expires_at = 1000;
        accepted_at = none;
        created_by_user_id = some 1;
        created_at = 0;
      })
      ∷ [];
  sessions =
      session 1 (codes "first") (some 50) (some 2)
      ∷ session 2 (codes "second") none none
      ∷ session 3 (codes "other") none none
      ∷ [];
  audit = [];
  resets =
      (record {
        id = 6;
        user_id = 1;
        token_hash = codes "reset";
        expires_at = 1000;
        consumed_at = none;
        created_at = 0;
      })
      ∷ [];
}
