-- ===== src/Auth/Calls.antt =====
-- auth/service.py: the calls of the service that change its tables, and sequences of them.
use multi_agent_ai_analyst.Prelude.{ℕ, List, [], ◌∷◌, Option}
use multi_agent_ai_analyst.Prelude.Text.{Text}
use multi_agent_ai_analyst.Auth.Rows.{Db, Principal}
use multi_agent_ai_analyst.Auth.Credentials.{Site, Draws}
use multi_agent_ai_analyst.Auth.Accounts.{bootstrap_admin, register}
use multi_agent_ai_analyst.Auth.Passwords.{request_password_reset, reset_password}
use multi_agent_ai_analyst.Auth.Invites.{create_invite, accept_invite}
use multi_agent_ai_analyst.Auth.Login.{login, refresh, logout}

pub data Call : Type 0 where
  bootstrapping : Draws → (email password display_name organization_name : Text) → Call
  registering :
      Draws → (email password display_name : Text) (organization_name : Option Text) → Call
  requesting_reset : Draws → (email : Text) → Call
  resetting : Draws → (token password : Text) → Call
  inviting : Draws → Principal → (email role : Text) → Call
  accepting : Draws → (token password display_name : Text) → Call
  signing_in : Draws → (email password : Text) (organization_id : Option ℕ) → Call
  refreshing : Draws → (refresh_token : Text) → Call
  signing_out : Draws → (refresh_token : Option Text) → Call

module _ (site : Site) where
  open site use {tables}

  unfoldable pub perform : Call → Db tables → Db tables
  perform (bootstrapping draws e p n o) db = (bootstrap_admin site draws e p n o db).1
  perform (registering draws e p n o) db = (register site draws e p n o db).1
  perform (requesting_reset draws e) db = (request_password_reset site draws e db).1
  perform (resetting draws t p) db = (reset_password site draws t p db).1
  perform (inviting draws principal e r) db = (create_invite site draws principal e r db).1
  perform (accepting draws t p n) db = (accept_invite site draws t p n db).1
  perform (signing_in draws e p o) db = (login site draws e p o db).1
  perform (refreshing draws t) db = (refresh site draws t db).1
  perform (signing_out draws t) db = logout site draws t db

  unfoldable pub perform_all : List Call → Db tables → Db tables
  unfolding perform
  perform_all [] db = db
  perform_all (call ∷ calls) db = perform_all calls (perform call db)
