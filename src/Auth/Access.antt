-- ===== src/Auth/Access.antt =====
-- What an access token stands for, and how the calls that read credentials fail.
use mathlib.Core.Path.{subst, subst₂, sym}
use multi_agent_ai_analyst.Prelude.{
  first-filter, ==_iff, ℕ, ◌+◌, ◌≤◌, ◌≡◌, refl, true, false, not, ◌&&◌, some, ok, arith, ◌==◌,
}
use multi_agent_ai_analyst.Prelude.Text.{Text, codes, lookup, text_eq}
use multi_agent_ai_analyst.Auth.Rows.{
  User, Membership, Db, Principal, IssuedSession, second, minutes,
}
use multi_agent_ai_analyst.Auth.Credentials.{Site, Draws, Claims, jwt_secret}
use multi_agent_ai_analyst.Auth.Transactions.{
  ◌>>=◌, Yields, Yields-ok, Yields-using, Yields-bind, Yields-require, Yields-guard,
}
use multi_agent_ai_analyst.Auth.Sessions.{user_by_id, membership_of, issue_session, claims_of}
use multi_agent_ai_analyst.Auth.Login.{
  uuid_of, is_access, principal_of, principal_from_access_token,
}

module _ (site : Site) where
  open site use {tables, platform, settings}

  -- The account and the membership of a principal.
  pub record IsMember (db : Db tables) (p : Principal) : Type 0 where
    pub user : User
    pub membership : Membership
    pub user_found : user_by_id site p.user_id db ≡ some user
    pub active : user.is_active ≡ true
    pub membership_found : membership_of site p.organization_id p.user_id db ≡ some membership
    pub principal : p ≡ principal_of user membership

  principal_of-IsMember :
      (organization_id user_id : ℕ) (user : User) (membership : Membership) (db : Db tables)
      → user_by_id site user_id db ≡ some user
      → not user.is_active ≡ false
      → membership_of site organization_id user_id db ≡ some membership
      → IsMember db (principal_of user membership)
  unfolding user_by_id membership_of
  principal_of-IsMember organization_id user_id user membership db found active enrolled =
      let own : user.id ≡ user_id =
        (==_iff user.id user_id).0 (first-filter (λ u. u.id == user_id) _ user found) in
      let both : (membership.organization_id == organization_id && membership.user_id == user_id)
          ≡ true =
        first-filter (λ m. m.organization_id == organization_id && m.user_id == user_id) _
          membership enrolled in
      let here : membership.organization_id ≡ organization_id =
        (==_iff membership.organization_id organization_id).0 (ground (arith, both)) in
      record {
        user = user;
        membership = membership;
        user_found = subst (λ i. user_by_id site i db ≡ some user) (sym own) found;
        active = ground (arith, active);
        membership_found =
            subst₂ (λ o i. membership_of site o i db ≡ some membership) (sym here) (sym own)
              enrolled;
        principal = refl;
      }

  principal_from_access_token-Yields :
      (now : ℕ) (token : Text) (db : Db tables)
      → Yields (IsMember db) (principal_from_access_token site now token db)
  unfolding principal_from_access_token
  principal_from_access_token-Yields now token db = Yields-bind _ _ _ λ secret.
      Yields-bind _ _ _ λ payload. Yields-bind _ _ _ λ _. Yields-bind _ _ _ λ user_id.
        Yields-bind _ _ _ λ organization_id. Yields-using _ _ _ _ (Yields-require _ _) λ user found.
          Yields-using _ _ _ _ (Yields-guard _ _) λ _ active.
            Yields-using _ _ _ _ (Yields-require _ _) λ membership enrolled. Yields-ok _ _ (
              principal_of-IsMember organization_id user_id user membership db found active
                enrolled)

  -- The principal that is read from an access token is an active account with its membership, as the
  -- tables have them at that time.
  pub principal_from_access_token-IsMember :
      (now : ℕ) (token : Text) (db : Db tables) (principal : Principal)
      → principal_from_access_token site now token db ≡ ok principal
      → IsMember db principal
  principal_from_access_token-IsMember now token db principal =
      (principal_from_access_token-Yields now token db).at principal

  -- What the program relies on of the signed tokens and of the text of ids.
  pub record IsSound : Type 0 where
    pub decode-encode :
        (now : ℕ) (claims : Claims) (secret : Text)
        → claims.iat ≤ now
        → now + second ≤ claims.exp
        → lookup (codes "aud") claims.texts ≡ some settings.jwt_audience
        → lookup (codes "iss") claims.texts ≡ some settings.jwt_issuer
        → platform.decode now
            (platform.encode claims secret settings.jwt_algorithm)
            secret
            settings.jwt_algorithm
            settings.jwt_audience
            settings.jwt_issuer
          ≡ some claims.texts
    pub parse-print : (id : ℕ) → platform.ids.parse (platform.ids.print id) ≡ some id

  issue_session-Yields :
      (draws : Draws) (principal : Principal) (db : Db tables)
      → Yields
          (λ r.
            (secret : Text) × (jwt_secret settings.jwt_secret_key ≡ ok secret)
            × (r.0.access_token
                ≡ platform.encode (claims_of site draws principal) secret settings.jwt_algorithm)
            × (r.0.principal ≡ principal))
          (issue_session site draws principal db)
  unfolding issue_session
  issue_session-Yields draws principal db =
      Yields-using (λ secret. jwt_secret settings.jwt_secret_key ≡ ok secret) _ _ _
        (record { at = λ secret e. e }) λ secret e. Yields-ok _ _ (secret, e, refl, refl)

  -- An access token stands for the account and the membership that it was issued for, at any time from
  -- its issue to a second before it expires, while the account is active and has the membership.
  pub principal_from_access_token-issue_session :
      (sound : IsSound) (draws : Draws) (principal : Principal) (db later : Db tables)
      (result : IssuedSession × Db tables) (now : ℕ) (user : User) (membership : Membership)
      → issue_session site draws principal db ≡ ok result
      → draws.issued_at ≤ now
      → now + second ≤ draws.issued_at + minutes settings.access_token_expire_minutes
      → user_by_id site principal.user_id later ≡ some user
      → user.is_active ≡ true
      → membership_of site principal.organization_id principal.user_id later ≡ some membership
      → principal_from_access_token site now result.0.access_token later
        ≡ ok (principal_of user membership)
  unfolding principal_from_access_token ◌>>=◌ claims_of is_access uuid_of text_eq
  principal_from_access_token-issue_session sound draws principal db later result now user
        membership issued after before found active enrolled =
      let (secret, configured, token, same) =
        (issue_session-Yields draws principal db).at result issued in
      rw
        (
          configured,
          token,
          sound.decode-encode now (claims_of site draws principal) secret after before refl refl,
          sound.parse-print principal.user_id,
          sound.parse-print principal.organization_id,
          found,
          active,
          enrolled,
        )
        refl
