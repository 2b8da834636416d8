-- ===== src/Auth/Rotation.antt =====
-- The exchange of an open session for the next one.
use mathlib.Core.Path.{sym, ◌∙◌}
use mathlib.Core.Option.{none-ne-some}
use multi_agent_ai_analyst.Prelude.{
  ==_iff, inr, inl, ℕ, ◌≡◌, refl, Bool, true, false, ◌&&◌, List, [], ◌∷◌, ◌++◌, Option, none, some,
  first, filter, ok, arith, ◌==◌, if◌then◌else◌, Bool-cases,
}
use multi_agent_ai_analyst.Prelude.Text.{Text, text_eq, text_eq_refl}
use multi_agent_ai_analyst.Database.{change_where}
use multi_agent_ai_analyst.Database.Queries.{filter-map, first-map}
use multi_agent_ai_analyst.Auth.Rows.{RefreshSession, IssuedSession, Principal, Db, authentication}
use multi_agent_ai_analyst.Auth.Credentials.{Site, Draws, is_set}
use multi_agent_ai_analyst.Auth.Transactions.{
  Yields, Yields-ok, Yields-using, Yields-bind, Yields-guard, transact-ok,
}
use multi_agent_ai_analyst.Auth.Sessions.{
  session_by_id, session_by_hash, revoked, replace_by, set_session, issue_session, session_row,
  record_audit,
}
use multi_agent_ai_analyst.Auth.Login.{replayed, principal_of, refresh, refreshed, rotate}
use multi_agent_ai_analyst.Auth.Lineage.{follow, is_revoked, next_of}
use multi_agent_ai_analyst.Auth.Lineage.Rounds.{rows_of}
use multi_agent_ai_analyst.Auth.Replay.{by_id-append, Presents, by_id-change}

-- The rows after an exchange: the old session revoked, the new one added, and the one linked to the other.
abbrev exchanged_rows :
    (id now : ℕ) (next : RefreshSession) → List RefreshSession → List RefreshSession
exchanged_rows id now next rows =
    change_where (λ r. r.id == id) (replace_by (some next))
      (change_where (λ r. r.id == id) (revoked now) rows ++ next ∷ [])

-- A row that is added is found where no other row is.
first-append :
    (p : RefreshSession → Bool) (rows : List RefreshSession) (r : RefreshSession)
    → first (filter p rows) ≡ none
    → p r ≡ true
    → first (filter p (rows ++ r ∷ [])) ≡ some r
unfolding filter
first-append p [] r e h = ground (arith, h)
first-append p (s ∷ rows) r e h = ground (arith, e, first-append p rows r)

by_hash-next :
    (hash : Text) (id now : ℕ) (rows : List RefreshSession) (next : RefreshSession)
    → session_by_hash hash rows ≡ none
    → text_eq next.token_hash hash ≡ true
    → session_by_hash hash (change_where (λ r. r.id == id) (revoked now) rows ++ next ∷ [])
      ≡ some next
unfolding session_by_hash
by_hash-next hash id now rows next fresh own =
    first-append (λ r. text_eq r.token_hash hash) _ next
      (rw
        (
          filter-map (λ r. text_eq r.token_hash hash) (λ r. if r.id == id then revoked now r else r)
              (λ r. ground arith) rows,
          first-map (λ r. if r.id == id then revoked now r else r)
              (filter (λ r. text_eq r.token_hash hash) rows),
          fresh,
        )
        refl)
      own

old_row :
    (now : ℕ) (rows : List RefreshSession) (r next : RefreshSession)
    → session_by_id r.id rows ≡ some r
    → session_by_id r.id (exchanged_rows r.id now next rows)
      ≡ some (replace_by (some next) (revoked now r))
old_row now rows r next key =
    let inner : session_by_id r.id (change_where (λ s. s.id == r.id) (revoked now) rows)
        ≡ some (revoked now r) =
      rw (by_id-change r.id (λ s. s.id == r.id) (revoked now) rows (λ s. refl), key)
        (ground arith) in
    rw
      (
        by_id-change r.id (λ s. s.id == r.id) (replace_by (some next)) _ (λ s. refl),
        by_id-append r.id _ (revoked now r) next inner,
      )
      (ground arith)

next_row :
    (now : ℕ) (rows : List RefreshSession) (r next : RefreshSession)
    → session_by_id r.id rows ≡ some r
    → session_by_id next.id rows ≡ none
    → session_by_id next.id (exchanged_rows r.id now next rows) ≡ some next
unfolding session_by_id
next_row now rows r next key fresh =
    let other : (next.id == r.id) ≡ false = elim (Bool-cases (next.id == r.id)) [
      | inl same ↦ absurd (none-ne-some r (sym fresh ∙ rw ((==_iff next.id r.id).0 same) key))
      | inr e ↦ e
    ] in
    let inner : session_by_id next.id
          (change_where (λ s. s.id == r.id) (revoked now) rows ++ next ∷ [])
        ≡ some next =
      first-append (λ s. s.id == next.id) _ next
        (rw (by_id-change next.id (λ s. s.id == r.id) (revoked now) rows (λ s. refl), fresh) refl)
        (ground arith) in
    rw (by_id-change next.id (λ s. s.id == r.id) (replace_by (some next)) _ (λ s. refl), inner)
      (rw other refl)

-- After the exchange the old session is revoked and leads to the new one, which is open.
exchanged_rows-next :
    (now : ℕ) (rows : List RefreshSession) (r next : RefreshSession)
    → session_by_id r.id rows ≡ some r
    → session_by_id next.id rows ≡ none
    → is_set next.revoked_at ≡ false
    → (is_revoked (exchanged_rows r.id now next rows) r.id ≡ true)
      × (next_of (exchanged_rows r.id now next rows) r.id ≡ some next.id)
      × (is_revoked (exchanged_rows r.id now next rows) next.id ≡ false)
unfolding is_revoked next_of
exchanged_rows-next now rows r next key fresh unused =
    let there = old_row now rows r next key in
    let here = next_row now rows r next key fresh in
    (
      rw (is_revoked, there) refl,
      rw (next_of, there) (rw (follow, here) refl),
      rw (is_revoked, here) unused,
    )

module _ (site : Site) where
  open site use {tables, platform}

  issue_session-rows :
      (draws : Draws) (principal : Principal) (db : Db tables)
      → Yields
          (λ q.
            (q.0.refresh_token ≡ draws.token)
            × (rows_of site q.1 ≡ rows_of site db ++ session_row site draws principal ∷ []))
          (issue_session site draws principal db)
  unfolding issue_session
  issue_session-rows draws principal db =
      Yields-bind _ _ _ λ secret. Yields-ok _ _ (refl, tables.sessions.rows-insert _ _)

  -- What an exchange has stored and returns.
  record IsExchanged (draws : Draws) (r : RefreshSession) (db : Db tables)
      (q : IssuedSession × Db tables) : Type 0 where
    principal : Principal
    unused : is_set r.revoked_at ≡ false
    token : q.0.refresh_token ≡ draws.token
    rows :
        rows_of site q.1
        ≡ exchanged_rows r.id draws.changed_at (session_row site draws principal) (rows_of site db)

  rotate-Yields :
      (draws : Draws) (r : RefreshSession) (db : Db tables)
      → session_by_hash (platform.sha256 draws.token) (rows_of site db) ≡ none
      → Yields (IsExchanged draws r db) (rotate site draws r db)
  unfolding rotate set_session record_audit session_by_hash
  rotate-Yields draws r db fresh = Yields-using _ _ _ _ (Yields-guard _ authentication) λ _ unused.
      Yields-bind _ _ _ λ user. Yields-bind _ _ _ λ _. Yields-bind _ _ _ λ membership.
        Yields-using _ _ _ _ (issue_session-rows draws _ _) λ q issued.
          let next = session_row site draws (principal_of user membership) in
          let rows : rows_of site q.1
              ≡ change_where (λ s. s.id == r.id) (revoked draws.changed_at) (rows_of site db)
                ++ next ∷ [] =
            issued.1 ∙ rw (tables.sessions.rows-update _ _ _) refl in
          let linked : session_by_hash (platform.sha256 draws.token) (rows_of site q.1)
              ≡ some next =
            rw rows (
              by_hash-next (platform.sha256 draws.token) r.id draws.changed_at (rows_of site db)
                next fresh (text_eq_refl (platform.sha256 draws.token))) in
          Yields-ok _ _ (record {
            principal = principal_of user membership;
            unused = ground (arith, unused);
            token = issued.0;
            rows = rw (tables.sessions.rows-update _ _ _, issued.0, linked, rows) refl;
          })

  replayed_fails :
      (draws : Draws) (r : RefreshSession) (result : Option (ℕ × Db tables)) (db : Db tables)
      (issued : IssuedSession)
      → (replayed site draws r result db).0 ≡ ok issued
      → ⊥
  unfolding replayed
  replayed_fails draws r none db issued e = cc
  replayed_fails draws r (some result) db issued e = cc

  refreshed-IsExchanged :
      (draws : Draws) (r : RefreshSession) (db : Db tables) (issued : IssuedSession)
      → session_by_hash (platform.sha256 draws.token) (rows_of site db) ≡ none
      → (refreshed site draws (some r) db).0 ≡ ok issued
      → IsExchanged draws r db (issued, (refreshed site draws (some r) db).1)
  unfolding refreshed
  refreshed-IsExchanged draws r db issued fresh done =
      elim (Bool-cases (is_set r.revoked_at && is_set r.replaced_by_session_id)) [
        | inl e ↦ absurd (replayed_fails draws r _ db issued (rw e at done))
        | inr e ↦ rw e (
            transact-ok (IsExchanged draws r db) db (rotate site draws r db) issued
              (rotate-Yields draws r db fresh) (rw e at done))
      ]

  -- A refresh whose new id and new token no other session has, with a token that finds a row that its id finds: if it is
  -- done, the old session was open and is revoked, its chain leads on to the new session, which is open, and the new
  -- token is the one that is returned.
  pub refresh_rotates :
      (draws : Draws) (token : Text) (db : Db tables) (r : RefreshSession) (issued : IssuedSession)
      → Presents site token db r
      → session_by_id draws.row_id (rows_of site db) ≡ none
      → session_by_hash (platform.sha256 draws.token) (rows_of site db) ≡ none
      → (refresh site draws token db).0 ≡ ok issued
      → let rows = rows_of site (refresh site draws token db).1 in
        (is_set r.revoked_at ≡ false)
        × (is_revoked rows r.id ≡ true)
        × (next_of rows r.id ≡ some draws.row_id)
        × (is_revoked rows draws.row_id ≡ false)
        × (issued.refresh_token ≡ draws.token)
  unfolding refresh is_revoked session_row
  refresh_rotates draws token db r issued presents new_id new_hash done =
      let stored = refreshed-IsExchanged draws r db issued new_hash (rw presents.by_hash at done) in
      let (gone, linked, next) =
        exchanged_rows-next draws.changed_at (rows_of site db) r
          (session_row site draws stored.principal) presents.by_id new_id refl in
      rw (presents.by_hash, stored.rows) (stored.unused, gone, linked, next, stored.token)
