-- ===== src/Auth/Replay.antt =====
-- A refresh token that was rotated away is presented again.
use multi_agent_ai_analyst.Auth.Lineage.Loop.{
  revoke_session_lineage_ends, revoke_session_lineage-Descends, revoke_session_lineage-others,
}
use multi_agent_ai_analyst.Prelude.{
  inr, inl, ℕ, ◌≡◌, refl, Bool, true, List, [], ◌∷◌, ◌++◌, Option, none, some, filter, raise, arith,
  ◌==◌, if◌then◌else◌, Bool-cases, Option-cases,
}
use multi_agent_ai_analyst.Prelude.Text.{Text}
use multi_agent_ai_analyst.Database.{change_where}
use multi_agent_ai_analyst.Database.Queries.{first-map, filter-map}
use multi_agent_ai_analyst.Auth.Rows.{RefreshSession, Db, authentication}
use multi_agent_ai_analyst.Auth.Credentials.{Site, Draws, is_set}
use multi_agent_ai_analyst.Auth.Transactions.{◌>>=◌, transact}
use multi_agent_ai_analyst.Auth.Sessions.{
  revoke_session_lineage, record_audit, session_by_id, session_by_hash, revoked, replace_by,
}
use multi_agent_ai_analyst.Auth.Login.{refresh, refreshed, replayed, rotate}
use multi_agent_ai_analyst.Auth.Lineage.{is_revoked, next_of, Descends}
use multi_agent_ai_analyst.Auth.Lineage.Rounds.{rows_of}
use multi_agent_ai_analyst.Auth.Calls.{Call, perform, perform_all}
use multi_agent_ai_analyst.Auth.Changes.{Steps, stay, opened, closed, linked, perform-Steps}

pub by_id-append :
    (n : ℕ) (rows : List RefreshSession) (s r : RefreshSession)
    → session_by_id n rows ≡ some s
    → session_by_id n (rows ++ r ∷ []) ≡ some s
unfolding session_by_id filter
by_id-append n [] s r e = cc
by_id-append n (t ∷ rows) s r e = ground (arith, by_id-append n rows s r)

-- An update that keeps the ids changes the row that an id finds.
pub by_id-change :
    (n : ℕ) (p : RefreshSession → Bool) (f : RefreshSession → RefreshSession)
    (rows : List RefreshSession)
    → ((r : RefreshSession) → (f r).id ≡ r.id)
    → session_by_id n (change_where p f rows)
      ≡ elim (session_by_id n rows) [ none ↦ none | some r ↦ some (if p r then f r else r) ]
unfolding session_by_id
by_id-change n p f rows same =
    rw
      (
        filter-map (λ r. r.id == n) (λ r. if p r then f r else r) (λ r. ground (arith, same r))
            rows,
        first-map (λ r. if p r then f r else r) (filter (λ r. r.id == n) rows),
      )
      refl

is_revoked-change :
    (n : ℕ) (p : RefreshSession → Bool) (f : RefreshSession → RefreshSession)
    (rows : List RefreshSession)
    → ((r : RefreshSession) → (f r).id ≡ r.id)
    → ((r : RefreshSession) → is_set r.revoked_at ≡ true → is_set (f r).revoked_at ≡ true)
    → is_revoked rows n ≡ true
    → is_revoked (change_where p f rows) n ≡ true
unfolding is_revoked
is_revoked-change n p f rows same kept h =
    rw (is_revoked, by_id-change n p f rows same)
      (elim (Option-cases (session_by_id n rows)) [
        | inl e ↦ ground (arith, h, e)
        | inr (r, e) ↦ ground (arith, h, e, kept r)
      ])

replace_by-id : (o : Option RefreshSession) (r : RefreshSession) → (replace_by o r).id ≡ r.id
replace_by-id none r = refl
replace_by-id (some s) r = refl

replace_by-revoked_at :
    (o : Option RefreshSession) (r : RefreshSession) → (replace_by o r).revoked_at ≡ r.revoked_at
replace_by-revoked_at none r = refl
replace_by-revoked_at (some s) r = refl

is_revoked-Steps :
    (n : ℕ) (from rows : List RefreshSession)
    → Steps from rows
    → is_revoked from n ≡ true
    → is_revoked rows n ≡ true
unfolding is_revoked
is_revoked-Steps n from _ stay h = h
is_revoked-Steps n from _ (opened {rows} r s) h =
    let before = is_revoked-Steps n from rows s h in
    elim (Option-cases (session_by_id n rows)) [
      | inl e ↦ absurd (ground (arith, before, e))
      | inr (q, e) ↦ rw (is_revoked, by_id-append n rows q r e) (ground (arith, before, e))
    ]
is_revoked-Steps n from _ (closed {rows} p now s) h =
    is_revoked-change n p (revoked now) rows (λ r. refl) (λ r g. refl)
      (is_revoked-Steps n from rows s h)
is_revoked-Steps n from _ (linked {rows} p o s) h =
    is_revoked-change n p (replace_by o) rows (replace_by-id o)
      (λ r g. rw (replace_by-revoked_at o r) g) (is_revoked-Steps n from rows s h)

revoked_row :
    (rows : List RefreshSession) (s : RefreshSession)
    → session_by_id s.id rows ≡ some s
    → is_revoked rows s.id ≡ true
    → is_set s.revoked_at ≡ true
unfolding is_revoked
revoked_row rows s e h = ground (arith, e, h)

module _ (site : Site) where
  open site use {tables, platform}

  is_revoked-perform_all :
      (n : ℕ) (calls : List Call) (db : Db tables)
      → is_revoked (rows_of site db) n ≡ true
      → is_revoked (rows_of site (perform_all site calls db)) n ≡ true
  unfolding perform_all
  is_revoked-perform_all n [] db h = h
  is_revoked-perform_all n (call ∷ calls) db h =
      is_revoked-perform_all n calls (perform site call db)
        (is_revoked-Steps n _ _ (perform-Steps site call db) h)

  -- The row that a token finds, under the primary key.
  pub record Presents (token : Text) (db : Db tables) (r : RefreshSession) : Type 0 where
    pub by_hash : session_by_hash (platform.sha256 token) (rows_of site db) ≡ some r
    pub by_id : session_by_id r.id (rows_of site db) ≡ some r

  -- The token was exchanged for another one.
  pub record IsRotated (r : RefreshSession) : Type 0 where
    pub revoked : is_set r.revoked_at ≡ true
    pub replaced : is_set r.replaced_by_session_id ≡ true

  module _ (draws : Draws) (token : Text) (db : Db tables) (r : RefreshSession)
      (presents : Presents token db r) where
    refresh-IsRotated :
        (result : ℕ × Db tables)
        → IsRotated r
        → revoke_session_lineage site draws.changed_at r db ≡ some result
        → ((refresh site draws token db).0 ≡ raise authentication)
          × (rows_of site (refresh site draws token db).1 ≡ rows_of site result.1)
    unfolding refresh refreshed replayed record_audit
    refresh-IsRotated result rotated e =
        rw (presents.by_hash, rotated.revoked, rotated.replaced, e) (refl, refl)

    refresh-revoked :
        is_set r.revoked_at ≡ true → (refresh site draws token db).0 ≡ raise authentication
    unfolding refresh refreshed replayed rotate transact ◌>>=◌
    refresh-revoked h = elim (Bool-cases (is_set r.replaced_by_session_id)) [
      | inl e ↦
          let (result, ends) =
            revoke_session_lineage_ends site draws.changed_at r db presents.by_id in
          (refresh-IsRotated result (record { revoked = h; replaced = e }) ends).0
      | inr e ↦ rw (presents.by_hash, h, e) refl
    ]

  module _ (draws : Draws) (token : Text) (db : Db tables) (r : RefreshSession)
      (presents : Presents token db r) (b : ℕ) (rotated : IsRotated r) where
    -- The replay of a rotated token raises, and after any later calls a refresh with a token of its
    -- session, or of one that the exchanges lead to from it, raises too. Both tokens find a row
    -- that its id finds.
    pub refresh-replay :
        (calls : List Call) (draws' : Draws) (token' : Text) (s : RefreshSession)
        → Descends (next_of (rows_of site db)) r.id b
        → Presents token' (perform_all site calls (refresh site draws token db).1) s
        → s.id ≡ b
        → ((refresh site draws token db).0 ≡ raise authentication)
          × ((refresh site draws' token' (perform_all site calls (refresh site draws token db).1)).0
              ≡ raise authentication)
    refresh-replay calls draws' token' s d presents' same =
        let (result, ends) =
          revoke_session_lineage_ends site draws.changed_at r db presents.by_id in
        let (refused, rows) = refresh-IsRotated draws token db r presents result rotated ends in
        let later = perform_all site calls (refresh site draws token db).1 in
        let gone : is_revoked (rows_of site later) b ≡ true =
          is_revoked-perform_all b calls (refresh site draws token db).1 (
            rw rows (
              revoke_session_lineage-Descends site draws.changed_at r db presents.by_id result b
                ends d)) in
        (
          refused,
          refresh-revoked draws' token' later s presents'
              (revoked_row _ s presents'.by_id (rw same gone)),
        )

    -- The replay of a rotated token, which finds a row that its id finds, leaves every session that the
    -- exchanges do not lead to from it as it was.
    pub refresh-replay_others :
        (Descends (next_of (rows_of site db)) r.id b → ⊥)
        → session_by_id b (rows_of site (refresh site draws token db).1)
          ≡ session_by_id b (rows_of site db)
    refresh-replay_others apart =
        let (result, ends) =
          revoke_session_lineage_ends site draws.changed_at r db presents.by_id in
        rw (refresh-IsRotated draws token db r presents result rotated ends).1 (
          revoke_session_lineage-others site draws.changed_at r db presents.by_id result b ends
            apart)
