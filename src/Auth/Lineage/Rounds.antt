-- ===== src/Auth/Lineage/Rounds.antt =====
-- One round of the loop that revokes a chain of sessions, and what holds between the rounds.
use multi_agent_ai_analyst.Auth.Lineage.{
  follow, next_of, Descends, here, exchanged, is_revoked, by_id-revoked, by_id-id, follow-revoked,
  next_of-revoked, is_revoked-revoked, unseen, unseen-revoked,
}
use multi_agent_ai_analyst.Prelude.{
  ◌∙◌, ==_iff, ap, ℕ, ◌≡◌, ◌⊎◌, inl, inr, refl, true, false, List, ◌∷◌, Option, none, some, any,
  arith, ◌==◌, Bool-cases, Option-cases,
}
use multi_agent_ai_analyst.Auth.Rows.{RefreshSession, Db}
use multi_agent_ai_analyst.Auth.Credentials.{Site, is_set}
use multi_agent_ai_analyst.Auth.Sessions.{session_by_id, set_session, successor, revoke}

module _ (site : Site) where
  open site use {tables}

  abbrev pub rows_of : Db tables → List RefreshSession
  rows_of db = tables.sessions.rows db.sessions

  module _ (now : ℕ) (current : RefreshSession) (db : Db tables) where
    pub next_of-revoke :
        (n : ℕ) → next_of (rows_of (revoke site now current db)) n ≡ next_of (rows_of db) n
    unfolding revoke set_session
    next_of-revoke n = elim (Bool-cases (is_set current.revoked_at)) [
      | inl e ↦ rw e refl
      | inr e ↦
          rw (e, tables.sessions.rows-update _ _ _) (next_of-revoked now current.id n (rows_of db))
    ]

    follow-revoke :
        (o : Option ℕ) → follow o (rows_of (revoke site now current db)) ≡ follow o (rows_of db)
    unfolding revoke set_session
    follow-revoke o = elim (Bool-cases (is_set current.revoked_at)) [
      | inl e ↦ rw e refl
      | inr e ↦
          rw (e, tables.sessions.rows-update _ _ _) (follow-revoked now current.id o (rows_of db))
    ]

    pub unseen-revoke :
        (seen : List ℕ)
        → unseen seen (rows_of (revoke site now current db)) ≡ unseen seen (rows_of db)
    unfolding revoke set_session
    unseen-revoke seen = elim (Bool-cases (is_set current.revoked_at)) [
      | inl e ↦ rw e refl
      | inr e ↦
          rw (e, tables.sessions.rows-update _ _ _)
            (unseen-revoked now current.id seen (rows_of db))
    ]

    is_revoked-revoke :
        (n : ℕ)
        → session_by_id current.id (rows_of db) ≡ some current
        → (is_revoked (rows_of db) n ≡ true) ⊎ (n ≡ current.id)
        → is_revoked (rows_of (revoke site now current db)) n ≡ true
    unfolding revoke set_session is_revoked
    is_revoked-revoke n key h = elim (Bool-cases (is_set current.revoked_at)) [
      | inl e ↦ rw e (elim h [ inl was ↦ was | inr same ↦ rw (is_revoked, same, key) e ])
      | inr e ↦
          rw (e, tables.sessions.rows-update _ _ _)
            (is_revoked-revoked now current.id n (rows_of db)
              (elim h [ inl was ↦ inl was | inr same ↦ inr (same, current, rw same key) ]))
    ]

    pub by_id-revoke :
        (n : ℕ)
        → (n == current.id) ≡ false
        → session_by_id n (rows_of (revoke site now current db)) ≡ session_by_id n (rows_of db)
    unfolding revoke set_session
    by_id-revoke n other = elim (Bool-cases (is_set current.revoked_at)) [
      | inl e ↦ rw e refl
      | inr e ↦
          rw (e, tables.sessions.rows-update _ _ _, by_id-revoked now current.id n (rows_of db))
            (elim (Option-cases (session_by_id n (rows_of db))) [
              | inl g ↦ rw g refl
              | inr (r, g) ↦ rw g (ground (arith, by_id-id n (rows_of db) r g, other))
            ])
    ]

  abbrev pub id_of : Option RefreshSession → Option ℕ
  id_of none = none
  id_of (some r) = some r.id

  -- The loop is at a row of the table.
  abbrev pub IsRow : Option RefreshSession → Db tables → Type 0
  IsRow none db = Unit
  IsRow (some r) db = session_by_id r.id (rows_of db) ≡ some r

  pub successor-IsRow : (r : RefreshSession) (db : Db tables) → IsRow (successor site r db) db
  unfolding successor
  successor-IsRow r db = elim (Option-cases r.replaced_by_session_id) [
    | inl e ↦ rw e tt
    | inr (n, e) ↦ rw e (elim (Option-cases (session_by_id n (rows_of db))) [
      | inl g ↦ rw g tt
      | inr (s, g) ↦ rw g (cc (g, by_id-id n (rows_of db) s g))
    ])
  ]

  id_of-successor :
      (r : RefreshSession) (db : Db tables)
      → id_of (successor site r db) ≡ follow r.replaced_by_session_id (rows_of db)
  unfolding successor
  id_of-successor r db = elim (Option-cases r.replaced_by_session_id) [
    | inl e ↦ rw e refl
    | inr (n, e) ↦ rw e (elim (Option-cases (session_by_id n (rows_of db))) [
      | inl g ↦ rw (follow, g) refl
      | inr (s, g) ↦ rw (follow, g, by_id-id n (rows_of db) s g) refl
    ])
  ]

  -- Where the exchange of a row leads, before the row is revoked and after.
  pub id_of-successor-revoke :
      (now : ℕ) (r : RefreshSession) (db : Db tables)
      → session_by_id r.id (rows_of db) ≡ some r
      → id_of (successor site r (revoke site now r db)) ≡ next_of (rows_of db) r.id
  unfolding next_of
  id_of-successor-revoke now r db key =
      id_of-successor r (revoke site now r db)
      ∙ follow-revoke now r db r.replaced_by_session_id
      ∙ rw (next_of, key) refl

  -- What the loop has seen is revoked, and leads nowhere but to what it has seen or is at.
  pub record Progress (next : ℕ → Option ℕ) (seen : List ℕ) (at : Option ℕ) (db : Db tables)
      : Type 0 where
    pub follows : (a : ℕ) → next_of (rows_of db) a ≡ next a
    pub closed :
        (a b : ℕ)
        → any (λ id. id == a) seen ≡ true
        → next a ≡ some b
        → (any (λ id. id == b) seen ≡ true) ⊎ (at ≡ some b)
    pub gone : (a : ℕ) → any (λ id. id == a) seen ≡ true → is_revoked (rows_of db) a ≡ true

  closed-Descends :
      (next : ℕ → Option ℕ) (seen : List ℕ) (a b : ℕ)
      → ((x y : ℕ)
          → any (λ id. id == x) seen ≡ true
          → next x ≡ some y
          → any (λ id. id == y) seen ≡ true)
      → any (λ id. id == a) seen ≡ true
      → Descends next a b
      → any (λ id. id == b) seen ≡ true
  closed-Descends next seen a b closed i here = i
  closed-Descends next seen a b closed i (exchanged {b = m} e d) =
      closed-Descends next seen m b closed (closed a m i e) d

  pub Progress-step :
      (next : ℕ → Option ℕ) (seen : List ℕ) (now : ℕ) (current : RefreshSession) (db : Db tables)
      → session_by_id current.id (rows_of db) ≡ some current
      → Progress next seen (some current.id) db
      → let db' = revoke site now current db in
        Progress next (current.id ∷ seen) (id_of (successor site current db')) db'
  unfolding any
  Progress-step next seen now current db key p =
      let db' = revoke site now current db in
      let follows' : (a : ℕ) → next_of (rows_of db') a ≡ next a =
        λ a. next_of-revoke now current db a ∙ p.follows a in
      record {
        follows = follows';
        closed = λ a b i e. elim (Bool-cases (current.id == a)) [
          | inl same ↦ inr (
              id_of-successor-revoke now current db key
              ∙ p.follows current.id
              ∙ ap next (ground (arith, ==_iff current.id a, same))
              ∙ e)
          | inr other ↦ elim (p.closed a b (ground (arith, i, other)) e) [
            | inl in_seen ↦ inl (ground (arith, in_seen))
            | inr at ↦ inl (ground (arith, at))
          ]
        ];
        gone = λ a i. is_revoked-revoke now current db a key (elim (Bool-cases (current.id == a)) [
          | inl same ↦ inr (ground (arith, ==_iff current.id a, same))
          | inr other ↦ inl (p.gone a (ground (arith, i, other)))
        ]);
      }

  -- When the loop ends, what it has seen is closed under the exchanges.
  pub Progress-end :
      (next : ℕ → Option ℕ) (seen : List ℕ) (at : Option ℕ) (db : Db tables) (a b : ℕ)
      → Progress next seen at db
      → ((x : ℕ) → at ≡ some x → any (λ id. id == x) seen ≡ true)
      → (any (λ id. id == a) seen ≡ true) ⊎ (at ≡ some a)
      → Descends next a b
      → is_revoked (rows_of db) b ≡ true
  Progress-end next seen at db a b p over start d = p.gone b (
      closed-Descends next seen a b
        (λ x y i g. elim (p.closed x y i g) [ inl h ↦ h | inr h ↦ over y h ])
        (elim start [ inl h ↦ h | inr h ↦ over a h ]) d)
