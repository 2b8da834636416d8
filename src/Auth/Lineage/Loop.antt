-- ===== src/Auth/Lineage/Loop.antt =====
-- The loop that revokes a chain of sessions ends, and revokes the chain and nothing else.
use multi_agent_ai_analyst.Auth.Lineage.Rounds.{
  rows_of, IsRow, id_of, unseen-revoke, next_of-revoke, by_id-revoke, successor-IsRow,
  id_of-successor-revoke, Progress, Progress-step, Progress-end,
}
use multi_agent_ai_analyst.Auth.Lineage.{
  next_of, Descends, here, exchanged, is_revoked, unseen, unseen-le-length, unseen-lt, seen_start,
}
use mathlib.Core.Option.{some-injective}
use multi_agent_ai_analyst.Prelude.{
  sym, ◌∙◌, ==_iff, ℕ, zero, suc, ◌+◌, ◌<◌, ◌≡◌, ◌⊎◌, inl, inr, refl, true, List, [], ◌∷◌, Option,
  none, some, any, length, arith, ◌==◌, Bool-cases,
}
use multi_agent_ai_analyst.Auth.Rows.{RefreshSession, Db}
use multi_agent_ai_analyst.Auth.Credentials.{Site}
use multi_agent_ai_analyst.Auth.Sessions.{
  session_by_id, successor, revoke, revoke_from, revoke_session_lineage,
}

module _ (site : Site) where
  open site use {tables}

  revoke_from_ends :
      (fuel now : ℕ) (seen : List ℕ) (total : ℕ) (current : Option RefreshSession) (db : Db tables)
      → IsRow site current db
      → unseen seen (rows_of site db) < fuel
      → (result : ℕ × Db tables) × (revoke_from site fuel now seen total current db ≡ some result)
  unfolding revoke_from
  revoke_from_ends fuel now seen total none db row enough = (_, refl)
  revoke_from_ends zero now seen total (some current) db row enough = absurd (omega arith)
  revoke_from_ends (suc fuel) now seen total (some current) db row enough =
      let db' = revoke site now current db in
      elim (Bool-cases (any (λ id. id == current.id) seen)) [
        | inl e ↦ rw e (_, refl)
        | inr e ↦ rw e (
            revoke_from_ends fuel now (current.id ∷ seen) _ (successor site current db') db'
              (successor-IsRow site current db')
              (rw (unseen-revoke site now current db (current.id ∷ seen))
                (omega (arith, unseen-lt current.id seen (rows_of site db) current row e))))
      ]

  revoke_from-Descends :
      (fuel now : ℕ) (seen : List ℕ) (total : ℕ) (current : Option RefreshSession) (db : Db tables)
      (result : ℕ × Db tables) (next : ℕ → Option ℕ) (a b : ℕ)
      → IsRow site current db
      → Progress site next seen (id_of site current) db
      → revoke_from site fuel now seen total current db ≡ some result
      → (any (λ id. id == a) seen ≡ true) ⊎ (id_of site current ≡ some a)
      → Descends next a b
      → is_revoked (rows_of site result.1) b ≡ true
  unfolding revoke_from
  revoke_from-Descends fuel now seen total none db result next a b row p e start d =
      rw (← some-injective _ _ e) (Progress-end site next seen none db a b p (λ x h. cc) start d)
  revoke_from-Descends zero now seen total (some current) db result next a b row p e start d = cc
  revoke_from-Descends (suc fuel) now seen total (some current) db result next a b row p e start d =
      let db' = revoke site now current db in
      elim (Bool-cases (any (λ id. id == current.id) seen)) [
        | inl found ↦ rw (← some-injective _ _ (rw found at e)) (
            Progress-end site next seen (some current.id) db a b p
              (λ x h. rw (← some-injective _ _ h) found) start d)
        | inr new ↦
            revoke_from-Descends fuel now (current.id ∷ seen) _ (successor site current db') db'
              result next a b (successor-IsRow site current db')
              (Progress-step site next seen now current db row p) (rw new at e)
              (inl (seen_start current.id a seen start)) d
      ]

  -- A session that the chain does not reach keeps its row.
  revoke_from-others :
      (fuel now : ℕ) (seen : List ℕ) (total : ℕ) (current : Option RefreshSession) (db : Db tables)
      (result : ℕ × Db tables) (next : ℕ → Option ℕ) (b : ℕ)
      → IsRow site current db
      → ((a : ℕ) → next_of (rows_of site db) a ≡ next a)
      → ((a : ℕ) → id_of site current ≡ some a → Descends next a b → ⊥)
      → revoke_from site fuel now seen total current db ≡ some result
      → session_by_id b (rows_of site result.1) ≡ session_by_id b (rows_of site db)
  unfolding revoke_from
  revoke_from-others fuel now seen total none db result next b row same apart e =
      rw (← some-injective _ _ e) refl
  revoke_from-others zero now seen total (some current) db result next b row same apart e = cc
  revoke_from-others (suc fuel) now seen total (some current) db result next b row same apart e =
      let db' = revoke site now current db in
      elim (Bool-cases (any (λ id. id == current.id) seen)) [
        | inl found ↦ rw (← some-injective _ _ (rw found at e)) refl
        | inr new ↦
            revoke_from-others fuel now (current.id ∷ seen) _ (successor site current db') db'
              result next b (successor-IsRow site current db')
              (λ a. next_of-revoke site now current db a ∙ same a)
              (λ a at d. apart current.id refl (
                exchanged
                  (sym (same current.id)
                    ∙ sym (id_of-successor-revoke site now current db row)
                    ∙ at)
                  d))
              (rw new at e)
            ∙ by_id-revoke site now current db b (elim (Bool-cases (b == current.id)) [
              | inl at ↦ absurd (apart b (ground (arith, ==_iff b current.id, at)) here)
              | inr other ↦ other
            ])
      ]

  module _ (now : ℕ) (r : RefreshSession) (db : Db tables)
      (key : session_by_id r.id (rows_of site db) ≡ some r) where
    -- Whatever the exchanges of the sessions are, cycles included, the loop ends within a round for each
    -- row and one more, where the loop starts at a row of the table.
    pub revoke_session_lineage_ends :
        (result : ℕ × Db tables) × (revoke_session_lineage site now r db ≡ some result)
    unfolding revoke_session_lineage
    revoke_session_lineage_ends =
        revoke_from_ends (length (rows_of site db) + 1) now [] 0 (some r) db key
          (omega (arith, unseen-le-length [] (rows_of site db)))

    module _ (result : ℕ × Db tables) (b : ℕ)
        (e : revoke_session_lineage site now r db ≡ some result) where
      pub revoke_session_lineage-Descends :
          Descends (next_of (rows_of site db)) r.id b → is_revoked (rows_of site result.1) b ≡ true
      unfolding revoke_session_lineage any
      revoke_session_lineage-Descends d =
          revoke_from-Descends (length (rows_of site db) + 1) now [] 0 (some r) db result
            (next_of (rows_of site db)) r.id b key
            (record { follows = λ a. refl; closed = λ x y h. cc; gone = λ x h. cc }) e (inr refl) d

      pub revoke_session_lineage-others :
          (Descends (next_of (rows_of site db)) r.id b → ⊥)
          → session_by_id b (rows_of site result.1) ≡ session_by_id b (rows_of site db)
      unfolding revoke_session_lineage
      revoke_session_lineage-others apart =
          revoke_from-others (length (rows_of site db) + 1) now [] 0 (some r) db result
            (next_of (rows_of site db)) b key (λ a. refl)
            (λ a at d. apart (rw (some-injective _ _ at) d)) e
