-- ===== src/Auth/Lineage.antt =====
-- The chain of sessions that each were exchanged for the next, and the loop that revokes it.
pub mod Rounds
pub mod Loop
use mathlib.Core.Option.{some-injective}
use multi_agent_ai_analyst.Prelude.{
  sym, ◌∙◌, ==_iff, ap, ℕ, zero, suc, ◌+◌, ◌-◌, ◌*◌, ◌/◌, ◌≤◌, ◌<◌, ◌≡◌, ◌≢◌, ◌⊎◌, inl, inr, refl,
  Bool, true, false, not, ◌&&◌, ◌||◌, List, [], ◌∷◌, Option, none, some, first, filter, any, count,
  length, map, arith, ◌==◌, if◌then◌else◌, Bool-cases, Option-cases,
}
use multi_agent_ai_analyst.Prelude.Text.{Text, codes, text_eq}
use multi_agent_ai_analyst.Database.{change_where}
use multi_agent_ai_analyst.Database.Queries.{first-map, filter-map}
use multi_agent_ai_analyst.Auth.Rows.{RefreshSession, Db}
use multi_agent_ai_analyst.Auth.Credentials.{Site, is_set}
use multi_agent_ai_analyst.Auth.Sessions.{
  session_by_id, revoked, set_session, successor, revoke, revoke_from, revoke_session_lineage,
}

abbrev pub follow : Option ℕ → List RefreshSession → Option ℕ
follow none rows = none
follow (some id) rows = elim (session_by_id id rows) [ none ↦ none | some r ↦ some id ]

-- The id of the session that a session was exchanged for.
unfoldable pub next_of : List RefreshSession → ℕ → Option ℕ
next_of rows id = elim (session_by_id id rows) [
  | none ↦ none
  | some r ↦ follow r.replaced_by_session_id rows
]

-- From one session the exchanges lead to another.
pub data Descends (next : ℕ → Option ℕ) : ℕ → ℕ → Type 0 where
  here : {a : ℕ} → Descends next a a
  exchanged : {a b c : ℕ} → next a ≡ some b → Descends next b c → Descends next a c

unfoldable pub is_revoked : List RefreshSession → ℕ → Bool
is_revoked rows id = elim (session_by_id id rows) [ none ↦ false | some r ↦ is_set r.revoked_at ]

abbrev changed : ℕ → ℕ → RefreshSession → RefreshSession
changed now id r = if r.id == id then revoked now r else r

pub by_id-revoked :
    (now id n : ℕ) (rows : List RefreshSession)
    → session_by_id n (change_where (λ r. r.id == id) (revoked now) rows)
      ≡ elim (session_by_id n rows) [ none ↦ none | some r ↦ some (changed now id r) ]
unfolding session_by_id
by_id-revoked now id n rows =
    rw
      (
        filter-map (λ r. r.id == n) (changed now id) (λ r. ground arith) rows,
        first-map (changed now id) (filter (λ r. r.id == n) rows),
      )
      refl

pub by_id-id :
    (n : ℕ) (rows : List RefreshSession) (r : RefreshSession)
    → session_by_id n rows ≡ some r
    → r.id ≡ n
unfolding session_by_id filter
by_id-id n [] r e = cc
by_id-id n (s ∷ rows) r e = ground (arith, by_id-id n rows r)

pub follow-revoked :
    (now id : ℕ) (o : Option ℕ) (rows : List RefreshSession)
    → follow o (change_where (λ r. r.id == id) (revoked now) rows) ≡ follow o rows
follow-revoked now id none rows = refl
follow-revoked now id (some n) rows =
    rw (follow, by_id-revoked now id n rows)
      (elim (Option-cases (session_by_id n rows)) [
        | inl e ↦ rw (follow, e) refl
        | inr (r, e) ↦ rw (follow, e) refl
      ])

pub next_of-revoked :
    (now id n : ℕ) (rows : List RefreshSession)
    → next_of (change_where (λ r. r.id == id) (revoked now) rows) n ≡ next_of rows n
unfolding next_of
next_of-revoked now id n rows =
    rw (next_of, by_id-revoked now id n rows)
      (elim (Option-cases (session_by_id n rows)) [
        | inl e ↦ rw (next_of, e) refl
        | inr (r, e) ↦
            rw (next_of, e) (ground (arith, follow-revoked now id r.replaced_by_session_id rows))
      ])

pub is_revoked-revoked :
    (now id n : ℕ) (rows : List RefreshSession)
    → is_revoked rows n ≡ true
      ⊎ ((n ≡ id) × (next : RefreshSession) × (session_by_id n rows ≡ some next))
    → is_revoked (change_where (λ r. r.id == id) (revoked now) rows) n ≡ true
unfolding is_revoked
is_revoked-revoked now id n rows h =
    rw (is_revoked, by_id-revoked now id n rows)
      (elim (Option-cases (session_by_id n rows)) [
        | inl e ↦ ground (arith, h, e)
        | inr (r, e) ↦ ground (arith, h, e, by_id-id n rows r e)
      ])

-- The rows of which the loop has not seen the id.
pub unseen : List ℕ → List RefreshSession → ℕ
unseen seen rows = count (λ r. not (any (λ id. id == r.id) seen)) rows

pub unseen-revoked :
    (now id : ℕ) (seen : List ℕ) (rows : List RefreshSession)
    → unseen seen (change_where (λ r. r.id == id) (revoked now) rows) ≡ unseen seen rows
unfolding unseen count
unseen-revoked now id seen [] = refl
unseen-revoked now id seen (r ∷ rows) = ground (arith, unseen-revoked now id seen rows)

unseen-le :
    (n : ℕ) (seen : List ℕ) (rows : List RefreshSession) → unseen (n ∷ seen) rows ≤ unseen seen rows
unfolding unseen count any
unseen-le n seen [] = omega arith
unseen-le n seen (r ∷ rows) = ground (arith, unseen-le n seen rows)

pub unseen-le-length : (seen : List ℕ) (rows : List RefreshSession) → unseen seen rows ≤ length rows
unfolding unseen count
unseen-le-length seen [] = omega arith
unseen-le-length seen (r ∷ rows) = ground (arith, unseen-le-length seen rows)

pub unseen-lt :
    (n : ℕ) (seen : List ℕ) (rows : List RefreshSession) (r : RefreshSession)
    → session_by_id n rows ≡ some r
    → any (λ id. id == n) seen ≡ false
    → unseen (n ∷ seen) rows < unseen seen rows
unfolding unseen count any session_by_id filter
unseen-lt n seen [] r e new = cc
unseen-lt n seen (s ∷ rows) r e new = elim (Bool-cases (s.id == n)) [
  | inl same ↦ ground (arith, unseen-le n seen rows, ==_iff s.id n, new)
  | inr other ↦ ground (arith, unseen-lt n seen rows r)
]

pub seen_start :
    (c a : ℕ) (seen : List ℕ)
    → (any (λ id. id == a) seen ≡ true) ⊎ (some c ≡ some a)
    → any (λ id. id == a) (c ∷ seen) ≡ true
unfolding any
seen_start c a seen (inl h) = ground (arith, h)
seen_start c a seen (inr h) = ground (arith, some-injective c a h)
