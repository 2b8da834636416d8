-- ===== src/RunStore/Quota.antt =====
-- The daily quota of an organization: how many of its requests are granted in a day.
use multi_agent_ai_analyst.Prelude.{
  All-mono, append-nil, Option-cases, ◌∙◌, inl, inr, Bool-cases, sym, ℕ, ◌+◌, ◌-◌, ◌≡◌, refl, Bool,
  true, false, List, [], ◌∷◌, first, min, count, filter, ltb, ◌==◌, ◌&&◌, if◌then◌else◌, arith,
  length,
}
use multi_agent_ai_analyst.RunStore.Rows.{DailyUsage, Tables, Db}
use multi_agent_ai_analyst.RunStore.{consume_daily_quota, ensure_usage_row, ensured, usage_of}
use multi_agent_ai_analyst.Database.{change_where}
use multi_agent_ai_analyst.Database.Queries.{
  change_where-none, All-filter, filter-append, filter-map, filter-pair,
}

-- A request: the organization and the day.
abbrev pub Request : Type 0
Request = ℕ × ℕ

abbrev pub is_for : (organization_id today : ℕ) → Request → Bool
is_for organization_id today request = request.0 == organization_id && request.1 == today

-- The day's count in the rows of one organization and day: no row counts none.
abbrev pub Spent : ℕ → List DailyUsage → Type 0
Spent n [] = n ≡ 0
Spent n (u ∷ []) = u.run_count ≡ n
Spent n (u ∷ v ∷ rest) = ⊥

module _ (t : Tables) (organization_id today : ℕ) where
  -- The requests of a list that are granted to one organization on one day.
  unfoldable pub granted : (limit : ℕ) → List Request → Db t → ℕ
  granted limit [] db = 0
  granted limit (request ∷ rest) db =
      let answer = consume_daily_quota t request.1 request.0 limit db in
      (if is_for organization_id today request && answer.0 then 1 else 0)
      + granted limit rest answer.1

  abbrev in_day : DailyUsage → Bool
  in_day u = u.organization_id == organization_id && u.usage_date == today

  abbrev zero_row : DailyUsage
  zero_row = record { organization_id = organization_id; usage_date = today; run_count = 0 }

  ensured_rows :
      (n : ℕ) (db : Db t) (us : List DailyUsage)
      → usage_of t organization_id today db ≡ us
      → Spent n us
      → (u : DailyUsage) × (u.run_count ≡ n)
        × (in_day u ≡ true)
        × (usage_of t organization_id today (ensure_usage_row t organization_id today db) ≡ u ∷ [])
  unfolding ensure_usage_row ensured usage_of filter
  ensured_rows n db [] e h = rw e (
      rw (t.usage.rows-insert zero_row db.usage) (
        rw (filter-append in_day (t.usage.rows db.usage) (zero_row ∷ []))
          (rw e (zero_row, sym h, ground arith, ground arith))))
  ensured_rows n db (u ∷ []) e h =
      rw e (u, h, (rw e at (All-filter in_day (t.usage.rows db.usage))).0, e)
  ensured_rows n db (u ∷ v ∷ rest) e h = absurd h

  abbrev is_below : (limit : ℕ) → DailyUsage → Bool
  is_below limit u =
      u.organization_id == organization_id && u.usage_date == today && ltb u.run_count limit

  abbrev counted : DailyUsage → DailyUsage
  counted u = record u { run_count = u.run_count + 1 }

  consume_granted :
      (limit : ℕ) (u : DailyUsage) (db : Db t)
      → filter (is_below limit) (t.usage.rows (ensure_usage_row t organization_id today db).usage)
        ≡ u ∷ []
      → let db' = ensure_usage_row t organization_id today db in
        consume_daily_quota t today organization_id limit db
        ≡ (true, record db' { usage = t.usage.update (is_below limit) counted db'.usage })
  unfolding consume_daily_quota
  consume_granted limit u db e = rw e refl

  consume_refused :
      (limit : ℕ) (db : Db t)
      → filter (is_below limit) (t.usage.rows (ensure_usage_row t organization_id today db).usage)
        ≡ []
      → consume_daily_quota t today organization_id limit db
        ≡ (false, ensure_usage_row t organization_id today db)
  unfolding consume_daily_quota
  consume_refused limit db e = rw e refl

  -- The change keeps every row's organization and day.
  rows-counted :
      (limit : ℕ) (p : DailyUsage → Bool) (s : t.usage.State)
      → ((u : DailyUsage) → p (counted u) ≡ p u)
      → filter p (t.usage.rows (t.usage.update (is_below limit) counted s))
        ≡ change_where (is_below limit) counted (filter p (t.usage.rows s))
  rows-counted limit p s same = rw (t.usage.rows-update (is_below limit) counted s) (
      filter-map p (λ u. if is_below limit u then counted u else u) (λ u. ground (arith, same u))
        (t.usage.rows s))

  -- The effect of one request on its own day.
  consume_own :
      (n limit : ℕ) (db : Db t)
      → Spent n (usage_of t organization_id today db)
      → let answer = consume_daily_quota t today organization_id limit db in
        (answer.0 ≡ ltb n limit)
        × Spent (n + (if ltb n limit then 1 else 0)) (usage_of t organization_id today answer.1)
  unfolding usage_of filter
  consume_own n limit db h =
      let one = ensured_rows n db (usage_of t organization_id today db) refl h in
      let below =
        filter-pair (λ u. u.organization_id == organization_id) (λ u. u.usage_date == today)
          (λ u. ltb u.run_count limit)
          (t.usage.rows (ensure_usage_row t organization_id today db).usage) in
      elim (Bool-cases (ltb n limit)) [
        | inl room ↦
            rw (consume_granted limit one.0 db (below ∙ (rw one.3 (ground (arith, one.1))))) (
              rw
                (rows-counted limit in_day (ensure_usage_row t organization_id today db).usage
                  (λ u. refl))
                (rw one.3 (ground arith, ground (arith, one.1, one.2))))
        | inr full ↦
            rw (consume_refused limit db (below ∙ rw one.3 (ground (arith, one.1))))
              (rw one.3 (ground arith, ground (arith, one.1)))
      ]

  -- Requests of another organization or day leave the rows of a day alone.
  module _ (o d : ℕ) (other : is_for o d (organization_id, today) ≡ false) where
    ensure_other :
        (db : Db t)
        → usage_of t o d (ensure_usage_row t organization_id today db) ≡ usage_of t o d db
    unfolding ensure_usage_row ensured usage_of filter
    ensure_other db = elim (Option-cases (first (usage_of t organization_id today db))) [
      | inl e ↦ rw e (
          rw (t.usage.rows-insert zero_row db.usage) (
            rw
              (filter-append (λ u. u.organization_id == o && u.usage_date == d)
                (t.usage.rows db.usage) (zero_row ∷ []))
              (rw other (append-nil _))))
      | inr found ↦ rw found.1 refl
    ]

    consume_other :
        (limit : ℕ) (db : Db t)
        → usage_of t o d (consume_daily_quota t today organization_id limit db).1
          ≡ usage_of t o d db
    unfolding consume_daily_quota usage_of
    consume_other limit db =
        let db' = ensure_usage_row t organization_id today db in
        elim (Bool-cases (length (filter (is_below limit) (t.usage.rows db'.usage)) == 0)) [
          | inl full ↦ rw full (ensure_other db)
          | inr room ↦ rw room (
              rw
                (rows-counted limit (λ u. u.organization_id == o && u.usage_date == d) db'.usage
                  (λ u. refl))
                (change_where-none (is_below limit) counted (usage_of t o d db') (
                    All-mono _ _ (usage_of t o d db') (λ u here. ground (arith, here, other))
                      (All-filter (λ u. u.organization_id == o && u.usage_date == d)
                        (t.usage.rows db'.usage)))
                  ∙ ensure_other db))
        ]

-- Of the requests for an organization on a day, among those for others and in any order, as many
-- are granted as the limit leaves room for: with n of the limit spent, the less of limit - n and
-- their number. The day has at most one row, which counts n.
pub granted-min :
    (t : Tables) (o d limit n : ℕ) (requests : List Request) (db : Db t)
    → Spent n (usage_of t o d db)
    → granted t o d limit requests db ≡ min (limit - n) (count (is_for o d) requests)
unfolding granted count
granted-min t o d limit n [] db h = omega arith
granted-min t o d limit n (request ∷ rest) db h = elim (Bool-cases (is_for o d request)) [
  | inl same ↦
      let own = consume_own t o d n limit db h in
      let later =
        granted-min t o d limit (n + (if ltb n limit then 1 else 0)) rest
          (consume_daily_quota t d o limit db).1 own.1 in
      let e0 : request.0 ≡ o = ground (arith, same) in
      let e1 : request.1 ≡ d = ground (arith, same) in
      rw same (rw e0 (rw e1 (rw own.0 (rw later (ground arith)))))
  | inr other ↦
      let stays = consume_other t request.0 request.1 o d other limit db in
      rw other (
        omega (
          arith,
          granted-min t o d limit n rest (consume_daily_quota t request.1 request.0 limit db).1
              (rw stays h),
        ))
]
