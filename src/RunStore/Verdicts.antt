-- ===== src/RunStore/Verdicts.antt =====
-- One verdict for each reader of a run, the last one.
use mathlib.Core.Path.{subst₂}
use multi_agent_ai_analyst.Prelude.{
  All-mono, Option-cases, ℕ, ◌≤◌, ◌≡◌, refl, Bool, true, false, List, [], ◌∷◌, Option, none, some,
  first, filter, map, ◌==◌, ◌&&◌, if◌then◌else◌, arith, length, Bool-cases, inl, inr, append-nil,
}
use multi_agent_ai_analyst.RunStore.Rows.{Run, Feedback, Tables, Db}
use multi_agent_ai_analyst.RunStore.{Text, record_feedback, store_feedback, feedback_of, same_user}
use multi_agent_ai_analyst.Database.Queries.{
  filter-append, filter-map, All-filter, change_where-none,
}

pub record Rating : Type 0 where
  pub run : Run
  pub user_id : Option ℕ
  pub approved : Bool
  pub comment : Option Text

abbrev pub said : Feedback → Bool × Option Text
said f = (f.approved, f.comment)

same_user_refl : (a : Option ℕ) → same_user a a ≡ true
same_user_refl none = refl
same_user_refl (some a) = ground arith

same_user_sym : (a b : Option ℕ) → same_user a b ≡ same_user b a
same_user_sym none none = refl
same_user_sym none (some b) = refl
same_user_sym (some a) none = refl
same_user_sym (some a) (some b) = ground arith

same_user→eq : (a b : Option ℕ) → same_user a b ≡ true → a ≡ b
same_user→eq none none h = refl
same_user→eq (some a) (some b) h = ground arith
same_user→eq none (some b) h = cc
same_user→eq (some a) none h = cc

abbrev pub is_by : (run_id : ℕ) → Option ℕ → Rating → Bool
is_by run_id user_id v = v.run.id == run_id && same_user v.user_id user_id

-- The verdicts that a reader has of a run after further ones: the last replaces any earlier.
unfoldable pub latest :
    (run_id : ℕ) → Option ℕ → List Rating → List (Bool × Option Text) → List (Bool × Option Text)
latest run_id user_id [] old = old
latest run_id user_id (v ∷ vs) old =
    latest run_id user_id vs (if is_by run_id user_id v then (v.approved, v.comment) ∷ [] else old)

module _ (t : Tables) where
  unfoldable pub record_all : List Rating → Db t → Db t
  record_all [] db = db
  record_all (v ∷ vs) db = record_all vs (record_feedback t v.run v.user_id v.approved v.comment db)

  module _ (v : Rating) where
    abbrev is_theirs : Feedback → Bool
    is_theirs f = f.run_id == v.run.id && same_user f.user_id v.user_id

    abbrev revised : Feedback → Feedback
    revised f = record f { approved = v.approved; comment = v.comment }

    record_own :
        (db : Db t) (old : List Feedback)
        → feedback_of t v.run.id v.user_id db ≡ old
        → length old ≤ 1
        → map said (
            feedback_of t v.run.id v.user_id
              (record_feedback t v.run v.user_id v.approved v.comment db))
          ≡ (v.approved, v.comment) ∷ []
    unfolding record_feedback store_feedback feedback_of filter
    record_own db [] e le = rw e (
        rw (t.feedback.rows-insert _ db.feedback) (
          rw (filter-append is_theirs (t.feedback.rows db.feedback) _)
            (rw e (ground (arith, same_user_refl v.user_id)))))
    record_own db (f ∷ []) e le = rw e (
        rw (t.feedback.rows-update is_theirs revised db.feedback) (
          rw
            (filter-map is_theirs (λ r. if is_theirs r then revised r else r) (λ r. ground arith)
              (t.feedback.rows db.feedback))
            (rw e
              (ground (arith, (rw e at (All-filter is_theirs (t.feedback.rows db.feedback))).0)))))
    record_own db (f ∷ g ∷ rest) e le = absurd (omega (arith, le))

    record_other :
        (run_id : ℕ) (user_id : Option ℕ) (db : Db t)
        → is_by run_id user_id v ≡ false
        → feedback_of t run_id user_id (record_feedback t v.run v.user_id v.approved v.comment db)
          ≡ feedback_of t run_id user_id db
    unfolding record_feedback store_feedback feedback_of filter
    record_other run_id user_id db other =
        let p = λ (f : Feedback). f.run_id == run_id && same_user f.user_id user_id in
        elim (Option-cases (first (feedback_of t v.run.id v.user_id db))) [
          | inl e ↦ rw e (
              rw (t.feedback.rows-insert _ db.feedback)
                (rw (filter-append p (t.feedback.rows db.feedback) _) (rw other (append-nil _))))
          | inr found ↦ rw found.1 (
              rw (t.feedback.rows-update is_theirs revised db.feedback) (
                rw
                  (filter-map p (λ r. if is_theirs r then revised r else r) (λ r. ground arith)
                    (t.feedback.rows db.feedback))
                  (change_where-none is_theirs revised (feedback_of t run_id user_id db) (
                    All-mono _ _ (feedback_of t run_id user_id db)
                      (λ f here. ground (
                        arith,
                        here,
                        other,
                        same_user→eq f.user_id user_id,
                        same_user_sym v.user_id user_id,
                      ))
                      (All-filter p (t.feedback.rows db.feedback))))))
        ]

length-one {ℓ κ} :
    {A : Type ℓ} {B : Type κ} (f : A → B) (xs : List A) (y : B) → map f xs ≡ y ∷ [] → length xs ≤ 1
length-one f [] y e = omega arith
length-one f (x ∷ []) y e = omega arith
length-one f (x ∷ z ∷ xs) y e = cc

-- After any list of verdicts, a reader has of a run the last one that the list has of it, or what
-- there was before. At most one row was there before.
pub record_all-latest :
    (t : Tables) (run_id : ℕ) (user_id : Option ℕ) (vs : List Rating) (db : Db t)
    → length (feedback_of t run_id user_id db) ≤ 1
    → map said (feedback_of t run_id user_id (record_all t vs db))
      ≡ latest run_id user_id vs (map said (feedback_of t run_id user_id db))
unfolding record_all latest
record_all-latest t run_id user_id [] db le = refl
record_all-latest t run_id user_id (v ∷ vs) db le = elim (Bool-cases (is_by run_id user_id v)) [
  | inl same ↦
      let e0 : v.run.id ≡ run_id = ground (arith, same) in
      let e1 : v.user_id ≡ user_id = same_user→eq v.user_id user_id (ground (arith, same)) in
      let after = record_feedback t v.run v.user_id v.approved v.comment db in
      let own =
        subst₂ (λ r u. map said (feedback_of t r u after) ≡ (v.approved, v.comment) ∷ []) e0 e1
          (record_own t v db (feedback_of t v.run.id v.user_id db) refl (rw (e0, e1) le)) in
      rw same (
        rw (← own) (
          record_all-latest t run_id user_id vs after
            (length-one said (feedback_of t run_id user_id after) (v.approved, v.comment) own)))
  | inr other ↦
      let stays = record_other t v run_id user_id db other in
      rw other (
        rw (← stays) (
          record_all-latest t run_id user_id vs
            (record_feedback t v.run v.user_id v.approved v.comment db) (rw stays le)))
]
