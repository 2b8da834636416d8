-- ===== src/Api/Stream.antt =====
-- What a reader of the event stream gets.
use mathlib.Core.Path.{subst}
use multi_agent_ai_analyst.Prelude.{
  ℕ, zero, suc, ◌+◌, ◌≡◌, ◌⊎◌, inl, inr, refl, ap, sym, ◌∙◌, Bool, true, false, ◌&&◌, List, [], ◌∷◌,
  ◌++◌, append-nil, append_assoc, drop, length, All, arith, Bool-cases,
}
use multi_agent_ai_analyst.Database.Queries.{NumberedFrom, NumberedFrom-drop}
use multi_agent_ai_analyst.RunStore.Rows.{RunEvent, Db}
use multi_agent_ai_analyst.RunStore.{events_of, events_since, get_run}
use multi_agent_ai_analyst.RunStore.Changes.{Change, RespectsOwner, changes}
use multi_agent_ai_analyst.RunStore.Events.{
  IsHistory, Continues, changes-IsHistory, events_since-drop,
}
use multi_agent_ai_analyst.Api.Site.{Site}
use multi_agent_ai_analyst.Api.Runs.{
  End, drained, out_of_time, is_nil, is_over, last_sequence, event_stream,
}

last_sequence-NumberedFrom :
    (n : ℕ) (events : List RunEvent)
    → NumberedFrom (λ e. e.sequence) n events
    → last_sequence n events ≡ n + length events
unfolding last_sequence
last_sequence-NumberedFrom n [] h = omega arith
last_sequence-NumberedFrom n (e ∷ events) h =
    rw h.0 (last_sequence-NumberedFrom (n + 1) events h.1 ∙ omega arith)

-- What comes after some number, and then what comes after that too of a longer list, is all of it.
drop-resume {ℓ} :
    {A : Type ℓ} (n m : ℕ) (xs more : List A)
    → m ≡ n + length (drop n xs)
    → drop n xs ++ drop m (xs ++ more) ≡ drop n (xs ++ more)
drop-resume zero m [] more e = let same : m ≡ 0 = omega (arith, e) in rw same refl
drop-resume zero zero (x ∷ xs) more e = absurd (omega (arith, e))
drop-resume zero (suc m) (x ∷ xs) more e =
    ap (λ ys. x ∷ ys) (drop-resume zero m xs more (omega (arith, e)))
drop-resume (suc n) m [] more e = let same : m ≡ suc n = omega (arith, e) in rw same refl
drop-resume (suc n) zero (x ∷ xs) more e = absurd (omega (arith, e))
drop-resume (suc n) (suc m) (x ∷ xs) more e = drop-resume n m xs more (omega (arith, e))

both :
    (b : Bool) (events : List RunEvent) → (b && is_nil events) ≡ true → (b ≡ true) × ([] ≡ events)
both true [] e = (refl, refl)
both true (x ∷ events) e = cc
both false events e = cc

module _ (site : Site) (owner : ℕ → ℕ) (id : ℕ) where
  open site use {tables, ids}

  -- The tables at each read, which others change between the reads.
  unfoldable pub after : (ℕ → List Change) → Db tables → ℕ → Db tables
  unfolding changes
  after steps db zero = db
  after steps db (suc i) = after (λ j. steps (suc j)) (changes tables ids (steps 0) db) i

  abbrev pub history : Db tables → List RunEvent
  history db = events_of tables id db

  after-history :
      (steps : ℕ → List Change) (db : Db tables) (k : ℕ)
      → ((i : ℕ) → All (RespectsOwner owner) (steps i))
      → IsHistory owner id (history db)
      → Continues tables ids owner id (history db) (history (after steps db k))
  unfolding after Continues
  after-history steps db zero own h = ([], sym (append-nil _))
  after-history steps db (suc k) own h =
      let (h', continues) = changes-IsHistory tables ids owner id (steps 0) db (own 0) h in
      let (more, e) = continues in
      let (rest, f) =
        after-history (λ j. steps (suc j)) (changes tables ids (steps 0) db) k (λ i. own (suc i))
          h' in
      (more ++ rest, f ∙ (ap (λ xs. xs ++ rest) e ∙ append_assoc (history db) more rest))

  -- The first read of a round.
  abbrev pub read_of : ℕ → ℕ
  read_of zero = zero
  read_of (suc k) = suc (suc (read_of k))

  -- What a stream that ends at round `k` has sent: the events after the cursor, as they are at its first
  -- read; and at its second read the run is over, or the rounds are.
  abbrev pub Ends : (rounds cursor : ℕ) → (ℕ → Db tables) → List RunEvent × End → Type 0
  Ends rounds cursor dbs result =
      (k : ℕ) × (result.0 ≡ drop cursor (history (dbs (read_of k))))
      × (((result.1 ≡ drained)
            × (is_over (get_run tables (owner id) id (dbs (suc (read_of k)))) ≡ true))
          ⊎ ((result.1 ≡ out_of_time) × (k + 1 ≡ rounds)))

  abbrev nothing_left : (cursor : ℕ) (first_read second_read : Db tables) → Bool
  nothing_left cursor first_read second_read =
      is_over (get_run tables (owner id) id second_read)
      && is_nil (events_since tables (owner id) id cursor first_read)

  module _ (cursor : ℕ) (steps : ℕ → List Change) (db : Db tables)
      (h : IsHistory owner id (history db)) where
    got : events_since tables (owner id) id cursor db ≡ drop cursor (history db)
    got = events_since-drop tables ids owner id cursor db h

    -- A round that finds the run over and nothing new is the last.
    event_stream-over :
        (rounds : ℕ)
        → nothing_left cursor db (changes tables ids (steps 0) db) ≡ true
        → Ends
            (suc rounds)
            cursor
            (after steps db)
            (event_stream site (suc rounds) (owner id) id cursor (after steps db))
    unfolding event_stream after
    event_stream-over rounds e =
        let (over, none_new) = both _ _ e in rw e (0, none_new ∙ got, inl (refl, over))

    -- Any other round sends what is new, and the next round resumes after it.
    event_stream-resumes :
        (k : ℕ) (rest : List RunEvent)
        → ((i : ℕ) → All (RespectsOwner owner) (steps i))
        → rest
          ≡ drop
              (last_sequence cursor (events_since tables (owner id) id cursor db))
              (history (after steps db k))
        → events_since tables (owner id) id cursor db ++ rest
          ≡ drop cursor (history (after steps db k))
    unfolding Continues
    event_stream-resumes k rest own e =
        let (more, later) = after-history steps db k own h in
        let at : last_sequence cursor (events_since tables (owner id) id cursor db)
            ≡ cursor + length (drop cursor (history db)) =
          rw got (
            last_sequence-NumberedFrom cursor (drop cursor (history db)) (
              let start : 0 + cursor ≡ cursor = omega arith in
              subst (λ n. NumberedFrom (λ (e : RunEvent). e.sequence) n (drop cursor (history db)))
                start (NumberedFrom-drop (λ e. e.sequence) 0 cursor (history db) h.0))) in
        rw (e, at, got, later)
          (drop-resume cursor (cursor + length (drop cursor (history db))) (history db) more refl)

  -- A stream that is followed for at least one round sends the events of its run after the cursor, all of
  -- them and in order, as they are at the first read of its last round, and ends because the run is over
  -- at the second read or because its rounds are over; whatever changes others make between the reads.
  -- The changes leave each run with its organization, the run's events are numbered from one when the
  -- stream starts, and the stream asks in the run's own organization.
  pub event_stream-Ends :
      (rounds cursor : ℕ) (steps : ℕ → List Change) (db : Db tables)
      → ((i : ℕ) → All (RespectsOwner owner) (steps i))
      → IsHistory owner id (history db)
      → Ends
          (suc rounds)
          cursor
          (after steps db)
          (event_stream site (suc rounds) (owner id) id cursor (after steps db))
  unfolding event_stream after
  event_stream-Ends zero cursor steps db own h =
      elim (Bool-cases (nothing_left cursor db (changes tables ids (steps 0) db))) [
        | inl e ↦ event_stream-over cursor steps db h 0 e
        | inr e ↦ rw e (0, append-nil _ ∙ got cursor steps db h, inr (refl, refl))
      ]
  event_stream-Ends (suc rounds) cursor steps db own h =
      elim (Bool-cases (nothing_left cursor db (changes tables ids (steps 0) db))) [
        | inl e ↦ event_stream-over cursor steps db h (suc rounds) e
        | inr e ↦
            let (k, sent, end) =
              event_stream-Ends rounds
                (last_sequence cursor (events_since tables (owner id) id cursor db))
                (λ j. steps (suc (suc j)))
                (changes tables ids (steps 1) (changes tables ids (steps 0) db))
                (λ i. own (suc (suc i)))
                (changes-IsHistory tables ids owner id (steps 1) (changes tables ids (steps 0) db)
                  (own 1) (changes-IsHistory tables ids owner id (steps 0) db (own 0) h).0).0 in
            rw e (
              suc k,
              event_stream-resumes cursor steps db h (suc (suc (read_of k))) _ own sent,
              elim end [ inl f ↦ inl f | inr (late, last) ↦ inr (late, omega (arith, last)) ],
            )
      ]
