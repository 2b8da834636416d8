-- ===== src/Auth/Tests/Tokens.antt =====
-- Signed tokens for the tests: the two times, and the claims with a mark after each part. A character is
-- written as itself and two, a key ends in 0, and a value in 1.
use multi_agent_ai_analyst.Prelude.{
  append-nil, ℕ, zero, suc, ◌+◌, ◌≤◌, ◌≡◌, refl, Bool, true, false, ◌&&◌, List, [], ◌∷◌, ◌++◌, map,
  Option, none, some, arith, ltb, leb, if◌then◌else◌,
}
use multi_agent_ai_analyst.Prelude.Text.{Text, codes, lookup, text_eq, text_eq_refl}
use multi_agent_ai_analyst.Auth.Rows.{second}
use multi_agent_ai_analyst.Auth.Credentials.{Claims}

write_texts : List (Text × Text) → Text
write_texts [] = []
write_texts ((k, v) ∷ rest) =
    map (λ c. suc (suc c)) k ++ (0 ∷ (map (λ c. suc (suc c)) v ++ (1 ∷ write_texts rest)))

-- What has been read from the right: the text that is open, the value that waits for its key, and the pairs.
abbrev Reading : Type 0
Reading = Text × Option Text × List (Text × Text)

abbrev completed : Reading → List (Text × Text)
completed (open_text, none, pairs) = pairs
completed (open_text, some v, pairs) = (open_text, v) ∷ pairs

abbrev step : ℕ → Reading → Reading
step zero (open_text, pending, pairs) = ([], some open_text, pairs)
step (suc zero) r = ([], none, completed r)
step (suc (suc c)) (open_text, pending, pairs) = (c ∷ open_text, pending, pairs)

reading : Text → Reading
reading [] = ([], none, [])
reading (c ∷ s) = step c (reading s)

reading-append :
    (t rest : Text)
    → reading (map (λ c. suc (suc c)) t ++ rest) ≡ (let r = reading rest in (t ++ r.0, r.1, r.2))
unfolding reading
reading-append [] rest = refl
reading-append (c ∷ t) rest = rw (reading-append t rest) refl

completed-reading : (texts : List (Text × Text)) → completed (reading (write_texts texts)) ≡ texts
unfolding reading write_texts
completed-reading [] = refl
completed-reading ((k, v) ∷ rest) =
    rw
      (
        reading-append k (0 ∷ (map (λ c. suc (suc c)) v ++ (1 ∷ write_texts rest))),
        reading-append v (1 ∷ write_texts rest),
        completed-reading rest,
        append-nil k,
        append-nil v,
      )
      refl

abbrev has : Text → Text → List (Text × Text) → Bool
has key value texts = elim (lookup key texts) [ none ↦ false | some v ↦ text_eq v value ]

unfoldable pub encode : Claims → (secret algorithm : Text) → Text
unfolding write_texts
encode claims secret algorithm = claims.iat ∷ claims.exp ∷ write_texts claims.texts

unfoldable pub decode :
    (now : ℕ) (token secret algorithm audience issuer : Text) → Option (List (Text × Text))
unfolding reading
decode now (iat ∷ exp ∷ s) secret algorithm audience issuer =
    let texts = completed (reading s) in
    if leb iat now
      && ltb now exp
      && has (codes "aud") audience texts
      && has (codes "iss") issuer texts
    then some texts
    else none
decode now _ secret algorithm audience issuer = none

lookup-has :
    (key value : Text) (texts : List (Text × Text))
    → lookup key texts ≡ some value
    → has key value texts ≡ true
lookup-has key value texts e = rw (has, e) (text_eq_refl value)

pub decode-encode :
    (now : ℕ) (claims : Claims) (secret algorithm audience issuer : Text)
    → claims.iat ≤ now
    → now + second ≤ claims.exp
    → lookup (codes "aud") claims.texts ≡ some audience
    → lookup (codes "iss") claims.texts ≡ some issuer
    → decode now (encode claims secret algorithm) secret algorithm audience issuer
      ≡ some claims.texts
unfolding encode decode reading write_texts
decode-encode now claims secret algorithm audience issuer after before aud iss =
    rw
      (
        completed-reading claims.texts,
        lookup-has (codes "aud") audience claims.texts aud,
        lookup-has (codes "iss") issuer claims.texts iss,
      )
      (ground (arith, after, before))
