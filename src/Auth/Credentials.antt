-- ===== src/Auth/Credentials.antt =====
-- The checks of auth/service.py on addresses, names, passwords and settings, and what the service
-- takes from outside: hashes, signed tokens, the clock, new ids and secrets.
use multi_agent_ai_analyst.Prelude.{
  ℕ, Bool, true, false, not, ◌||◌, List, [], ◌∷◌, Option, none, some, Outcome, ok, raise, any,
  length, ltb, leb, ◌==◌, if◌then◌else◌,
}
use multi_agent_ai_analyst.Prelude.Text.{Text, codes, strip, split, join}
use multi_agent_ai_analyst.RunStore.Rows.{Ids}
use multi_agent_ai_analyst.Auth.Rows.{Tables, AuthError, value_error, authentication}

-- What `jwt.encode` signs: the claims that are text, and two times.
pub record Claims : Type 0 where
  pub texts : List (Text × Text)
  pub iat : ℕ
  pub exp : ℕ

-- `sha256` is the hex digest. `verify` is `none` where it raises, and `decode` where it raises a
-- `PyJWTError`: it checks the signature, the audience, the issuer and the times.
pub record Platform : Type 0 where
  pub casefold : Text → Text
  pub sha256 : Text → Text
  pub hash : (salt password : Text) → Text
  pub verify : (password password_hash : Text) → Option Bool
  pub encode : Claims → (secret algorithm : Text) → Text
  pub decode :
      (now : ℕ) (token secret algorithm audience issuer : Text) → Option (List (Text × Text))
  pub ids : Ids

pub record Settings : Type 0 where
  pub jwt_secret_key : Option Text
  pub jwt_algorithm : Text
  pub jwt_audience : Text
  pub jwt_issuer : Text
  pub access_token_expire_minutes : ℕ
  pub refresh_token_expire_days : ℕ
  pub invite_expire_hours : ℕ
  pub password_reset_expire_minutes : ℕ

pub record Site : Type 1 where
  pub tables : Tables
  pub platform : Platform
  pub settings : Settings

-- What one call draws: three readings of the clock in their order, the time of the database, an id
-- for each table, the salt of a password, and the results of `token_urlsafe`.
pub record Draws : Type 0 where
  pub checked_at : ℕ
  pub changed_at : ℕ
  pub issued_at : ℕ
  pub stored_at : ℕ
  pub organization_id : ℕ
  pub user_id : ℕ
  pub membership_id : ℕ
  pub row_id : ℕ
  pub audit_id : ℕ
  pub salt : Text
  pub jti : Text
  pub token : Text

abbrev pub is_blank : Text → Bool
is_blank [] = true
is_blank (c ∷ t) = false

abbrev pub is_set : Option ℕ → Bool
is_set none = false
is_set (some a) = true

-- `email.partition(c)`, which is `none` where the separator is missing
unfoldable pub partition : (c : ℕ) → Text → Option (Text × Text)
partition c [] = none
partition c (d ∷ s) =
    let rest = partition c s in
    if d == c then some ([], s) else elim rest [ none ↦ none | some (l, r) ↦ some (d ∷ l, r) ]

checked_email : Text → Option (Text × Text) → Outcome AuthError Text
checked_email email none = raise value_error
checked_email email (some (name, domain)) =
    if is_blank name
      || is_blank domain
      || any (λ c. c == b'@') domain
      || not (any (λ c. c == b'.') domain)
      || ltb 320 (length email)
    then raise value_error
    else ok email

unfoldable pub normalize_email : Platform → Text → Outcome AuthError Text
unfolding checked_email partition strip any
normalize_email platform value =
    let email = platform.casefold (strip value) in checked_email email (partition b'@' email)

unfoldable pub required_text : (maximum : ℕ) → Text → Outcome AuthError Text
unfolding split join
required_text maximum value =
    let normalized = join (codes " ") (split value) in
    if is_blank normalized || ltb maximum (length normalized)
    then raise value_error
    else ok normalized

unfoldable pub hash_password : Platform → (salt password : Text) → Outcome AuthError Text
hash_password platform salt password =
    if ltb (length password) 12 || ltb 256 (length password)
    then raise value_error
    else ok (platform.hash salt password)

unfoldable pub verify_password : Platform → (password password_hash : Text) → Bool
verify_password platform password password_hash = elim (platform.verify password password_hash) [
  | none ↦ false
  | some b ↦ b
]

unfoldable pub jwt_secret : Option Text → Outcome AuthError Text
jwt_secret none = raise authentication
jwt_secret (some []) = raise authentication
jwt_secret (some (c ∷ secret)) = ok (c ∷ secret)

-- `_is_expired`
abbrev pub is_expired : (now expires_at : ℕ) → Bool
is_expired now expires_at = leb expires_at now
