-- ===== src/Middleware.antt =====
-- `LicenseKeyMiddleware` of services/ai-interceptor/app/security.py with its `License` and its
-- registry. The limiter is the one of Quota.antt. Times are counted in ticks, `second` of them to
-- a second; `call_next`, which the framework hands over, is a parameter, and so is the digest.
pub mod Decisions
pub mod Throughput
pub mod Patience
use openontology.Prelude.{
  string_ne, All-map, Extends, Extends-refl, Extends-trans, Logged, Logged-Extends, Logged-append,
  replicate, replicate-snoc, NoneType, ok_inj, >>=-eq-ok, decimal, decimal_inj, IsDigit,
  decimal-IsDigit, ltb, leb, ◌==◌, if◌then◌else◌, ltb→lt, lt→ltb, leb→le, le→leb, ==_iff,
  Bool-cases, Option-cases, some_inj, length, take, is_empty, any, all, keep, length-append,
  length-take, length-keep-le, All, All-append, All-take, Result, ok, raise, ◌>>=◌, Result-cases,
  Eq, eq_string, eq_pair, string_beq_iff, pair_beq_iff, pair_beq, Text, codes, text_eq,
  text_eq_sound, text_eq_complete, text_eq_refl, text_eq_iff, eq_text, is_space, lstrip,
  rstrip_onto, rstrip, upper_char, find, member, find-All, lower_char, has_prefix, onto_first,
  split_on, strip, upper, lower, replace_char, rstrip_char, ℕ, zero, suc, ◌+◌, ◌-◌, ◌*◌, ◌/◌, ◌%◌,
  ◌^◌, ◌≤◌, ◌<◌, min, max, String, ◌≡◌, refl, sym, ap, ◌∙◌, subst, ◌≢◌, ◌↔◌, ◌⊎◌, inl, inr, Bool,
  true, false, not, ◌&&◌, ◌||◌, Option, none, some, List, [], ◌∷◌, ◌++◌, map, arith, string_eq,
}
use openontology.OrderedDict.{Entries, get, put_last}
use openontology.Quota.{CheckError, Verdict, check}

pub record License : Type 0 where
  pub key_id : String
  pub key_digest : String
  pub tenant : Text
  pub tier : Text
  pub quota_per_minute : ℕ
  pub expires_at : ℕ
  pub features : List Text

-- `License.is_expired`
unfoldable pub is_expired : License → ℕ → Bool
is_expired l now = leb l.expires_at now

-- `License.has`
unfoldable pub has : License → Text → Bool
has l feature = member feature l.features

-- `self._by_digest`; its order is never read.
abbrev pub LicenseRegistry : Type 0
LicenseRegistry = Entries String License

-- `{lic.key_digest: lic for lic in licenses}`
abbrev pub register : LicenseRegistry → List License → LicenseRegistry
register by_digest [] = by_digest
register by_digest (l ∷ licenses) = register (put_last l.key_digest l by_digest) licenses

-- the confirming `compare_digest`
abbrev pub confirm : String → Option License → Option License
confirm presented none = none
confirm presented (some record_) =
    if string_eq record_.key_digest presented then some record_ else none

-- `LicenseRegistry.lookup`, on the digest of the key
unfoldable pub lookup : LicenseRegistry → String → Option License
lookup by_digest presented = confirm presented (get presented by_digest)

-- What the middleware reads of a request: its path and two of its headers.
pub record Request : Type 0 where
  pub path : Text
  pub license_header : Option Text
  pub authorization : Option Text

-- the codes of `_reject`
pub data Rejection : Type 0 where
  license_key_missing license_key_invalid license_expired : Rejection
  feature_not_licensed quota_exceeded : Rejection

-- the first argument of `_reject` at each code
abbrev pub status_code : Rejection → ℕ
status_code license_key_missing = 401
status_code license_key_invalid = 401
status_code license_expired = 402
status_code feature_not_licensed = 403
status_code quota_exceeded = 429

-- What the middleware adds to a response: the headers on the quota and the tier.
pub record Metered : Type 0 where
  pub limit : ℕ
  pub remaining : ℕ
  pub license_tier : Text

-- A response of the middleware: its own refusal, with `Retry-After` where it has that header, or
-- the one of the application.
pub data Response (R : Type 0) : Type 0 where
  rejected : (code : Rejection) → (retry_after : Option ℕ) → Response R
  answered : (response : R) → (headers : Option Metered) → Response R

-- `authorization.partition(" ")`, without the separator
unfoldable pub partition : Text → Text × Text
partition [] = ([], [])
partition (c ∷ s) =
    let (scheme, credentials) = partition s in
    if c == b' ' then ([], s) else (c ∷ scheme, credentials)

-- the second half of `_extract_key`, on `request.headers.get("Authorization", "")`
unfoldable pub bearer : Text → Option Text
unfolding partition
bearer authorization =
    let (scheme, credentials) = partition authorization in
    if text_eq (lower scheme) (codes "bearer") && not (is_empty (strip credentials))
    then some (strip credentials)
    else none

abbrev pub or_blank : Option Text → Text
or_blank none = []
or_blank (some t) = t

-- `_extract_key`
unfoldable pub extract_key : Request → Option Text
unfolding bearer
extract_key request =
    if not (is_empty (strip (or_blank request.license_header)))
    then some (strip (or_blank request.license_header))
    else bearer (or_blank request.authorization)

-- `LICENSE_REJECTIONS` and `QUOTA_DECISIONS`, as the labels of their increments, newest first;
-- the limiter's deques and the state of the application
pub record State (S : Type 0) : Type 0 where
  pub hits : Entries String (List ℕ)
  pub license_rejections : List Rejection
  pub quota_decisions : List (Text × Bool)
  pub app : S

module _ {S R : Type 0} where
  -- `_reject`
  unfoldable pub reject : Rejection → Option ℕ → State S → Result CheckError (Response R) × State S
  reject code retry_after st = (
    ok (rejected code retry_after),
    record st { license_rejections = code ∷ st.license_rejections },
  )

pub record LicenseKeyMiddleware (S R : Type 0) : Type 0 where
  pub registry : LicenseRegistry
  pub exempt : List Text
  pub feature_by_prefix : List (Text × Text)
  pub window : ℕ
  pub second : ℕ
  -- the hex digest of a text's UTF-8 bytes
  pub sha256 : Text → String
  -- the wall clock at a time of the monotonic clock
  pub wall : ℕ → ℕ
  -- the application, with `request.state.license` where it was set
  pub call_next : Option License → Request → S → R × S

module _ {S R : Type 0} (m : LicenseKeyMiddleware S R) where
  -- `digest`
  abbrev pub digest : Text → String
  digest key = m.sha256 (strip key)

  -- `_is_exempt`
  unfoldable pub is_exempt : Text → Bool
  is_exempt path = member path m.exempt

  abbrev pub feature_in : Text → List (Text × Text) → Option Text
  feature_in path [] = none
  feature_in path ((prefix, feature) ∷ table) =
      let later = feature_in path table in if has_prefix path prefix then some feature else later

  -- `_required_feature`
  unfoldable pub required_feature : Text → Option Text
  required_feature path = feature_in path m.feature_by_prefix

  -- `required_feature and not license_record.has(required_feature)`, negated
  unfoldable pub entitled : License → Option Text → Bool
  unfolding has
  entitled l none = true
  entitled l (some feature) = is_empty feature || has l feature

  -- `call_next`, and the headers that the middleware adds
  unfoldable pub forward :
      Option License → Option Metered → Request → State S → Result CheckError (Response R) × State S
  forward license headers request st =
      let (response, app) = m.call_next license request st.app in
      (ok (answered response headers), record st { app = app })

  -- what follows the limiter's verdict
  unfoldable pub after_check :
      License
      → Request
      → Result CheckError Verdict
      → State S
      → Result CheckError (Response R) × State S
  unfolding forward reject
  after_check l request (raise e) st = (raise e, st)
  after_check l request (ok verdict) st =
      let counted = record st {
        quota_decisions = (l.tier, verdict.allowed) ∷ st.quota_decisions;
      } in
      if verdict.allowed
      then forward (some l)
          (some (record {
            limit = l.quota_per_minute;
            remaining = verdict.remaining;
            license_tier = l.tier;
          }))
          request counted
      else reject quota_exceeded (some (max 1 (verdict.retry_after / m.second + 1))) counted

  -- the call of the limiter
  unfoldable pub meter : ℕ → License → Request → State S → Result CheckError (Response R) × State S
  unfolding after_check
  meter now l request st =
      let (verdict, hits) = check m.window now l.key_id l.quota_per_minute st.hits in
      after_check l request verdict (record st { hits = hits })

  -- the checks on the licence
  unfoldable pub admit :
      ℕ → Option License → Request → State S → Result CheckError (Response R) × State S
  unfolding meter reject is_expired entitled required_feature
  admit now none request st = reject license_key_invalid none st
  admit now (some l) request st =
      if is_expired l (m.wall now)
      then reject license_expired none st
      else if not (entitled l (required_feature request.path))
      then reject feature_not_licensed none st
      else meter now l request st

  -- the checks on the key
  unfoldable pub authenticate :
      ℕ → Option Text → Request → State S → Result CheckError (Response R) × State S
  unfolding admit reject lookup
  authenticate now none request st = reject license_key_missing none st
  authenticate now (some presented) request st =
      admit now (lookup m.registry (digest presented)) request st

  -- `dispatch`
  unfoldable pub dispatch : ℕ → Request → State S → Result CheckError (Response R) × State S
  unfolding is_exempt forward authenticate extract_key
  dispatch now request st =
      if is_exempt request.path
      then forward none none request st
      else authenticate now (extract_key request) request st
