-- ===== src/Service/Gate.antt =====
-- `SubscriptionRegistry`, `SlidingWindowQuota` and `verify_enterprise_subscription` of
-- services/graphrag-interceptor/graphrag_interceptor.py. Instants are in microseconds. The digest
-- of a key is a parameter.
use openontology.Prelude.{
  leb, if◌then◌else◌, length, is_empty, Result, ok, raise, eq_string, eq_pair, Text, codes, text_eq,
  eq_text, member, strip, ℕ, ◌+◌, ◌-◌, ◌/◌, max, Bool, not, Option, none, some, List, [], ◌∷◌, ◌++◌,
}
use openontology.OrderedDict.{Entries, get}
use openontology.Graph.Telemetry.{set_item}

pub record EnterpriseSubscription : Type 0 where
  pub key_id : Text
  pub key_digest : Text
  pub tenant : Text
  pub tier : Text
  pub quota_per_minute : ℕ
  pub expires_at : ℕ
  pub features : List Text

-- `EnterpriseSubscription.has_expired`
abbrev pub has_expired : ℕ → EnterpriseSubscription → Bool
has_expired now s = leb s.expires_at now

abbrev pub feature_graphrag : Text
feature_graphrag = codes "ai.graphrag.intercept"

-- `SubscriptionRegistry.__init__`
unfoldable pub by_digest :
    Entries Text EnterpriseSubscription
    → List EnterpriseSubscription
    → Entries Text EnterpriseSubscription
unfolding set_item
by_digest d [] = d
by_digest d (item ∷ items) = by_digest (set_item item.key_digest item d) items

abbrev pub confirmed : Text → Option EnterpriseSubscription → Option EnterpriseSubscription
confirmed presented none = none
confirmed presented (some record_) =
    if text_eq record_.key_digest presented then some record_ else none

-- `SubscriptionRegistry.lookup`
unfoldable pub lookup :
    (digest : Text → Text)
    → Entries Text EnterpriseSubscription
    → Text
    → Option EnterpriseSubscription
unfolding get
lookup digest registry key = confirmed (digest (strip key)) (get (digest (strip key)) registry)

pub record SlidingWindowQuota : Type 0 where
  pub window : ℕ
  pub hits : Entries Text (List ℕ)

-- `(allowed, remaining, retry_after)`, or an `IndexError` where a bucket is empty and the limit 0
pub data QuotaAnswer : Type 0 where
  allowed : (remaining : ℕ) → QuotaAnswer
  refused : (retry_after : ℕ) → QuotaAnswer
  index_error : QuotaAnswer

abbrev pub bucket_of : Option (List ℕ) → List ℕ
bucket_of none = []
bucket_of (some bucket) = bucket

-- `while bucket and bucket[0] <= cutoff: bucket.popleft()`
abbrev pub fresh : (window now : ℕ) → List ℕ → List ℕ
fresh window now [] = []
fresh window now (hit ∷ bucket) =
    let rest = fresh window now bucket in if leb (hit + window) now then rest else hit ∷ bucket

abbrev pub wait_for : (window now : ℕ) → List ℕ → QuotaAnswer
wait_for window now [] = index_error
wait_for window now (hit ∷ bucket) = refused (hit + window - now)

-- `SlidingWindowQuota.check`
unfoldable pub check_quota :
    Text → (limit now : ℕ) → SlidingWindowQuota → QuotaAnswer × SlidingWindowQuota
unfolding get set_item
check_quota key limit now q =
    let bucket = fresh q.window now (bucket_of (get key q.hits)) in
    if leb limit (length bucket)
    then (wait_for q.window now bucket, record q { hits = set_item key bucket q.hits })
    else (
      allowed (limit - (length bucket + 1)),
      record q { hits = set_item key (bucket ++ now ∷ []) q.hits },
    )

pub data SubscriptionError : Type 0 where
  license_key_missing license_key_invalid license_expired : SubscriptionError
  feature_not_licensed : SubscriptionError
  quota_exceeded : (retry_after_seconds : ℕ) → SubscriptionError
  internal_error : SubscriptionError

-- the HTTP status of an error
abbrev pub status_code : SubscriptionError → ℕ
status_code license_key_missing = 401
status_code license_key_invalid = 401
status_code license_expired = 402
status_code feature_not_licensed = 403
status_code (quota_exceeded retry_after) = 429
status_code internal_error = 500

abbrev pub stripped_or_empty : Option Text → Text
stripped_or_empty none = []
stripped_or_empty (some key) = strip key

abbrev pub or_bearer : Text → Text → Text
or_bearer [] bearer = bearer
or_bearer (c ∷ key) bearer = c ∷ key

-- the key that a request presents, in its licence header or as a bearer token
unfoldable pub presented_license : (license_key credentials : Option Text) → Text
presented_license license_key credentials =
    or_bearer (stripped_or_empty license_key) (stripped_or_empty credentials)

abbrev pub granted :
    EnterpriseSubscription
    → QuotaAnswer × SlidingWindowQuota
    → Result SubscriptionError EnterpriseSubscription × SlidingWindowQuota
granted s (allowed remaining, q) = (ok s, q)
granted s (refused retry_after, q) = (raise (quota_exceeded (max 1 (retry_after / 1000000 + 1))), q)
granted s (index_error, q) = (raise internal_error, q)

-- the clocks and the registry that a request meets
pub record LicensedRequest : Type 0 where
  pub license_key : Option Text
  pub credentials : Option Text
  pub registry : Entries Text EnterpriseSubscription
  pub monotonic : ℕ
  pub wall : ℕ

abbrev pub admitted :
    LicensedRequest
    → Option EnterpriseSubscription
    → SlidingWindowQuota
    → Result SubscriptionError EnterpriseSubscription × SlidingWindowQuota
admitted request none q = (raise license_key_invalid, q)
admitted request (some s) q =
    if has_expired request.wall s
    then (raise license_expired, q)
    else if not (member feature_graphrag s.features)
    then (raise feature_not_licensed, q)
    else granted s (check_quota s.key_id s.quota_per_minute request.monotonic q)

-- `verify_enterprise_subscription`
unfoldable pub verify_enterprise_subscription :
    (digest : Text → Text)
    → LicensedRequest
    → SlidingWindowQuota
    → Result SubscriptionError EnterpriseSubscription × SlidingWindowQuota
unfolding presented_license lookup check_quota strip
verify_enterprise_subscription digest request q =
    let presented = presented_license request.license_key request.credentials in
    if is_empty presented
    then (raise license_key_missing, q)
    else admitted request (lookup digest request.registry presented) q
