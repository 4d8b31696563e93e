-- ===== src/Service/Admission.antt =====
-- Whom the gate of the paid endpoint admits.
use openontology.Prelude.{eq_string, eq_pair, eq_text, member, ℕ, ◌<◌, ◌≡◌, true}
use openontology.Service.Gate.{
  EnterpriseSubscription, SlidingWindowQuota, QuotaAnswer, allowed, LicensedRequest,
  feature_graphrag, check_quota,
}

-- The subscription is in force, has the feature, and has calls left.
pub record Admits (request : LicensedRequest) (s : EnterpriseSubscription) (q : SlidingWindowQuota)
    : Type 0 where
  pub unexpired : request.wall < s.expires_at
  pub featured : member feature_graphrag s.features ≡ true
  pub remaining : ℕ
  pub within_quota :
      (check_quota s.key_id s.quota_per_minute request.monotonic q).0 ≡ allowed remaining

module _ (request : LicensedRequest) (q : SlidingWindowQuota) where
  abbrev checked : EnterpriseSubscription → QuotaAnswer × SlidingWindowQuota
  checked s = check_quota s.key_id s.quota_per_minute request.monotonic q
