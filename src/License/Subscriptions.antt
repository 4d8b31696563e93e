-- ===== src/License/Subscriptions.antt =====
-- `Subscription` and `SubscriptionRegistry` of services/command-worker/command_worker.py. Times are
-- counted from one epoch in the clock's own unit.
use openontology.Prelude.{
  ℕ, Bool, Option, none, some, List, [], ◌∷◌, String, string_eq, leb, if◌then◌else◌, Text, member,
  eq_string,
}
use openontology.License.Plans.{autonomous_plans}
use openontology.OrderedDict.{Entries, get, put_last}

pub record Subscription : Type 0 where
  pub key_id : Text
  pub key_digest : String
  pub tenant : Text
  pub plan : Text
  pub seats : ℕ
  pub active : Bool
  pub expires_at : ℕ

unfoldable pub is_expired : Subscription → ℕ → Bool
is_expired s now = leb s.expires_at now

unfoldable pub autonomous_execution_allowed : Subscription → Bool
autonomous_execution_allowed s = member s.plan autonomous_plans

-- `self._by_digest`; its order is never read.
abbrev pub Registry : Type 0
Registry = Entries String Subscription

-- `{sub.key_digest: sub for sub in subscriptions}`: a later subscription replaces an earlier one.
abbrev register : Registry → List Subscription → Registry
register by_digest [] = by_digest
register by_digest (s ∷ subscriptions) = register (put_last s.key_digest s by_digest) subscriptions

unfoldable pub registry : List Subscription → Registry
registry = register []

-- `SubscriptionRegistry.lookup`, the confirming `compare_digest` included.
unfoldable pub lookup : Registry → String → Option Subscription
lookup by_digest digest = elim (get digest by_digest) [
  | none ↦ none
  | some record_ ↦ if string_eq record_.key_digest digest then some record_ else none
]
