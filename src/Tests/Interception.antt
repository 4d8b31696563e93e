-- ===== src/Tests/Interception.antt =====
-- Runs of the interceptor client, of its gate and of the retry helper.
use openontology.Prelude.{
  ◌==◌, is_empty, Result, raise, eq_string, eq_pair, Text, codes, eq_text, strip, ℕ, ◌+◌, ◌≤◌, ◌≡◌,
  refl, ◌⊎◌, true, false, none, some, [], ◌∷◌, arith,
}
use openontology.Json.{Fields, field, str}
use openontology.Settings.{interceptor_endpoint, enterprise_endpoint, routes_to_enterprise}
use openontology.Interceptor.Client.{credential_keys, without_credentials, plan}
use openontology.Interceptor.Client.Conformance.{destination-presents}
use openontology.RateGate.{RateGate, config, retune, start, pace}
use openontology.RateGate.Spacing.{paced, cooled, run, pace-spacing}
use openontology.Retry.{Hints, Effects, Backoff, retry_async}
use openontology.Retry.Attempts.{Spends, retry_async-Spends}
use openontology.World.{Environment}
use openontology.Tests.Data.{settings, subscription, payload, env, gate}

-- an interceptor whose answers meet no plan contract
abbrev odd_env : Environment Text
odd_env = record env { validate_plan = λ j. none }

destination-presents_example :
    ((codes "http://std/i" ≡ interceptor_endpoint settings)
      × (settings.license_key ≡ some (codes "own")))
    ⊎ ((codes "http://std/i" ≡ enterprise_endpoint settings)
        × (codes "own" ≡ strip settings.enterprise_license_key)
        × (is_empty (codes "own") ≡ false)
        × (routes_to_enterprise settings subscription.plan ≡ true))
unfolding openontology.Interceptor.Client.destination routes_to_enterprise
destination-presents_example =
    destination-presents settings subscription (codes "http://std/i") (codes "own") refl

abbrev keyed : Fields
keyed = field (codes "license_key") (str (codes "k")) payload

abbrev quick : RateGate
quick = retune 60 config gate

pace-spacing_example :
    start quick 1000 + quick.interval
    ≤ start (run ((paced, 1500) ∷ (cooled 9, 1600) ∷ []) (pace 1000 quick).1) 1700
pace-spacing_example = pace-spacing 1000 quick ((paced, 1500) ∷ (cooled 9, 1600) ∷ []) 1700

abbrev three_attempts : Backoff
three_attempts = record {
  attempts = 3;
  base_seconds = 500000;
  max_seconds = 15000000;
  retry_after_cap = some 60000000;
}

-- a state that counts the runs of the operation
abbrev effects : Effects ℕ
effects = record { random = λ s. (7, s); sleep = λ d s. s }

abbrev hints : Hints ℕ
hints = record { caught = λ e. true; should_retry = λ e. e == 1; retry_after = λ e. none }

abbrev failing : ℕ → Result ℕ ℕ × ℕ
failing s = (raise 1, s + 1)

abbrev refused : ℕ → Result ℕ ℕ × ℕ
refused s = (raise 2, s + 1)

retry_async-Spends_example :
    Spends effects hints three_attempts failing
      (λ s. s)
      (λ s. omega arith)
      (λ e attempt s. refl)
      3
      5
      (retry_async effects hints three_attempts failing 5)
retry_async-Spends_example =
    retry_async-Spends effects hints three_attempts failing (λ s. s) (λ s. omega arith)
      (λ e attempt s. refl) 5 (omega arith)
