-- ===== src/Preflight/Settled.antt =====
-- When `run_preflight_until_ready` of services/command-worker/command_worker.py lets the consumers
-- start.
use openontology.Prelude.{
  NoneType, Bool-cases, Result, ok, raise, eq_string, eq_pair, Text, eq_text, ℕ, ◌+◌, ◌≤◌, ◌≡◌,
  refl, ◌↔◌, ◌⊎◌, inl, inr, Bool, true, false, Option, none, some, List,
}
use openontology.Json.{Json, Fields}
use openontology.Settings.{Settings}
use openontology.License.Subscriptions.{Subscription}
use openontology.License.Cache.{LicenseCache}
use openontology.License.Gatekeeper.{LicenseRejected}
use openontology.World.{World, Environment}
use openontology.Preflight.Local.{
  passed, failed, TypeError, Boot, fail, resolve_local, decide, authorize_self, conclude,
  introspect_with, introspect,
}
use openontology.Preflight.Compare.{compare_listed, features_of, agrees, compare_with}
use openontology.Preflight.Loop.{introspected, resolved, run}

module _ {Uuid : Type 0} (env : Environment Uuid) (to_str : Json → Text) (settings : Settings) where
  -- What one attempt does to the status, and that it does not let the consumers start.
  abbrev pub Concludes : ℕ → Bool → Result TypeError Bool × Boot Uuid → Type 0
  Concludes attempts proceed (raise e, b) = (b.status.attempts ≡ attempts) × (b.proceed ≡ proceed)
  Concludes attempts proceed (ok true, b) =
      (b.status.attempts ≡ attempts) × (b.proceed ≡ proceed) × (b.status.state ≡ passed)
  Concludes attempts proceed (ok false, b) =
      (b.status.attempts ≡ attempts) × (b.proceed ≡ proceed) × (b.status.state ≡ failed)

  compare_listed-Concludes :
      (s : Subscription) (d : Fields) (b : Boot Uuid) (features : Result TypeError (List Text))
      → Concludes b.status.attempts b.proceed (compare_listed env to_str settings s d b features)
  unfolding compare_listed fail
  compare_listed-Concludes s d b (raise e) = (refl, refl)
  compare_listed-Concludes s d b (ok features) =
      elim (Bool-cases (agrees env to_str settings s d features)) [
        | inl yes_ ↦ rw yes_ (refl, refl, refl)
        | inr no_ ↦ rw no_ (refl, refl, refl)
      ]

  conclude-Concludes :
      (s : Subscription) (b : Boot Uuid) (w : World Uuid) (answer : Result Bool Fields)
      → Concludes b.status.attempts b.proceed
          (introspected env to_str settings s (conclude env to_str settings b w answer))
  unfolding conclude fail compare_with
  conclude-Concludes s b w (ok d) =
      compare_listed-Concludes s d (record b { world = w }) (features_of env to_str settings d)
  conclude-Concludes s b w (raise retryable) = (refl, refl, refl)

  introspect-Concludes :
      (s : Subscription) (b : Boot Uuid) (key : Option Text)
      → Concludes b.status.attempts b.proceed
          (introspected env to_str settings s (introspect_with env to_str settings key b))
  unfolding introspect_with fail
  introspect-Concludes s b none = (refl, refl, refl)
  introspect-Concludes s b (some key) = conclude-Concludes s b _ _

  decide-Concludes :
      (b : Boot Uuid) (decision : Result LicenseRejected Subscription × LicenseCache)
      → Concludes b.status.attempts b.proceed
          (resolved env to_str settings (decide env to_str settings b decision))
  unfolding decide introspect fail
  decide-Concludes b (raise e, cache) = (refl, refl, refl)
  decide-Concludes b (ok s, cache) = introspect-Concludes s _ settings.license_key

  pub run-Concludes :
      (b : Boot Uuid) → Concludes (b.status.attempts + 1) b.proceed (run env to_str settings b)
  unfolding run resolve_local
  run-Concludes b =
      decide-Concludes (record b { status = record b.status { attempts = b.status.attempts + 1 } })
        (authorize_self env to_str settings b.world)

  -- How the boot ended: after at most `left` attempts, and with the event set exactly when an
  -- attempt passed or the deployment is not strict. It stops early only for a failure that is not
  -- worth another attempt. Where an attempt raises, the event stays as it was.
  abbrev pub Settles : ℕ → Boot Uuid → Result TypeError NoneType × Boot Uuid → Type 0
  Settles left before (raise e, after) = after.proceed ≡ before.proceed
  Settles left before (ok n, after) =
      (after.status.attempts ≤ before.status.attempts + left)
      × ((after.proceed ≡ true)
          ↔ ((after.status.state ≡ passed) ⊎ (settings.interceptor_preflight_strict ≡ false)))
      × ((after.status.state ≡ passed)
          ⊎ ((after.status.state ≡ failed)
              × ((after.status.retryable ≡ false)
                  ⊎ (after.status.attempts ≡ before.status.attempts + left))))

  -- The rest of the loop settles what it is handed.
  abbrev Resumes : ℕ → Boot Uuid → (Boot Uuid → Result TypeError NoneType × Boot Uuid) → Type 0
  Resumes left before again =
      (b : Boot Uuid)
      → b.proceed ≡ before.proceed
      → b.status.attempts ≡ before.status.attempts + 1
      → Settles left before (again b)
