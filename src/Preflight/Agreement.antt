-- ===== src/Preflight/Agreement.antt =====
-- What the preflight of services/command-worker/command_worker.py checks when it passes.
use openontology.Prelude.{
  ok_inj, ◌==◌, Bool-cases, Result, ok, raise, Result-cases, eq_string, eq_pair, Text, codes,
  text_eq_iff, eq_text, member, ◌+◌, ◌≡◌, refl, sym, subst, ◌↔◌, inl, inr, true, Option, none, some,
  List, arith,
}
use openontology.Json.{Json, Fields, null, boolean, number, str, list, dict}
use openontology.Settings.{Settings}
use openontology.License.Plans.{normalise_plan}
use openontology.License.Subscriptions.{Subscription}
use openontology.License.Cache.{LicenseCache}
use openontology.License.Gatekeeper.{LicenseRejected}
use openontology.World.{Environment, Answer, timed_out, transport_error, response}
use openontology.Preflight.Local.{
  TypeError, Boot, resolve_local, decide, authorize_self, conclude, introspect_with, read_object,
  read_introspection, get_license, introspect, is_valid,
}
use openontology.Preflight.Compare.{compare_listed, text_at, features_of, agrees, compare_with}
use openontology.Preflight.Loop.{introspected, resolved, run}

module _ {Uuid : Type 0} (env : Environment Uuid) (to_str : Json → Text) (settings : Settings) where
  -- The worker's gate admits the worker's own key, and the interceptor answers for that key with
  -- the same tenant and plan and the feature that the endpoint asks for.
  pub record IsAgreed (b : Boot Uuid) : Type 0 where
    pub subscription : Subscription
    pub admitted : (authorize_self env to_str settings b.world).0 ≡ ok subscription
    pub key : Text
    pub configured : settings.license_key ≡ some key
    pub hint : Option Text
    pub limit : Option Text
    pub introspection : Fields
    pub answered : env.answer b.world.calls ≡ response 200 hint limit (some (dict introspection))
    pub valid : is_valid introspection ≡ true
    pub tenant : text_at env to_str settings (codes "tenant") introspection ≡ subscription.tenant
    pub plan :
        normalise_plan (text_at env to_str settings (codes "tier") introspection)
        ≡ subscription.plan
    pub features : List Text
    pub listed : features_of env to_str settings introspection ≡ ok features
    pub entitled : member (codes "ai.intercept") features ≡ true

  agrees_iff :
      (s : Subscription) (d : Fields) (features : List Text)
      → (agrees env to_str settings s d features ≡ true) ↔ (
          (is_valid d ≡ true)
          × (text_at env to_str settings (codes "tenant") d ≡ s.tenant)
          × (normalise_plan (text_at env to_str settings (codes "tier") d) ≡ s.plan)
          × (member (codes "ai.intercept") features ≡ true))
  unfolding agrees
  agrees_iff s d features =
      let tenant = text_eq_iff (text_at env to_str settings (codes "tenant") d) s.tenant in
      let plan =
        text_eq_iff (normalise_plan (text_at env to_str settings (codes "tier") d)) s.plan in
      (
        (λ h. (ground arith, tenant.0 (ground arith), plan.0 (ground arith), ground arith)),
        (λ (v, t, p, f). let t' = tenant.1 t in let p' = plan.1 p in ground arith),
      )

  compare_listed-passes :
      (s : Subscription) (d : Fields) (b : Boot Uuid) (read : Result TypeError (List Text))
      → (compare_listed env to_str settings s d b read).0 ≡ ok true
      → (features : List Text) × (read ≡ ok features)
        × (agrees env to_str settings s d features ≡ true)
  unfolding compare_listed
  compare_listed-passes s d b (raise e) h = cc
  compare_listed-passes s d b (ok features) h =
      elim (Bool-cases (agrees env to_str settings s d features)) [
        | inl yes_ ↦ (features, refl, yes_)
        | inr no_ ↦ absurd (let h' = rw no_ at h in cc)
      ]

  read_introspection-ok :
      (answer : Answer) (d : Fields)
      → read_introspection answer ≡ ok d
      → (hint limit : Option Text) × (answer ≡ response 200 hint limit (some (dict d)))
  unfolding read_introspection
  read_introspection-ok timed_out d h = cc
  read_introspection-ok transport_error d h = cc
  read_introspection-ok (response code hint limit body) d h = elim (Bool-cases (code == 200)) [
    | inr other ↦ absurd (let h' = rw other at h in cc)
    | inl good ↦
        let code_ : code ≡ 200 = ground arith in
        let body_ = read_object-ok body d (rw good at h) in (hint, limit, rw (code_, body_) refl)
  ]
    where
      read_object-ok :
          (body : Option Json) (d : Fields) → read_object body ≡ ok d → body ≡ some (dict d)
      read_object-ok none d h = cc
      read_object-ok (some null) d h = cc
      read_object-ok (some (boolean x)) d h = cc
      read_object-ok (some (number z x)) d h = cc
      read_object-ok (some (str x)) d h = cc
      read_object-ok (some (list x)) d h = cc
      read_object-ok (some (dict x)) d h = cc

  introspect_with-passes :
      (s : Subscription) (b : Boot Uuid) (key : Option Text)
      → (introspected env to_str settings s (introspect_with env to_str settings key b)).0 ≡ ok true
      → (k : Text) × (d : Fields) × (features : List Text) × (key ≡ some k)
        × (read_introspection (env.answer b.world.calls) ≡ ok d)
        × (features_of env to_str settings d ≡ ok features)
        × (agrees env to_str settings s d features ≡ true)
  unfolding introspect_with conclude get_license compare_with
  introspect_with-passes s b none h = cc
  introspect_with-passes s b (some k) h =
      elim (Result-cases (read_introspection (env.answer b.world.calls))) [
        | inr (retryable, lost) ↦ absurd (let h' = rw (lost, introspected) at h in cc)
        | inl (d, read) ↦
            let (features, listed, yes_) =
              compare_listed-passes s d _ (features_of env to_str settings d) (rw read at h) in
            (k, d, features, refl, read, listed, yes_)
      ]

  decide-passes :
      (b : Boot Uuid) (decision : Result LicenseRejected Subscription × LicenseCache)
      → (resolved env to_str settings (decide env to_str settings b decision)).0 ≡ ok true
      → (s : Subscription) × (k : Text) × (d : Fields) × (features : List Text) × (decision.0
          ≡ ok s)
        × (settings.license_key ≡ some k)
        × (read_introspection (env.answer b.world.calls) ≡ ok d)
        × (features_of env to_str settings d ≡ ok features)
        × (agrees env to_str settings s d features ≡ true)
  unfolding decide introspect
  decide-passes b (raise e, cache) h = cc
  decide-passes b (ok s, cache) h =
      let (k, d, features, key, read, listed, yes_) =
        introspect_with-passes s _ settings.license_key h in
      (s, k, d, features, refl, key, read, listed, yes_)

  run-IsAgreed : (b : Boot Uuid) → (run env to_str settings b).0 ≡ ok true → IsAgreed b
  unfolding run resolve_local
  run-IsAgreed b h =
      let (s, k, d, features, admitted, key, read, listed, yes_) =
        decide-passes (record b { status = record b.status { attempts = b.status.attempts + 1 } })
          (authorize_self env to_str settings b.world) h in
      let (hint, limit, answered) = read_introspection-ok (env.answer b.world.calls) d read in
      let (valid, tenant, plan, entitled) = (agrees_iff s d features).0 yes_ in
      record {
        subscription = s;
        admitted = admitted;
        key = k;
        configured = key;
        hint = hint;
        limit = limit;
        introspection = d;
        answered = answered;
        valid = valid;
        tenant = tenant;
        plan = plan;
        features = features;
        listed = listed;
        entitled = entitled;
      }

  introspect_with-agrees :
      (b : Boot Uuid) (s : Subscription) (k : Text) (hint limit : Option Text) (d : Fields)
      (features : List Text)
      → env.answer b.world.calls ≡ response 200 hint limit (some (dict d))
      → features_of env to_str settings d ≡ ok features
      → agrees env to_str settings s d features ≡ true
      → (introspected env to_str settings s (introspect_with env to_str settings (some k) b)).0
        ≡ ok true
  unfolding introspect_with get_license read_introspection conclude compare_with compare_listed
  introspect_with-agrees b s k hint limit d features answered listed yes_ =
      rw (answered, conclude, listed, yes_) refl

  decide-agrees :
      (b : Boot Uuid) (decision : Result LicenseRejected Subscription × LicenseCache)
      (s : Subscription) (k : Text) (hint limit : Option Text) (d : Fields) (features : List Text)
      → decision.0 ≡ ok s
      → settings.license_key ≡ some k
      → env.answer b.world.calls ≡ response 200 hint limit (some (dict d))
      → features_of env to_str settings d ≡ ok features
      → agrees env to_str settings s d features ≡ true
      → (resolved env to_str settings (decide env to_str settings b decision)).0 ≡ ok true
  unfolding decide introspect
  decide-agrees b (raise e, cache) s k hint limit d features decided key answered listed yes_ = cc
  decide-agrees b (ok own, cache) s k hint limit d features decided key answered listed yes_ =
      let same : own ≡ s = ok_inj decided in
      let local : Boot Uuid = record b {
        world = record b.world { cache = cache };
        status = record b.status { worker_tenant = some own.tenant; worker_plan = some own.plan };
      } in
      subst
        (λ o.
          (introspected env to_str settings own (introspect_with env to_str settings o local)).0
          ≡ ok true)
        (sym key)
        (introspect_with-agrees local own k hint limit d features answered listed (rw same yes_))

  IsAgreed-run : (b : Boot Uuid) → IsAgreed b → (run env to_str settings b).0 ≡ ok true
  unfolding run resolve_local
  IsAgreed-run b a =
      let yes_ =
        (agrees_iff a.subscription a.introspection a.features).1
          (a.valid, a.tenant, a.plan, a.entitled) in
      decide-agrees (record b { status = record b.status { attempts = b.status.attempts + 1 } })
        (authorize_self env to_str settings b.world) a.subscription a.key a.hint a.limit
        a.introspection a.features a.admitted a.configured a.answered a.listed yes_

  pub run-passes_iff : (b : Boot Uuid) → ((run env to_str settings b).0 ≡ ok true) ↔ IsAgreed b
  run-passes_iff b = (run-IsAgreed b, IsAgreed-run b)
