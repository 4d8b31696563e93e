-- ===== src/Preflight/Compare.antt =====
-- `_compare` of the preflight of services/command-worker/command_worker.py.
use openontology.Prelude.{
  ◌==◌, if◌then◌else◌, Result, ok, raise, eq_string, eq_pair, Text, codes, text_eq, eq_text, member,
  ℕ, Bool, true, false, not, ◌&&◌, ◌||◌, Option, none, some, List, [], ◌∷◌, map,
}
use openontology.Json.{Json, Items, no_item, item, Fields, boolean, number, str, list, dict, get}
use openontology.Settings.{Settings}
use openontology.License.Plans.{normalise_plan}
use openontology.License.Subscriptions.{Subscription}
use openontology.RateGate.{RateGate, retune, preflight}
use openontology.World.{Environment}
use openontology.Preflight.Local.{
  passed, PreflightStatus, TypeError, not_iterable, Boot, fail, is_valid, field_names,
}

module _ {Uuid : Type 0} (env : Environment Uuid) (to_str : Json → Text) (settings : Settings) where
  -- `str(...)`
  abbrev pub as_text : Json → Text
  as_text (str t) = t
  as_text j = to_str j

  -- `str(introspection.get(name, ""))`
  abbrev pub text_at : Text → Fields → Text
  text_at name d = elim (get name d) [ none ↦ [] | some j ↦ as_text j ]

  abbrev pub item_texts : Items → List Text
  item_texts no_item = []
  item_texts (item j js) = as_text j ∷ item_texts js

  abbrev pub iterate : Json → Result TypeError (List Text)
  iterate (list js) = ok (item_texts js)
  iterate (dict d) = ok (field_names d)
  iterate (str t) = ok (map (λ c. c ∷ []) t)
  iterate _ = raise not_iterable

  -- `{str(item) for item in introspection.get("features", [])}`
  unfoldable pub features_of : Fields → Result TypeError (List Text)
  features_of d = elim (get (codes "features") d) [ none ↦ ok [] | some j ↦ iterate j ]

  -- `int(quota) if isinstance(quota, int) else None`; a Boolean is an `int`, and a literal is one
  -- exactly if `int` reads it.
  abbrev pub int_of : Option Json → Option ℕ
  int_of (some (boolean true)) = some 1
  int_of (some (boolean false)) = some 0
  int_of (some (number is_zero literal)) = env.parse_int literal
  int_of _ = none

  -- the four disagreements
  unfoldable pub agrees : Subscription → Fields → List Text → Bool
  agrees s d features =
      is_valid d
      && text_eq (text_at (codes "tenant") d) s.tenant
      && text_eq (normalise_plan (text_at (codes "tier") d)) s.plan
      && member (codes "ai.intercept") features

  -- `if self._status.quota_per_minute and not self._settings.interceptor_max_rpm: retune`
  unfoldable pub learn : Option ℕ → RateGate → RateGate
  learn none g = g
  learn (some quota) g =
      if quota == 0 || not (settings.interceptor_max_rpm == 0) then g else retune quota preflight g

  -- what `_compare` notes of the answer
  abbrev pub noted : Fields → PreflightStatus → PreflightStatus
  noted d s = record s {
    interceptor_tenant = some (text_at (codes "tenant") d);
    interceptor_tier = some (normalise_plan (text_at (codes "tier") d));
    quota_per_minute = int_of (get (codes "quota_per_minute") d);
  }

  -- `_compare`, once the features are read
  unfoldable pub compare_listed :
      Subscription
      → Fields
      → Boot Uuid
      → Result TypeError (List Text)
      → Result TypeError Bool × Boot Uuid
  unfolding agrees learn fail
  compare_listed s d b (raise e) = (raise e, b)
  compare_listed s d b (ok features) =
      let status = noted d b.status in
      if agrees s d features
      then (
        ok true,
        record b {
          status = record status { state = passed; retryable = true };
          world = record b.world {
            circuit = record b.world.circuit {
              gate = learn (int_of (get (codes "quota_per_minute") d)) b.world.circuit.gate;
            };
          };
        },
      )
      else (ok false, record b { status = fail false status })

  -- `_compare`
  unfoldable pub compare_with :
      Subscription → Fields → Boot Uuid → Result TypeError Bool × Boot Uuid
  unfolding features_of compare_listed
  compare_with s d b = compare_listed s d b (features_of d)
