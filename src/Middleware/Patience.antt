-- ===== src/Middleware/Patience.antt =====
-- What the `Retry-After` header of `LicenseKeyMiddleware` of
-- services/ai-interceptor/app/security.py promises.
use openontology.Prelude.{
  leb, Bool-cases, some_inj, length, Result, ok, Result-cases, eq_string, eq_pair, Text, eq_text, ℕ,
  ◌+◌, ◌*◌, ◌/◌, ◌%◌, ◌≤◌, ◌<◌, max, ◌≡◌, refl, sym, ◌≢◌, inl, inr, true, false, Option, some,
  arith,
}
use native.Mathlib.Nat.{div-add-mod', mod-lt, add-mul}
use openontology.OrderedDict.{get}
use openontology.Quota.{CheckError, Verdict, check, or_new}
use openontology.Quota.Patience.{check-later}
use openontology.Middleware.{
  License, Rejection, quota_exceeded, Response, rejected, LicenseKeyMiddleware, State, Request,
  is_expired, lookup, extract_key, reject, digest, is_exempt, required_feature, entitled, forward,
  after_check, meter, admit, authenticate, dispatch,
}
use openontology.Middleware.Decisions.{reaches}

pub retry_after_of :
    {R : Type 0} {code code' : Rejection} {a b : Option ℕ}
    → ◌≡◌ {A = Result CheckError (Response R)} (ok (rejected code a)) (ok (rejected code' b))
    → a ≡ b
retry_after_of h = cc

module _ {S R : Type 0} (m : LicenseKeyMiddleware S R) where
  -- `Retry-After`, in ticks, is no less than what the limiter asks for.
  enough : (second wait : ℕ) → second ≢ 0 → wait ≤ max 1 (wait / second + 1) * second
  enough second wait h =
      let e : max 1 (wait / second + 1) ≡ wait / second + 1 = omega arith in
      let small : wait % second < second = mod-lt wait (omega arith) in
      rw (e, add-mul) (omega (arith, div-add-mod' wait second, small))

  record IsRefused (now : ℕ) (l : License) (request : Request) (st : State S) (seconds : ℕ)
      : Type 0 where
    open_ : entitled m l (required_feature m request.path) ≡ true
    verdict : Verdict
    refused : (check m.window now l.key_id l.quota_per_minute st.hits).0 ≡ ok verdict
    not_allowed : verdict.allowed ≡ false
    header : max 1 (verdict.retry_after / m.second + 1) ≡ seconds

  meter-IsRefused :
      (now : ℕ) (l : License) (request : Request) (st : State S) (seconds : ℕ)
      → entitled m l (required_feature m request.path) ≡ true
      → (meter m now l request st).0 ≡ ok (rejected quota_exceeded (some seconds))
      → IsRefused now l request st seconds
  unfolding meter after_check forward reject
  meter-IsRefused now l request st seconds may h =
      elim (Result-cases (check m.window now l.key_id l.quota_per_minute st.hits).0) [
        | inr (e, raised) ↦ absurd (let h' = rw raised at h in cc)
        | inl (verdict, returned) ↦ elim (Bool-cases verdict.allowed) [
          | inl yes_ ↦ absurd (let h' = rw (returned, yes_) at h in cc)
          | inr no_ ↦ record {
            open_ = may;
            verdict = verdict;
            refused = returned;
            not_allowed = no_;
            header = some_inj (retry_after_of (rw (returned, no_) at h));
          }
        ]
      ]

  meter-again :
      (now : ℕ) (l : License) (request : Request) (st : State S) (seconds : ℕ)
      → IsRefused now l request st seconds
      → m.second ≢ 0
      → length (or_new (get l.key_id st.hits)) ≤ l.quota_per_minute
      → reaches (meter m (now + seconds * m.second) l request (meter m now l request st).1).0 ≡ true
  unfolding meter after_check forward reject
  meter-again now l request st seconds h unit few =
      let long : now + h.verdict.retry_after ≤ now + seconds * m.second =
        rw (sym h.header) (omega (arith, enough m.second h.verdict.retry_after unit)) in
      let (again, e, allowed) =
        check-later m.window now l.quota_per_minute l.key_id st.hits h.verdict
          (now + seconds * m.second) h.refused h.not_allowed few long in
      rw (h.refused, h.not_allowed, e, allowed) refl

  -- A tenant that is told to come back in some seconds and repeats the request after them, with
  -- nobody in between, reaches the application, if the licence is still valid then and the deque
  -- of its key id held no more than the quota.
  pub dispatch-retry_after :
      (now : ℕ) (presented : Text) (l : License) (request : Request) (st : State S) (seconds : ℕ)
      → (dispatch m now request st).0 ≡ ok (rejected quota_exceeded (some seconds))
      → extract_key request ≡ some presented
      → lookup m.registry (digest m presented) ≡ some l
      → m.second ≢ 0
      → length (or_new (get l.key_id st.hits)) ≤ l.quota_per_minute
      → m.wall (now + seconds * m.second) < l.expires_at
      → reaches (dispatch m (now + seconds * m.second) request (dispatch m now request st).1).0
        ≡ true
  unfolding dispatch forward authenticate admit reject is_expired
  dispatch-retry_after now presented l request st seconds h key found unit few valid =
      elim (Bool-cases (is_exempt m request.path)) [
        | inl free ↦ rw free refl
        | inr guarded ↦
            let h1 = rw (guarded, key, found) at h in
            let later : leb l.expires_at (m.wall (now + seconds * m.second)) ≡ false =
              ground (arith, valid) in
            elim (Bool-cases (leb l.expires_at (m.wall now))) [
              | inl old ↦ absurd (let h2 = rw old at h1 in cc)
              | inr fresh ↦ elim (Bool-cases (entitled m l (required_feature m request.path))) [
                | inr no_ ↦ absurd (let h2 = rw (fresh, no_) at h1 in cc)
                | inl yes_ ↦
                    let refused =
                      meter-IsRefused now l request st seconds yes_ (rw (fresh, yes_) at h1) in
                    let again = meter-again now l request st seconds refused unit few in
                    rw (guarded, key, found, fresh, later, yes_) again
              ]
            ]
      ]
