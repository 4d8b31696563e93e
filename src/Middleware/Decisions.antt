-- ===== src/Middleware/Decisions.antt =====
-- Which requests `LicenseKeyMiddleware` of services/ai-interceptor/app/security.py lets through, and
-- what a refusal leaves behind.
use openontology.Prelude.{
  leb, Bool-cases, Option-cases, some_inj, is_empty, Result, ok, raise, Result-cases, eq_string,
  eq_pair, Text, eq_text, ℕ, ◌<◌, String, ◌≡◌, refl, ◌↔◌, ◌⊎◌, inl, inr, Bool, true, false, Option,
  none, some, List, ◌∷◌, arith,
}
use openontology.OrderedDict.{Entries}
use openontology.Quota.{CheckError, Verdict, check}
use openontology.Middleware.{
  License, quota_exceeded, Response, rejected, answered, LicenseKeyMiddleware, State, Request,
  is_expired, has, lookup, extract_key, reject, digest, is_exempt, required_feature, entitled,
  forward, after_check, meter, admit, authenticate, dispatch,
}

-- whether the application gave the response
abbrev pub reaches : {R : Type 0} → Result CheckError (Response R) → Bool
reaches (ok (answered response headers)) = true
reaches (ok (rejected code retry_after)) = false
reaches (raise e) = false

module _ {S R : Type 0} (m : LicenseKeyMiddleware S R) where
  -- the feature that guards the path, if it names one
  abbrev pub Permits : License → Text → Type 0
  Permits l path =
      (feature : Text)
      → required_feature m path ≡ some feature
      → is_empty feature ≡ false
      → has l feature ≡ true

  pub record IsLicensed (now : ℕ) (request : Request) (st : State S) (l : License) : Type 0 where
    pub presented : Text
    pub extracted : extract_key request ≡ some presented
    pub found : lookup m.registry (digest m presented) ≡ some l
    pub valid : m.wall now < l.expires_at
    pub permitted : Permits l request.path
    pub verdict : Verdict
    pub metered : (check m.window now l.key_id l.quota_per_minute st.hits).0 ≡ ok verdict
    pub allowed : verdict.allowed ≡ true

  entitled_iff :
      (l : License) (path : Text) → (entitled m l (required_feature m path) ≡ true) ↔ Permits l path
  unfolding entitled
  entitled_iff l path = elim (Option-cases (required_feature m path)) [
    | inl none_ ↦ rw none_ ((λ h feature e. absurd (ground arith)), (λ h. refl))
    | inr (feature, e) ↦ rw e (
      (λ h other same named. let eq = some_inj same in ground arith),
      (λ h. elim (Bool-cases (is_empty feature)) [
        | inl blank ↦ rw blank refl
        | inr named ↦ rw (named, h feature refl named) refl
      ]),
    )
  ]

  reaches-meter :
      (now : ℕ) (l : License) (request : Request) (st : State S)
      → reaches (meter m now l request st).0 ≡ true
      → (verdict : Verdict) × ((check m.window now l.key_id l.quota_per_minute st.hits).0
          ≡ ok verdict)
        × (verdict.allowed ≡ true)
  unfolding meter after_check reject
  reaches-meter now l request st h =
      elim (Result-cases (check m.window now l.key_id l.quota_per_minute st.hits).0) [
        | inl (verdict, e) ↦ (
          verdict,
          e,
          (elim (Bool-cases verdict.allowed) [
            | inl yes_ ↦ yes_
            | inr no_ ↦ absurd (let h' = rw (e, no_) at h in cc)
          ]),
        )
        | inr (err, e) ↦ absurd (let h' = rw e at h in cc)
      ]

  meter-reaches :
      (now : ℕ) (l : License) (request : Request) (st : State S) (verdict : Verdict)
      → (check m.window now l.key_id l.quota_per_minute st.hits).0 ≡ ok verdict
      → verdict.allowed ≡ true
      → reaches (meter m now l request st).0 ≡ true
  unfolding meter after_check forward
  meter-reaches now l request st verdict e allowed = rw (e, allowed) refl

  reaches-authenticate :
      (now : ℕ) (presented : Text) (request : Request) (st : State S)
      → extract_key request ≡ some presented
      → reaches (authenticate m now (some presented) request st).0 ≡ true
      → (l : License) × IsLicensed now request st l
  unfolding authenticate admit reject is_expired
  reaches-authenticate now presented request st key h =
      elim (Option-cases (lookup m.registry (digest m presented))) [
        | inl none_ ↦ absurd (let h' = rw none_ at h in cc)
        | inr (l, found) ↦ elim (Bool-cases (leb l.expires_at (m.wall now))) [
          | inl old ↦ absurd (let h' = rw (found, old) at h in cc)
          | inr fresh ↦ elim (Bool-cases (entitled m l (required_feature m request.path))) [
            | inr no_ ↦ absurd (let h' = rw (found, fresh, no_) at h in cc)
            | inl yes_ ↦
                let (verdict, e, allowed) =
                  reaches-meter now l request st (rw (found, fresh, yes_) at h) in
                (
                  l,
                  record {
                    presented = presented;
                    extracted = key;
                    found = found;
                    valid = ground arith;
                    permitted = (entitled_iff l request.path).0 yes_;
                    verdict = verdict;
                    metered = e;
                    allowed = allowed;
                  },
                )
          ]
        ]
      ]

  authenticate-reaches :
      (now : ℕ) (request : Request) (st : State S) (l : License)
      → IsLicensed now request st l
      → reaches (authenticate m now (extract_key request) request st).0 ≡ true
  unfolding authenticate admit is_expired
  authenticate-reaches now request st l h =
      let fresh : leb l.expires_at (m.wall now) ≡ false = ground (arith, h.valid) in
      let may : entitled m l (required_feature m request.path) ≡ true =
        (entitled_iff l request.path).1 h.permitted in
      let let_through = meter-reaches now l request st h.verdict h.metered h.allowed in
      rw (h.extracted, h.found, fresh, may) let_through

  -- The application gets a request if and only if its path is exempt, or it presents a key of the
  -- registry whose licence has not expired and has the feature that guards the path, if one does,
  -- and the limiter allows the call.
  pub dispatch-reaches_iff :
      (now : ℕ) (request : Request) (st : State S)
      → (reaches (dispatch m now request st).0 ≡ true)
        ↔ ((is_exempt m request.path ≡ true) ⊎ ((l : License) × IsLicensed now request st l))
  unfolding dispatch forward
  dispatch-reaches_iff now request st = elim (Bool-cases (is_exempt m request.path)) [
    | inl free ↦ rw free ((λ h. inl refl), (λ h. refl))
    | inr guarded ↦ rw guarded (
      (λ h. inr (elim (Option-cases (extract_key request)) [
        | inl none_ ↦ absurd (unfold authenticate reject in let h' = rw none_ at h in cc)
        | inr (presented, key) ↦ reaches-authenticate now presented request st key (rw key at h)
      ])),
      (λ h. elim h [
        | inl free ↦ absurd (cc)
        | inr (l, licensed) ↦ authenticate-reaches now request st l licensed
      ]),
    )
  ]

-- What a response of the middleware leaves behind of the state it was made in.
abbrev pub Accounts : {S R : Type 0} → State S → Result CheckError (Response R) × State S → Type 0
Accounts before (raise e, after) =
    (after.app ≡ before.app) × (after.license_rejections ≡ before.license_rejections)
Accounts before (ok (answered response headers), after) =
    after.license_rejections ≡ before.license_rejections
Accounts before (ok (rejected code retry_after), after) =
    (after.app ≡ before.app)
    × (after.license_rejections ≡ code ∷ before.license_rejections)
    × ((code ≡ quota_exceeded)
        ⊎ ((after.hits ≡ before.hits) × (after.quota_decisions ≡ before.quota_decisions)))

module _ {S R : Type 0} (m : LicenseKeyMiddleware S R) where
  after_check-Accounts :
      (l : License) (request : Request) (verdict : Result CheckError Verdict)
      (hits : Entries String (List ℕ)) (st : State S)
      → Accounts st (after_check m l request verdict (record st { hits = hits }))
  unfolding after_check forward reject
  after_check-Accounts l request (raise e) hits st = (refl, refl)
  after_check-Accounts l request (ok verdict) hits st = elim (Bool-cases verdict.allowed) [
    | inl yes_ ↦ rw yes_ refl
    | inr no_ ↦ rw no_ (refl, refl, inl refl)
  ]

  admit-Accounts :
      (now : ℕ) (found : Option License) (request : Request) (st : State S)
      → Accounts st (admit m now found request st)
  unfolding admit reject meter
  admit-Accounts now none request st = (refl, refl, inr (refl, refl))
  admit-Accounts now (some l) request st = elim (Bool-cases (is_expired l (m.wall now))) [
    | inl old ↦ rw old (refl, refl, inr (refl, refl))
    | inr fresh ↦ elim (Bool-cases (entitled m l (required_feature m request.path))) [
      | inr no_ ↦ rw (fresh, no_) (refl, refl, inr (refl, refl))
      | inl yes_ ↦ rw (fresh, yes_) (after_check-Accounts l request _ _ st)
    ]
  ]

  -- A request that the middleware refuses, or on which its limiter raises, does not reach the
  -- application. A refusal is counted once, under its own code, and unless that is the code for an
  -- exceeded quota it uses nothing of the quota; an answered request is counted as no refusal.
  pub dispatch-Accounts :
      (now : ℕ) (request : Request) (st : State S) → Accounts st (dispatch m now request st)
  unfolding dispatch forward authenticate reject
  dispatch-Accounts now request st = elim (Bool-cases (is_exempt m request.path)) [
    | inl free ↦ rw free refl
    | inr guarded ↦ elim (Option-cases (extract_key request)) [
      | inl none_ ↦ rw (guarded, none_) (refl, refl, inr (refl, refl))
      | inr (presented, key) ↦ rw (guarded, key) (admit-Accounts now _ request st)
    ]
  ]
