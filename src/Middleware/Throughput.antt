-- ===== src/Middleware/Throughput.antt =====
-- How many requests of one licence `LicenseKeyMiddleware` of
-- services/ai-interceptor/app/security.py lets through to the application.
use openontology.Prelude.{
  string_ne, if◌then◌else◌, Bool-cases, Option-cases, Result-cases, eq_string, eq_pair,
  string_beq_iff, Text, eq_text, ℕ, ◌+◌, ◌≤◌, String, ◌≡◌, refl, subst, inl, inr, Bool, true, false,
  ◌&&◌, Option, none, some, List, [], ◌∷◌, ◌++◌, arith, string_eq,
}
use mathlib.Core.List.{append_assoc, append-nil}
use openontology.OrderedDict.{Entries}
use openontology.Quota.{check}
use openontology.Quota.Window.{in_window, record_hit, Reach, own, foreign, empty, check-in_window}
use openontology.Middleware.{
  License, LicenseKeyMiddleware, State, Request, is_expired, lookup, extract_key, reject, digest,
  is_exempt, required_feature, entitled, forward, after_check, meter, admit, authenticate, dispatch,
}
use openontology.Middleware.Decisions.{reaches}

and_true : (b : Bool) → (b && true) ≡ b
and_true true = refl
and_true false = refl

and_false : (b : Bool) → (b && false) ≡ false
and_false true = refl
and_false false = refl

abbrev pub belongs : String → Option License → Bool
belongs key none = false
belongs key (some l) = string_eq l.key_id key

module _ {S R : Type 0} (m : LicenseKeyMiddleware S R) (key : String) where
  -- the licence of a request that presents a key of the registry
  abbrev pub license_of_key : Option Text → Option License
  license_of_key none = none
  license_of_key (some presented) = lookup m.registry (digest m presented)

  abbrev pub license_of : Request → Option License
  license_of request =
      if is_exempt m request.path then none else license_of_key (extract_key request)

  -- the request's time, if the licence `key` let it through to the application
  abbrev pub served : ℕ → Request → State S → List ℕ
  served now request st =
      if reaches (dispatch m now request st).0 && belongs key (license_of request)
      then now ∷ []
      else []

  -- the times at which `key` let requests through, of requests that each come some time after the
  -- one before
  unfoldable pub admissions : ℕ → List (ℕ × Request) → State S → List ℕ
  unfolding dispatch
  admissions now [] st = []
  admissions now ((wait, request) ∷ requests) st =
      served (now + wait) request st
      ++ admissions (now + wait) requests (dispatch m (now + wait) request st).1

  module _ (limit : ℕ)
      (quota : (presented : String) (l : License)
        → lookup m.registry presented ≡ some l
        → l.key_id ≡ key
        → l.quota_per_minute ≡ limit) where
    -- the limiter's history of `key`, of calls up to `now`
    abbrev History : ℕ → Entries String (List ℕ) → List ℕ → Type 0
    History now hits past = (t : ℕ) × (t ≤ now) × Reach m.window limit key t hits past

    meter-hits :
        (now : ℕ) (l : License) (request : Request) (st : State S)
        → (meter m now l request st).1.hits
          ≡ (check m.window now l.key_id l.quota_per_minute st.hits).1
    unfolding meter after_check forward reject
    meter-hits now l request st =
        elim (Result-cases (check m.window now l.key_id l.quota_per_minute st.hits).0) [
          | inr (e, raised) ↦ rw raised refl
          | inl (verdict, returned) ↦ elim (Bool-cases verdict.allowed) [
            | inl yes_ ↦ rw (returned, yes_) refl
            | inr no_ ↦ rw (returned, no_) refl
          ]
        ]

    meter-record_hit :
        (now : ℕ) (l : License) (request : Request) (st : State S) (past : List ℕ)
        → past ++ (if reaches (meter m now l request st).0 then now ∷ [] else [])
          ≡ record_hit m.window limit
              (check m.window now l.key_id l.quota_per_minute st.hits).0
              now
              past
    unfolding meter after_check forward reject
    meter-record_hit now l request st past =
        elim (Result-cases (check m.window now l.key_id l.quota_per_minute st.hits).0) [
          | inr (e, raised) ↦ rw raised (append-nil past)
          | inl (verdict, returned) ↦ elim (Bool-cases verdict.allowed) [
            | inl yes_ ↦ rw (returned, yes_) refl
            | inr no_ ↦ rw (returned, no_) (append-nil past)
          ]
        ]

    own_at :
        (before now : ℕ) (k : String) (q : ℕ) (hits : Entries String (List ℕ)) (past : List ℕ)
        → k ≡ key
        → q ≡ limit
        → before ≤ now
        → History before hits past
        → History now
            (check m.window now k q hits).1
            (record_hit m.window limit (check m.window now k q hits).0 now past)
    own_at before now k q hits past same full le (t, early, r) =
        rw (same, full) (now, omega arith, own now r (omega (arith, le, early)))

    meter-History :
        (before now : ℕ) (presented : String) (l : License) (request : Request) (st : State S)
        (past : List ℕ)
        → lookup m.registry presented ≡ some l
        → before ≤ now
        → History before st.hits past
        → History now (meter m now l request st).1.hits (
            past
            ++ (if reaches (meter m now l request st).0 && string_eq l.key_id key
                then now ∷ []
                else []))
    meter-History before now presented l request st past found le h =
        elim (Bool-cases (string_eq l.key_id key)) [
          | inl own_ ↦
              let same = (string_beq_iff l.key_id key).0 own_ in
              let through =
                own_at before now l.key_id l.quota_per_minute st.hits past same
                  (quota presented l found same) le h in
              let e = own_ in
              rw
                (
                  e,
                  and_true (reaches (meter m now l request st).0),
                  meter-hits now l request st,
                  meter-record_hit now l request st past,
                )
                through
          | inr apart ↦
              let (t, early, r) = h in
              rw
                (
                  apart,
                  and_false (reaches (meter m now l request st).0),
                  meter-hits now l request st,
                  append-nil past,
                )
                (
                  now,
                  omega arith,
                  foreign now l.key_id l.quota_per_minute r (omega (arith, le, early))
                      (string_ne l.key_id key apart),
                )
        ]

    unmetered :
        (before now : ℕ) (hits : Entries String (List ℕ)) (past : List ℕ)
        → before ≤ now
        → History before hits past
        → History now hits (past ++ [])
    unmetered before now hits past le (t, early, r) =
        rw (append-nil past) (t, omega (arith, le, early), r)

    admit-History :
        (before now : ℕ) (presented : String) (found : Option License) (request : Request)
        (st : State S) (past : List ℕ)
        → lookup m.registry presented ≡ found
        → before ≤ now
        → History before st.hits past
        → History now (admit m now found request st).1.hits (
            past
            ++ (if reaches (admit m now found request st).0 && belongs key found
                then now ∷ []
                else []))
    unfolding admit reject
    admit-History before now presented none request st past found le h =
        unmetered before now st.hits past le h
    admit-History before now presented (some l) request st past found le h =
        elim (Bool-cases (is_expired l (m.wall now))) [
          | inl old ↦ rw old (unmetered before now st.hits past le h)
          | inr fresh ↦ elim (Bool-cases (entitled m l (required_feature m request.path))) [
            | inr no_ ↦ rw (fresh, no_) (unmetered before now st.hits past le h)
            | inl yes_ ↦
                rw (fresh, yes_) (meter-History before now presented l request st past found le h)
          ]
        ]

    dispatch-History :
        (before now : ℕ) (request : Request) (st : State S) (past : List ℕ)
        → before ≤ now
        → History before st.hits past
        → History now (dispatch m now request st).1.hits (past ++ served now request st)
    unfolding dispatch forward authenticate reject
    dispatch-History before now request st past le h =
        elim (Bool-cases (is_exempt m request.path)) [
          | inl free ↦ rw free (unmetered before now st.hits past le h)
          | inr guarded ↦ elim (Option-cases (extract_key request)) [
            | inl none_ ↦ rw (guarded, none_) (unmetered before now st.hits past le h)
            | inr (presented, k) ↦
                rw (guarded, k)
                  (admit-History before now (digest m presented) _ request st past refl le h)
          ]
        ]

    admissions-History :
        (now : ℕ) (requests : List (ℕ × Request)) (st : State S) (past : List ℕ)
        → History now st.hits past
        → (later : ℕ) × (hits : Entries String (List ℕ)) × Reach m.window limit key later hits
            (past ++ admissions now requests st)
    unfolding admissions
    admissions-History now [] st past (t, early, r) = rw (append-nil past) (t, st.hits, r)
    admissions-History now ((wait, request) ∷ requests) st past h =
        let next = dispatch-History now (now + wait) request st past (omega arith) h in
        let (later, hits, r) =
          admissions-History (now + wait) requests (dispatch m (now + wait) request st).1
            (past ++ served (now + wait) request st) next in
        (later, hits, subst (Reach m.window limit key later hits) (append_assoc past _ _) r)

    -- Whatever requests come, of whichever tenants: in no window of the limiter's length, wherever
    -- it ends, does one licence let more requests through to the application than its quota, if
    -- the licences of the registry that share its key id share its quota.
    pub admissions-in_window :
        (now : ℕ) (requests : List (ℕ × Request)) (st : State S) (end : ℕ)
        → st.hits ≡ []
        → in_window m.window end (admissions now requests st) ≤ limit
    admissions-in_window now requests st end fresh =
        let start : History now st.hits [] = rw fresh (now, omega arith, empty now) in
        let (later, hits, r) = admissions-History now requests st [] start in
        check-in_window m.window limit key later hits (admissions now requests st) end r
