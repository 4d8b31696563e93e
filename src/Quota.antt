-- ===== src/Quota.antt =====
-- `SlidingWindowLimiter` of services/ai-interceptor/app/security.py. `SlidingWindowQuota` of
-- services/graphrag-interceptor/graphrag_interceptor.py is the same code.
pub mod Window
pub mod Patience
use openontology.Prelude.{
  All-map, Extends, Extends-refl, Extends-trans, Logged, Logged-Extends, Logged-append, replicate,
  replicate-snoc, NoneType, ok_inj, >>=-eq-ok, decimal, decimal_inj, IsDigit, decimal-IsDigit, ltb,
  leb, ◌==◌, if◌then◌else◌, ltb→lt, lt→ltb, leb→le, le→leb, ==_iff, Bool-cases, Option-cases,
  some_inj, length, take, is_empty, any, all, keep, length-append, length-take, length-keep-le, All,
  All-append, All-take, Result, ok, raise, ◌>>=◌, Result-cases, Eq, eq_string, eq_pair,
  string_beq_iff, pair_beq_iff, pair_beq, Text, codes, text_eq, text_eq_sound, text_eq_complete,
  text_eq_refl, text_eq_iff, eq_text, is_space, lstrip, rstrip_onto, rstrip, upper_char, find,
  member, find-All, lower_char, has_prefix, onto_first, split_on, strip, upper, lower, replace_char,
  rstrip_char, ℕ, zero, suc, ◌+◌, ◌-◌, ◌*◌, ◌/◌, ◌%◌, ◌^◌, ◌≤◌, ◌<◌, min, max, String, ◌≡◌, refl,
  sym, ap, ◌∙◌, subst, ◌≢◌, ◌↔◌, ◌⊎◌, inl, inr, Bool, true, false, not, ◌&&◌, ◌||◌, Option, none,
  some, List, [], ◌∷◌, ◌++◌, map, arith, string_eq,
}
use openontology.OrderedDict.{Entries, get, put_last}

-- the exceptions of `check`: `bucket[0]` on an empty deque
pub data CheckError : Type 0 where
  index_error : CheckError

pub record Verdict : Type 0 where
  pub allowed : Bool
  pub remaining : ℕ
  pub retry_after : ℕ

-- `while bucket and bucket[0] <= cutoff: bucket.popleft()`, where `cutoff` is `now - window`
unfoldable pub drop_expired : (window now : ℕ) → List ℕ → List ℕ
drop_expired window now [] = []
drop_expired window now (t ∷ bucket) =
    let rest = drop_expired window now bucket in if leb (t + window) now then rest else t ∷ bucket

-- the refusal, from `bucket[0]`
abbrev pub refuse : (window now : ℕ) → List ℕ → Result CheckError Verdict
refuse window now [] = raise index_error
refuse window now (t ∷ bucket) =
    ok (record { allowed = false; remaining = 0; retry_after = t + window - now })

-- the rest of `check`, on the deque without its expired hits
unfoldable pub check_live : (window now limit : ℕ) → List ℕ → Result CheckError Verdict × List ℕ
check_live window now limit bucket =
    if leb limit (length bucket) then (refuse window now bucket, bucket) else (
      ok (record {
        allowed = true;
        remaining = limit - length (bucket ++ now ∷ []);
        retry_after = 0;
      }),
      bucket ++ now ∷ [],
    )

-- `check` on one deque
unfoldable pub check_bucket : (window now limit : ℕ) → List ℕ → Result CheckError Verdict × List ℕ
unfolding drop_expired check_live
check_bucket window now limit bucket = check_live window now limit (drop_expired window now bucket)

-- `self._hits.setdefault(key, deque())`
abbrev pub or_new : Option (List ℕ) → List ℕ
or_new none = []
or_new (some bucket) = bucket

-- `check`; the order of the dict is never read.
unfoldable pub check :
    (window now : ℕ)
    → (key : String) → (limit : ℕ) → Entries String (List ℕ)
    → Result CheckError Verdict × Entries String (List ℕ)
unfolding check_bucket
check window now key limit hits =
    let (verdict, bucket) = check_bucket window now limit (or_new (get key hits)) in
    (verdict, put_last key bucket hits)
