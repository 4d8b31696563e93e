-- ===== src/PlanCache.antt =====
-- `PlanCache` of services/ai-interceptor/app/idempotency.py. `CommandCache` of
-- services/graphrag-interceptor/graphrag_interceptor.py is the same code without the counters.
pub mod Retention
use openontology.Prelude.{
  All-map, Extends, Extends-refl, Extends-trans, Logged, Logged-Extends, Logged-append, replicate,
  replicate-snoc, NoneType, ok_inj, >>=-eq-ok, decimal, decimal_inj, IsDigit, decimal-IsDigit, ltb,
  leb, ◌==◌, if◌then◌else◌, ltb→lt, lt→ltb, leb→le, le→leb, ==_iff, Bool-cases, Option-cases,
  some_inj, length, take, is_empty, any, all, keep, length-append, length-take, length-keep-le, All,
  All-append, All-take, Result, ok, raise, ◌>>=◌, Result-cases, Eq, eq_string, eq_pair,
  string_beq_iff, pair_beq_iff, pair_beq, Text, codes, text_eq, text_eq_sound, text_eq_complete,
  text_eq_refl, text_eq_iff, eq_text, is_space, lstrip, rstrip_onto, rstrip, upper_char, find,
  member, find-All, lower_char, has_prefix, onto_first, split_on, strip, upper, lower, replace_char,
  rstrip_char, ℕ, zero, suc, ◌+◌, ◌-◌, ◌*◌, ◌/◌, ◌%◌, ◌^◌, ◌≤◌, ◌<◌, min, String, ◌≡◌, refl, sym,
  ap, ◌∙◌, subst, ◌≢◌, ◌↔◌, ◌⊎◌, inl, inr, Bool, true, false, not, ◌&&◌, ◌||◌, Option, none, some,
  List, [], ◌∷◌, ◌++◌, map, arith, string_eq,
}
use openontology.OrderedDict.{Entries, get, put_last, move_to_end, evict}

-- the tenant and the event id
abbrev pub Key : Type 0
Key = String × String

pub record PlanCache (V : Type 0) : Type 0 where
  pub max : ℕ
  pub data_ : Entries Key V
  pub hits : ℕ
  pub misses : ℕ
  pub stores : ℕ

module _ {V : Type 0} where
  -- `__init__`
  abbrev pub init : ℕ → PlanCache V
  init max_entries = record { max = max_entries; data_ = []; hits = 0; misses = 0; stores = 0 }

  -- what follows `self._data.get(key)`
  abbrev pub found : Key → Option V → PlanCache V → Option V × PlanCache V
  found key (some value) c =
      (some value, record c { data_ = move_to_end key c.data_; hits = c.hits + 1 })
  found key none c = (none, record c { misses = c.misses + 1 })

  -- `get`
  unfoldable pub lookup : Key → PlanCache V → Option V × PlanCache V
  lookup key c = if c.max == 0 then (none, c) else found key (get key c.data_) c

  -- `put`
  unfoldable pub put : Key → V → PlanCache V → PlanCache V
  put key value c =
      if c.max == 0
      then c
      else record c { data_ = evict c.max (put_last key value c.data_); stores = c.stores + 1 }
