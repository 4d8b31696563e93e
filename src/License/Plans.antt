-- ===== src/License/Plans.antt =====
-- `normalise_plan` of services/command-worker/command_worker.py and its tables; the interceptor's
-- `normalise_tier` in services/ai-interceptor/app/security.py folds the same way.
pub mod Stable
use openontology.Prelude.{String, List, [], ◌∷◌, Text, codes, strip, upper, replace_char, find}
use mathlib.Core.Option

abbrev pub canonical_plans : List Text
canonical_plans = codes "ENTERPRISE" ∷ codes "STANDARD" ∷ codes "COMMUNITY" ∷ []

abbrev pub plan_aliases : List (String × Text)
plan_aliases =
    ("SMALL_BUSINESS", codes "STANDARD")
    ∷ ("SMALLBUSINESS", codes "STANDARD")
    ∷ ("SMB", codes "STANDARD")
    ∷ ("BUSINESS", codes "STANDARD")
    ∷ ("FREE", codes "COMMUNITY")
    ∷ ("OSS", codes "COMMUNITY")
    ∷ []

abbrev pub autonomous_plans : List Text
autonomous_plans = codes "ENTERPRISE" ∷ []

-- `value.strip().upper().replace("-", "_").replace(" ", "_")`
unfoldable pub fold_plan : Text → Text
fold_plan value = replace_char b' ' b'_' (replace_char b'-' b'_' (upper (strip value)))

unfoldable pub normalise_plan : Text → Text
unfolding fold_plan
normalise_plan value = let plan = fold_plan value in Option.get_or (find plan plan_aliases) plan
