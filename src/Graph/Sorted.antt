-- ===== src/Graph/Sorted.antt =====
-- The order of the scores of `evaluate_channels`.
use openontology.Prelude.{eq_string, eq_pair, eq_text}
