-- ===== src/Graph/Channels.antt =====
-- `CHANNEL_LIMITS` and `evaluate_channels` of services/graphrag-interceptor/graphrag_interceptor.py.
-- Limits and readings are in millionths of the channel's unit.
use openontology.Prelude.{
  ltb, ◌==◌, eq_string, eq_pair, Text, eq_text, find, ℕ, String, Bool, true, false, ◌&&◌, ◌||◌,
  Option, none, some, List, [], ◌∷◌, map,
}
use openontology.Prelude.Sort.{sort_by}
use openontology.Prelude.TextOrder.{text_lt}
use openontology.OrderedDict.{Entries}
use openontology.Topology.{Band, band_rank, ChannelLimit, band, unknown}

abbrev pub limit : (warn critical hard : ℕ) → Bool → ChannelLimit
limit warn critical hard physical = record {
  warn_at = warn;
  critical_at = critical;
  hard_at = hard;
  physical = physical;
}

-- `CHANNEL_LIMITS`
abbrev pub channel_limits : List (String × ChannelLimit)
channel_limits =
    ("vibration_index", limit 4500000 7000000 9500000 true)
    ∷ ("temperature_celsius", limit 85000000 110000000 130000000 true)
    ∷ ("pressure_bar", limit 12000000 16000000 19000000 true)
    ∷ ("flow_deviation_pct", limit 8000000 18000000 30000000 true)
    ∷ ("rpm_deviation_pct", limit 5000000 12000000 20000000 true)
    ∷ ("current_draw_amps", limit 60000000 85000000 110000000 true)
    ∷ ("acoustic_emission_db", limit 78000000 92000000 105000000 true)
    ∷ ("oil_particulate_ppm", limit 120000000 260000000 400000000 true)
    ∷ ("torque_nm", limit 320000000 420000000 500000000 true)
    ∷ ("differential_pressure_bar", limit 1500000 2800000 4000000 true)
    ∷ ("crdt_collision_rate", limit 50000 150000 350000 false)
    ∷ ("lamport_skew_ops", limit 25000000 120000000 400000000 false)
    ∷ ("replica_lag_seconds", limit 30000000 300000000 1800000000 false)
    ∷ []

-- `CHANNEL_LIMITS.get(channel)`
unfoldable pub limit_of : Text → Option ChannelLimit
limit_of channel = find channel channel_limits

pub record Exceedance : Type 0 where
  pub channel : Text
  pub value : ℕ
  pub in_band : Band
  pub against : Option ChannelLimit
  pub node : Text

-- `Exceedance.physical`
abbrev pub is_physical : Exceedance → Bool
is_physical item = elim item.against [ none ↦ true | some l ↦ l.physical ]

abbrev pub band_of : Option ChannelLimit → ℕ → Band
band_of none value = unknown
band_of (some l) value = band l value

abbrev pub score : Text → Text × ℕ → Exceedance
score node (channel, value) = record {
  channel = channel;
  value = value;
  in_band = band_of (limit_of channel) value;
  against = limit_of channel;
  node = node;
}

abbrev pub rank : Exceedance → ℕ
rank item = band_rank item.in_band

-- whether the sort key `(-rank, channel)` of the first is the smaller one
abbrev pub precedes : Exceedance → Exceedance → Bool
precedes x y = ltb (rank y) (rank x) || ((rank x == rank y) && text_lt x.channel y.channel)

-- `evaluate_channels`
unfoldable pub evaluate_channels : Entries Text ℕ → (node : Text) → List Exceedance
unfolding sort_by limit_of band
evaluate_channels readings node = sort_by precedes (map (score node) readings)
