-- ===== src/Tests/Topology.antt =====
-- Runs of the topology kernel.
use openontology.Prelude.{eq_string, eq_pair, codes, eq_text, true}
use openontology.Topology.{ChannelLimit, ReplicaObservation}

abbrev vibration : ChannelLimit
vibration = record { warn_at = 45; critical_at = 70; hard_at = 95; physical = true }

abbrev added : ReplicaObservation
added = record { replica_id = codes "r1"; add_stamp = 9; remove_stamp = 0 }

abbrev removed : ReplicaObservation
removed = record { replica_id = codes "r2"; add_stamp = 3; remove_stamp = 9 }

abbrev readded : ReplicaObservation
readded = record { replica_id = codes "r3"; add_stamp = 10; remove_stamp = 9 }
