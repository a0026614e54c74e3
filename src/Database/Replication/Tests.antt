-- ===== src/Database/Replication/Tests.antt =====
-- A Primary at 2/3000148 and a Replica at 1/FF in the log.
use booking_hotel.Prelude.{
  split, ◌≡◌, ◌↔◌, ◌+◌, ◌*◌, ◌-◌, ◌^◌, ◌≤◌, true, false, some, refl, arith, [], ◌∷◌,
}
use booking_hotel.Schema.{Tables}
use booking_hotel.Runtime.Errors.{ok}
use booking_hotel.Runtime.Memory.{memory}
use booking_hotel.Runtime.Sample.{sample_config, sample_world}
use booking_hotel.Database.Replication.{
  rounded, spare_bits, to_double, hex_from, parse_hex, primary_queries, WalQueries, PrimaryRow,
  ReplicaRow, PrimaryStatus, status, bytes, lsn_to_number,
}
use booking_hotel.Database.Replication.Positions.{lsn_text, lsn_to_number-lsn_text}
use booking_hotel.Database.Replication.Lag.{status-lag}

abbrev primary_node : PrimaryRow
primary_node = record { in_recovery = false; current_lsn = lsn_text 2 50331976 }

abbrev replica_node : ReplicaRow
replica_node = record { in_recovery = true; replay_lsn = some (lsn_text 1 255) }

abbrev sample_wal : WalQueries Tables
sample_wal = record {
  Standby = Unit {0};
  Slot = Unit {0};
  primary_row = λ t. (ok primary_node, t);
  standbys = λ t. (ok (tt ∷ []), t);
  slots = λ t. (ok [], t);
  replica_row = λ t. (ok replica_node, t);
}

abbrev answered : PrimaryStatus memory sample_config sample_wal
answered = record { node = primary_node; standbys = tt ∷ []; slots = [] }

primary_answers :
    (primary_queries memory sample_config sample_wal sample_world.primary_db).0 ≡ ok answered
unfolding primary_queries
primary_answers = refl

status-lag_example :
    let report = (status memory sample_config sample_wal sample_world).0 in
    (report.behind ≡ bytes (2 * 2 ^ 32 + 50331976 - (1 * 2 ^ 32 + 255)))
    × ((report.caught_up ≡ some true) ↔ (2 * 2 ^ 32 + 50331976 ≤ 1 * 2 ^ 32 + 255))
status-lag_example =
    status-lag memory sample_config sample_wal sample_world answered replica_node 2 50331976 1 255
      refl primary_answers refl refl refl (omega arith) (omega arith) (omega arith) (omega arith)

-- From 2 ^ 53 on two positions can be read as one: 200000/1 is read as 200000/0.
indistinct : lsn_to_number (lsn_text 2097152 1) ≡ lsn_to_number (lsn_text 2097152 0)
unfolding lsn_to_number parse_hex hex_from to_double spare_bits rounded split
indistinct = refl

lsn_to_number-lsn_text_example : lsn_to_number (lsn_text 2 50331976) ≡ some (2 * 2 ^ 32 + 50331976)
lsn_to_number-lsn_text_example = lsn_to_number-lsn_text 2 50331976 (omega arith) (omega arith)
