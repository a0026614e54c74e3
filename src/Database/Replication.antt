-- ===== src/Database/Replication.antt =====
-- ReplicationService, src/database/replication.service.ts: the positions of the two nodes in the
-- write-ahead log and the distance between them. The SQL statements are an argument; the time of
-- the report is left out.
pub mod Lag
pub mod Positions
mod Tests
use booking_hotel.Prelude.{
  ◌&&◌, ◌==◌, ◌%◌, zero, ◌||◌, suc, ltb, ◌/◌, ℕ, ◌+◌, ◌-◌, ◌*◌, ◌^◌, Bool, true, false, Option,
  none, some, List, [], ◌∷◌, JsString, leb, length, get_or, split, trim, if◌then◌else◌,
}
use booking_hotel.Runtime.Errors.{Error, Result, ok, err, message}
use booking_hotel.Runtime.Platform.{Platform, Query}
use booking_hotel.Runtime.World.{World, Config, on_primary, on_replica}
use booking_hotel.Runtime.Queries.{pure, ◌>>=◌}
use booking_hotel.Sharding.Key.{is_hex, hex_value}
use booking_hotel.Database.Router.Report.{RouterReport, get_state}

-- The rows of the statements that the report reads more of than their existence.
pub record PrimaryRow : Type 0 where
  pub in_recovery : Bool
  pub current_lsn : JsString

pub record ReplicaRow : Type 0 where
  pub in_recovery : Bool
  pub replay_lsn : Option JsString

pub record WalQueries (Db : Type 0) : Type 1 where
  pub Standby : Type 0
  pub Slot : Type 0
  pub primary_row : Query Db PrimaryRow
  pub standbys : Query Db (List Standby)
  pub slots : Query Db (List Slot)
  pub replica_row : Query Db ReplicaRow

pub data Probe (A : Type 0) : Type 0 where
  reachable : A → Probe A
  unreachable : JsString → Probe A

-- `null`, `NaN` or a number of bytes.
pub data Behind : Type 0 where
  unknown not_a_number : Behind
  bytes : ℕ → Behind

-- The digits at the front of `s`, read on from `n`.
unfoldable pub hex_from : ℕ → JsString → ℕ
hex_from n [] = n
hex_from n (d ∷ s) = let more = hex_from (n * 16 + hex_value d) s in if is_hex d then more else n

-- `parseInt(part, 16)` on a part of a `pg_lsn`, which has at most eight digits and no white space,
-- sign or prefix; `none` is NaN.
unfoldable pub parse_hex : JsString → Option ℕ
unfolding hex_from
parse_hex [] = none
parse_hex (d ∷ s) = if is_hex d then some (hex_from (hex_value d) s) else none

-- How many bits of `n` a double has no room for; the fuel is more than those of any position.
unfoldable pub spare_bits : ℕ → ℕ → ℕ
spare_bits zero n = 0
spare_bits (suc fuel) n =
    let more = spare_bits fuel (n / 2) in if ltb n (2 ^ 53) then 0 else suc more

abbrev rounds_up : ℕ → ℕ → ℕ → Bool
rounds_up q r unit = ltb unit (2 * r) || ((2 * r == unit) && (q % 2 == 1))

-- The multiple of `unit` next to `n`, the even one of two.
unfoldable pub rounded : ℕ → ℕ → ℕ
rounded n unit = (n / unit + (if rounds_up (n / unit) (n % unit) unit then 1 else 0)) * unit

-- The double next to `n`.
unfoldable pub to_double : ℕ → ℕ
unfolding spare_bits rounded
to_double n = rounded n (2 ^ spare_bits 64 n)

abbrev pub position : Option ℕ → Option ℕ → Option ℕ
position (some hi) (some lo) = some (to_double (hi * 2 ^ 32 + lo))
position _ _ = none

abbrev position_of : List JsString → Option ℕ
position_of (hi ∷ lo ∷ parts) = position (parse_hex hi) (parse_hex lo)
position_of _ = none

-- `lsnToNumber`, of a text with the separator `/`. The sum is rounded to a double; the product with
-- 2 ^ 32 is exact.
unfoldable pub lsn_to_number : JsString → Option ℕ
unfolding parse_hex split to_double
lsn_to_number lsn = position_of (split b'/' lsn)

-- `Math.max(0, a - b)`, a difference of doubles.
abbrev pub distance : Option ℕ → Option ℕ → Behind
distance (some a) (some b) = bytes (to_double (a - b))
distance _ _ = not_a_number

-- `primaryLsn && replicaLsn ? … : null`
unfoldable pub behind_bytes : Option JsString → Option JsString → Behind
unfolding lsn_to_number
behind_bytes (some (x ∷ p)) (some (y ∷ r)) =
    distance (lsn_to_number (x ∷ p)) (lsn_to_number (y ∷ r))
behind_bytes _ _ = unknown

-- `behindBytes === null ? null : behindBytes <= 0`
unfoldable pub caught_up : Behind → Option Bool
caught_up unknown = none
caught_up not_a_number = some false
caught_up (bytes n) = some (leb n 0)

-- `safe`: the last line of the message stands for the error.
unfoldable pub safe : {A : Type 0} → Result A → Probe A
unfolding split trim
safe (ok a) = reachable a
safe (err e) =
    let lines = split 10 (trim (message e)) in unreachable (get_or lines (length lines - 1) [])

module _ (P : Platform) (c : Config) (wal : WalQueries P.prisma.Db) where
  pub record PrimaryStatus : Type 0 where
    pub node : PrimaryRow
    pub standbys : List wal.Standby
    pub slots : List wal.Slot

  -- The report; `replica` is `none` where no Replica is configured.
  pub record ReplicationReport : Type 0 where
    pub router : RouterReport
    pub behind : Behind
    pub caught_up : Option Bool
    pub primary : Probe PrimaryStatus
    pub replica : Option (Probe ReplicaRow)

  unfoldable pub primary_queries : Query P.prisma.Db PrimaryStatus
  primary_queries = do
    node ← wal.primary_row
    standbys ← wal.standbys
    slots ← wal.slots
    pure (record { node = node; standbys = standbys; slots = slots })

  unfoldable pub primary_status : World P → Probe PrimaryStatus × World P
  unfolding safe
  primary_status w = let (r, w') = on_primary primary_queries w in (safe r, w')

  unfoldable pub replica_status : World P → Probe ReplicaRow × World P
  unfolding safe
  replica_status w = let (r, w') = on_replica wal.replica_row w in (safe r, w')

  abbrev pub primary_lsn : Probe PrimaryStatus → Option JsString
  primary_lsn (reachable s) = some s.node.current_lsn
  primary_lsn (unreachable e) = none

  abbrev pub replica_lsn : Option (Probe ReplicaRow) → Option JsString
  replica_lsn (some (reachable row)) = row.replay_lsn
  replica_lsn _ = none

  abbrev pub report_of :
      Probe PrimaryStatus → Option (Probe ReplicaRow) → World P → ReplicationReport
  report_of primary replica w =
      let behind = behind_bytes (primary_lsn primary) (replica_lsn replica) in
      record {
        router = get_state P c w;
        behind = behind;
        caught_up = caught_up behind;
        primary = primary;
        replica = replica;
      }

  -- `status`; the two nodes are asked at once, and have nothing in common.
  unfoldable pub status : World P → ReplicationReport × World P
  unfolding primary_status replica_status
  status w =
      let (primary, w1) = primary_status w in
      if c.replica_enabled
      then (let (replica, w2) = replica_status w1 in (report_of primary (some replica) w2, w2))
      else (report_of primary none w1, w1)
