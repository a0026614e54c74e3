-- ===== src/Database/Replication/Lag.antt =====
-- The distance between the two nodes in the report, src/database/replication.service.ts.
use mathlib.Core.Path.{subst}
use booking_hotel.Prelude.{
  inl, inr, Bool-cases, sym, if◌then◌else◌, false, Option, ◌∙◌, ◌⊎◌, ℕ, ◌+◌, ◌-◌, ◌*◌, ◌^◌, ◌<◌,
  ◌≤◌, ◌≡◌, ◌↔◌, true, none, some, [], ◌∷◌, JsString, refl, arith,
}
use booking_hotel.Runtime.Errors.{Error, ok, err}
use booking_hotel.Runtime.Platform.{Platform}
use booking_hotel.Runtime.World.{World, Config, on_primary, on_replica}
use booking_hotel.Database.Replication.{
  WalQueries, ReplicaRow, PrimaryStatus, Probe, Behind, unknown, bytes, lsn_to_number, behind_bytes,
  caught_up, safe, primary_queries, primary_status, replica_status, status, report_of, primary_lsn,
  replica_lsn,
}
use booking_hotel.Database.Replication.Positions.{to_double-exact, lsn_text, lsn_to_number-lsn_text}

behind_bytes-numbers :
    (p r : JsString) (a b : ℕ)
    → lsn_to_number p ≡ some a
    → lsn_to_number r ≡ some b
    → a < 2 ^ 53
    → behind_bytes (some p) (some r) ≡ bytes (a - b)
unfolding behind_bytes lsn_to_number
behind_bytes-numbers [] r a b e f lt = absurd (ground (arith, e))
behind_bytes-numbers (x ∷ p) [] a b e f lt = absurd (ground (arith, f))
behind_bytes-numbers (x ∷ p) (y ∷ r) a b e f lt =
    rw (e, f, to_double-exact (a - b) (omega (arith, lt))) refl

caught_up-bytes : (a b : ℕ) → (caught_up (bytes (a - b)) ≡ some true) ↔ (a ≤ b)
unfolding caught_up
caught_up-bytes a b = ground arith

no_primary : (r : Option JsString) → behind_bytes none r ≡ unknown
unfolding behind_bytes
no_primary r = refl

no_replica : (p : Option JsString) → behind_bytes p none ≡ unknown
unfolding behind_bytes
no_replica none = refl
no_replica (some []) = refl
no_replica (some (x ∷ p)) = refl

module _ (P : Platform) (c : Config) (wal : WalQueries P.prisma.Db) (w : World P) where
  abbrev pub asked_primary : Probe (PrimaryStatus P c wal)
  asked_primary = safe (primary_queries P c wal w.primary_db).0

  abbrev pub asked_replica : Probe ReplicaRow
  asked_replica = safe (wal.replica_row w.replica_db).0

  status-on :
      c.replica_enabled ≡ true
      → (x : World P) × ((status P c wal w).0
          ≡ report_of P c wal asked_primary (some asked_replica) x)
  unfolding status primary_status replica_status on_primary on_replica
  status-on on = ((replica_status P c wal (primary_status P c wal w).1).1, rw on refl)

  status-off :
      c.replica_enabled ≡ false
      → (x : World P) × ((status P c wal w).0 ≡ report_of P c wal asked_primary none x)
  unfolding status primary_status on_primary
  status-off off = ((primary_status P c wal w).1, rw off refl)

  -- Where both nodes answer, with positions below 2 ^ 53 that PostgreSQL has written, the report
  -- gives the bytes that the Replica is behind, 0 where it is not, and says that it has caught up
  -- exactly where its position is that of the Primary or beyond.
  pub status-lag :
      (s : PrimaryStatus P c wal) (row : ReplicaRow) (ph pl rh rl : ℕ)
      → c.replica_enabled ≡ true
      → (primary_queries P c wal w.primary_db).0 ≡ ok s
      → (wal.replica_row w.replica_db).0 ≡ ok row
      → s.node.current_lsn ≡ lsn_text ph pl
      → row.replay_lsn ≡ some (lsn_text rh rl)
      → ph < 2 ^ 21
      → pl < 2 ^ 32
      → rh < 2 ^ 21
      → rl < 2 ^ 32
      → let report = (status P c wal w).0 in
        (report.behind ≡ bytes (ph * 2 ^ 32 + pl - (rh * 2 ^ 32 + rl)))
        × ((report.caught_up ≡ some true) ↔ (ph * 2 ^ 32 + pl ≤ rh * 2 ^ 32 + rl))
  status-lag s row ph pl rh rl on answered read at_primary at_replica h1 h2 h3 h4 =
      let a = ph * 2 ^ 32 + pl in
      let b = rh * 2 ^ 32 + rl in
      let distance =
        behind_bytes-numbers (lsn_text ph pl) (lsn_text rh rl) a b
          (lsn_to_number-lsn_text ph pl h1 h2) (lsn_to_number-lsn_text rh rl h3 h4)
          (omega (arith, h1, h2)) in
      let (x, eq) = status-on on in
      let asked : behind_bytes (primary_lsn P c wal asked_primary)
            (replica_lsn P c wal (some asked_replica))
          ≡ behind_bytes (some (lsn_text ph pl)) (some (lsn_text rh rl)) =
        unfold safe in rw (answered, read, at_primary, at_replica) refl in
      rw eq (
        asked ∙ distance,
        subst (λ (n : Behind). (caught_up n ≡ some true) ↔ (a ≤ b)) (sym (asked ∙ distance))
            (caught_up-bytes a b),
      )

  -- Where a node does not answer, or no Replica is configured, the distance is unknown, and the
  -- report still says what each node that was asked has answered.
  pub status-unknown :
      (e : Error)
      → ((primary_queries P c wal w.primary_db).0 ≡ err e)
        ⊎ ((c.replica_enabled ≡ false) ⊎ ((wal.replica_row w.replica_db).0 ≡ err e))
      → let report = (status P c wal w).0 in
        (report.behind ≡ unknown)
        × (report.caught_up ≡ none)
        × (report.primary ≡ asked_primary)
        × (report.replica ≡ (if c.replica_enabled then some asked_replica else none))
  unfolding caught_up
  status-unknown e lost = elim (Bool-cases c.replica_enabled) [
    | inr off ↦
        let (x, eq) = status-off off in
        let far = no_replica (primary_lsn P c wal asked_primary) in
        rw eq (far, rw far refl, refl, rw off refl)
    | inl on ↦
        let (x, eq) = status-on on in
        let far : behind_bytes (primary_lsn P c wal asked_primary)
              (replica_lsn P c wal (some asked_replica))
            ≡ unknown =
          elim lost [
            | inl f ↦ unfold safe in rw f (no_primary (replica_lsn P c wal (some asked_replica)))
            | inr (inl off) ↦ absurd (ground (arith, on, off))
            | inr (inr f) ↦ unfold safe in rw f (no_replica (primary_lsn P c wal asked_primary))
          ] in
        rw eq (far, rw far refl, refl, rw on refl)
  ]
