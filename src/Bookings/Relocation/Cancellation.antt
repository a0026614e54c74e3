-- ===== src/Bookings/Relocation/Cancellation.antt =====
-- T2 of the saga: the old booking is cancelled on its shard, or nothing happens there.
use booking_hotel.Bookings.Relocation.Ends.{change_none, changed, Holds, Setting}
use mathlib.Core.Path.{subst}
use booking_hotel.Sharding.Router.Isolation.{Wrote, write_shard-Wrote}
use booking_hotel.Sharding.Router.{write_shard}
use booking_hotel.Bookings.Relocation.{require_cancelled, cancel_original, is_active_original}
use booking_hotel.Bookings.Service.{with_status}
use booking_hotel.Runtime.World.{World, Config}
use booking_hotel.Schema.{cancelled, Booking, Tables}
use booking_hotel.Runtime.Platform.{Query, Platform}
use booking_hotel.Runtime.Errors.{Result-cases, Result, ok, err}
use booking_hotel.Prelude.{
  zero, suc, false, ◌∙◌, sym, ap, true, ◌<◌, refl, inr, arith, inl, keep, length, ◌≡◌, List, ℕ,
  Bool,
}

module _ {P : Platform} {c : Config} (g : Setting P c) where
  open g use {laws, on, source, target, apart, source_tables, target_tables, id, d, final}

  abbrev tables_of : P.prisma.Db → Tables
  tables_of = P.prisma.tables

  -- What T2 has done, by how it ended.
  abbrev pub Cancelled : P.prisma.Db → P.prisma.Db → Result (Unit {0}) × World P → Type 0
  Cancelled sdb tdb (ok _, w') =
      (sdb' : P.prisma.Db) × Holds source w' sdb'
      × Holds target w' tdb
      × (tables_of sdb' ≡ changed (is_active_original id) cancelled (tables_of sdb))
      × (0 < length (keep (is_active_original id) (tables_of sdb).bookings))
  Cancelled sdb tdb (err e, w') =
      (sdb' : P.prisma.Db) × Holds source w' sdb'
      × Holds target w' tdb
      × (tables_of sdb' ≡ tables_of sdb)

  abbrev pub cancelling : Query P.prisma.Db ℕ
  cancelling = P.prisma.booking.update_many (is_active_original id) (with_status cancelled)

  cancel_count :
      (n : ℕ) (w w1 : World P) (sdb tdb : P.prisma.Db)
      → Wrote source cancelling w sdb (ok n, w1)
      → Holds target w tdb
      → Cancelled sdb tdb (require_cancelled P c n w1)
  cancel_count zero w w1 sdb tdb wrote ht =
      let (n, t) =
        laws.booking.update_many_ok (is_active_original id) (with_status cancelled) sdb 0
          (wrote.value 0 refl) in
      let none_meant =
        change_none (is_active_original id) (with_status cancelled) (tables_of sdb).bookings
          (sym n) in
      (
        (cancelling sdb).1,
        wrote.here,
        wrote.others target apart ∙ ht,
        t ∙ ap (λ (l : List Booking). record (tables_of sdb) { bookings = l }) none_meant,
      )
  cancel_count (suc n) w w1 sdb tdb wrote ht =
      let (m, t) =
        laws.booking.update_many_ok (is_active_original id) (with_status cancelled) sdb (suc n)
          (wrote.value (suc n) refl) in
      ((cancelling sdb).1, wrote.here, wrote.others target apart ∙ ht, t, omega (arith, m))

  pub cancel_original-Cancelled :
      (simulate_failure : Bool) (w : World P) (sdb tdb : P.prisma.Db)
      → Holds source w sdb
      → Holds target w tdb
      → Cancelled sdb tdb (cancel_original P c source id simulate_failure w)
  unfolding cancel_original
  cancel_original-Cancelled true w sdb tdb hs ht = (sdb, hs, ht, refl)
  cancel_original-Cancelled false w sdb tdb hs ht =
      let wrote : Wrote source cancelling w sdb (write_shard P c source cancelling w) =
        write_shard-Wrote P c source cancelling w sdb on hs in
      let w1 = (write_shard P c source cancelling w).1 in
      elim (Result-cases (write_shard P c source cancelling w).0) [
        | inl (n, r) ↦
            let eq : cancel_original P c source id false w ≡ require_cancelled P c n w1 =
              ground arith in
            subst (Cancelled sdb tdb) (sym eq) (
              cancel_count n w w1 sdb tdb
                (subst (Wrote source cancelling w sdb) (ap (λ (q : Result ℕ). (q, w1)) r) wrote) ht)
        | inr (x, r) ↦
            let eq : cancel_original P c source id false w ≡ (err x, w1) = ground arith in
            let (y, failed_with) = wrote.error x r in
            subst (Cancelled sdb tdb) (sym eq) (
              (cancelling sdb).1,
              wrote.here,
              wrote.others target apart ∙ ht,
              laws.booking.update_many_err (is_active_original id) (with_status cancelled) sdb y
                  failed_with,
            )
      ]
