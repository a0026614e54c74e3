-- ===== src/Bookings/Transactions/Atomicity.antt =====
-- The retry loop keeps the transaction atomic.
use booking_hotel.Bookings.Transactions.{
  is_conflict, serialization_retries, serializable, serializable_from,
}
use booking_hotel.Runtime.Errors.{Result-cases, err, ok, Result}
use booking_hotel.Prelude.{Bool-cases, ◌-◌, inr, inl, zero, suc, ◌∙◌, arith, ◌≡◌, ◌≤◌, ℕ}
use booking_hotel.Runtime.Platform.{Prisma, PrismaLaws, Query}

-- What a database operation has done by the end: one run of `fn` on the tables as they were is
-- committed, or nothing is.
abbrev pub Atomic :
    (D : Prisma) {A : Type 0} (fn : ℕ → Query D.Db A) (bound : ℕ) → D.Db → Result A × D.Db → Type 0
Atomic D fn bound db (ok a, db') =
    (left : ℕ) × (start : D.Db) × (left ≤ bound)
    × (D.tables start ≡ D.tables db)
    × ((fn left start).0 ≡ ok a)
    × (D.tables db' ≡ D.tables (fn left start).1)
Atomic D fn bound db (err e, db') = D.tables db' ≡ D.tables db

module _ (D : Prisma) (laws : PrismaLaws D) {A : Type 0} (fn : ℕ → Query D.Db A) where
  committed :
      (left : ℕ) (db : D.Db) (a : A)
      → (D.transaction A (fn left) db).0 ≡ ok a
      → Atomic D fn left db (ok a, (D.transaction A (fn left) db).1)
  committed left db a e =
      let (start, same, ran, out) = laws.transaction_ok A (fn left) db a e in
      (left, start, omega arith, same, ran, out)

  -- From a state with the same tables, and with fewer attempts left.
  Atomic-weaken :
      (left bound : ℕ) (db db0 : D.Db) (out : Result A × D.Db)
      → left ≤ bound
      → D.tables db ≡ D.tables db0
      → Atomic D fn left db out
      → Atomic D fn bound db0 out
  Atomic-weaken left bound db db0 (ok a, db') le same (k, start, klt, s, ran, t) =
      (k, start, omega arith, s ∙ same, ran, t)
  Atomic-weaken left bound db db0 (err e, db') le same h = h ∙ same

  serializable_from-Atomic :
      (left : ℕ) (db : D.Db) → Atomic D fn left db (serializable_from D fn left db)
  unfolding serializable_from
  serializable_from-Atomic zero db = elim (Result-cases (D.transaction A (fn zero) db).0) [
    | inl (a, e) ↦ rw (e, serializable_from) (committed zero db a e)
    | inr (x, e) ↦ elim (Bool-cases (is_conflict x)) [
      | inl again ↦
          rw (e, serializable_from)
            (rw (again, serializable_from) (laws.transaction_err A (fn zero) db x e))
      | inr other ↦
          rw (e, serializable_from)
            (rw (other, serializable_from) (laws.transaction_err A (fn zero) db x e))
    ]
  ]
  serializable_from-Atomic (suc left) db =
      elim (Result-cases (D.transaction A (fn (suc left)) db).0) [
        | inl (a, e) ↦ rw (e, serializable_from) (committed (suc left) db a e)
        | inr (x, e) ↦
            let db' = (D.transaction A (fn (suc left)) db).1 in
            let same = laws.transaction_err A (fn (suc left)) db x e in
            elim (Bool-cases (is_conflict x)) [
              | inl again ↦
                  rw (e, serializable_from)
                    (rw (again, serializable_from)
                      (Atomic-weaken left (suc left) db' db (serializable_from D fn left db')
                        (omega arith) same (serializable_from-Atomic left db')))
              | inr other ↦ rw (e, serializable_from) (rw (other, serializable_from) same)
            ]
      ]

  -- A Serializable transaction with retries commits one of at most five runs of its callback, made
  -- on the tables as they were, or rejects and leaves the tables alone.
  pub serializable-Atomic :
      (db : D.Db) → Atomic D fn (serialization_retries - 1) db (serializable D fn db)
  unfolding serializable
  serializable-Atomic db = serializable_from-Atomic (serialization_retries - 1) db
