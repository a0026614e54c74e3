-- ===== src/Bookings/Transactions/Progress.antt =====
-- The attempts of the retry loop, src/bookings/bookings.service.ts.
use booking_hotel.Bookings.Transactions.{
  is_conflict, retry_error, serialization_retries, serializable, serializable_from,
}
use booking_hotel.Prelude.{
  ◌≡◌, ◌⊎◌, inl, inr, ℕ, zero, suc, true, false, refl, arith, Bool-cases, ◌∙◌, ◌-◌,
}
use booking_hotel.Runtime.Errors.{Error, Result, Result-cases, ok, err}
use booking_hotel.Runtime.Platform.{Prisma, Query}

-- The answer of an attempt after which the loop tries again, if it may.
abbrev pub Conflict : {A : Type 0} → Result A → Type 0
Conflict (ok a) = ⊥
Conflict (err e) = is_conflict e ≡ true

Conflict-cases : {A : Type 0} (r : Result A) → Conflict r ⊎ (Conflict r → ⊥)
Conflict-cases (ok a) = inr (λ h. h)
Conflict-cases (err e) = elim (Bool-cases (is_conflict e)) [
  | inl is ↦ inl is
  | inr not_one ↦ inr (λ h. absurd (ground (arith, h, not_one)))
]

calm_error :
    {A : Type 0} (r : Result A) (x : Error) → r ≡ err x → (Conflict r → ⊥) → is_conflict x ≡ false
calm_error (ok a) x e calm = absurd (ground (arith, e))
calm_error (err y) x e calm = elim (Bool-cases (is_conflict y)) [
  | inl is ↦ absurd (calm is)
  | inr not_one ↦ ground (arith, e, not_one)
]

Conflict-error :
    {A : Type 0} (r : Result A) → Conflict r → (x : Error) × (r ≡ err x) × (is_conflict x ≡ true)
Conflict-error (ok a) h = absurd h
Conflict-error (err e) h = (e, refl, h)

module _ (D : Prisma) {A : Type 0} (fn : ℕ → Query D.Db A) where
  abbrev pub attempt : ℕ → Query D.Db A
  attempt left = D.transaction A (fn left)

  -- The attempts after which `from`, `from - 1`, … may follow, down to the one before `to`, have all
  -- met a conflict.
  pub data Retries (to : ℕ) (db' : D.Db) : ℕ → D.Db → Type 0 where
    no_more : Retries to db' to db'
    retried :
        {from : ℕ} {db : D.Db}
        → Conflict (attempt (suc from) db).0
        → Retries to db' from (attempt (suc from) db).1
        → Retries to db' (suc from) db

  -- How the loop ends with `from` further attempts allowed: with the answer of the first attempt
  -- that meets no conflict, or, where all have met one, with the error for a lasting conflict.
  abbrev pub Ends : ℕ → D.Db → Type 0
  Ends from db =
      (left : ℕ) × (db' : D.Db) × Retries left db' from db
      × (((Conflict (attempt left db').0 → ⊥) × (serializable_from D fn from db ≡ attempt left db'))
          ⊎ ((left ≡ 0)
              × Conflict (attempt left db').0
              × (serializable_from D fn from db ≡ (err retry_error, (attempt left db').1))))

  first_settled :
      (n : ℕ) (db : D.Db)
      → (Conflict (attempt n db).0 → ⊥)
      → serializable_from D fn n db ≡ attempt n db
  unfolding serializable_from
  first_settled zero db calm = elim (Result-cases (attempt 0 db).0) [
    | inl (a, e) ↦ ground (arith, e)
    | inr (x, e) ↦
        let other : is_conflict x ≡ false = calm_error (attempt 0 db).0 x e calm in
        ground (arith, e, other)
  ]
  first_settled (suc n) db calm = elim (Result-cases (attempt (suc n) db).0) [
    | inl (a, e) ↦ ground (arith, e)
    | inr (x, e) ↦
        let other : is_conflict x ≡ false = calm_error (attempt (suc n) db).0 x e calm in
        ground (arith, e, other)
  ]

  tried_again :
      (n : ℕ) (db : D.Db)
      → Conflict (attempt (suc n) db).0
      → serializable_from D fn (suc n) db ≡ serializable_from D fn n (attempt (suc n) db).1
  unfolding serializable_from
  tried_again n db h =
      let (x, e, again) = Conflict-error (attempt (suc n) db).0 h in ground (arith, e, again)

  given_up :
      (db : D.Db)
      → Conflict (attempt 0 db).0
      → serializable_from D fn 0 db ≡ (err retry_error, (attempt 0 db).1)
  unfolding serializable_from
  given_up db h = let (x, e, again) = Conflict-error (attempt 0 db).0 h in ground (arith, e, again)

  serializable_from-Ends : (from : ℕ) (db : D.Db) → Ends from db
  serializable_from-Ends zero db = elim (Conflict-cases (attempt 0 db).0) [
    | inl h ↦ (0, db, no_more, inr (refl, h, given_up db h))
    | inr calm ↦ (0, db, no_more, inl (calm, first_settled 0 db calm))
  ]
  serializable_from-Ends (suc n) db = elim (Conflict-cases (attempt (suc n) db).0) [
    | inr calm ↦ (suc n, db, no_more, inl (calm, first_settled (suc n) db calm))
    | inl h ↦
        let step = tried_again n db h in
        let (left, db', tries, end) = serializable_from-Ends n (attempt (suc n) db).1 in
        elim end [
          | inl (calm, eq) ↦ (left, db', retried h tries, inl (calm, step ∙ eq))
          | inr (last, h', eq) ↦ (left, db', retried h tries, inr (last, h', step ∙ eq))
        ]
  ]

  -- A Serializable transaction with retries ends after at most five attempts, whatever the database
  -- answers: with the answer and the state of the first attempt that meets no conflict, all before
  -- it having met one, or, where all five have met one, with 409.
  pub serializable-Ends :
      (db : D.Db)
      → (left : ℕ) × (db' : D.Db) × Retries left db' (serialization_retries - 1) db
        × (((Conflict (attempt left db').0 → ⊥) × (serializable D fn db ≡ attempt left db'))
            ⊎ ((left ≡ 0)
                × Conflict (attempt left db').0
                × (serializable D fn db ≡ (err retry_error, (attempt left db').1))))
  unfolding serializable
  serializable-Ends db = serializable_from-Ends (serialization_retries - 1) db
