-- ===== src/Runtime/Queries.antt =====
-- Callbacks on one client, in sequence.
use booking_hotel.Prelude.{arith, ◌≡◌}
use booking_hotel.Runtime.Errors.{Error, ok, err}
use booking_hotel.Runtime.Platform.{Query}

module _ {Db : Type 0} where
  abbrev pub pure : {A : Type 0} → A → Query Db A
  pure a db = (ok a, db)

  abbrev pub throw : {A : Type 0} → Error → Query Db A
  throw e db = (err e, db)

  infixl 5 ◌>>=◌ ◌>>◌
  abbrev pub ◌>>=◌ : {A B : Type 0} → Query Db A → (A → Query Db B) → Query Db B
  ◌>>=◌ m f db = let (r, db') = m db in elim r [ ok a ↦ f a db' | err e ↦ (err e, db') ]

  abbrev pub ◌>>◌ : {A B : Type 0} → Query Db A → Query Db B → Query Db B
  m >> k = m >>= λ _. k

  pub bind_ok :
      {A B : Type 0} (m : Query Db A) (f : A → Query Db B) (db : Db) (a : A)
      → (m db).0 ≡ ok a
      → (m >>= f) db ≡ f a (m db).1
  bind_ok m f db a e = ground (arith, e)

  pub bind_err :
      {A B : Type 0} (m : Query Db A) (f : A → Query Db B) (db : Db) (x : Error)
      → (m db).0 ≡ err x
      → (m >>= f) db ≡ (err x, (m db).1)
  bind_err m f db x e = ground (arith, e)
