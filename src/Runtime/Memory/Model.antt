-- ===== src/Runtime/Memory/Model.antt =====
-- A model of a Prisma client on tables in memory, with the laws of a model.
use mathlib.Core.Path.{subst}
use booking_hotel.Schema.{Tables}
use booking_hotel.Runtime.Errors.{Error, ok, err, known_request}
use booking_hotel.Runtime.Platform.{Query, Delegate, DelegateLaws, Finds, In, change}
use booking_hotel.Prelude.{
  sym, ◌≡◌, ◌↔◌, Bool, true, false, not, Option, none, some, List, [], ◌∷◌, ◌++◌, keep, length,
  if◌then◌else◌, any, All, inl, inr, refl, arith, Bool-cases,
}

abbrev pub missing_row : Error
missing_row = known_request (80 ∷ 50 ∷ 48 ∷ 50 ∷ 53 ∷ []) []

abbrev pub taken_key : Error
taken_key = known_request (80 ∷ 50 ∷ 48 ∷ 48 ∷ 50 ∷ []) []

module _ {Row : Type 0} where
  abbrev pub first : (Row → Bool) → List Row → Option Row
  first p [] = none
  first p (r ∷ rows) = if p r then some r else first p rows

  first-Finds : (p : Row → Bool) (rows : List Row) → Finds p rows (first p rows)
  first-Finds p [] = tt
  first-Finds p (r ∷ rows) = elim (Bool-cases (p r)) [
    | inl e ↦ rw e (inl refl, e)
    | inr e ↦ rw e (weaken (first p rows) (first-Finds p rows) e)
  ]
    where
      weaken : (o : Option Row) → Finds p rows o → p r ≡ false → Finds p (r ∷ rows) o
      weaken none h e = (e, h)
      weaken (some x) (m, h) e = (inr m, h)

  keep-In :
      (p : Row → Bool) (rows : List Row) (r : Row) → In r (keep p rows) → In r rows × (p r ≡ true)
  keep-In p [] r h = absurd h
  keep-In p (x ∷ rows) r h = ground (arith, keep-In p rows r)

  In-keep :
      (p : Row → Bool) (rows : List Row) (r : Row) → In r rows → p r ≡ true → In r (keep p rows)
  In-keep p [] r h e = absurd h
  In-keep p (x ∷ rows) r h e = ground (arith, In-keep p rows r)

pub any-false-All {ℓ} :
    {A : Type ℓ} (p : A → Bool) (xs : List A) → any p xs ≡ false → All (λ x. p x ≡ false) xs
any-false-All p [] h = tt
any-false-All p (x ∷ xs) h = elim (Bool-cases (p x)) [
  | inl e ↦ absurd (ground (arith, e, h))
  | inr e ↦ (e, any-false-All p xs (ground (arith, e, h)))
]

module _ {Row Data : Type 0} (get : Tables → List Row) (put : List Row → Tables → Tables)
    (row : Data → Row) (taken : Data → Row → Bool) where
  abbrev create_free : Data → Bool → Query Tables Row
  create_free d true t = (err taken_key, t)
  create_free d false t = (ok (row d), put (get t ++ row d ∷ []) t)

  abbrev update_found : (Row → Bool) → (Row → Row) → Option Row → Query Tables Row
  update_found p f none t = (err missing_row, t)
  update_found p f (some r) t = (ok (f r), put (change p f (get t)) t)

  abbrev delete_found : (Row → Bool) → Option Row → Query Tables Row
  delete_found p none t = (err missing_row, t)
  delete_found p (some r) t = (ok r, put (keep (λ x. not (p x)) (get t)) t)

  abbrev pub memory_model : Delegate Tables Row Data
  memory_model = record {
    find_unique = λ p t. (ok (first p (get t)), t);
    find_first = λ p t. (ok (first p (get t)), t);
    find_many = λ p t. (ok (keep (p t) (get t)), t);
    count = λ p t. (ok (length (keep p (get t))), t);
    create = λ d t. create_free d (any (taken d) (get t)) t;
    update = λ p f t. update_found p f (first p (get t)) t;
    update_many = λ p f t. (ok (length (keep p (get t))), put (change p f (get t)) t);
    delete = λ p t. delete_found p (first p (get t)) t;
  }

  memory_create_ok :
      (Fills : Data → Row → Type 0)
      → ((d : Data) → Fills d (row d))
      → (d : Data) (t : Tables) (has : Bool) (r : Row) → (create_free d has t).0 ≡ ok r
      → Fills d r × ((create_free d has t).1 ≡ put (get t ++ r ∷ []) t)
  memory_create_ok Fills fills d t true r e = absurd (ground (arith, e))
  memory_create_ok Fills fills d t false r e =
      let q : row d ≡ r = ground (arith, e) in
      subst (λ (x : Row). Fills d x × (put (get t ++ row d ∷ []) t ≡ put (get t ++ x ∷ []) t)) q
        (fills d, refl)

  memory_create_err :
      (d : Data) (t : Tables) (has : Bool) (e : Error)
      → (create_free d has t).0 ≡ err e
      → (create_free d has t).1 ≡ t
  memory_create_err d t true e h = refl
  memory_create_err d t false e h = absurd (ground (arith, h))

  pub memory_create_free :
      (d : Data) (t : Tables) (has : Bool) (r : Row) → (create_free d has t).0 ≡ ok r → has ≡ false
  memory_create_free d t true r e = absurd (ground (arith, e))
  memory_create_free d t false r e = refl

  memory_update_ok :
      (p : Row → Bool) (f : Row → Row) (t : Tables) (o : Option Row) (r : Row)
      → Finds p (get t) o
      → (update_found p f o t).0 ≡ ok r
      → (old : Row) × In old (get t)
        × (p old ≡ true)
        × (r ≡ f old)
        × ((update_found p f o t).1 ≡ put (change p f (get t)) t)
  memory_update_ok p f t none r h e = absurd (ground arith)
  memory_update_ok p f t (some old) r (m, h) e = (old, m, h, cc, refl)

  memory_update_err :
      (p : Row → Bool) (f : Row → Row) (t : Tables) (o : Option Row) (e : Error)
      → (update_found p f o t).0 ≡ err e
      → (update_found p f o t).1 ≡ t
  memory_update_err p f t none e h = refl
  memory_update_err p f t (some old) e h = absurd (ground arith)

  memory_delete_ok :
      (p : Row → Bool) (t : Tables) (o : Option Row) (r : Row)
      → Finds p (get t) o
      → (delete_found p o t).0 ≡ ok r
      → In r (get t)
        × (p r ≡ true)
        × ((delete_found p o t).1 ≡ put (keep (λ x. not (p x)) (get t)) t)
  memory_delete_ok p t none r h e = absurd (ground arith)
  memory_delete_ok p t (some old) r (m, h) e =
      let q : old ≡ r = cc in (rw (sym q) m, rw (sym q) h, refl)

  memory_delete_err :
      (p : Row → Bool) (t : Tables) (o : Option Row) (e : Error)
      → (delete_found p o t).0 ≡ err e
      → (delete_found p o t).1 ≡ t
  memory_delete_err p t none e h = refl
  memory_delete_err p t (some old) e h = absurd (ground arith)

  pub memory_laws :
      (Fills : Data → Row → Type 0)
      → ((d : Data) → Fills d (row d))
      → DelegateLaws (λ t. t) get put Fills memory_model
  memory_laws Fills fills = record {
    find_unique_same = λ p t. refl;
    find_unique_ok = λ p t o e. subst (Finds p (get t)) (ground (arith, e)) (first-Finds p (get t));
    find_first_same = λ p t. refl;
    find_first_ok = λ p t o e. subst (Finds p (get t)) (ground (arith, e)) (first-Finds p (get t));
    find_many_same = λ p t. refl;
    find_many_ok = λ p t rows e r.
        let q : keep (p t) (get t) ≡ rows = ground (arith, e) in
        subst (λ (l : List Row). In r l ↔ (In r (get t) × (p t r ≡ true))) q
          (keep-In (p t) (get t) r, λ h. In-keep (p t) (get t) r h.0 h.1);
    count_same = λ p t. refl;
    count_ok = λ p t n e. ground (arith, e);
    create_ok = λ d t r e. memory_create_ok Fills fills d t (any (taken d) (get t)) r e;
    update_ok = λ p f t r e. memory_update_ok p f t (first p (get t)) r (first-Finds p (get t)) e;
    update_many_ok = λ p f t n e. (ground (arith, e), refl);
    delete_ok = λ p t r e. memory_delete_ok p t (first p (get t)) r (first-Finds p (get t)) e;
    create_err = λ d t e h. memory_create_err d t (any (taken d) (get t)) e h;
    update_err = λ p f t e h. memory_update_err p f t (first p (get t)) e h;
    update_many_err = λ p f t e h. absurd (ground (arith, h));
    delete_err = λ p t e h. memory_delete_err p t (first p (get t)) e h;
  }
