-- ===== src/Sharding/Analytics/Totals.antt =====
-- The merged table of `cityAnalytics`, src/sharding/sharding.service.ts.
use booking_hotel.Prelude.{
  ◌≤◌, false, ap, ℕ, ◌+◌, ◌≡◌, ◌∙◌, List, [], ◌∷◌, ◌++◌, JsString, str_eq, str_eq→eq, if◌then◌else◌,
  arith, refl, sym, Bool-cases, inl, inr,
}
use booking_hotel.Sharding.Router.{FanOutPart}
use booking_hotel.Sharding.Analytics.{
  CityRow, add_row, no_rows, merge_row, merge_rows, merge_parts, insert_richest, richest_first,
}

-- What the rows of a city add up to, by one of the three counts.
abbrev pub city_total : (CityRow → ℕ) → JsString → List CityRow → ℕ
city_total count city [] = 0
city_total count city (r ∷ rows) =
    let rest = city_total count city rows in if str_eq r.city city then count r + rest else rest

-- A count that `add_row` adds up.
abbrev pub IsAdditive : (CityRow → ℕ) → Type 0
IsAdditive count =
    ((acc row : CityRow) → count (add_row acc row) ≡ count acc + count row)
    × ((city : JsString) → count (no_rows city) ≡ 0)

abbrev pub all_rows : List (FanOutPart (List CityRow)) → List CityRow
all_rows [] = []
all_rows (p ∷ ps) = p.result ++ all_rows ps

module _ (count : CityRow → ℕ) (city : JsString) where
  city_total-insert_richest :
      (r : CityRow) (rows : List CityRow)
      → city_total count city (insert_richest r rows) ≡ city_total count city (r ∷ rows)
  unfolding insert_richest
  city_total-insert_richest r [] = refl
  city_total-insert_richest r (x ∷ xs) = ground (arith, city_total-insert_richest r xs)

  pub city_total-richest_first :
      (rows : List CityRow)
      → city_total count city (richest_first rows) ≡ city_total count city rows
  unfolding richest_first
  city_total-richest_first [] = refl
  city_total-richest_first (r ∷ rows) =
      ground
        (arith, city_total-insert_richest r (richest_first rows), city_total-richest_first rows)

module _ (count : CityRow → ℕ) (additive : IsAdditive count) (city : JsString) where
  city_total-merge_row :
      (row : CityRow) (merged : List CityRow)
      → city_total count city (merge_row row merged) ≡ city_total count city (row ∷ merged)
  unfolding merge_row
  city_total-merge_row row [] =
      let sums : count (add_row (no_rows row.city) row) ≡ count row =
        omega (arith, additive.0 (no_rows row.city) row, additive.1 row.city) in
      ground (arith, sums)
  city_total-merge_row row (acc ∷ merged) = elim (Bool-cases (str_eq acc.city row.city)) [
    | inl same ↦
        let q : acc.city ≡ row.city = str_eq→eq acc.city row.city same in
        let sums : count (add_row acc row) ≡ count acc + count row = additive.0 acc row in
        let tests : str_eq acc.city city ≡ str_eq row.city city =
          ap (λ (x : JsString). str_eq x city) q in
        ground (arith, same, sums, tests)
    | inr other ↦ ground (arith, other, city_total-merge_row row merged)
  ]

  city_total-merge_rows :
      (rows merged : List CityRow)
      → city_total count city (merge_rows rows merged)
        ≡ city_total count city rows + city_total count city merged
  unfolding merge_rows
  city_total-merge_rows [] merged = omega arith
  city_total-merge_rows (r ∷ rows) merged =
      ground (arith, city_total-merge_rows rows (merge_row r merged), city_total-merge_row r merged)

  city_total-append :
      (xs ys : List CityRow)
      → city_total count city (xs ++ ys) ≡ city_total count city xs + city_total count city ys
  city_total-append [] ys = omega arith
  city_total-append (x ∷ xs) ys = ground (arith, city_total-append xs ys)

  city_total-merge_parts :
      (parts : List (FanOutPart (List CityRow))) (merged : List CityRow)
      → city_total count city (merge_parts parts merged)
        ≡ city_total count city (all_rows parts) + city_total count city merged
  unfolding merge_parts
  city_total-merge_parts [] merged = omega arith
  city_total-merge_parts (p ∷ ps) merged = ground (
    arith,
    city_total-merge_parts ps (merge_rows p.result merged),
    city_total-merge_rows p.result merged,
    city_total-append p.result (all_rows ps),
  )

  pub city_total-merged :
      (parts : List (FanOutPart (List CityRow)))
      → city_total count city (richest_first (merge_parts parts []))
        ≡ city_total count city (all_rows parts)
  city_total-merged parts = omega (
    arith,
    city_total-richest_first count city (merge_parts parts []),
    city_total-merge_parts parts [],
  )

-- How often a city stands in a table.
abbrev pub occurrences : JsString → List CityRow → ℕ
occurrences = city_total (λ r. 1)

occurrences-merge_row_ne :
    (city : JsString) (row : CityRow) (merged : List CityRow)
    → str_eq row.city city ≡ false
    → occurrences city (merge_row row merged) ≡ occurrences city merged
unfolding merge_row
occurrences-merge_row_ne city row [] ne = ground arith
occurrences-merge_row_ne city row (acc ∷ merged) ne =
    ground (arith, occurrences-merge_row_ne city row merged)

occurrences-merge_row :
    (city : JsString) (row : CityRow) (merged : List CityRow)
    → occurrences city merged ≤ 1
    → occurrences city (merge_row row merged) ≤ 1
unfolding merge_row
occurrences-merge_row city row [] h = ground arith
occurrences-merge_row city row (acc ∷ merged) h = elim (Bool-cases (str_eq acc.city row.city)) [
  | inl same ↦ ground (arith, same)
  | inr other ↦ elim (Bool-cases (str_eq row.city city)) [
    | inl here ↦
        let q : row.city ≡ city = str_eq→eq row.city city here in
        let apart : str_eq acc.city city ≡ false = sym (ap (str_eq acc.city) q) ∙ other in
        ground (arith, other, apart, occurrences-merge_row city row merged)
    | inr elsewhere ↦ ground (arith, other, occurrences-merge_row_ne city row merged elsewhere)
  ]
]

occurrences-merge_rows :
    (city : JsString) (rows merged : List CityRow)
    → occurrences city merged ≤ 1
    → occurrences city (merge_rows rows merged) ≤ 1
unfolding merge_rows
occurrences-merge_rows city [] merged h = h
occurrences-merge_rows city (r ∷ rows) merged h =
    occurrences-merge_rows city rows (merge_row r merged) (occurrences-merge_row city r merged h)

-- No city stands twice in the merged table, if none does in the table that the merge starts from.
pub merge_parts-occurrences :
    (city : JsString) (parts : List (FanOutPart (List CityRow))) (merged : List CityRow)
    → occurrences city merged ≤ 1
    → occurrences city (merge_parts parts merged) ≤ 1
unfolding merge_parts
merge_parts-occurrences city [] merged h = h
merge_parts-occurrences city (p ∷ ps) merged h =
    merge_parts-occurrences city ps (merge_rows p.result merged)
      (occurrences-merge_rows city p.result merged h)
