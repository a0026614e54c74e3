-- ===== src/Runtime/Redis/InMemory.antt =====
-- The laws of Redis for the keys in memory of the examples.
use booking_hotel.Prelude.{
  ◌+◌, ◌∙◌, ◌≡◌, ◌⊎◌, inl, inr, Bool, true, false, not, any, keep, none, some, List, [], ◌∷◌,
  JsString, str_eq, str_eq→eq, str_eq_refl, sym, ap, refl, arith, Bool-cases, if◌then◌else◌,
}
use booking_hotel.Runtime.Platform.{In}
use booking_hotel.Runtime.Redis.{RedisLaws}
use booking_hotel.Runtime.Memory.{number_of, memory_redis, Entries, entry, put_entry}

-- What is kept by its key alone is found where the key is kept, and only there.
entry-keep :
    (q : JsString → Bool) (m : Entries) (j : JsString)
    → entry j (keep (λ e. q e.0) m) ≡ (if q j then entry j m else none)
entry-keep q [] j = ground arith
entry-keep q ((k, v) ∷ m) j =
    let rest = entry-keep q m j in
    elim (Bool-cases (str_eq k j)) [
      | inl same ↦
          let e : k ≡ j = str_eq→eq k j same in
          elim (Bool-cases (q j)) [
            | inl kept ↦ let kept' : q k ≡ true = ap q e ∙ kept in rw (kept', kept, same) refl
            | inr gone ↦
                let gone' : q k ≡ false = ap q e ∙ gone in rw (gone', gone) (rest ∙ rw gone refl)
          ]
      | inr other ↦ elim (Bool-cases (q k)) [
        | inl kept ↦ rw (kept, other) rest
        | inr gone ↦ rw (gone, other) rest
      ]
    ]

entry-put :
    (k v : JsString) (m : Entries) (j u : JsString)
    → entry j (put_entry k v m) ≡ some u
    → ((j ≡ k) × (u ≡ v)) ⊎ (entry j m ≡ some u)
entry-put k v m j u e =
    let rest = entry-keep (λ i. not (str_eq i k)) m j in
    elim (Bool-cases (str_eq k j)) [
      | inl same ↦ inl (sym (str_eq→eq k j same), ground (arith, same, e))
      | inr other ↦ inr (ground (arith, other, e, rest))
    ]

any-In : (k : JsString) (ks : List JsString) → In k ks → any (str_eq k) ks ≡ true
any-In k [] h = absurd h
any-In k (j ∷ ks) (inl e) =
    let same : str_eq k j ≡ true = ap (str_eq k) (sym e) ∙ str_eq_refl k in rw same refl
any-In k (j ∷ ks) (inr h) = let rest = any-In k ks h in ground (arith, rest)

pub memory_redis_laws : RedisLaws memory_redis
memory_redis_laws = record {
  get_live = λ k m o e. ground (arith, e);
  get_keeps = λ k m j v e. e;
  set_ex_keeps = λ k v ttl m j u e. entry-put k v m j u e;
  del_keeps = λ ks m j v e.
      let rest = entry-keep (λ i. not (any (str_eq i) ks)) m j in ground (arith, e, rest);
  del_gone = λ ks m n k e h.
      let rest = entry-keep (λ i. not (any (str_eq i) ks)) m k in
      let named = any-In k ks h in ground (arith, rest, named);
  incr_keeps = λ k m j u e. elim (entry-put k ((number_of (entry k m) + 1) ∷ []) m j u e) [
    | inl (same, value) ↦ inl same
    | inr before ↦ inr before
  ];
}
