-- ===== src/Database/Router/Sticky.antt =====
-- The table of sticky sessions and the clock around each call of DbRouter,
-- src/database/db-router.service.ts.
use mathlib.Core.Path.{subst}
use booking_hotel.Prelude.{
  Option-cases, ◌&&◌, ◌≡◌, ◌⊎◌, ◌∙◌, ◌+◌, ◌<◌, ℕ, Bool, true, false, some, List, [], ◌∷◌, JsString,
  str_eq, str_eq→eq, ltb, inl, inr, arith, sym, ap, Bool-cases,
}
use booking_hotel.Runtime.Errors.{Result-cases, ok}
use booking_hotel.Runtime.Platform.{Platform, Query}
use booking_hotel.Runtime.World.{
  World, Config, Route, sticky, write, primary, strong, primary_preferred, primary_only, fallback,
  replica, on_primary, on_replica,
}
use booking_hotel.Cache.Service.Frame.{set_flag-Quiet, has_flag-Quiet}
use booking_hotel.Database.State.{
  track, mark_down, mark_up, set_health, stamp, count_write, reject_write,
}
use booking_hotel.Database.Router.{
  lasts, flag_is_set, Consistency, eventual_read, strong_read, primary_preferred_read, sticky_key,
  sticky_get, sticky_set, stick, remember_write, is_sticky, write_with, read, read_primary,
  read_degraded, read_replica, read_eventual, prune_sticky, settle, probe_nodes,
}

pub sticky_get-set_ne :
    (k j : JsString) (t : ℕ) (m : List (JsString × ℕ))
    → str_eq j k ≡ false
    → sticky_get k (sticky_set j t m) ≡ sticky_get k m
unfolding sticky_get sticky_set
sticky_get-set_ne k j t [] ne = ground (arith, ne)
sticky_get-set_ne k j t ((i, u) ∷ m) ne = elim (Bool-cases (str_eq i j)) [
  | inl same ↦
      let q : i ≡ j = str_eq→eq i j same in
      let other : str_eq i k ≡ false = ap (λ (x : JsString). str_eq x k) q ∙ ne in
      ground (arith, same, ne, other)
  | inr differs ↦ ground (arith, differs, sticky_get-set_ne k j t m ne)
]

pub sticky_get-prune :
    (P : Platform) (c : Config) (k : JsString) (t now : ℕ) (m : List (JsString × ℕ))
    → now < t
    → sticky_get k m ≡ some t
    → sticky_get k (prune_sticky P c now m) ≡ some t
unfolding sticky_get prune_sticky
sticky_get-prune P c k t now [] lt e = absurd (ground (arith, e))
sticky_get-prune P c k t now ((j, u) ∷ m) lt e = elim (Bool-cases (str_eq j k)) [
  | inl same ↦
      let q : u ≡ t = ground (arith, e, same) in
      let lasts : ltb now u ≡ true = ground (arith, q, lt) in ground (arith, same, lasts, q)
  | inr differs ↦
      let rest = sticky_get-prune P c k t now m lt (ground (arith, e, differs)) in
      ground (arith, differs, rest)
]

module _ (P : Platform) (c : Config) where
  -- Neither the clock nor the table of sticky sessions has changed.
  abbrev pub Keeps : World P → World P → Type 0
  Keeps w w' = (w'.now ≡ w.now) × (w'.router.local_sticky ≡ w.router.local_sticky)

  -- The question to Redis comes to an answer and touches neither of the two.
  is_sticky-Keeps :
      (w : World P) → (b : Bool) × ((is_sticky P c w).0 ≡ ok b) × Keeps w (is_sticky P c w).1
  unfolding is_sticky
  is_sticky-Keeps w = elim (Option-cases w.context) [
    | inl e ↦ (false, ground (arith, e), (ground (arith, e), ground (arith, e)))
    | inr (ctx, e) ↦
        let asked = has_flag-Quiet P c w (sticky_key ctx.session_id) in
        let only = asked.only in
        elim (Bool-cases (ltb 0 c.sticky_ttl_ms)) [
          | inr off ↦
              (false, ground (arith, e, off), (ground (arith, e, off), ground (arith, e, off)))
          | inl on ↦
              elim (Bool-cases (lasts (sticky_get ctx.session_id w.router.local_sticky) w.now)) [
                | inl held ↦ (
                  true,
                  ground (arith, e, on, held),
                  (ground (arith, e, on, held), ground (arith, e, on, held)),
                )
                | inr gone ↦ (
                  flag_is_set P c asked.value,
                  ground (arith, e, on, gone, asked.returns),
                  (
                    ground (arith, e, on, gone, asked.returns, only.now),
                    ground (arith, e, on, gone, asked.returns, only.router),
                  ),
                )
              ]
        ]
  ]

  remember_write-table :
      (w : World P)
      → let w' = (remember_write P c w).1 in
        (w'.now ≡ w.now)
        × ((w'.router.local_sticky ≡ w.router.local_sticky)
            ⊎ ((j : JsString) × (w'.router.local_sticky
                  ≡ sticky_set j (w.now + c.sticky_ttl_ms) w.router.local_sticky)))
  unfolding remember_write stick
  remember_write-table w = elim (Option-cases w.context) [
    | inl e ↦ (ground (arith, e), inl (ground (arith, e)))
    | inr (ctx, e) ↦ elim (Bool-cases (c.replica_enabled && ltb 0 c.sticky_ttl_ms)) [
      | inr off ↦ (ground (arith, e, off), inl (ground (arith, e, off)))
      | inl on ↦
          let only =
            (set_flag-Quiet P c (stick P c ctx.session_id w) (sticky_key ctx.session_id)
              c.sticky_ttl_ms).only in
          (
            ground (arith, e, on, only.now),
            inr (ctx.session_id, ground (arith, e, on, only.router)),
          )
    ]
  ]

  module _ {A : Type 0} where
    read_primary-Keeps :
        (query : Query P.prisma.Db A) (route : Route) (w : World P)
        → Keeps w (read_primary P c query route w).1
    unfolding read_primary read_degraded on_primary on_replica track mark_down set_health
    read_primary-Keeps query route w = (ground arith, ground arith)

    read_replica-Keeps :
        (query : Query P.prisma.Db A) (w : World P) → Keeps w (read_replica P c query w).1
    unfolding read_replica on_replica track mark_down set_health
    read_replica-Keeps query w = elim (Result-cases (query w.replica_db).0) [
      | inl (a, r) ↦ (ground (arith, r), ground (arith, r))
      | inr (e, r) ↦
          let w1 = (on_replica query w).1 in
          let down = read_primary-Keeps query fallback (mark_down replica e w1) in
          let still = read_primary-Keeps query fallback w1 in
          (ground (arith, r, down.0, still.0), ground (arith, r, down.1, still.1))
    ]

    read_eventual-Keeps :
        (query : Query P.prisma.Db A) (w : World P) → Keeps w (read_eventual P c query w).1
    unfolding read_eventual
    read_eventual-Keeps query w =
        let (b, answered, (same_now, same_table)) = is_sticky-Keeps w in
        let w1 = (is_sticky P c w).1 in
        let stuck = read_primary-Keeps query sticky w1 in
        let near = read_replica-Keeps query w1 in
        let back = read_primary-Keeps query fallback w1 in
        (
          ground (arith, answered, same_now, stuck.0, near.0, back.0),
          ground (arith, answered, same_table, stuck.1, near.1, back.1),
        )

    pub read-Keeps :
        (query : Query P.prisma.Db A) (consistency : Consistency) (w : World P)
        → Keeps w (read P c query consistency w).1
    unfolding read
    read-Keeps query strong_read w = read_primary-Keeps query strong w
    read-Keeps query primary_preferred_read w = read_primary-Keeps query primary_preferred w
    read-Keeps query eventual_read w =
        let routed = read_eventual-Keeps query w in
        let plain_read = read_primary-Keeps query primary_only w in
        (ground (arith, routed.0, plain_read.0), ground (arith, routed.1, plain_read.1))

    pub write_with-table :
        (mutation : Query P.prisma.Db A) (w : World P)
        → let w' = (write_with P c mutation w).1 in
          (w'.now ≡ w.now)
          × ((w'.router.local_sticky ≡ w.router.local_sticky)
              ⊎ ((j : JsString) × (w'.router.local_sticky
                    ≡ sticky_set j (w.now + c.sticky_ttl_ms) w.router.local_sticky)))
    unfolding write_with on_primary track count_write reject_write mark_down set_health
    write_with-table mutation w = elim (Bool-cases w.router.primary_health.healthy) [
      | inr down ↦ (ground (arith, down), inl (ground (arith, down)))
      | inl up ↦ elim (Result-cases (mutation w.primary_db).0) [
        | inr (e, r) ↦ (ground (arith, up, r), inl (ground (arith, up, r)))
        | inl (a, r) ↦
            let w1 = track primary write (count_write (on_primary mutation w).1) in
            let out = write_with P c mutation w in
            let eq : out.1 ≡ (remember_write P c w1).1 = ground (arith, up, r) in
            subst
              (λ (x : World P).
                (x.now ≡ w.now)
                × ((x.router.local_sticky ≡ w.router.local_sticky)
                    ⊎ ((j : JsString) × (x.router.local_sticky
                          ≡ sticky_set j (w.now + c.sticky_ttl_ms) w.router.local_sticky))))
              (sym eq) (remember_write-table w1)
      ]
    ]

  pub probe_nodes-table :
      (w : World P)
      → let w' = probe_nodes P c w in
        (w'.now ≡ w.now) × (w'.router.local_sticky ≡ prune_sticky P c w.now w.router.local_sticky)
  unfolding probe_nodes settle on_primary on_replica mark_up mark_down set_health stamp
  probe_nodes-table w = (ground arith, ground arith)
