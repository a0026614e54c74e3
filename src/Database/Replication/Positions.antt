-- ===== src/Database/Replication/Positions.antt =====
-- Writing and reading a position in the write-ahead log.
use booking_hotel.Prelude.{
  ltb, inl, false, inr, ◌==◌, Bool-cases, true, ℕ, zero, suc, ◌+◌, ◌*◌, ◌/◌, ◌%◌, ◌^◌, ◌<◌, ◌≡◌,
  ◌∙◌, refl, ap, some, [], ◌∷◌, ◌++◌, JsString, leb, if◌then◌else◌, arith, All, split, split_from,
}
use mathlib.Core.Path.{ap₂}
use mathlib.Core.List.{reverse, reverse_aux, reverse-reverse}
use booking_hotel.Sharding.Key.{is_hex, hex_value}
use booking_hotel.Database.Replication.{
  rounded, spare_bits, to_double, hex_from, parse_hex, lsn_to_number,
}

-- A hexadecimal digit in upper case.
abbrev pub upper_digit : ℕ → ℕ
upper_digit d = if leb 10 d then d + 55 else d + 48

-- The text of a number under `%X`, in front of `acc`; the fuel is the number of digits allowed.
abbrev pub upper_hex : ℕ → ℕ → JsString → JsString
upper_hex zero n acc = acc
upper_hex (suc fuel) n acc =
    let more = upper_hex fuel (n / 16) (upper_digit (n % 16) ∷ acc) in
    if leb 16 n then more else upper_digit n ∷ acc

-- The text of a `pg_lsn`: two words of 32 bits under `%X/%X`.
abbrev pub lsn_text : ℕ → ℕ → JsString
lsn_text hi lo = upper_hex 8 hi [] ++ b'/' ∷ upper_hex 8 lo []

digit_is_hex : (d : ℕ) → d < 16 → (is_hex (upper_digit d) ≡ true) × (hex_value (upper_digit d) ≡ d)
digit_is_hex d h = ground arith

tenth : (fuel n : ℕ) → n < 16 ^ suc fuel → n / 16 < 16 ^ fuel
tenth fuel n h = omega arith

fuel_left : (fuel n : ℕ) → n < 16 ^ suc fuel → leb 16 n ≡ true → 0 < fuel
fuel_left zero n h more = absurd (ground (arith, h, more))
fuel_left (suc fuel) n h more = omega arith

hex_step :
    (n : ℕ) (acc : JsString) → hex_from (n / 16) (upper_digit (n % 16) ∷ acc) ≡ hex_from n acc
unfolding hex_from
hex_step n acc =
    let (hex, value) = digit_is_hex (n % 16) (omega arith) in
    rw (hex, value) (ap (λ m. hex_from m acc) (omega arith))

-- Reading on over the digits of `n` from nothing is reading on from `n`.
parse_upper_hex :
    (fuel n : ℕ) (acc : JsString)
    → n < 16 ^ fuel
    → 0 < fuel
    → parse_hex (upper_hex fuel n acc) ≡ some (hex_from n acc)
unfolding parse_hex
parse_upper_hex zero n acc h k = absurd (omega arith)
parse_upper_hex (suc fuel) n acc h k = elim (Bool-cases (leb 16 n)) [
  | inr last ↦ ground (arith, last, digit_is_hex n)
  | inl more ↦
      let rest =
        parse_upper_hex fuel (n / 16) (upper_digit (n % 16) ∷ acc) (tenth fuel n h)
          (fuel_left fuel n h more) in
      rw more (rest ∙ ap some (hex_step n acc))
]

NoSlash : JsString → Type 0
NoSlash s = All (λ d. (d == b'/') ≡ false) s

upper_hex-NoSlash :
    (fuel n : ℕ) (acc : JsString) → n < 16 ^ fuel → NoSlash acc → NoSlash (upper_hex fuel n acc)
unfolding NoSlash
upper_hex-NoSlash zero n acc h k = k
upper_hex-NoSlash (suc fuel) n acc h k = elim (Bool-cases (leb 16 n)) [
  | inr last ↦ rw last (ground (arith, last), k)
  | inl more ↦ rw more (
      upper_hex-NoSlash fuel (n / 16) (upper_digit (n % 16) ∷ acc) (tenth fuel n h)
        (ground arith, k))
]

split_from-part :
    (xs ys acc : JsString)
    → NoSlash xs
    → split_from b'/' acc (xs ++ b'/' ∷ ys) ≡ reverse (reverse_aux xs acc) ∷ split_from b'/' [] ys
unfolding split_from NoSlash
split_from-part [] ys acc h = refl
split_from-part (x ∷ xs) ys acc (h, hs) = rw h (split_from-part xs ys (x ∷ acc) hs)

split_from-last :
    (xs acc : JsString) → NoSlash xs → split_from b'/' acc xs ≡ reverse (reverse_aux xs acc) ∷ []
unfolding split_from NoSlash
split_from-last [] acc h = refl
split_from-last (x ∷ xs) acc (h, hs) = rw h (split_from-last xs (x ∷ acc) hs)

lsn_text-split :
    (hi lo : ℕ)
    → hi < 2 ^ 32
    → lo < 2 ^ 32
    → split b'/' (lsn_text hi lo) ≡ upper_hex 8 hi [] ∷ upper_hex 8 lo [] ∷ []
unfolding split NoSlash
lsn_text-split hi lo h k =
    let front = upper_hex 8 hi [] in
    let back = upper_hex 8 lo [] in
    split_from-part front back [] (upper_hex-NoSlash 8 hi [] (omega arith) tt)
    ∙ ap₂ ◌∷◌ (reverse-reverse front) (
        split_from-last back [] (upper_hex-NoSlash 8 lo [] (omega arith) tt)
        ∙ ap (λ l. l ∷ []) (reverse-reverse back))

no_spare_bits : (fuel n : ℕ) → n < 2 ^ 53 → spare_bits fuel n ≡ 0
unfolding spare_bits
no_spare_bits zero n h = refl
no_spare_bits (suc fuel) n h = let fits : ltb n (2 ^ 53) ≡ true = ground (arith, h) in rw fits refl

rounded-one : (n : ℕ) → rounded n 1 ≡ n
unfolding rounded
rounded-one n = ground arith

-- A double holds the numbers below 2 ^ 53.
pub to_double-exact : (n : ℕ) → n < 2 ^ 53 → to_double n ≡ n
unfolding to_double
to_double-exact n h = ap (λ k. rounded n (2 ^ k)) (no_spare_bits 64 n h) ∙ rounded-one n

-- The text that PostgreSQL writes for a position in the log below 2 ^ 53, two words in
-- hexadecimal, the first below 2 ^ 21 and the second below 2 ^ 32, is read back as the position:
-- the first word times 2 ^ 32 plus the second.
pub lsn_to_number-lsn_text :
    (hi lo : ℕ)
    → hi < 2 ^ 21
    → lo < 2 ^ 32
    → lsn_to_number (lsn_text hi lo) ≡ some (hi * 2 ^ 32 + lo)
unfolding lsn_to_number hex_from
lsn_to_number-lsn_text hi lo h k = rw (
  lsn_text-split hi lo (omega arith) k,
  parse_upper_hex 8 hi [] (omega arith) (omega arith),
  parse_upper_hex 8 lo [] (omega arith) (omega arith),
  to_double-exact (hi * 2 ^ 32 + lo) (omega arith),
)
