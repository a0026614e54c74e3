-- ===== src/Sharding/Key.antt =====
-- The shard key (src/sharding/shard-key.ts): the FNV-1a hash, the bucket of an identifier, the
-- identifiers that carry a bucket, and the bucket of a new hotel. 32-bit words are kept as their
-- unsigned value, with the wrap-around written out.
pub mod RoundTrip
mod Tests
use Prim.Native.Nat.{bit_xor}
use booking_hotel.Prelude.{
  ℕ, zero, suc, ◌+◌, ◌-◌, ◌*◌, ◌/◌, ◌%◌, ◌^◌, Bool, true, false, ◌&&◌, ◌||◌, List, [], ◌∷◌, ◌++◌,
  JsString, str_eq, js, trim, leb, drop, length, replicate, if◌then◌else◌,
}

abbrev pub buckets : ℕ
buckets = 64

pub data ShardStrategy : Type 0 where
  hash city : ShardStrategy

-- An environment variable that is not set is the empty text: neither is "city".
unfoldable pub parse_strategy : JsString → ShardStrategy
unfolding js
parse_strategy value = if str_eq value (js "city") then city else hash

abbrev pub fnv_offset : ℕ
fnv_offset = 0x811c9dc5

abbrev pub fnv_prime : ℕ
fnv_prime = 0x01000193

-- One round: `hash ^= c` and `Math.imul(hash, prime)`, on the bit pattern.
unfoldable pub fnv_round : ℕ → ℕ → ℕ
fnv_round h c = (bit_xor h c * fnv_prime) % 2 ^ 32

unfoldable pub fnv_from : ℕ → JsString → ℕ
unfolding fnv_round
fnv_from h [] = h
fnv_from h (c ∷ s) = fnv_from (fnv_round h c) s

unfoldable pub fnv1a : JsString → ℕ
unfolding fnv_from
fnv1a input = fnv_from fnv_offset input

abbrev pub is_hex : ℕ → Bool
is_hex c = (leb b'0' c && leb c b'9') || (leb b'a' c && leb c b'f') || (leb b'A' c && leb c b'F')

-- The value of a hexadecimal digit.
abbrev pub hex_value : ℕ → ℕ
hex_value c = if leb b'a' c then c - 87 else if leb b'A' c then c - 55 else c - 48

unfoldable pub bucket_of : JsString → ℕ
unfolding fnv1a
bucket_of (a ∷ b ∷ s) =
    if is_hex a && is_hex b
    then (hex_value a * 16 + hex_value b) % buckets
    else fnv1a (a ∷ b ∷ s) % buckets
bucket_of s = fnv1a s % buckets

abbrev pub hex_digit : ℕ → ℕ
hex_digit d = if leb 10 d then d + 87 else d + 48

-- `n.toString(16)`, the digits in front of `acc`; the fuel is above `n`.
unfoldable pub to_hex : ℕ → ℕ → JsString → JsString
to_hex zero n acc = acc
to_hex (suc fuel) n acc =
    let more = to_hex fuel (n / 16) (hex_digit (n % 16) ∷ acc) in
    if leb 16 n then more else hex_digit n ∷ acc

-- `s.padStart(width, '0')`.
unfoldable pub pad_start : ℕ → JsString → JsString
pad_start width s = replicate (width - length s) b'0' ++ s

unfoldable pub id_in_bucket : ℕ → JsString → JsString
unfolding to_hex pad_start
id_in_bucket bucket uuid = pad_start 2 (to_hex (suc bucket) bucket []) ++ drop 2 uuid

-- `String.prototype.toLowerCase` is a parameter: its Unicode tables are not part of the program.
module _ (to_lower_case : JsString → JsString) where
  unfoldable pub normalize_city : JsString → JsString
  unfolding trim
  normalize_city name = to_lower_case (trim name)

  unfoldable pub bucket_for_new_hotel : ShardStrategy → JsString → JsString → ℕ
  unfolding normalize_city fnv1a
  bucket_for_new_hotel city uuid name = fnv1a (normalize_city name) % buckets
  bucket_for_new_hotel hash uuid name = fnv1a uuid % buckets

-- `shard-${String.fromCharCode(97 + index)}`
unfoldable pub shard_name : ℕ → JsString
unfolding js
shard_name index = js "shard-" ++ ((97 + index) % 2 ^ 16) ∷ []
