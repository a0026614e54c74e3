-- ===== src/Sharding/Key/Tests.antt =====
-- Runs of src/sharding/shard-key.ts at fixed inputs.
use booking_hotel.Prelude.{◌≡◌, refl, js, arith}
use booking_hotel.Sharding.Key.{fnv1a, bucket_of, id_in_bucket}
use booking_hotel.Sharding.Key.RoundTrip.{bucket_of-id_in_bucket}

fnv1a_of_a : fnv1a (js "a") ≡ 0xe40c292c
unfolding fnv1a js
fnv1a_of_a = refl

bucket_of_ff : bucket_of (js "ff") ≡ 63
unfolding bucket_of js
bucket_of_ff = refl

id_in_bucket_11 : id_in_bucket 11 (js "abcd-e") ≡ js "0bcd-e"
unfolding id_in_bucket js
id_in_bucket_11 = refl

bucket_of-id_in_bucket_example : bucket_of (id_in_bucket 11 (js "abcd-e")) ≡ 11
bucket_of-id_in_bucket_example = bucket_of-id_in_bucket 11 (js "abcd-e") (omega arith)
