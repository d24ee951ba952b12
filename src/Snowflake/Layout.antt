-- ===== src/Snowflake/Layout.antt =====
-- The bits of an id: where `pack` puts its three fields, and that `extract_shard_val` reads one
-- back.
use hermet.Base.{ℕ, ◌+◌, ◌*◌, ◌/◌, ◌%◌, ◌^◌, ◌<◌, ◌≡◌, arith}
use hermet.Base.Bits.{bit_and_low_mask, bit_or_disjoint}
use hermet.Snowflake.{pack, extract_shard_val, bumped}

-- The id as a sum of fields that do not overlap.
pub pack_sum : (t v s : ℕ) → s < 4096 → pack t v s ≡ (t % 2 ^ 41) * 4194304 + (v % 1024) * 4096 + s
unfolding pack
pack_sum t v s h = ground (
  arith,
  bit_and_low_mask 41 t,
  bit_and_low_mask 10 v,
  bit_or_disjoint 22 (t % 2 ^ 41) ((v % 1024) * 4096) (omega arith),
  bit_or_disjoint 12 ((t % 2 ^ 41) * 1024 + v % 1024) s h,
)

pub extract_mod : (id : ℕ) → extract_shard_val id ≡ (id / 4096) % 1024
unfolding extract_shard_val
extract_mod id = bit_and_low_mask 10 (id / 4096)

pub bumped_mod : (s : ℕ) → s < 4096 → bumped s ≡ (s + 1) % 4096
bumped_mod s h = omega (arith, bit_and_low_mask 12 ((s + 1) % 2 ^ 64))

-- An id fits 63 bits, and each of its fields can be read back.
pub record Fields (t v s id : ℕ) : Type 0 where
  pub fits : id < 2 ^ 63
  pub time : id / 4194304 ≡ t % 2 ^ 41
  pub shard : extract_shard_val id ≡ v % 1024
  pub sequence : id % 4096 ≡ s

pub pack-Fields : (t v s : ℕ) → s < 4096 → Fields t v s (pack t v s)
pack-Fields t v s h = record {
  fits = omega (arith, pack_sum t v s h);
  time = omega (arith, pack_sum t v s h);
  shard = omega (arith, pack_sum t v s h, extract_mod (pack t v s));
  sequence = omega (arith, pack_sum t v s h);
}
