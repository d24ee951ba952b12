-- ===== src/Sharding/Sharder.antt =====
-- internal/pkg/sharding/sharder.go: shard values from an id, a text, or a business id with a key.
use Prim.Native.Char.{code}
use hermet.Base.{
  ℕ, ◌+◌, ◌/◌, ◌%◌, ◌^◌, ◌<◌, ◌≡◌, refl, String, List, [], ◌∷◌, ◌++◌, arith, ltb, if◌then◌else◌,
  Outcome, ok,
}

-- The UTF-8 bytes of a character and of a text, which a Go string holds.
abbrev char_bytes : ℕ → List ℕ
char_bytes c =
    if ltb c 128
    then c ∷ []
    else if ltb c 2048
    then (192 + c / 64) ∷ (128 + c % 64) ∷ []
    else if ltb c 65536
    then (224 + c / 4096) ∷ (128 + (c / 64) % 64) ∷ (128 + c % 64) ∷ []
    else (240 + c / 262144) ∷ (128 + (c / 4096) % 64) ∷ (128 + (c / 64) % 64) ∷ (128 + c % 64) ∷ []

unfoldable pub bytes : String → List ℕ
bytes String.[] = []
bytes (String.◌∷◌ c s) = char_bytes (code c) ++ bytes s

-- `binary.BigEndian.PutUint64`
unfoldable pub put_uint64 : ℕ → List ℕ
put_uint64 n =
    (n / 2 ^ 56) % 256
    ∷ (n / 2 ^ 48) % 256
    ∷ (n / 2 ^ 40) % 256
    ∷ (n / 2 ^ 32) % 256
    ∷ (n / 2 ^ 24) % 256
    ∷ (n / 2 ^ 16) % 256
    ∷ (n / 2 ^ 8) % 256
    ∷ n % 256
    ∷ []

-- `xxhash`: the digest of what was written. Writing to a digest never fails.
abbrev pub Hash : Type 0
Hash = List ℕ → ℕ

-- The three implementations of `Sharder`.
pub data Sharder : Type 0 where
  single_id : ℕ → Sharder
  biz : ℕ → String → Sharder
  text : String → Sharder

-- What `BizSharder` writes to the digest: the id in eight bytes, a colon, the key.
unfoldable pub biz_input : ℕ → String → List ℕ
biz_input biz_id biz_key = put_uint64 biz_id ++ b':' ∷ bytes biz_key

unfoldable pub shard_val : Hash → Sharder → Outcome ℕ
shard_val sum64 (single_id id) = ok id
shard_val sum64 (biz biz_id biz_key) = ok (sum64 (biz_input biz_id biz_key))
shard_val sum64 (text key) = ok (sum64 (bytes key))

-- Two pairs of a 64-bit id and a key that are written alike have the same id, and keys with the
-- same bytes.
pub biz_input_injective :
    (a b : ℕ) (s t : String)
    → a < 2 ^ 64
    → b < 2 ^ 64
    → biz_input a s ≡ biz_input b t
    → (a ≡ b) × (bytes s ≡ bytes t)
unfolding biz_input put_uint64
biz_input_injective a b s t ha hb e = (ground arith, ground arith)

biz_input_small : biz_input 258 "é" ≡ 0 ∷ 0 ∷ 0 ∷ 0 ∷ 0 ∷ 0 ∷ 1 ∷ 2 ∷ 58 ∷ 195 ∷ 169 ∷ []
unfolding biz_input put_uint64 bytes
biz_input_small = refl
