-- ===== src/Sharding/Helper/Consistency.antt =====
-- helper.go with the snowflake generator and the modulo strategy: when the destination that
-- `NextIDAndShard` returns is the one that `DstFromID` finds from the id.
use hermet.Base.{ℕ, ◌*◌, ◌%◌, ◌≡◌, ◌≢◌, sym, ap, ◌∙◌, Outcome, ok, >>=-eq-ok, resume-eq-ok}
use hermet.Snowflake
use hermet.Snowflake.{Machine, extract_shard_val}
use hermet.Snowflake.Calls.{IsValid, next_id-Issued}
use hermet.Sharding.{Dst}
use hermet.Sharding.Sharder.{Hash, Sharder, single_id, shard_val}
use hermet.Sharding.Modulo
use hermet.Sharding.Modulo.{ModuloSharding}
use hermet.Sharding.Modulo.Routing.{IsConfigured, dst_from_id-eq-shard, dst_from_id-ne-shard}
use hermet.Sharding.Helper.{ShardHelper, next_id_and_shard, dst_from_id}

-- What a call of `NextIDAndShard` that returned was made of.
pub record Parts {S : Type 0} (sum64 : Hash) (h : ShardHelper S) (x : Sharder) (m m' : S) (id : ℕ)
    (dst : Dst) : Type 0 where
  pub v : ℕ
  pub value : shard_val sum64 x ≡ ok v
  pub made : h.gen v m ≡ (ok id, m')
  pub target : h.strategy.shard v ≡ ok dst

module _ {S : Type 0} (sum64 : Hash) (h : ShardHelper S) (x : Sharder) (m m' : S) (id : ℕ)
    (dst : Dst) where
  joined :
      (v id₁ : ℕ) (d : Dst) (m₁ : S)
      → shard_val sum64 x ≡ ok v
      → h.gen v m ≡ (ok id₁, m₁)
      → h.strategy.shard v ≡ ok d
      → ◌≡◌ {A = Outcome (ℕ × Dst) × S} (ok (id₁, d), m₁) (ok (id, dst), m')
      → Parts sum64 h x m m' id dst
  joined v id₁ d m₁ e₁ e₂ e₃ e = record { v = v; value = e₁; made = cc; target = cc }

  pub next_id_and_shard-Parts :
      next_id_and_shard sum64 h x m ≡ (ok (id, dst), m') → Parts sum64 h x m m' id dst
  unfolding next_id_and_shard
  next_id_and_shard-Parts e =
      let (v, e₁, h₁) = resume-eq-ok (shard_val sum64 x) _ m e in
      let (i, m₁, e₂, h₂) = >>=-eq-ok (h.gen v) _ m h₁ in
      let (d, e₃, h₃) = resume-eq-ok (h.strategy.shard v) _ m₁ h₂ in joined v i d m₁ e₁ e₂ e₃ h₃

abbrev pub snowflake_helper : ModuloSharding → ShardHelper Machine
snowflake_helper s = record { gen = Snowflake.next_id; strategy = Modulo.as_strategy s }

module _ (sum64 : Hash) (s : ModuloSharding) (c : IsConfigured s)
    (extracts : (i : ℕ) → s.extractor i ≡ extract_shard_val i) where
  abbrev h : ShardHelper Machine
  h = snowflake_helper s

  extracted :
      (v id : ℕ) (m m' : Machine)
      → IsValid m
      → Snowflake.next_id v m ≡ (ok id, m')
      → s.extractor id ≡ v % 1024
  extracted v id m m' valid made = extracts id ∙ (next_id-Issued v m m' id valid made).fields.shard

  -- With positive counts whose product fits uint64 and divides 1024, the snowflake extractor and a
  -- generator in a valid state: the id that `NextIDAndShard` returned, with the snowflake
  -- generator, leads `DstFromID` back to the destination that was returned with it.
  pub dst_from_id-next_id_and_shard :
      (x : Sharder) (m m' : Machine) (id : ℕ) (dst : Dst)
      → IsValid m
      → 1024 % (s.db_shard_count * s.tb_shard_count) ≡ 0
      → next_id_and_shard sum64 (snowflake_helper s) x m ≡ (ok (id, dst), m')
      → dst_from_id (snowflake_helper s) id m' ≡ (ok dst, m')
  unfolding dst_from_id Modulo.as_strategy
  dst_from_id-next_id_and_shard x m m' id dst valid divides e =
      let p = next_id_and_shard-Parts sum64 h x m m' id dst e in
      let q = dst_from_id-eq-shard s c divides p.v id (extracted p.v id m m' valid p.made) in
      λ i. ((q ∙ p.target) i, m')

  wrong_way :
      (v id : ℕ) (dst : Dst)
      → 1024 % (s.db_shard_count * s.tb_shard_count) ≢ 0
      → ok 1024 ≡ ok v
      → s.extractor id ≡ v % 1024
      → Modulo.shard s v ≡ ok dst
      → Modulo.dst_from_id s id ≢ ok dst
  wrong_way v id dst divides e x t w =
      let e' : v ≡ 1024 = cc in
      dst_from_id-ne-shard s c divides id (x ∙ ap (λ n. n % 1024) e')
        (w ∙ sym t ∙ ap (Modulo.shard s) e')

  -- With positive counts whose product fits uint64 and does not divide 1024: the id that is made
  -- for the shard value 1024 does not lead back to the destination that was returned with it.
  pub dst_from_id-ne-next_id_and_shard :
      (m m' : Machine) (id : ℕ) (dst : Dst)
      → IsValid m
      → 1024 % (s.db_shard_count * s.tb_shard_count) ≢ 0
      → next_id_and_shard sum64 (snowflake_helper s) (single_id 1024) m ≡ (ok (id, dst), m')
      → dst_from_id (snowflake_helper s) id m' ≢ (ok dst, m')
  unfolding dst_from_id Modulo.as_strategy shard_val
  dst_from_id-ne-next_id_and_shard m m' id dst valid divides e w =
      let p = next_id_and_shard-Parts sum64 h (single_id 1024) m m' id dst e in
      wrong_way p.v id dst divides p.value (extracted p.v id m m' valid p.made) p.target
        (ap (λ (r : Outcome Dst × Machine). r.0) w)
