-- ===== src/Snowflake.antt =====
-- internal/pkg/sharding/idgen/snowflake/snowflake_generator.go: the id generator and the
-- extractor. The generator's mutex makes each call of `NextID` one step, so calls from several
-- goroutines are a sequence of calls. The clock is the list of the millisecond values that
-- `time.Now().UnixMilli()` returns, one for each time that it is read; a call that needs more
-- readings is still waiting.
pub mod Layout
pub mod Calls
pub mod Runs
pub mod Tickets
use hermet.Base.{
  ℕ, suc, ◌+◌, ◌-◌, ◌*◌, ◌/◌, ◌%◌, ◌^◌, bit_and, bit_or, List, [], ◌∷◌, ltb, leb, ◌==◌,
  if◌then◌else◌, Error, errorf, Outcome, ok, err, pending, Exec, return, fail, ◌>>=◌,
}

abbrev pub timestamp_bits : ℕ
timestamp_bits = 41

abbrev pub hash_bits : ℕ
hash_bits = 10

abbrev pub sequence_bits : ℕ
sequence_bits = 12

abbrev pub shard_val_shift : ℕ
shard_val_shift = sequence_bits

abbrev pub timestamp_shift : ℕ
timestamp_shift = 22

abbrev pub sequence_mask : ℕ
sequence_mask = 2 ^ 12 - 1

abbrev pub hash_mask : ℕ
hash_mask = 2 ^ 10 - 1

abbrev pub timestamp_mask : ℕ
timestamp_mask = 2 ^ 41 - 1

abbrev pub epoch_millis : ℕ
epoch_millis = 1735689600000

abbrev pub max_backward_millis : ℕ
max_backward_millis = 5000

abbrev pub u64 : ℕ
u64 = 2 ^ 64

-- `time.Unix(sec, nsec)`
pub record Time : Type 0 where
  pub sec : ℕ
  pub nsec : ℕ

pub record Generator : Type 0 where
  pub sequence : ℕ
  pub last_time : ℕ
  pub epoch : Time

unfoldable pub new_generator : Generator
new_generator = record {
  sequence = 0;
  last_time = 0;
  epoch = record { sec = epoch_millis / 1000; nsec = (epoch_millis % 1000) * 1000000 };
}

-- A generator and what the clock will show.
pub record Machine : Type 0 where
  pub gen : Generator
  pub open gen use *
  pub readings : List ℕ

-- `uint64(time.Now().UnixMilli()) - epochMillis`, in uint64.
abbrev pub stamp : ℕ → ℕ
stamp reading = (reading + u64 - epoch_millis) % u64

read_now : List ℕ → Exec Machine ℕ
read_now [] m = (pending, m)
read_now (r ∷ rs) m = (ok (stamp r), record m { readings = rs })

unfoldable pub now : Exec Machine ℕ
unfolding read_now
now m = read_now m.readings m

abbrev pub clock_moved : Error
clock_moved = errorf "clock moved backwards too much, please check system time" []

-- The clock moved backwards: refuse after more than 5 seconds, else sleep and read it once more.
unfoldable pub catch_up : ℕ → Exec Machine ℕ
unfolding now
catch_up timestamp m =
    if ltb timestamp m.last_time
    then if ltb max_backward_millis (m.last_time - timestamp) then fail clock_moved m else now m
    else return timestamp m

-- `for timestamp <= g.lastTime { sleep; read the clock }`
unfoldable pub wait_past : ℕ → ℕ → List ℕ → Outcome ℕ × List ℕ
wait_past last timestamp [] = (if leb timestamp last then pending else ok timestamp, [])
wait_past last timestamp (r ∷ rs) =
    let more = wait_past last (stamp r) rs in
    if leb timestamp last then more else (ok timestamp, r ∷ rs)

-- `g.sequence = (g.sequence + 1) & sequenceMask`
abbrev pub bumped : ℕ → ℕ
bumped sequence = bit_and ((sequence + 1) % u64) sequence_mask

next_millisecond : Generator → Outcome ℕ × List ℕ → Outcome ℕ × Machine
next_millisecond g (ok t, rs) =
    (ok t, record { gen = record g { sequence = 0; last_time = t }; readings = rs })
next_millisecond g (r, rs) = (r, record { gen = record g { sequence = 0 }; readings = rs })

-- The sequence number: one more within a millisecond, else 0; then `g.lastTime = timestamp`.
unfoldable pub take_slot : ℕ → Exec Machine ℕ
unfolding next_millisecond
take_slot timestamp m =
    if timestamp == m.last_time
    then if bumped m.sequence == 0
      then next_millisecond m.gen (wait_past m.last_time timestamp m.readings)
      else (ok timestamp, record m { gen = record m.gen { sequence = bumped m.sequence } })
    else (ok timestamp, record m { gen = record m.gen { sequence = 0; last_time = timestamp } })

abbrev pub shl : ℕ → ℕ → ℕ
shl x k = (x * 2 ^ k) % u64

abbrev pub shr : ℕ → ℕ → ℕ
shr x k = x / 2 ^ k

-- timestamp | shard value | sequence
unfoldable pub pack : ℕ → ℕ → ℕ → ℕ
pack timestamp shard_val sequence =
    bit_or
      (bit_or (shl (bit_and timestamp timestamp_mask) timestamp_shift)
        (shl (bit_and shard_val hash_mask) shard_val_shift))
      sequence

unfoldable pub next_id : ℕ → Exec Machine ℕ
next_id shard_val = do
  first ← now
  timestamp ← catch_up first
  slot ← take_slot timestamp
  λ m. (ok (pack slot shard_val m.sequence), m)

unfoldable pub extract_shard_val : ℕ → ℕ
extract_shard_val id = bit_and (shr id shard_val_shift) hash_mask
