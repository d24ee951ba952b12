-- ===== src/Tests/Ids.antt =====
-- The id generator (internal/pkg/sharding/idgen/snowflake) at concrete clocks.
use hermet.Base.{ℕ, ◌≡◌, ◌≢◌, refl, List, [], ◌∷◌, arith, ok, pending}
use hermet.Snowflake.{new_generator, Machine, now, catch_up, wait_past, take_slot, pack, next_id}
use hermet.Snowflake.Calls.{
  Issued, next_id-Issued, Refusal, next_id-Refusal, here, there, next_id_returns,
}
use hermet.Snowflake.Tickets.{Dispensed, Run-Dispensed}
use hermet.Snowflake.Calls.{key}
use hermet.Snowflake.Runs.{
  Run, stop, call, AllDifferent, Run-AllDifferent, at_millis, next_id_repeats,
}

abbrev at_clock : List ℕ → Machine
at_clock readings = record { gen = new_generator; readings = readings }

-- A generator in the state that its last id left.
abbrev after : ℕ → ℕ → List ℕ → Machine
after last sequence readings = record {
  gen = record new_generator { sequence = sequence; last_time = last };
  readings = readings;
}

-- Two ids within the fifth millisecond, for the shard values 7 and 1031.
first :
    next_id 7 (at_clock (at_millis 5 ∷ at_millis 5 ∷ []))
    ≡ (ok 21000192, after 5 0 (at_millis 5 ∷ []))
unfolding next_id now catch_up take_slot pack new_generator
first = refl

second : next_id 1031 (after 5 0 (at_millis 5 ∷ [])) ≡ (ok 21000193, after 5 1 [])
unfolding next_id now catch_up take_slot pack new_generator
second = refl

-- A full millisecond: the call waits for the next one.
full :
    next_id 1 (after 5 4095 (at_millis 5 ∷ at_millis 5 ∷ at_millis 6 ∷ []))
    ≡ (ok 25169920, after 6 0 [])
unfolding next_id now catch_up take_slot wait_past pack new_generator
full = refl

next_id-Issued_example : Issued (after 5 0 (at_millis 5 ∷ [])) (after 5 1 []) 1031 21000193
unfolding new_generator
next_id-Issued_example =
    next_id-Issued 1031 (after 5 0 (at_millis 5 ∷ [])) (after 5 1 []) 21000193 (omega arith) second

next_id-Refusal_example : Refusal 1 (at_millis 5) [] (after 6000 0 []).gen
next_id-Refusal_example = next_id-Refusal 1 (at_millis 5) [] (after 6000 0 []).gen

next_id_returns_example :
    (next_id 1 (record {
      gen = (after 5 4095 []).gen;
      readings = at_millis 5 ∷ at_millis 5 ∷ at_millis 5 ∷ at_millis 6 ∷ [];
    })).0
    ≢ pending
next_id_returns_example =
    next_id_returns 1 (at_millis 5) (at_millis 5) (at_millis 5 ∷ at_millis 6 ∷ [])
      (after 5 4095 []).gen (there (at_millis 5) (here (at_millis 6) [] (omega arith)))

two_calls : Run (at_clock (at_millis 5 ∷ at_millis 5 ∷ [])) (21000192 ∷ 21000193 ∷ [])
two_calls = call 7 first (call 1031 second (stop (after 5 1 [])))

Run-AllDifferent_example : AllDifferent (21000192 ∷ 21000193 ∷ [])
unfolding new_generator two_calls
Run-AllDifferent_example = Run-AllDifferent two_calls (omega arith) (omega arith)

next_id_repeats_example :
    (id id' : ℕ) × (m₁ m₂ m₃ : Machine) × (next_id 3 (record {
      gen = new_generator;
      readings = at_millis 5 ∷ at_millis 6 ∷ at_millis 5 ∷ at_millis 5 ∷ [];
    })
      ≡ (ok id, m₁))
    × (next_id 4 m₁ ≡ (ok id', m₂))
    × (next_id 3 m₂ ≡ (ok id, m₃))
unfolding new_generator
next_id_repeats_example =
    next_id_repeats 3 4 5 6 [] new_generator (omega arith) (omega arith) (omega arith) (omega arith)

Run-Dispensed_example :
    Dispensed (key (at_clock (at_millis 5 ∷ at_millis 5 ∷ []))) (21000192 ∷ 21000193 ∷ [])
unfolding new_generator two_calls
Run-Dispensed_example = Run-Dispensed two_calls (omega arith) (omega arith)
