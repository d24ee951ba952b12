-- ===== src/Snowflake/Runs.antt =====
-- Runs of a generator: the ids of all calls are different while the clock does not go back, and two
-- calls get one id when it does go back during the wait of the clock check.
use hermet.Base.{
  ℕ, ◌+◌, ◌*◌, ◌/◌, ◌%◌, ◌^◌, ◌≤◌, ◌<◌, ◌≡◌, ◌≢◌, List, [], ◌∷◌, arith, All, Error, ok, err,
}
use hermet.Snowflake.{Generator, Machine, epoch_millis, now, catch_up, take_slot, pack, next_id}
use hermet.Snowflake.Calls.{key, IsValid, Issued, next_id-Issued, gen-next_id_err}

-- Calls one after the other, with the ids that they return.
pub data Run : Machine → List ℕ → Type 0 where
  stop : (m : Machine) → Run m []
  call :
      {m m' : Machine} {id : ℕ} {ids : List ℕ} (v : ℕ)
      → next_id v m ≡ (ok id, m')
      → Run m' ids
      → Run m (id ∷ ids)
  refused :
      {m m' : Machine} {ids : List ℕ} {e : Error} (v : ℕ)
      → next_id v m ≡ (err e, m')
      → Run m' ids
      → Run m ids

-- No call that returned an id has moved `last_time` back, and the 41 bits of the time suffice.
abbrev pub NeverBack : {m : Machine} {ids : List ℕ} → Run m ids → Type 0
NeverBack (stop m) = Unit
NeverBack (call {m} {m'} v e r) =
    (m.last_time ≤ m'.last_time) × (m'.last_time < 2 ^ 41) × NeverBack r
NeverBack (refused v e r) = NeverBack r

-- The key of the state that issued an id, as the id shows it.
abbrev pub key_of_id : ℕ → ℕ
key_of_id id = (id / 4194304) * 4096 + id % 4096

abbrev pub AllDifferent : List ℕ → Type 0
AllDifferent [] = Unit
AllDifferent (x ∷ xs) = All (λ y. x ≢ y) xs × AllDifferent xs

All-map : (P Q : ℕ → Type 0) → ((x : ℕ) → P x → Q x) → (xs : List ℕ) → All P xs → All Q xs
All-map P Q f [] h = tt
All-map P Q f (x ∷ xs) h = (f x h.0, All-map P Q f xs h.1)

pub Issued-key :
    (m m' : Machine) (v id : ℕ)
    → Issued m m' v id
    → m.last_time ≤ m'.last_time
    → m'.last_time < 2 ^ 41
    → (key_of_id id ≡ key m') × (key m < key m')
Issued-key m m' v id i le lt = ground (arith, i)

Run-All-key :
    {m : Machine} {ids : List ℕ} (r : Run m ids)
    → IsValid m
    → NeverBack r
    → All (λ id. key m < key_of_id id) ids
Run-All-key (stop m) valid nb = tt
Run-All-key (call {m} {m'} {id} {ids} v e r) valid (le, lt, nb) =
    let i : Issued m m' v id = next_id-Issued v m m' id valid e in
    let (same_key, more) = Issued-key m m' v id i le lt in
    (
      omega arith,
      All-map (λ x. key m' < key_of_id x) (λ x. key m < key_of_id x) (λ x h. omega arith) ids
          (Run-All-key r i.valid nb),
    )
Run-All-key (refused {m} {m'} {ids} {e} v h r) valid nb =
    let g : m'.gen ≡ m.gen = gen-next_id_err v m m' e h in
    All-map (λ x. key m' < key_of_id x) (λ x. key m < key_of_id x) (λ x k. ground (arith, g)) ids
      (Run-All-key r (ground (arith, g)) nb)

-- In a run of calls from a sequence number below 4096, some of which may be refused, where no call
-- that returned an id has set the generator's time back and the times fit 41 bits, all ids are
-- different.
pub Run-AllDifferent :
    {m : Machine} {ids : List ℕ} (r : Run m ids) → IsValid m → NeverBack r → AllDifferent ids
Run-AllDifferent (stop m) valid nb = tt
Run-AllDifferent (call {m} {m'} {id} {ids} v e r) valid (le, lt, nb) =
    let i : Issued m m' v id = next_id-Issued v m m' id valid e in
    let (same_key, more) = Issued-key m m' v id i le lt in
    (
      All-map (λ x. key m' < key_of_id x) (λ x. id ≢ x) (λ x h. ground arith) ids
          (Run-All-key r i.valid nb),
      Run-AllDifferent r i.valid nb,
    )
Run-AllDifferent (refused {m} {m'} {ids} {e} v h r) valid nb =
    let g : m'.gen ≡ m.gen = gen-next_id_err v m m' e h in Run-AllDifferent r (ground (arith, g)) nb

-- What the clock reads `t` milliseconds after the epoch.
abbrev pub at_millis : ℕ → ℕ
at_millis t = epoch_millis + t

-- A generator that has just issued the first id of a millisecond.
abbrev issued_at : Generator → ℕ → List ℕ → Machine
issued_at g t rs = record { gen = record g { sequence = 0; last_time = t }; readings = rs }

next_id_fresh :
    (v t : ℕ) (rs : List ℕ) (g : Generator)
    → g.last_time < t
    → t < 2 ^ 41
    → next_id v (record { gen = g; readings = at_millis t ∷ rs })
      ≡ (ok (pack t v 0), issued_at g t rs)
unfolding next_id now catch_up take_slot
next_id_fresh v t rs g lt fits = ground arith

next_id_back :
    (v t : ℕ) (rs : List ℕ) (g : Generator)
    → t < g.last_time
    → g.last_time ≤ t + 5000
    → t < 2 ^ 41
    → next_id v (record { gen = g; readings = at_millis t ∷ at_millis t ∷ rs })
      ≡ (ok (pack t v 0), issued_at g t rs)
unfolding next_id now catch_up take_slot
next_id_back v t rs g lt le fits = ground arith

-- The clock shows `t`, then a later `u`, and in the third call it is back at `t`, at most five
-- seconds before, and still there after the wait: three calls return, and the third returns the id
-- of the first again.
pub next_id_repeats :
    (v w t u : ℕ) (rs : List ℕ) (g : Generator)
    → g.last_time < t
    → t < u
    → u ≤ t + 5000
    → u < 2 ^ 41
    → (id id' : ℕ) × (m₁ m₂ m₃ : Machine) × (next_id v (record {
      gen = g;
      readings = at_millis t ∷ at_millis u ∷ at_millis t ∷ at_millis t ∷ rs;
    })
        ≡ (ok id, m₁))
      × (next_id w m₁ ≡ (ok id', m₂))
      × (next_id v m₂ ≡ (ok id, m₃))
next_id_repeats v w t u rs g lt tu near fits = (
  pack t v 0,
  pack u w 0,
  issued_at g t (at_millis u ∷ at_millis t ∷ at_millis t ∷ rs),
  issued_at g u (at_millis t ∷ at_millis t ∷ rs),
  issued_at g t rs,
  next_id_fresh v t _ g lt (omega arith),
  next_id_fresh w u _ (record g { sequence = 0; last_time = t }) tu fits,
  next_id_back v t rs (record g { sequence = 0; last_time = u }) tu near (omega arith),
)
