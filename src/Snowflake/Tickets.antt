-- ===== src/Snowflake/Tickets.antt =====
-- The generator as a machine that issues tickets: what a user of ids may rely on, without the
-- clock, the waits and the layout of an id in sight.
use hermet.Base.{ℕ, ◌<◌, ◌≡◌, subst, sym, List, [], ◌∷◌, arith}
use hermet.Snowflake.{Machine}
use hermet.Snowflake.Calls.{key, IsValid, Issued, next_id-Issued, gen-next_id_err}
use hermet.Snowflake.Runs.{Run, stop, call, refused, NeverBack, key_of_id, Issued-key}

-- Tickets handed out by a machine that remembers the number of its last one and nothing else: each
-- ticket shows a number above all those before it.
pub data Dispensed : ℕ → List ℕ → Type 0 where
  closed : (last : ℕ) → Dispensed last []
  ticket :
      {last : ℕ} (id : ℕ) {ids : List ℕ}
      → last < key_of_id id
      → Dispensed (key_of_id id) ids
      → Dispensed last (id ∷ ids)

-- In a run of calls from a sequence number below 4096, some of which may be refused, where no call
-- that returned an id has set the generator's time back and the times fit 41 bits, the ids are
-- tickets of a machine that starts at the generator's time and sequence number: the time and the
-- sequence number that each id shows, by time and then by sequence number, are above those of the id
-- before.
pub Run-Dispensed :
    {m : Machine} {ids : List ℕ} (r : Run m ids) → IsValid m → NeverBack r → Dispensed (key m) ids
Run-Dispensed (stop m) valid nb = closed (key m)
Run-Dispensed (call {m} {m'} {id} {ids} v e r) valid (le, lt, nb) =
    let i : Issued m m' v id = next_id-Issued v m m' id valid e in
    let (same_key, more) = Issued-key m m' v id i le lt in
    ticket id (omega arith)
      (subst (λ k. Dispensed k ids) (sym same_key) (Run-Dispensed r i.valid nb))
Run-Dispensed (refused {m} {m'} {ids} {e} v h r) valid nb =
    let g : m'.gen ≡ m.gen = gen-next_id_err v m m' e h in
    subst (λ k. Dispensed k ids) (ground (arith, g)) (Run-Dispensed r (ground (arith, g)) nb)
