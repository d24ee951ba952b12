-- ===== src/Snowflake/Calls.antt =====
-- One call of `NextID`: the clock check, the slot that it takes, and the id that it returns.
use hermet.Base.{
  ℕ, ◌+◌, ◌*◌, ◌≤◌, ◌<◌, ◌≡◌, ◌≢◌, ◌⊎◌, refl, ◌∙◌, List, [], ◌∷◌, arith, if◌then◌else◌, Error,
  Outcome, ok, err, panic, pending, >>=-eq-ok, Calm, Calm-bind, Bool, true, false,
}
use native.Mathlib.Decide.{dec_lt}
use hermet.Snowflake.{
  Generator, Machine, stamp, now, catch_up, clock_moved, wait_past, take_slot, pack, next_id,
  max_backward_millis,
}
use hermet.Snowflake.Layout.{bumped_mod, Fields, pack-Fields}

-- The order in which ids are issued: first by millisecond, then by sequence number.
abbrev pub key : Machine → ℕ
key m = m.last_time * 4096 + m.sequence

abbrev pub IsValid : Machine → Type 0
IsValid m = m.sequence < 4096

wait_past-lt : (last t : ℕ) (rs : List ℕ) (t' : ℕ) → (wait_past last t rs).0 ≡ ok t' → last < t'
unfolding wait_past
wait_past-lt last t [] t' h = ground arith
wait_past-lt last t (r ∷ rs) t' h = ground (arith, wait_past-lt last (stamp r) rs t')

-- What a slot is: a larger key, unless the clock went back.
record Slot (m m' : Machine) (t : ℕ) : Type 0 where
  is_last : t ≡ m'.last_time
  valid : IsValid m'
  grows : (m'.last_time < m.last_time) ⊎ (key m < key m')

take_slot-Slot :
    (t : ℕ) (m m' : Machine) (t' : ℕ) → IsValid m → take_slot t m ≡ (ok t', m') → Slot m m' t'
unfolding take_slot
take_slot-Slot t m m' t' v h =
    ground (arith, bumped_mod m.sequence, wait_past-lt m.last_time t m.readings t')

catch_up-gen : (t : ℕ) (m m' : Machine) (t' : ℕ) → catch_up t m ≡ (ok t', m') → m'.gen ≡ m.gen
unfolding catch_up
catch_up-gen t m m' t' h = ground arith

now-gen : (m m' : Machine) (t : ℕ) → now m ≡ (ok t, m') → m'.gen ≡ m.gen
unfolding now
now-gen m m' t h = ground arith

-- What an issued id holds: the state's time and sequence number and the shard value, each in its
-- own bits; and the state has a larger key than before, unless the clock went back.
pub record Issued (m m' : Machine) (v id : ℕ) : Type 0 where
  pub fields : Fields m'.last_time v m'.sequence id
  pub valid : IsValid m'
  pub grows : (m'.last_time < m.last_time) ⊎ (key m < key m')

Slot-Issued :
    (m m₂ m₃ m' : Machine) (t v id : ℕ)
    → m₂.gen ≡ m.gen
    → Slot m₂ m₃ t
    → ◌≡◌ {A = Outcome ℕ × Machine} (ok (pack t v m₃.sequence), m₃) (ok id, m')
    → Issued m m' v id
Slot-Issued m m₂ m₃ m' t v id g slot e = record {
  fields = ground (arith, pack-Fields t v m₃.sequence slot.valid, slot);
  valid = ground (arith, slot);
  grows = ground (arith, slot);
}

-- A call that returned an id, from a sequence number below 4096, packed the time, the shard value
-- and the sequence number of the state it left into 63 bits from which each is read back, and it
-- has moved this state on, in the order of time and sequence number, unless it has set the time
-- back.
pub next_id-Issued :
    (v : ℕ) (m m' : Machine) (id : ℕ) → IsValid m → next_id v m ≡ (ok id, m') → Issued m m' v id
unfolding next_id
next_id-Issued v m m' id valid h =
    let (t, m₁, e₁, h₁) = >>=-eq-ok now _ m h in
    let (t₂, m₂, e₂, h₂) = >>=-eq-ok (catch_up t) _ m₁ h₁ in
    let (t₃, m₃, e₃, h₃) = >>=-eq-ok (take_slot t₂) _ m₂ h₂ in
    let g₁ : m₁.gen ≡ m.gen = now-gen m m₁ t e₁ in
    let g₂ : m₂.gen ≡ m₁.gen = catch_up-gen t m₁ m₂ t₂ e₂ in
    let slot : Slot m₂ m₃ t₃ = take_slot-Slot t₂ m₂ m₃ t₃ (ground (arith, g₁, g₂)) e₃ in
    Slot-Issued m m₂ m₃ m' t₃ v id (g₂ ∙ g₁) slot h₃

Calm-if :
    {A : Type 0} (b : Bool) (x y : Outcome A × Machine)
    → (b ≡ true → Calm x.0)
    → (b ≡ false → Calm y.0)
    → Calm (if b then x else y).0
Calm-if true x y p q = p refl
Calm-if false x y p q = q refl

wait_past-Calm : (last t : ℕ) (rs : List ℕ) → Calm (wait_past last t rs).0
unfolding wait_past
wait_past-Calm last t [] = ground arith
wait_past-Calm last t (r ∷ rs) = ground (arith, wait_past-Calm last (stamp r) rs)

now-Calm : (rs : List ℕ) (g : Generator) → Calm (now (record { gen = g; readings = rs })).0
unfolding now
now-Calm [] g = tt
now-Calm (r ∷ rs) g = tt

take_slot-Calm : (t : ℕ) (m : Machine) → Calm (take_slot t m).0
unfolding take_slot
take_slot-Calm t m = ground (arith, wait_past-Calm m.last_time t m.readings)

catch_up-Calm :
    (t : ℕ) (m : Machine) → m.last_time ≤ t + max_backward_millis → Calm (catch_up t m).0
unfolding catch_up
catch_up-Calm t m h = ground (arith, now-Calm m.readings m.gen)

-- How a call begins, at a clock that reads `r`: too far behind, or near enough.
pub data Refusal (v r : ℕ) (rs : List ℕ) (g : Generator) : Type 0 where
  far_behind :
      stamp r + max_backward_millis < g.last_time
      → next_id v (record { gen = g; readings = r ∷ rs })
        ≡ (err clock_moved, record { gen = g; readings = rs })
      → Refusal v r rs g
  near_enough :
      g.last_time ≤ stamp r + max_backward_millis
      → Calm (next_id v (record { gen = g; readings = r ∷ rs })).0
      → Refusal v r rs g

refuses :
    (v r : ℕ) (rs : List ℕ) (g : Generator)
    → stamp r + max_backward_millis < g.last_time
    → next_id v (record { gen = g; readings = r ∷ rs })
      ≡ (err clock_moved, record { gen = g; readings = rs })
unfolding next_id now catch_up
refuses v r rs g h = ground arith

goes_on :
    (v r : ℕ) (rs : List ℕ) (g : Generator)
    → g.last_time ≤ stamp r + max_backward_millis
    → Calm (next_id v (record { gen = g; readings = r ∷ rs })).0
unfolding next_id now
goes_on v r rs g h =
    Calm-bind (catch_up (stamp r)) _ (record { gen = g; readings = rs })
      (catch_up-Calm (stamp r) (record { gen = g; readings = rs }) h)
      (λ t m. Calm-bind (take_slot t) _ m (take_slot-Calm t m) (λ a s. tt))

-- A call refuses a clock that is more than five seconds behind, with the generator as it was; and
-- at any other clock it neither fails nor panics.
pub next_id-Refusal : (v r : ℕ) (rs : List ℕ) (g : Generator) → Refusal v r rs g
next_id-Refusal v r rs g = elim (dec_lt (stamp r + max_backward_millis) g.last_time) [
  | yes far ↦ far_behind far (refuses v r rs g far)
  | no near ↦ near_enough (omega arith) (goes_on v r rs g (omega arith))
]

-- Some reading of the clock lies after a time.
pub data Later (last : ℕ) : List ℕ → Type 0 where
  here : (r : ℕ) (rs : List ℕ) → last < stamp r → Later last (r ∷ rs)
  there : (r : ℕ) {rs : List ℕ} → Later last rs → Later last (r ∷ rs)

wait_past-ne-pending :
    (last t : ℕ) {rs : List ℕ} → Later last rs → (wait_past last t rs).0 ≢ pending
unfolding wait_past
wait_past-ne-pending last t (here r [] lt) = ground arith
wait_past-ne-pending last t (here r (r' ∷ rs) lt) = ground arith
wait_past-ne-pending last t (there r l) = ground (arith, wait_past-ne-pending last (stamp r) l)

-- A call does not wait for ever: if the clock shows, after two readings for the clock check, some
-- time after the last id, the call returns.
pub next_id_returns :
    (v r₁ r₂ : ℕ) (rs : List ℕ) (g : Generator)
    → Later g.last_time rs
    → (next_id v (record { gen = g; readings = r₁ ∷ r₂ ∷ rs })).0 ≢ pending
unfolding next_id now catch_up take_slot
next_id_returns v r₁ r₂ rs g l = ground (
  arith,
  wait_past-ne-pending g.last_time (stamp r₁) (there r₂ l),
  wait_past-ne-pending g.last_time (stamp r₂) l,
)

Calm-ne-err : {A : Type 0} (r : Outcome A) (e : Error) → Calm r → r ≢ err e
Calm-ne-err (ok a) e c = cc
Calm-ne-err (err d) e c = absurd c
Calm-ne-err panic e c = cc
Calm-ne-err pending e c = cc

next_id_unread :
    (v : ℕ) (g : Generator) (e : Error) (m' : Machine)
    → next_id v (record { gen = g; readings = [] }) ≢ (err e, m')
unfolding next_id now
next_id_unread v g e m' = cc

gen-err_read :
    (v : ℕ) (g : Generator) (rs : List ℕ) (m' : Machine) (e : Error)
    → next_id v (record { gen = g; readings = rs }) ≡ (err e, m')
    → m'.gen ≡ g
gen-err_read v g [] m' e h = absurd (next_id_unread v g e m' h)
gen-err_read v g (r ∷ rs) m' e h = elim (next_id-Refusal v r rs g) [
  | far_behind far refused ↦ ground (arith, refused)
  | near_enough near calm ↦ absurd (Calm-ne-err _ e calm (ground arith))
]

-- A call that returned an error has left the generator as it was.
pub gen-next_id_err :
    (v : ℕ) (m m' : Machine) (e : Error) → next_id v m ≡ (err e, m') → m'.gen ≡ m.gen
gen-next_id_err v m m' e h = gen-err_read v m.gen m.readings m' e h
