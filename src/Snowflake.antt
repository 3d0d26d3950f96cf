-- ===== src/Snowflake.antt =====
-- The id generator, app/utility/snowflake.py. A clock is the list of the readings of `time.time()`
-- in milliseconds that the process will see; each look at the clock takes the next one.
pub mod Value
pub mod Order
pub mod Workers
pub mod Progress
mod Tests
use urban_octo_tribble.Base.{
  ℕ, zero, suc, ◌+◌, ◌-◌, ◌*◌, ◌^◌, List, [], ◌∷◌, Option, none, some, bit_and, bit_or, ◌==◌,
  if◌then◌else◌,
}
use urban_octo_tribble.Base.Int.{ℤ, pos, negsuc, ◌-ℤ◌, ltb_ℤ, leb_ℤ, eqb_ℤ}

-- The fields that change or that the constructor sets.
pub record Generator : Type 0 where
  pub datacenter_id : ℕ
  pub worker_id : ℕ
  pub sequence : ℕ
  pub last_timestamp : ℤ

abbrev pub epoch : ℕ
epoch = 1288834974657

abbrev pub sequence_bits : ℕ
sequence_bits = 12

abbrev pub max_sequence : ℕ
max_sequence = 1 * 2 ^ sequence_bits - 1

-- `SnowflakeID(datacenter_id, worker_id)`, when it is made for the first time.
unfoldable pub new_generator : ℕ → ℕ → Generator
new_generator datacenter_id worker_id = record {
  datacenter_id = datacenter_id;
  worker_id = worker_id;
  sequence = 0;
  last_timestamp = negsuc 0;
}

-- `z << k` and `z | b` on Python's integers, for a `b` that is not negative: below zero the bits
-- are those of the two's complement.
pub shift_left : ℤ → ℕ → ℤ
shift_left (pos a) k = pos (a * 2 ^ k)
shift_left (negsuc a) k = negsuc (suc a * 2 ^ k - 1)

pub or_bits : ℤ → ℕ → ℤ
or_bits (pos a) b = pos (bit_or a b)
or_bits (negsuc a) b = negsuc (a - bit_and a b)

-- The `return` of `generate`.
unfoldable pub build_id : Generator → ℕ → ℤ
unfolding shift_left or_bits
build_id g timestamp =
    or_bits
      (or_bits (or_bits (shift_left (pos timestamp -ℤ pos epoch) 22) (g.datacenter_id * 2 ^ 17))
        (g.worker_id * 2 ^ 12))
      g.sequence

-- `none`: the loop still runs when the readings end.
pub wait_next_millis : ℤ → List ℕ → Option (ℕ × List ℕ)
wait_next_millis last_timestamp [] = none
wait_next_millis last_timestamp (timestamp ∷ clock) =
    if leb_ℤ (pos timestamp) last_timestamp
    then wait_next_millis last_timestamp clock
    else some (timestamp, clock)

-- How a call ends: with an id, by the exception with its number of milliseconds, or not yet.
pub data Outcome : Type 0 where
  made : ℤ → Outcome
  clock_moved_backwards : ℤ → Outcome
  waiting : Outcome

pub issue : Generator → ℕ → List ℕ → Outcome × Generator × List ℕ
issue g timestamp clock =
    (made (build_id g timestamp), record g { last_timestamp = pos timestamp }, clock)

pub issue_after_wait : Generator → Option (ℕ × List ℕ) → Outcome × Generator × List ℕ
issue_after_wait g none = (waiting, g, [])
issue_after_wait g (some (timestamp, clock)) = issue g timestamp clock

unfoldable pub generate : Generator → List ℕ → Outcome × Generator × List ℕ
unfolding issue issue_after_wait
generate g [] = (waiting, g, [])
generate g (timestamp ∷ clock) =
    if ltb_ℤ (pos timestamp) g.last_timestamp
    then (clock_moved_backwards (g.last_timestamp -ℤ pos timestamp), g, clock)
    else if eqb_ℤ (pos timestamp) g.last_timestamp
    then (let sequence = bit_and (g.sequence + 1) max_sequence in
        let g' = record g { sequence = sequence } in
        if sequence == 0
        then issue_after_wait g' (wait_next_millis g.last_timestamp clock)
        else issue g' timestamp clock)
    else issue (record g { sequence = 0 }) timestamp clock

-- The ids of `n` calls in a row on the one generator; a caller may catch the exception and go on.
pub generate_ids : ℕ → Generator → List ℕ → List ℤ
generate_ids zero g clock = []
generate_ids (suc n) g clock =
    let (outcome, g', clock') = generate g clock in
    let rest = generate_ids n g' clock' in
    elim outcome [ made id ↦ id ∷ rest | clock_moved_backwards _ ↦ rest | waiting ↦ [] ]
