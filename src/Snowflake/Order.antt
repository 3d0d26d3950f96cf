-- ===== src/Snowflake/Order.antt =====
-- ids_after in the order of the calls that made them, and the ids of two generators.
use urban_octo_tribble.Base.{
  ℕ, zero, suc, ◌+◌, ◌%◌, ◌≤◌, ◌<◌, ◌≡◌, ap, ◌≢◌, inl, inr, refl, List, [], ◌∷◌, All, Option, none,
  some, arith, Bool-cases, ==_iff, true, ◌==◌, if◌then◌else◌,
}
use urban_octo_tribble.Base.Int.{ltb_ℤ, eqb_ℤ, ℤ, pos, negsuc, ◌<ℤ◌}
use urban_octo_tribble.Base.Bits.{bit_and-mask}
use urban_octo_tribble.Snowflake.{
  Generator, epoch, new_generator, wait_next_millis, issue, issue_after_wait, Outcome, made,
  clock_moved_backwards, waiting, generate, generate_ids,
}
use urban_octo_tribble.Snowflake.Value.{HasFields, id_value, build_id-eq-value}

-- The clock never shows a time before the epoch, in 2010.
abbrev pub SinceEpoch : List ℕ → Type 0
SinceEpoch = All (λ t. epoch ≤ t)

abbrev IsPastEpoch : ℤ → Type 0
IsPastEpoch (pos t) = epoch ≤ t
IsPastEpoch (negsuc n) = Unit

pub record IsValid (g : Generator) : Type 0 where
  pub fields : HasFields g
  pub last : IsPastEpoch g.last_timestamp

-- The least number that the next id may be.
abbrev floor_at : ℤ → Generator → ℕ
floor_at (pos t) g = suc (id_value g t)
floor_at (negsuc n) g = 0

abbrev pub floor : Generator → ℕ
floor g = floor_at g.last_timestamp g

wait_next_millis-later :
    (last : ℤ) (clock : List ℕ) (t : ℕ) (clock' : List ℕ)
    → wait_next_millis last clock ≡ some (t, clock')
    → SinceEpoch clock
    → (last <ℤ pos t) × (epoch ≤ t) × SinceEpoch clock'
unfolding wait_next_millis
wait_next_millis-later last [] t clock' e h = cc
wait_next_millis-later last (r ∷ clock) t clock' e h =
    ground (arith, wait_next_millis-later last clock t clock')

-- What a call leaves behind, by how it ended.
abbrev pub Continues : Generator → Outcome × Generator × List ℕ → Type 0
Continues g (made id, g', clock) =
    IsValid g'
    × SinceEpoch clock
    × (g'.datacenter_id ≡ g.datacenter_id)
    × (g'.worker_id ≡ g.worker_id)
    × ((t : ℕ) × (g'.last_timestamp ≡ pos t) × (id ≡ pos (id_value g' t)))
    × (floor g < floor g')
Continues g (clock_moved_backwards _, g', clock) = (g' ≡ g) × SinceEpoch clock
Continues g (waiting, g', clock) = Unit

issue-Continues :
    (g g' : Generator) (t : ℕ) (clock : List ℕ)
    → HasFields g'
    → epoch ≤ t
    → SinceEpoch clock
    → g'.datacenter_id ≡ g.datacenter_id
    → g'.worker_id ≡ g.worker_id
    → floor g < suc (id_value g' t)
    → Continues g (issue g' t clock)
unfolding issue
issue-Continues g g' t clock fields later rest ed ew above = (
  record {
    fields = record {
      datacenter = fields.datacenter;
      worker = fields.worker;
      sequence = fields.sequence;
    };
    last = later;
  },
  rest,
  ed,
  ew,
  (t, refl, build_id-eq-value g' t fields later),
  above,
)

floor_at-lt :
    (last : ℤ) (g g' : Generator) (t : ℕ)
    → HasFields g
    → IsPastEpoch last
    → last <ℤ pos t
    → floor_at last g < suc (id_value g' t)
floor_at-lt (pos u) g g' t h e later = omega arith
floor_at-lt (negsuc n) g g' t h e later = omega arith

floor_at-same :
    (last : ℤ) (g g' : Generator) (t : ℕ)
    → eqb_ℤ (pos t) last ≡ true
    → g'.datacenter_id ≡ g.datacenter_id
    → g'.worker_id ≡ g.worker_id
    → g.sequence < g'.sequence
    → floor_at last g < suc (id_value g' t)
floor_at-same (pos u) g g' t e ed ew es = ground arith
floor_at-same (negsuc n) g g' t e ed ew es = omega arith

module _ (g : Generator) (v : IsValid g) where
  issue_new_millisecond :
      (t : ℕ) (clock : List ℕ)
      → epoch ≤ t
      → SinceEpoch clock
      → g.last_timestamp <ℤ pos t
      → Continues g (issue (record g { sequence = 0 }) t clock)
  issue_new_millisecond t clock e h later =
      issue-Continues g (record g { sequence = 0 }) t clock
        (record {
          datacenter = v.fields.datacenter;
          worker = v.fields.worker;
          sequence = omega arith;
        })
        e h refl refl
        (floor_at-lt g.last_timestamp g (record g { sequence = 0 }) t v.fields v.last later)

  issue_after_wait-Continues :
      (o : Option (ℕ × List ℕ)) (clock : List ℕ)
      → wait_next_millis g.last_timestamp clock ≡ o
      → SinceEpoch clock
      → Continues g (issue_after_wait (record g { sequence = 0 }) o)
  unfolding issue_after_wait
  issue_after_wait-Continues none clock e h = tt
  issue_after_wait-Continues (some (t, clock')) clock e h =
      let (later, past, rest) = wait_next_millis-later g.last_timestamp clock t clock' e h in
      issue_new_millisecond t clock' past rest later

  issue_next_sequence :
      (s t : ℕ) (clock : List ℕ)
      → s ≡ (g.sequence + 1) % 4096
      → s ≢ 0
      → epoch ≤ t
      → SinceEpoch clock
      → eqb_ℤ (pos t) g.last_timestamp ≡ true
      → Continues g (issue (record g { sequence = s }) t clock)
  issue_next_sequence s t clock es nz e h same =
      issue-Continues g (record g { sequence = s }) t clock
        (record {
          datacenter = v.fields.datacenter;
          worker = v.fields.worker;
          sequence = omega arith;
        })
        e h refl refl
        (floor_at-same g.last_timestamp g (record g { sequence = s }) t same refl refl
          (omega (arith, v.fields.sequence)))

  issue_same_millisecond :
      (s t : ℕ) (clock : List ℕ)
      → s ≡ (g.sequence + 1) % 4096
      → epoch ≤ t
      → SinceEpoch clock
      → eqb_ℤ (pos t) g.last_timestamp ≡ true
      → Continues g (
          if s == 0
          then issue_after_wait
              (record g { sequence = s })
              (wait_next_millis g.last_timestamp clock)
          else issue (record g { sequence = s }) t clock)
  issue_same_millisecond s t clock es e h same = elim (Bool-cases (s == 0)) [
    | inl none_left ↦
        let z : s ≡ 0 = (==_iff s 0).0 none_left in
        rw (none_left, z)
          (issue_after_wait-Continues (wait_next_millis g.last_timestamp clock) clock refl h)
    | inr some_left ↦
        rw some_left
          (issue_next_sequence s t clock es (λ z. cc (some_left, (==_iff s 0).1 z)) e h same)
  ]

-- A call keeps the invariant, and an id that it makes is above all that came before.
pub generate-Continues :
    (g : Generator) (clock : List ℕ) → IsValid g → SinceEpoch clock → Continues g (generate g clock)
unfolding generate
generate-Continues g [] v h = tt
generate-Continues g (t ∷ clock) v (e, h) = elim (Bool-cases (ltb_ℤ (pos t) g.last_timestamp)) [
  | inl back ↦ rw back (refl, h)
  | inr not_back ↦ elim (Bool-cases (eqb_ℤ (pos t) g.last_timestamp)) [
    | inl same ↦
        rw (not_back, same)
          (issue_same_millisecond g v _ t clock (bit_and-mask 12 (g.sequence + 1)) e h same)
    | inr later ↦ rw (not_back, later) (issue_new_millisecond g v t clock e h (ground arith))
  ]
]

-- The ids go up strictly, from a number that is at least `b`.
abbrev pub AscendsFrom : ℕ → List ℤ → Type 0
AscendsFrom b [] = Unit
AscendsFrom b (pos n ∷ ids) = (b ≤ n) × AscendsFrom (suc n) ids
AscendsFrom b (negsuc n ∷ ids) = ⊥

AscendsFrom-le : (a b : ℕ) (ids : List ℤ) → a ≤ b → AscendsFrom b ids → AscendsFrom a ids
AscendsFrom-le a b [] h p = tt
AscendsFrom-le a b (pos n ∷ ids) h (q, p) = (omega arith, p)
AscendsFrom-le a b (negsuc n ∷ ids) h p = p

abbrev pub collect : Outcome → List ℤ → List ℤ
collect (made id) rest = id ∷ rest
collect (clock_moved_backwards _) rest = rest
collect waiting rest = []

abbrev pub ids_after : ℕ → Outcome × Generator × List ℕ → List ℤ
ids_after n (outcome, g, clock) = collect outcome (generate_ids n g clock)

pub generate_ids-collect :
    (n : ℕ) (g : Generator) (clock : List ℕ)
    → generate_ids (suc n) g clock ≡ ids_after n (generate g clock)
unfolding generate_ids
generate_ids-collect n g clock = ground arith

pub floor-made : (g : Generator) (t : ℕ) → g.last_timestamp ≡ pos t → floor g ≡ suc (id_value g t)
floor-made g t e = ap (λ (z : ℤ). floor_at z g) e

AscendsFrom-collect :
    (n : ℕ) (g : Generator) (outcome : Outcome) (g' : Generator) (clock : List ℕ) (rest : List ℤ)
    → IsValid g
    → Continues g (outcome, g', clock)
    → (IsValid g' → SinceEpoch clock → AscendsFrom (floor g') rest)
    → AscendsFrom (floor g) (collect outcome rest)
AscendsFrom-collect n g (made id) g' clock rest v (v', h, _, _, (t, et, ei), above) ih =
    let e : floor g' ≡ suc (id_value g' t) = floor-made g' t et in
    rw ei (omega arith, rw e at (ih v' h))
AscendsFrom-collect n g (clock_moved_backwards d) g' clock rest v (same, h) ih =
    rw same at (ih (rw same v) h)
AscendsFrom-collect n g waiting g' clock rest v c ih = tt

generate_ids-AscendsFrom :
    (n : ℕ) (g : Generator) (clock : List ℕ)
    → IsValid g
    → SinceEpoch clock
    → AscendsFrom (floor g) (generate_ids n g clock)
generate_ids-AscendsFrom zero g clock v h = unfold generate_ids in tt
generate_ids-AscendsFrom (suc n) g clock v h =
    let (outcome, g', clock') = generate g clock in
    rw generate_ids-collect (
      AscendsFrom-collect n g outcome g' clock' (generate_ids n g' clock') v
        (generate-Continues g clock v h) (λ v' h'. generate_ids-AscendsFrom n g' clock' v' h'))

pub new_generator-IsValid : (d w : ℕ) → d < 32 → w < 32 → IsValid (new_generator d w)
unfolding new_generator
new_generator-IsValid d w hd hw = record {
  fields = record { datacenter = hd; worker = hw; sequence = omega arith };
  last = tt;
}

-- Whatever the clock shows from the epoch on, steps back and stalls included, the ids that a new
-- generator hands out are not negative and go up strictly, so that no two of them are equal. The
-- datacenter and the worker must fit in five bits.
pub generate_ids_ascend :
    (n d w : ℕ) (clock : List ℕ)
    → d < 32
    → w < 32
    → SinceEpoch clock
    → AscendsFrom 0 (generate_ids n (new_generator d w) clock)
generate_ids_ascend n d w clock hd hw h =
    AscendsFrom-le 0 (floor (new_generator d w)) _ (omega arith)
      (generate_ids-AscendsFrom n (new_generator d w) clock (new_generator-IsValid d w hd hw) h)
