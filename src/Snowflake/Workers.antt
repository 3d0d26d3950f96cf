-- ===== src/Snowflake/Workers.antt =====
-- ids_after of two generators, the size of an id, and when a call ends with an id.
use urban_octo_tribble.Base.{
  ℕ, zero, suc, ◌/◌, ◌%◌, ◌^◌, ◌<◌, ◌≡◌, ◌≢◌, ◌⊎◌, inl, inr, refl, List, ◌∷◌, All, All-map, arith,
}
use urban_octo_tribble.Base.Int.{ℤ, pos, ◌<ℤ◌}
use urban_octo_tribble.Snowflake.{
  Generator, new_generator, Outcome, made, clock_moved_backwards, waiting, generate, generate_ids,
  build_id,
}
use urban_octo_tribble.Snowflake.Value.{id_value}
use urban_octo_tribble.Snowflake.Order.{
  IsValid, SinceEpoch, Continues, generate-Continues, ids_after, generate_ids-collect,
  new_generator-IsValid,
}

-- The id names its datacenter and its worker.
abbrev pub IsFrom : ℕ → ℕ → ℤ → Type 0
IsFrom d w id = (n : ℕ) × (id ≡ pos n) × (n / 2 ^ 17 % 32 ≡ d) × (n / 2 ^ 12 % 32 ≡ w)

module _ (d w : ℕ) where
  abbrev Keeps : Outcome × Generator × List ℕ → Type 0
  Keeps (made id, g, clock) =
      IsFrom d w id × IsValid g × SinceEpoch clock × (g.datacenter_id ≡ d) × (g.worker_id ≡ w)
  Keeps (clock_moved_backwards _, g, clock) =
      IsValid g × SinceEpoch clock × (g.datacenter_id ≡ d) × (g.worker_id ≡ w)
  Keeps (waiting, g, clock) = Unit

  Keeps-Continues :
      (g : Generator) (r : Outcome × Generator × List ℕ)
      → IsValid g
      → g.datacenter_id ≡ d
      → g.worker_id ≡ w
      → Continues g r
      → Keeps r
  Keeps-Continues g (made id, g', clock) v ed ew (v', h, hd, hw, (t, et, ei), _) = (
    (id_value g' t, ei, omega (arith, v'.fields), omega (arith, v'.fields)),
    v',
    h,
    omega arith,
    omega arith,
  )
  Keeps-Continues g (clock_moved_backwards n, g', clock) v ed ew (same, h) = (rw same v, h, cc, cc)
  Keeps-Continues g (waiting, g', clock) v ed ew c = tt

  All-ids_after :
      (n : ℕ) (r : Outcome × Generator × List ℕ)
      → ((g : Generator) (clock : List ℕ)
          → IsValid g
          → SinceEpoch clock
          → g.datacenter_id ≡ d
          → g.worker_id ≡ w
          → All (IsFrom d w) (generate_ids n g clock))
      → Keeps r
      → All (IsFrom d w) (ids_after n r)
  All-ids_after n (made id, g, clock) ih (f, v, h, ed, ew) = (f, ih g clock v h ed ew)
  All-ids_after n (clock_moved_backwards _, g, clock) ih (v, h, ed, ew) = ih g clock v h ed ew
  All-ids_after n (waiting, g, clock) ih k = tt

  generate_ids-IsFrom :
      (n : ℕ) (g : Generator) (clock : List ℕ)
      → IsValid g
      → SinceEpoch clock
      → g.datacenter_id ≡ d
      → g.worker_id ≡ w
      → All (IsFrom d w) (generate_ids n g clock)
  generate_ids-IsFrom zero g clock v h ed ew = unfold generate_ids in tt
  generate_ids-IsFrom (suc n) g clock v h ed ew = rw generate_ids-collect (
      All-ids_after n (generate g clock)
        (λ g' c v' h' d' w'. generate_ids-IsFrom n g' c v' h' d' w')
        (Keeps-Continues g (generate g clock) v ed ew (generate-Continues g clock v h)))

IsFrom-ne : (d w d' w' : ℕ) (a b : ℤ) → (d ≢ d') ⊎ (w ≢ w') → IsFrom d w a → IsFrom d' w' b → a ≢ b
IsFrom-ne d w d' w' a b (inl h) (n, ea, ed, ew) (m, eb, ed', ew') e = grind arith
IsFrom-ne d w d' w' a b (inr h) (n, ea, ed, ew) (m, eb, ed', ew') e = grind arith

new_generator-IsFrom :
    (n d w : ℕ) (clock : List ℕ)
    → d < 32
    → w < 32
    → SinceEpoch clock
    → All (IsFrom d w) (generate_ids n (new_generator d w) clock)
new_generator-IsFrom n d w clock hd hw h =
    generate_ids-IsFrom d w n (new_generator d w) clock (new_generator-IsValid d w hd hw) h
      (unfold new_generator in refl) (unfold new_generator in refl)

-- Two new generators whose datacenters and workers are below 32, which their constructor does not
-- check, and that differ in the datacenter or in the worker never hand out the same id, whatever
-- their clocks show from the epoch on.
pub ids_of_two_workers_differ :
    (n n' d w d' w' : ℕ) (clock clock' : List ℕ)
    → (d < 32) × (w < 32) × (d' < 32) × (w' < 32)
    → (d ≢ d') ⊎ (w ≢ w')
    → SinceEpoch clock
    → SinceEpoch clock'
    → All
        (λ a. All (λ b. a ≢ b) (generate_ids n' (new_generator d' w') clock'))
        (generate_ids n (new_generator d w) clock)
ids_of_two_workers_differ n n' d w d' w' clock clock' (hd, hw, hd', hw') apart h h' =
    All-map (IsFrom d w) _ (generate_ids n (new_generator d w) clock)
      (λ a fa.
        All-map (IsFrom d' w') _ (generate_ids n' (new_generator d' w') clock')
          (λ b fb. IsFrom-ne d w d' w' a b apart fa fb)
          (new_generator-IsFrom n' d' w' clock' hd' hw' h'))
      (new_generator-IsFrom n d w clock hd hw h)

-- Two generators with the same datacenter and worker make the same id in every millisecond that is
-- new to both. The program gives each of its processes datacenter 1 and worker 1.
pub same_worker_same_id :
    (g g' : Generator) (t : ℕ) (clock clock' : List ℕ)
    → g.datacenter_id ≡ g'.datacenter_id
    → g.worker_id ≡ g'.worker_id
    → g.last_timestamp <ℤ pos t
    → g'.last_timestamp <ℤ pos t
    → (generate g (t ∷ clock)).0 ≡ (generate g' (t ∷ clock')).0
unfolding generate build_id
same_worker_same_id g g' t clock clock' ed ew later later' = ground arith
