-- ===== src/Snowflake/Progress.antt =====
-- When a call ends with an id, and that ids fit in the column that stores them.
use urban_octo_tribble.Base.{
  ℕ, ◌+◌, ◌^◌, ◌<◌, ◌≡◌, ◌≢◌, ◌⊎◌, inl, inr, refl, List, [], ◌∷◌, All, Option, none, some, arith,
  bit_and, Bool-cases, false, ==_iff, ◌==◌, if◌then◌else◌,
}
use urban_octo_tribble.Base.Int.{ℤ, pos, ◌<ℤ◌, ◌≤ℤ◌, ltb_ℤ, eqb_ℤ, ◌-ℤ◌}
use urban_octo_tribble.Snowflake.{
  Generator, epoch, wait_next_millis, issue, issue_after_wait, Outcome, made, clock_moved_backwards,
  waiting, generate, build_id, max_sequence,
}
use urban_octo_tribble.Snowflake.Value.{id_value}
use urban_octo_tribble.Snowflake.Order.{IsValid, SinceEpoch, Continues, generate-Continues}

-- Some reading is later than `last`.
abbrev pub HasLater : ℤ → List ℕ → Type 0
HasLater last [] = ⊥
HasLater last (t ∷ clock) = (last <ℤ pos t) ⊎ HasLater last clock

wait_next_millis-HasLater :
    (last : ℤ) (clock : List ℕ) → HasLater last clock → wait_next_millis last clock ≢ none
unfolding wait_next_millis
wait_next_millis-HasLater last [] h e = h
wait_next_millis-HasLater last (t ∷ clock) (inl h) e = ground arith
wait_next_millis-HasLater last (t ∷ clock) (inr h) e =
    ground (arith, wait_next_millis-HasLater last clock h)

issue_after_wait-made :
    (g : Generator) (o : Option (ℕ × List ℕ))
    → o ≢ none
    → (id : ℤ) × ((issue_after_wait g o).0 ≡ made id)
unfolding issue_after_wait issue
issue_after_wait-made g none h = absurd (h refl)
issue_after_wait-made g (some (t, clock)) h = (build_id g t, refl)

generate-made :
    (g : Generator) (t : ℕ) (clock : List ℕ)
    → HasLater g.last_timestamp clock
    → ltb_ℤ (pos t) g.last_timestamp ≡ false
    → (id : ℤ) × ((generate g (t ∷ clock)).0 ≡ made id)
unfolding generate issue
generate-made g t clock h not_back = elim (Bool-cases (eqb_ℤ (pos t) g.last_timestamp)) [
  | inr later ↦ rw (not_back, later) (build_id (record g { sequence = 0 }) t, refl)
  | inl same ↦
      let s = bit_and (g.sequence + 1) max_sequence in
      let g' = record g { sequence = s } in
      elim (Bool-cases (s == 0)) [
        | inl wraps ↦
            rw (not_back, same, wraps)
              (issue_after_wait-made g' _ (wait_next_millis-HasLater g.last_timestamp clock h))
        | inr fits ↦ rw (not_back, same, fits) (build_id g' t, refl)
      ]
]

-- A call always ends if the clock goes on: by the exception, with the generator as it was and the
-- distance of the step back, exactly when the first reading is before the last id's; otherwise with
-- an id, since the wait for the next millisecond ends when some reading is later than the last id's.
pub generate_ends :
    (g : Generator) (t : ℕ) (clock : List ℕ)
    → HasLater g.last_timestamp clock
    → ((pos t <ℤ g.last_timestamp)
        × (generate g (t ∷ clock) ≡ (clock_moved_backwards (g.last_timestamp -ℤ pos t), g, clock)))
      ⊎ ((g.last_timestamp ≤ℤ pos t) × ((id : ℤ) × ((generate g (t ∷ clock)).0 ≡ made id)))
unfolding generate issue
generate_ends g t clock h = elim (Bool-cases (ltb_ℤ (pos t) g.last_timestamp)) [
  | inl back ↦ inl (ground arith, rw back)
  | inr not_back ↦ inr (ground arith, generate-made g t clock h not_back)
]

-- A call that is waiting has used every reading.
abbrev pub Waits : Outcome × Generator × List ℕ → Type 0
Waits (made id, g, clock) = Unit
Waits (clock_moved_backwards n, g, clock) = Unit
Waits (waiting, g, clock) = clock ≡ []

issue_after_wait-Waits : (g : Generator) (o : Option (ℕ × List ℕ)) → Waits (issue_after_wait g o)
unfolding issue_after_wait issue
issue_after_wait-Waits g none = refl
issue_after_wait-Waits g (some (t, clock)) = tt

pub generate-Waits : (g : Generator) (clock : List ℕ) → Waits (generate g clock)
unfolding generate issue
generate-Waits g [] = refl
generate-Waits g (t ∷ clock) = elim (Bool-cases (ltb_ℤ (pos t) g.last_timestamp)) [
  | inl back ↦ rw back tt
  | inr not_back ↦ elim (Bool-cases (eqb_ℤ (pos t) g.last_timestamp)) [
    | inr later ↦ rw (not_back, later) tt
    | inl same ↦
        let s = bit_and (g.sequence + 1) max_sequence in
        elim (Bool-cases (s == 0)) [
          | inl wraps ↦
              rw (not_back, same, wraps)
                (issue_after_wait-Waits (record g { sequence = s })
                  (wait_next_millis g.last_timestamp clock))
          | inr fits ↦ rw (not_back, same, fits) tt
        ]
  ]
]

-- A reading after the last id's is used at once.
pub generate_later :
    (g : Generator) (t : ℕ) (clock : List ℕ)
    → g.last_timestamp <ℤ pos t
    → generate g (t ∷ clock) ≡ (
      made (build_id (record g { sequence = 0 }) t),
      record g { sequence = 0; last_timestamp = pos t },
      clock,
    )
unfolding generate issue
generate_later g t clock h =
    let not_back : ltb_ℤ (pos t) g.last_timestamp ≡ false = ground arith in
    let new : eqb_ℤ (pos t) g.last_timestamp ≡ false = ground arith in rw (not_back, new) refl

module _ (limit : ℕ) where
  abbrev LastBelow : Outcome × Generator × List ℕ → Type 0
  LastBelow (made id, g, clock) = g.last_timestamp <ℤ pos limit
  LastBelow (_, g, clock) = Unit

  wait-below :
      (last : ℤ) (clock : List ℕ) (t : ℕ) (clock' : List ℕ)
      → wait_next_millis last clock ≡ some (t, clock')
      → All (λ t. t < limit) clock
      → t < limit
  unfolding wait_next_millis
  wait-below last [] t clock' e h = cc
  wait-below last (r ∷ clock) t clock' e h = ground (arith, wait-below last clock t clock')

  issue_after_wait-LastBelow :
      (g : Generator) (o : Option (ℕ × List ℕ)) (clock : List ℕ)
      → wait_next_millis g.last_timestamp clock ≡ o
      → All (λ t. t < limit) clock
      → LastBelow (issue_after_wait (record g { sequence = 0 }) o)
  unfolding issue_after_wait issue
  issue_after_wait-LastBelow g none clock e h = tt
  issue_after_wait-LastBelow g (some (t, clock')) clock e h =
      omega (arith, wait-below g.last_timestamp clock t clock' e h)

  same_millisecond-LastBelow :
      (g : Generator) (t : ℕ) (clock : List ℕ) (s : ℕ)
      → t < limit
      → All (λ t. t < limit) clock
      → LastBelow (
          if s == 0
          then issue_after_wait
              (record g { sequence = s })
              (wait_next_millis g.last_timestamp clock)
          else issue (record g { sequence = s }) t clock)
  unfolding issue
  same_millisecond-LastBelow g t clock s ht h = elim (Bool-cases (s == 0)) [
    | inl wraps ↦
        rw (wraps, (==_iff s 0).0 wraps)
          (issue_after_wait-LastBelow g (wait_next_millis g.last_timestamp clock) clock refl h)
    | inr fits ↦ rw fits (omega arith)
  ]

  generate-LastBelow :
      (g : Generator) (clock : List ℕ) → All (λ t. t < limit) clock → LastBelow (generate g clock)
  unfolding generate issue
  generate-LastBelow g [] h = tt
  generate-LastBelow g (t ∷ clock) (ht, h) = elim (Bool-cases (ltb_ℤ (pos t) g.last_timestamp)) [
    | inl back ↦ rw back tt
    | inr not_back ↦ elim (Bool-cases (eqb_ℤ (pos t) g.last_timestamp)) [
      | inl same ↦ rw (not_back, same) (same_millisecond-LastBelow g t clock _ ht h)
      | inr later ↦ rw (not_back, later) (omega arith)
    ]
  ]

fits :
    (g : Generator) (r : Outcome × Generator × List ℕ)
    → Continues g r
    → LastBelow (epoch + 2 ^ 41) r
    → (id : ℤ) → r.0 ≡ made id
    → (pos 0 ≤ℤ id) × (id <ℤ pos (2 ^ 63))
fits g (made a, g', clock) (v, _, _, _, (t, et, ei), _) below id e =
    let same : id ≡ pos (id_value g' t) = cc in
    let bound : pos t <ℤ pos (epoch + 2 ^ 41) = rw et at below in
    rw same (omega arith, omega (arith, v.fields))
fits g (clock_moved_backwards d, g', clock) c below id e = cc
fits g (waiting, g', clock) c below id e = cc

-- In the first 2^41 milliseconds after the epoch an id that a call makes fits in a signed 64-bit
-- integer, as the columns that store it are.
pub generate_fits :
    (g : Generator) (clock : List ℕ)
    → IsValid g
    → SinceEpoch clock
    → All (λ t. t < epoch + 2 ^ 41) clock
    → (id : ℤ) → (generate g clock).0 ≡ made id
    → (pos 0 ≤ℤ id) × (id <ℤ pos (2 ^ 63))
generate_fits g clock v h small id e =
    fits g (generate g clock) (generate-Continues g clock v h)
      (generate-LastBelow (epoch + 2 ^ 41) g clock small) id e
