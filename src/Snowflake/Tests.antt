-- ===== src/Snowflake/Tests.antt =====
-- The generator at concrete readings, and its theorems there.
use urban_octo_tribble.Base.{ℕ, ◌^◌, ◌≡◌, ◌≢◌, ◌⊎◌, inl, inr, refl, List, [], ◌∷◌, All, arith}
use urban_octo_tribble.Base.Int.{ℤ, pos, negsuc, ◌-ℤ◌, ◌≤ℤ◌, ◌<ℤ◌}
use urban_octo_tribble.Snowflake.{
  Generator, new_generator, build_id, wait_next_millis, made, clock_moved_backwards, generate,
  generate_ids,
}
use urban_octo_tribble.Snowflake.Order.{IsValid, AscendsFrom, generate_ids_ascend}
use urban_octo_tribble.Snowflake.Workers.{ids_of_two_workers_differ, same_worker_same_id}
use urban_octo_tribble.Snowflake.Progress.{generate_ends, generate_fits}

-- Two calls in one millisecond, a step back, and a call a millisecond later.
abbrev readings : List ℕ
readings = 1700000000000 ∷ 1700000000000 ∷ 1699999999999 ∷ 1700000000001 ∷ []

generate_ids_run :
    generate_ids 4 (new_generator 1 1) readings
    ≡ pos 1724551110456381440 ∷ pos 1724551110456381441 ∷ pos 1724551110460575744 ∷ []
unfolding generate_ids generate new_generator build_id wait_next_millis ◌-ℤ◌
generate_ids_run = refl

-- The last sequence number of a millisecond has been used, so that the call waits.
abbrev full : Generator
full = record {
  datacenter_id = 1;
  worker_id = 1;
  sequence = 4095;
  last_timestamp = pos 1700000000000;
}

generate_waits :
    (generate full (1700000000000 ∷ 1700000000000 ∷ 1700000000002 ∷ [])).0
    ≡ made (pos 1724551110464770048)
unfolding generate build_id wait_next_millis ◌-ℤ◌
generate_waits = refl

full-IsValid : IsValid full
full-IsValid = omega arith

generate_ids_ascend_example : AscendsFrom 0 (generate_ids 4 (new_generator 1 1) readings)
generate_ids_ascend_example =
    generate_ids_ascend 4 1 1 readings (omega arith) (omega arith) (omega arith)

ids_of_two_workers_differ_example :
    All
      (λ a. All (λ b. a ≢ b) (generate_ids 4 (new_generator 1 2) readings))
      (generate_ids 4 (new_generator 1 1) readings)
ids_of_two_workers_differ_example =
    ids_of_two_workers_differ 4 4 1 1 1 2 readings readings (omega arith) (inr (omega arith))
      (omega arith) (omega arith)

same_worker_same_id_example :
    (generate full (1700000000001 ∷ [])).0
    ≡ (generate
        (record { datacenter_id = 1; worker_id = 1; sequence = 7; last_timestamp = negsuc 0 })
        (1700000000001 ∷ [])).0
same_worker_same_id_example =
    same_worker_same_id full
      (record { datacenter_id = 1; worker_id = 1; sequence = 7; last_timestamp = negsuc 0 })
      1700000000001 [] [] refl refl (omega arith) (omega arith)

generate_ends_example :
    ((pos 1700000000000 <ℤ full.last_timestamp)
      × (generate full (1700000000000 ∷ 1700000000002 ∷ []) ≡ (
        clock_moved_backwards (full.last_timestamp -ℤ pos 1700000000000),
        full,
        1700000000002 ∷ [],
      )))
    ⊎ ((full.last_timestamp ≤ℤ pos 1700000000000)
        × ((id : ℤ) × ((generate full (1700000000000 ∷ 1700000000002 ∷ [])).0 ≡ made id)))
generate_ends_example = generate_ends full 1700000000000 (1700000000002 ∷ []) (inl (omega arith))

generate_fits_example :
    (pos 0 ≤ℤ pos 1724551110464770048) × (pos 1724551110464770048 <ℤ pos (2 ^ 63))
generate_fits_example =
    generate_fits full (1700000000000 ∷ 1700000000000 ∷ 1700000000002 ∷ []) full-IsValid
      (omega arith) (omega arith) (pos 1724551110464770048) generate_waits
