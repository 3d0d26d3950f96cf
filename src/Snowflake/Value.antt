-- ===== src/Snowflake/Value.antt =====
-- What the shifts and the `|` of `generate` make of the four parts of an id.
use urban_octo_tribble.Base.{ℕ, ◌+◌, ◌-◌, ◌*◌, ◌/◌, ◌%◌, ◌^◌, ◌≤◌, ◌<◌, ◌≡◌, ap, ◌∙◌, arith, bit_or}
use urban_octo_tribble.Base.Int.{pos, ◌-ℤ◌}
use urban_octo_tribble.Base.Bits.{bit_or-shift}
use urban_octo_tribble.Snowflake.{Generator, epoch, build_id}

-- Each part fits in its bits.
pub record HasFields (g : Generator) : Type 0 where
  pub datacenter : g.datacenter_id < 32
  pub worker : g.worker_id < 32
  pub sequence : g.sequence < 4096

-- The parts side by side, as a number.
abbrev pub id_value : Generator → ℕ → ℕ
id_value g timestamp =
    (timestamp - epoch) * 4194304 + g.datacenter_id * 131072 + g.worker_id * 4096 + g.sequence

module _ (q d w s : ℕ) (hd : d < 32) (hw : w < 32) (hs : s < 4096) where
  join_datacenter : bit_or (q * 2 ^ 22) (d * 2 ^ 17) ≡ (q * 32 + d) * 2 ^ 17
  join_datacenter = omega (arith, bit_or-shift 22 q (d * 2 ^ 17) (omega arith))

  join_worker : bit_or ((q * 32 + d) * 2 ^ 17) (w * 2 ^ 12) ≡ ((q * 32 + d) * 32 + w) * 2 ^ 12
  join_worker = omega (arith, bit_or-shift 17 (q * 32 + d) (w * 2 ^ 12) (omega arith))

  pub join_fields :
      bit_or (bit_or (bit_or (q * 2 ^ 22) (d * 2 ^ 17)) (w * 2 ^ 12)) s
      ≡ q * 4194304 + d * 131072 + w * 4096 + s
  join_fields =
      ap (λ (x : ℕ). bit_or (bit_or x (w * 2 ^ 12)) s) join_datacenter
      ∙ ap (λ (x : ℕ). bit_or x s) join_worker
      ∙ omega (arith, bit_or-shift 12 ((q * 32 + d) * 32 + w) s hs)

-- From 2010 on the id is the parts side by side: no part reaches into another.
pub build_id-eq-value :
    (g : Generator) (timestamp : ℕ)
    → HasFields g
    → epoch ≤ timestamp
    → build_id g timestamp ≡ pos (id_value g timestamp)
unfolding build_id ◌-ℤ◌
build_id-eq-value g timestamp h e = grind (
  arith,
  join_fields (timestamp - epoch) g.datacenter_id g.worker_id g.sequence h.datacenter h.worker
      h.sequence,
)

-- From 2010 on, and with parts that fit in their bits, every part can be read off the id that is
-- built: the milliseconds since the epoch, the datacenter, the worker and the sequence number.
pub build_id_fields :
    (g : Generator) (timestamp : ℕ)
    → HasFields g
    → epoch ≤ timestamp
    → (n : ℕ) × (build_id g timestamp ≡ pos n)
      × (n / 2 ^ 22 ≡ timestamp - epoch)
      × (n / 2 ^ 17 % 2 ^ 5 ≡ g.datacenter_id)
      × (n / 2 ^ 12 % 2 ^ 5 ≡ g.worker_id)
      × (n % 2 ^ 12 ≡ g.sequence)
build_id_fields g timestamp h e = (
  id_value g timestamp,
  build_id-eq-value g timestamp h e,
  omega arith,
  omega arith,
  omega arith,
  omega arith,
)
