-- ===== src/RateLimit/Bucket.antt =====
-- `consume` against a bucket that neither expires nor lives in a server.
pub mod Window
mod Tests
use urban_octo_tribble.Base.{
  ℕ, zero, suc, ◌+◌, ◌-◌, ◌*◌, ◌≤◌, ◌<◌, min, ◌≡◌, refl, sym, ap, ◌∙◌, Bool, true, false, List, [],
  ◌∷◌, Option, none, some, leb, ltb, ◌⊎◌, inl, inr, Bool-cases, if◌then◌else◌, arith,
}
use urban_octo_tribble.Base.Int.{ℤ, pos, negsuc, ◌+ℤ◌, ◌-ℤ◌, leb_ℤ, ltb_ℤ, int_laws}
use urban_octo_tribble.Redis.{Redis, IsReliable}
use urban_octo_tribble.RateLimit.{
  token, second, BucketState, TokenBucket, refilled, min_ℤ, scale, Service, get_rate_limit_state,
  set_rate_limit_state, consume_from, consume,
}

-- The bucket as a user's last request left it; `none` if there was none.
pub record Mark : Type 0 where
  pub tokens : ℕ
  pub last_refill : ℕ

abbrev pub level : TokenBucket → Option Mark → ℕ → ℕ
level b none now = b.capacity * token
level b (some m) now = min (b.capacity * token) (m.tokens + (now - m.last_refill) * b.refill_rate)

-- The specification of one request.
pub take_token : TokenBucket → Option Mark → ℕ → Bool × Option Mark
take_token b m now =
    if leb token (level b m now)
    then (true, some (record { tokens = level b m now - token; last_refill = now }))
    else (false, m)

abbrev pub Before : Option Mark → ℕ → Type 0
Before none now = Unit
Before (some m) now = m.last_refill ≤ now

refilled-pos :
    (b : TokenBucket) (tokens last now : ℕ)
    → last ≤ now
    → refilled b (record { tokens = pos tokens; last_refill = last }) now
      ≡ pos (level b (some (record { tokens = tokens; last_refill = last })) now)
unfolding refilled ◌+ℤ◌ ◌-ℤ◌
refilled-pos b tokens last now h = ground arith

-- After 60 seconds the bucket is full: the key may expire then.
level_full :
    (b : TokenBucket) (m : Mark) (now : ℕ)
    → b.refill_rate ≡ b.capacity
    → m.last_refill + 60 * second ≤ now
    → level b (some m) now ≡ b.capacity * token
level_full b m now rate h = grind arith

module _ (R : Redis ℕ BucketState) (reliable : IsReliable R) (b : TokenBucket) (user_id : ℕ) where
  -- The server holds the bucket: until the key expires, and nothing from then on.
  pub Follows : Option Mark → ℕ → Service R → Type 0
  Follows none now s =
      (s.is_available ≡ true) × ((t : ℕ) → now ≤ t → R.look user_id t s.store ≡ none)
  Follows (some m) now s =
      (s.is_available ≡ true)
      × ((t : ℕ)
          → now ≤ t
          → R.look user_id t s.store ≡ (
              if ltb t (m.last_refill + 60 * second)
              then some (record { tokens = pos m.tokens; last_refill = m.last_refill })
              else none))

  set_rate_limit_state-Follows :
      (tokens now : ℕ) (s : Service R)
      → s.is_available ≡ true
      → Follows
          (some (record { tokens = tokens; last_refill = now }))
          now
          (set_rate_limit_state R user_id (pos tokens) now 60 now s).1
  unfolding Follows set_rate_limit_state
  set_rate_limit_state-Follows tokens now s up = rw up (
    refl,
    λ t h.
        R.look-save_self user_id (record { tokens = pos tokens; last_refill = now }) (60 * second)
          now t s.store (reliable.saves user_id _ _ now s.store) h,
  )

  -- What `consume` makes of a full bucket that the server does not hold.
  consume_from-full :
      (now : ℕ) (s : Service R)
      → s.is_available ≡ true
      → 1 ≤ b.capacity
      → ((consume_from R b user_id 1 now none s).0.0 ≡ true)
        × Follows
            (some (record { tokens = b.capacity * token - token; last_refill = now }))
            now
            (consume_from R b user_id 1 now none s).1
  unfolding consume_from
  consume_from-full now s up h =
      let left : pos (b.capacity * token) -ℤ pos (1 * token) ≡ pos (b.capacity * token - token) =
        unfold ◌-ℤ◌ in ground arith in
      rw left (refl, set_rate_limit_state-Follows (b.capacity * token - token) now s up)

  consume_from-held :
      (m : Mark) (now : ℕ) (s : Service R)
      → Follows (some m) now s
      → m.last_refill ≤ now
      → ((consume_from R b user_id 1 now
            (some (record { tokens = pos m.tokens; last_refill = m.last_refill }))
            s).0.0
          ≡ (take_token b (some m) now).0)
        × Follows
            (take_token b (some m) now).1
            now
            (consume_from R b user_id 1 now
              (some (record { tokens = pos m.tokens; last_refill = m.last_refill }))
              s).1
  unfolding consume_from take_token
  consume_from-held m now s f h = elim (Bool-cases (leb token (level b (some m) now))) [
    | inl enough ↦
        let left : pos (level b (some m) now) -ℤ pos (1 * token)
            ≡ pos (level b (some m) now - token) =
          unfold ◌-ℤ◌ in ground arith in
        let test : leb_ℤ (pos (1 * token)) (pos (level b (some m) now)) ≡ true = ground arith in
        rw (enough, refilled-pos b m.tokens m.last_refill now h, test, left)
          (
            refl,
            set_rate_limit_state-Follows (level b (some m) now - token) now s
                (unfold Follows in f.0),
          )
    | inr short ↦
        let test : leb_ℤ (pos (1 * token)) (pos (level b (some m) now)) ≡ false = ground arith in
        rw (short, refilled-pos b m.tokens m.last_refill now h, test) (refl, f)
  ]
