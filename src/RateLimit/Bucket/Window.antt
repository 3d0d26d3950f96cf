-- ===== src/RateLimit/Bucket/Window.antt =====
-- What a user gets over any stretch of requests to `consume`.
use urban_octo_tribble.Base.{
  ℕ, suc, ◌+◌, ◌-◌, ◌*◌, ◌≤◌, min, ◌≡◌, refl, ap, ◌∙◌, Bool, true, false, List, [], ◌∷◌, Option,
  none, some, leb, ltb, inl, inr, Bool-cases, arith,
}
use urban_octo_tribble.Base.Int.{pos}
use urban_octo_tribble.Redis.{Redis, IsReliable}
use urban_octo_tribble.RateLimit.{
  token, second, BucketState, TokenBucket, Service, get_rate_limit_state, consume_from, consume,
}
use urban_octo_tribble.RateLimit.Bucket.{
  Mark, level, take_token, Before, level_full, Follows, consume_from-full, consume_from-held,
}

-- Times that do not go back.
abbrev pub Ascends : ℕ → List ℕ → Type 0
Ascends now [] = Unit
Ascends now (t ∷ ts) = (now ≤ t) × Ascends t ts

abbrev pub last_time : ℕ → List ℕ → ℕ
last_time now [] = now
last_time now (t ∷ ts) = last_time t ts

abbrev pub count : List Bool → ℕ
count [] = 0
count (true ∷ l) = suc (count l)
count (false ∷ l) = count l

-- The answers of the specification.
abbrev pub take_tokens : TokenBucket → Option Mark → List ℕ → List Bool
take_tokens b m [] = []
take_tokens b m (t ∷ ts) = (take_token b m t).0 ∷ take_tokens b (take_token b m t).1 ts

-- One user's requests, each for one token.
abbrev pub consume_all :
    (R : Redis ℕ BucketState) → TokenBucket → ℕ → List ℕ → Service R → List Bool
consume_all R b user_id [] s = []
consume_all R b user_id (t ∷ ts) s =
    let (answer, s') = consume R b user_id 1 t s in answer.0 ∷ consume_all R b user_id ts s'

grows :
    (c k a l n t : ℕ)
    → l ≤ n
    → n ≤ t
    → min c (a + (t - l) * k) ≤ min c (a + (n - l) * k) + (t - n) * k
grows c k a l n t h i = grind arith

level_grows :
    (b : TokenBucket) (m : Option Mark) (now t : ℕ)
    → Before m now
    → now ≤ t
    → level b m t ≤ level b m now + (t - now) * b.refill_rate
level_grows b none now t h i = omega arith
level_grows b (some m) now t h i =
    grows (b.capacity * token) b.refill_rate m.tokens m.last_refill now t h i

Before-mono : (m : Option Mark) (now t : ℕ) → Before m now → now ≤ t → Before m t
Before-mono none now t h i = tt
Before-mono (some m) now t h i = omega arith

taken : (c k l t : ℕ) → token ≤ l → min c (l - token + (t - t) * k) + 60000000 ≤ l
taken c k l t h = grind arith

-- After a request the level is down by what it took.
take_token-level :
    (b : TokenBucket) (m : Option Mark) (t : ℕ)
    → Before m t
    → Before (take_token b m t).1 t
      × (level b (take_token b m t).1 t + count ((take_token b m t).0 ∷ []) * token ≤ level b m t)
unfolding take_token
take_token-level b m t h = elim (Bool-cases (leb token (level b m t))) [
  | inl e ↦
      rw e (omega arith, taken (b.capacity * token) b.refill_rate (level b m t) t (ground arith))
  | inr e ↦ rw e (h, omega arith)
]

level_capacity : (b : TokenBucket) (m : Option Mark) (now : ℕ) → level b m now ≤ b.capacity * token
level_capacity b none now = omega arith
level_capacity b (some m) now = omega arith

level_after :
    (b : TokenBucket) (m : Option Mark) (now t : ℕ)
    → Before m now
    → b.refill_rate ≡ b.capacity
    → now + 60 * second ≤ t
    → level b m t ≡ b.capacity * token
level_after b none now t h rate late = refl
level_after b (some m) now t h rate late = level_full b m t rate (omega arith)

count_cons : (x : Bool) (l : List Bool) → count (x ∷ l) ≡ count (x ∷ []) + count l
count_cons true l = omega arith
count_cons false l = omega arith

Ascends-last : (now : ℕ) (ts : List ℕ) → Ascends now ts → now ≤ last_time now ts
Ascends-last now [] a = omega arith
Ascends-last now (t ∷ ts) (i, a) = omega (arith, Ascends-last t ts a)

-- The step of the induction, in numbers: `x` are the answers' grants, `l` the levels.
flows :
    (x x0 x1 l l1 l2 k now t last : ℕ)
    → now ≤ t
    → t ≤ last
    → x ≡ x0 + x1
    → l1 + x0 * token ≤ l2
    → x1 * token ≤ l1 + (last - t) * k
    → l2 ≤ l + (t - now) * k
    → x * token ≤ l + (last - now) * k
flows x x0 x1 l l1 l2 k now t last i j e h1 h2 h3 =
    let times : (last - now) * k ≡ (t - now) * k + (last - t) * k = grind arith in omega arith

-- The specification: a stretch of requests gets what the bucket held, and what flowed in meanwhile.
take_tokens_bound :
    (b : TokenBucket) (m : Option Mark) (now : ℕ) (ts : List ℕ)
    → Before m now
    → Ascends now ts
    → count (take_tokens b m ts) * token ≤ level b m now + (last_time now ts - now) * b.refill_rate
take_tokens_bound b m now [] h a = omega arith
take_tokens_bound b m now (t ∷ ts) h (i, a) =
    let step = take_token-level b m t (Before-mono m now t h i) in
    let rest = take_tokens_bound b (take_token b m t).1 t ts step.0 a in
    let grown = level_grows b m now t h i in
    let split = count_cons (take_token b m t).0 (take_tokens b (take_token b m t).1 ts) in
    let later = Ascends-last t ts a in
    flows (count (take_tokens b m (t ∷ ts))) (count ((take_token b m t).0 ∷ []))
      (count (take_tokens b (take_token b m t).1 ts)) (level b m now)
      (level b (take_token b m t).1 t) (level b m t) b.refill_rate now t (last_time t ts) i later
      split step.1 rest grown

module _ (R : Redis ℕ BucketState) (reliable : IsReliable R) (b : TokenBucket) (user_id : ℕ) where
  Follows-mono :
      (m : Option Mark) (now t : ℕ) (s : Service R)
      → Follows R reliable b user_id m now s
      → now ≤ t
      → Follows R reliable b user_id m t s
  unfolding Follows
  Follows-mono none now t s (up, held) i = (up, λ u j. held u (omega arith))
  Follows-mono (some m) now t s (up, held) i = (up, λ u j. held u (omega arith))

  consume-read :
      (o : Option BucketState) (now : ℕ) (s : Service R)
      → s.is_available ≡ true
      → R.look user_id now s.store ≡ o
      → consume R b user_id 1 now s ≡ consume_from R b user_id 1 now o s
  unfolding consume get_rate_limit_state
  consume-read none now s up held = rw (up, reliable.reads user_id now s.store, held) refl
  consume-read (some state) now s up held = rw (up, reliable.reads user_id now s.store, held) refl

  take_token_full :
      (m : Option Mark) (now : ℕ)
      → level b m now ≡ b.capacity * token
      → 1 ≤ b.capacity
      → take_token b m now
        ≡ (true, some (record { tokens = b.capacity * token - token; last_refill = now }))
  unfolding take_token
  take_token_full m now e h =
      let enough : leb token (b.capacity * token) ≡ true = ground arith in rw (e, enough) refl

  -- A request for one token is answered as a bucket that is never forgotten answers it, and the
  -- server then holds that bucket: that the key expires after 60 seconds makes no difference, since
  -- the bucket is full by then. The server answers every command, the clock is not behind the last
  -- request, and the rate is the capacity, of at least one token, a minute.
  pub consume-take :
      (m : Option Mark) (now : ℕ) (s : Service R)
      → Follows R reliable b user_id m now s
      → Before m now
      → 1 ≤ b.capacity
      → b.refill_rate ≡ b.capacity
      → ((consume R b user_id 1 now s).0.0 ≡ (take_token b m now).0)
        × Follows R reliable b user_id (take_token b m now).1 now (consume R b user_id 1 now s).1
  unfolding Follows
  consume-take none now s (up, held) h c rate =
      rw (consume-read none now s up (held now (omega arith)), take_token_full none now refl c)
        (consume_from-full R reliable b user_id now s up c)
  consume-take (some m) now s (up, held) h c rate =
      elim (Bool-cases (ltb now (m.last_refill + 60 * second))) [
        | inl soon ↦
            rw
              (consume-read (some (record { tokens = pos m.tokens; last_refill = m.last_refill }))
                now s up (rw (held now (omega arith), soon) refl))
              (consume_from-held R reliable b user_id m now s (up, held) h)
        | inr late ↦
            rw
              (
                consume-read none now s up (rw (held now (omega arith), late) refl),
                take_token_full (some m) now (level_full b m now rate (ground arith)) c,
              )
              (consume_from-full R reliable b user_id now s up c)
      ]

  consume_all-take :
      (m : Option Mark) (now : ℕ) (ts : List ℕ) (s : Service R)
      → Follows R reliable b user_id m now s
      → Before m now
      → Ascends now ts
      → 1 ≤ b.capacity
      → b.refill_rate ≡ b.capacity
      → consume_all R b user_id ts s ≡ take_tokens b m ts
  consume_all-take m now [] s f h a c rate = refl
  consume_all-take m now (t ∷ ts) s f h (i, a) c rate =
      let before = Before-mono m now t h i in
      let (answer, f') = consume-take m t s (Follows-mono m now t s f i) before c rate in
      let rest =
        consume_all-take (take_token b m t).1 t ts (consume R b user_id 1 t s).1 f'
          (take_token-level b m t before).0 a c rate in
      rw (answer, rest) refl

  -- However a user spreads requests for one token over a stretch of time, when each is decided
  -- before the next begins, they are not granted more than the capacity and what is refilled in
  -- the stretch. It starts where the server holds what some earlier request left, or nothing; the
  -- server answers every command, the clock does not go back, the capacity is at least one
  -- token, and the rate is the capacity a minute, as the middleware makes it.
  pub consume_all-bound :
      (m : Option Mark) (now : ℕ) (ts : List ℕ) (s : Service R)
      → Follows R reliable b user_id m now s
      → Before m now
      → Ascends now ts
      → 1 ≤ b.capacity
      → b.refill_rate ≡ b.capacity
      → count (consume_all R b user_id ts s) * token
        ≤ b.capacity * token + (last_time now ts - now) * b.refill_rate
  consume_all-bound m now ts s f h a c rate =
      let taken = take_tokens_bound b m now ts h a in
      let full = level_capacity b m now in
      rw (consume_all-take m now ts s f h a c rate) (omega arith)

  -- A client that waits for the 60 seconds of `retry_after` is granted its next request for one
  -- token, whatever the request before was answered. The server answers every command, the
  -- clock is not behind the last request, and the rate is the capacity, of at least one token,
  -- a minute.
  pub consume_after_minute :
      (m : Option Mark) (now t : ℕ) (s : Service R)
      → Follows R reliable b user_id m now s
      → Before m now
      → 1 ≤ b.capacity
      → b.refill_rate ≡ b.capacity
      → now + 60 * second ≤ t
      → (consume R b user_id 1 t (consume R b user_id 1 now s).1).0.0 ≡ true
  consume_after_minute m now t s f h c rate late =
      let (answer, f') = consume-take m now s f h c rate in
      let before = (take_token-level b m now h).0 in
      let m' = (take_token b m now).1 in
      let next =
        consume-take m' t (consume R b user_id 1 now s).1 (Follows-mono m' now t _ f' (omega arith))
          (Before-mono m' now t before (omega arith)) c rate in
      next.0
      ∙ ap (λ (r : Bool × Option Mark). r.0)
          (take_token_full m' t (level_after b m' now t before rate late) c)
