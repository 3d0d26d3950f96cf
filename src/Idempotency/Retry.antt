-- ===== src/Idempotency/Retry.antt =====
-- What a client gets that sends a request again under its idempotency key.

mod Tests
use urban_octo_tribble.Base.{
  ℕ, ◌+◌, ◌*◌, ◌<◌, ◌≤◌, ◌≡◌, refl, sym, ap, ◌∙◌, Bool, true, false, List, [], ◌∷◌, All, Option,
  none, some, some-injective, Text, codes, text_eq, text_eq_refl, ltb, ◌⊎◌, inl, inr, Bool-cases,
  if◌then◌else◌, arith,
}
use urban_octo_tribble.Redis.{Redis, IsReliable}
use urban_octo_tribble.Idempotency.{
  Request, Response, Cached, Application, Tools, second, key_reused, or_json, replayed, cached_of,
  is_success, redis_key, key_of, State, Answer, pass, keep, after_call, answer_from, with_key,
  dispatch,
}

module _ (R : Redis Text Cached) (reliable : IsReliable R) (tools : Tools) {World : Type 0}
    (call_next : Application World) (ttl_seconds : ℕ) (key : Text) where
  -- A request that the middleware looks after.
  pub record IsKeyed (request : Request) : Type 0 where
    pub posts : text_eq request.method (codes "POST") ≡ true
    pub has_key : key_of request.idempotency_key ≡ some key

  -- The server holds an answer until a time.
  pub Holds : Cached → ℕ → ℕ → State R tools call_next → Type 0
  Holds c now until s =
      (s.is_available ≡ true)
      × ((t : ℕ)
          → now ≤ t
          → R.look (redis_key key) t s.store ≡ (if ltb t until then some c else none))

  dispatch_read :
      (request : Request) (now : ℕ) (s : State R tools call_next) (o : Option Cached)
      → IsKeyed request
      → s.is_available ≡ true
      → R.look (redis_key key) now s.store ≡ o
      → dispatch R tools call_next ttl_seconds request now s
        ≡ answer_from R tools call_next ttl_seconds key request now (some o) s
  unfolding dispatch
  dispatch_read request now s o k up held =
      rw (k.posts, k.has_key, up, reliable.reads (redis_key key) now s.store, held) refl

  -- The first request whose answer is a success: the application is called once, and the server
  -- then holds the answer.
  dispatch_first :
      (request : Request) (now : ℕ) (s : State R tools call_next) (r : Response) (world : World)
      → IsKeyed request
      → s.is_available ≡ true
      → R.look (redis_key key) now s.store ≡ none
      → call_next request s.world ≡ (some r, world)
      → is_success r ≡ true
      → tools.is_utf8 r.body ≡ true
      → ((dispatch R tools call_next ttl_seconds request now s).0
          ≡ some (record r { headers = tools.dict_of r.headers }))
        × ((dispatch R tools call_next ttl_seconds request now s).1.world ≡ world)
        × Holds
            (cached_of tools request r)
            now
            (now + ttl_seconds * second)
            (dispatch R tools call_next ttl_seconds request now s).1
  unfolding answer_from keep pass Holds
  dispatch_first request now s r world k up fresh answers success utf8 =
      rw
        (
          dispatch_read request now s none k up fresh,
          answers,
          success,
          utf8,
          reliable.saves (redis_key key) (cached_of tools request r) (ttl_seconds * second) now
              s.store,
        )
        (
          refl,
          refl,
          (
            up,
            λ t h.
                R.look-save_self (redis_key key) (cached_of tools request r) (ttl_seconds * second)
                  now t s.store (reliable.saves _ _ _ now s.store) h,
          ),
        )

  held_at :
      (c : Cached) (t until : ℕ) (s : State R tools call_next)
      → R.look (redis_key key) t s.store ≡ (if ltb t until then some c else none)
      → t < until
      → R.look (redis_key key) t s.store ≡ some c
  held_at c t until s h i = let before : ltb t until ≡ true = ground arith in h ∙ rw before refl

  -- While the server holds an answer, no POST request under its key reaches the application or
  -- changes the server: one with the same hash gets the answer again, and one with another hash gets
  -- the status 422. The server answers every command.
  pub dispatch_again :
      (c : Cached) (now until t : ℕ) (request : Request) (s : State R tools call_next)
      → Holds c now until s
      → IsKeyed request
      → now ≤ t
      → t < until
      → dispatch R tools call_next ttl_seconds request t s ≡ (
        some (if text_eq c.body_hash (tools.sha256 request.body) then replayed c else key_reused),
        s,
      )
  unfolding Holds answer_from
  dispatch_again c now until t request s (up, held) k h i =
      elim (Bool-cases (text_eq c.body_hash (tools.sha256 request.body))) [
        | inl same ↦
            dispatch_read request t s (some c) k up (held_at c t until s (held t h) i)
            ∙ rw same refl
        | inr differs ↦
            dispatch_read request t s (some c) k up (held_at c t until s (held t h) i)
            ∙ rw differs refl
      ]

  abbrev pub Within : ℕ → ℕ → List ℕ → Type 0
  Within now until [] = Unit
  Within now until (t ∷ ts) = (now ≤ t) × (t < until) × Within now until ts

  -- The same request at each of the times.
  abbrev pub send_all :
      Request → List ℕ → State R tools call_next → List (Option Response) × State R tools call_next
  send_all request [] s = ([], s)
  send_all request (t ∷ ts) s =
      let (answer, s') = dispatch R tools call_next ttl_seconds request t s in
      let (answers, s'') = send_all request ts s' in (answer ∷ answers, s'')

  send_all_again :
      (c : Cached) (now until : ℕ) (request : Request) (s : State R tools call_next) (ts : List ℕ)
      → Holds c now until s
      → IsKeyed request
      → text_eq c.body_hash (tools.sha256 request.body) ≡ true
      → Within now until ts
      → ((send_all request ts s).1 ≡ s) × All (λ a. a ≡ some (replayed c)) (send_all request ts s).0
  send_all_again c now until request s [] held k same w = (refl, tt)
  send_all_again c now until request s (t ∷ ts) held k same (h, i, w) =
      let again = dispatch_again c now until t request s held k h i in
      let rest = send_all_again c now until request s ts held k same w in
      rw (again, same) (rest.0, (refl, rest.1))

  -- A POST request under an idempotency key that is sent again under it, any number of times, each
  -- after the answer before and before the entry expires, reaches the application once: the world
  -- is as the first call left it, the first answer is the application's with its headers made a
  -- dictionary, and each answer after it is the same with its media type filled in. The
  -- application's answer is a success with a UTF-8 body, the server holds nothing under the key
  -- before, it is connected, and it answers every command.
  pub retries_reach_once :
      (request : Request) (now : ℕ) (s : State R tools call_next) (r : Response) (world : World)
      (ts : List ℕ)
      → IsKeyed request
      → s.is_available ≡ true
      → R.look (redis_key key) now s.store ≡ none
      → call_next request s.world ≡ (some r, world)
      → is_success r ≡ true
      → tools.is_utf8 r.body ≡ true
      → Within now (now + ttl_seconds * second) ts
      → ((dispatch R tools call_next ttl_seconds request now s).0
          ≡ some (record r { headers = tools.dict_of r.headers }))
        × ((send_all request ts (dispatch R tools call_next ttl_seconds request now s).1).1.world
            ≡ world)
        × All
            (λ a.
              a
              ≡ some (record r {
                headers = tools.dict_of r.headers;
                media_type = some (or_json r.media_type);
              }))
            (send_all request ts (dispatch R tools call_next ttl_seconds request now s).1).0
  retries_reach_once request now s r world ts k up fresh answers success utf8 w =
      let (first, kept, held) =
        dispatch_first request now s r world k up fresh answers success utf8 in
      let s' = (dispatch R tools call_next ttl_seconds request now s).1 in
      let (still, rest) =
        send_all_again (cached_of tools request r) now (now + ttl_seconds * second) request s' ts
          held k (text_eq_refl (tools.sha256 request.body)) w in
      (first, ap (λ (x : State R tools call_next). x.world) still ∙ kept, rest)
