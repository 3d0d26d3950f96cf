-- ===== src/Idempotency/Retry/Tests.antt =====
-- Retries against an application that counts its calls, with a server that is a list.
use urban_octo_tribble.Base.{
  ℕ, ◌+◌, ◌*◌, ◌≡◌, ◌↔◌, refl, true, [], ◌∷◌, All, none, some, Text, codes, text_eq, text_eq_refl,
  text_eq_sound, arith,
}
use urban_octo_tribble.Redis.{Redis, IsReliable, list_redis, list_redis-IsReliable}
use urban_octo_tribble.Idempotency.{
  Request, Response, Cached, Application, Tools, second, cached_of, State, pass, keep, answer_from,
  dispatch,
}
use urban_octo_tribble.Idempotency.Retry.{IsKeyed, Holds, send_all, retries_reach_once}

text_eq_iff : (s t : Text) → (text_eq s t ≡ true) ↔ (s ≡ t)
text_eq_iff s t = (text_eq_sound s t, λ e. rw e (text_eq_refl t))

abbrev server : Redis Text Cached
server = list_redis text_eq text_eq_iff

abbrev reliable : IsReliable server
reliable = list_redis-IsReliable text_eq text_eq_iff

abbrev tools : Tools
tools = record { sha256 = λ b. b; is_utf8 = λ b. true; dict_of = λ h. h }

abbrev created : Response
created = record { status_code = 201; body = codes "{}"; headers = []; media_type = none }

abbrev counting : Application ℕ
counting request n = (some created, n + 1)

abbrev upload : Request
upload = record {
  method = codes "POST";
  idempotency_key = some (codes "k1");
  path = codes "/api/v1/documents/";
  body = codes "a";
}

abbrev start : State server tools counting
start = record { is_available = true; store = []; world = 0 }

upload-IsKeyed : IsKeyed server reliable tools counting 86400 (codes "k1") upload
unfolding text_eq
upload-IsKeyed = record { posts = refl; has_key = refl }

abbrev held : State server tools counting
held = record {
  is_available = true;
  store = (codes "idempotency:k1", cached_of tools upload created, 1000 + 86400 * second) ∷ [];
  world = 1;
}

dispatch_runs : dispatch server tools counting 86400 upload 1000 start ≡ (some created, held)
unfolding dispatch answer_from keep pass text_eq
dispatch_runs = refl

held-Holds :
    Holds server reliable tools counting 86400
      (codes "k1")
      (cached_of tools upload created)
      1000
      (1000 + 86400 * second)
      held
unfolding Holds text_eq
held-Holds = (refl, λ t _. refl)

retries_reach_once_example :
    ((dispatch server tools counting 86400 upload 1000 start).0 ≡ some created)
    × ((send_all server reliable tools counting 86400
          (codes "k1")
          upload
          (2000 ∷ 3000 ∷ [])
          (dispatch server tools counting 86400 upload 1000 start).1).1.world
        ≡ 1)
    × All
        (λ a. a ≡ some (record created { media_type = some (codes "application/json") }))
        (send_all server reliable tools counting 86400
          (codes "k1")
          upload
          (2000 ∷ 3000 ∷ [])
          (dispatch server tools counting 86400 upload 1000 start).1).0
retries_reach_once_example =
    retries_reach_once server reliable tools counting 86400 (codes "k1") upload 1000 start created 1
      (2000 ∷ 3000 ∷ []) upload-IsKeyed refl refl refl refl refl
      (omega arith, omega arith, (omega arith, omega arith, tt))
