-- ===== src/Auth/PlainJwt.antt =====
-- An encoding of claims without a signature, which has the laws that `Jwt` asks for.
use urban_octo_tribble.Base.{
  ℕ, zero, suc, ◌+◌, ◌*◌, ◌/◌, ◌<◌, ◌≤◌, ◌≡◌, refl, sym, ap, ◌∙◌, Bool, true, false, List, [], ◌∷◌,
  ◌++◌, Option, none, some, some-injective, Text, length, take, drop, ltb, inl, inr, Bool-cases,
  if◌then◌else◌, arith,
}
use urban_octo_tribble.Auth.{second, Claims, Payload, payload_of, Jwt}

take-length : (s t : Text) → take (length s) (s ++ t) ≡ s
take-length [] t = refl
take-length (c ∷ s) t = ap (λ (x : Text). c ∷ x) (take-length s t)

drop-length : (s t : Text) → drop (length s) (s ++ t) ≡ t
drop-length [] t = refl
drop-length (c ∷ s) t = drop-length s t

abbrev pub texts_out : List Text → Text
texts_out [] = []
texts_out (t ∷ ts) = length t ∷ (t ++ texts_out ts)

abbrev pub texts_in : ℕ → Text → List Text
texts_in zero l = []
texts_in (suc n) [] = []
texts_in (suc n) (k ∷ l) = take k l ∷ texts_in n (drop k l)

texts_in-out : (ts : List Text) → texts_in (length ts) (texts_out ts) ≡ ts
texts_in-out [] = refl
texts_in-out (t ∷ ts) =
    rw (take-length t (texts_out ts), drop-length t (texts_out ts), texts_in-out ts) refl

abbrev pub number_out : Option ℕ → ℕ
number_out none = 0
number_out (some n) = suc n

abbrev pub number_in : ℕ → Option ℕ
number_in zero = none
number_in (suc n) = some n

number_in-out : (o : Option ℕ) → number_in (number_out o) ≡ o
number_in-out none = refl
number_in-out (some n) = refl

abbrev pub claims_out : Claims → Text
claims_out c =
    length c.sub
    ∷ c.id
    ∷ number_out c.tier_limit
    ∷ c.expire
    ∷ length c.kind
    ∷ length c.scopes
    ∷ (c.sub ++ (c.kind ++ texts_out c.scopes))

abbrev pub claims_in : Text → Option Payload
claims_in (a ∷ id ∷ tier ∷ expire ∷ b ∷ n ∷ l) = some (record {
  sub = some (take a l);
  id = some id;
  tier_limit = number_in tier;
  scopes = some (texts_in n (drop b (drop a l)));
  exp = some (expire / second);
  kind = some (take b (drop a l));
})
claims_in _ = none

claims_in-out : (c : Claims) → claims_in (claims_out c) ≡ some (payload_of c)
claims_in-out c =
    let rest = c.kind ++ texts_out c.scopes in
    rw
      (
        take-length c.sub rest,
        drop-length c.sub rest,
        take-length c.kind (texts_out c.scopes),
        drop-length c.kind (texts_out c.scopes),
        texts_in-out c.scopes,
        number_in-out c.tier_limit,
      )
      refl

abbrev pub live : ℕ → ℕ → Option ℕ → Bool
live leeway now none = true
live leeway now (some e) = ltb now ((e + leeway) * second)

abbrev pub if_live : ℕ → ℕ → Option Payload → Option Payload
if_live leeway now none = none
if_live leeway now (some p) = if live leeway now p.exp then some p else none

if_live-some :
    (leeway now : ℕ) (o : Option Payload) {p : Payload}
    → if_live leeway now o ≡ some p
    → (o ≡ some p) × (live leeway now p.exp ≡ true)
if_live-some leeway now none h = cc
if_live-some leeway now (some q) {p = p} h = elim (Bool-cases (live leeway now q.exp)) [
  | inl e ↦
      let same = kept (live leeway now q.exp) e h in
      (ap (λ x. some x) same, ap (λ (x : Payload). live leeway now x.exp) (sym same) ∙ e)
  | inr e ↦ cc (dropped (live leeway now q.exp) e h)
]
  where
    kept : (b : Bool) → b ≡ true → (if b then some q else none) ≡ some p → q ≡ p
    kept true e h = some-injective _ _ h
    kept false e h = cc

    dropped :
        (b : Bool)
        → b ≡ false
        → (if b then some q else none) ≡ some p
        → ◌≡◌ {A = Option Payload} none (some p)
    dropped true e h = cc
    dropped false e h = h

unfoldable pub decode : ℕ → ℕ → Text → Option Payload
decode leeway now token = if_live leeway now (claims_in token)

pub decode-claims :
    (leeway now : ℕ) (c : Claims)
    → now < (c.expire / second + leeway) * second
    → decode leeway now (claims_out c) ≡ some (payload_of c)
unfolding decode
decode-claims leeway now c h =
    let test : ltb now ((c.expire / second + leeway) * second) ≡ true = ground arith in
    ap (if_live leeway now) (claims_in-out c) ∙ rw test refl

live_before :
    (leeway now e : ℕ) (o : Option ℕ)
    → live leeway now o ≡ true
    → o ≡ some e
    → now < (e + leeway) * second
live_before leeway now e none h i = cc
live_before leeway now e (some d) h i = let same = some-injective _ _ i in ground arith

pub decode_later :
    (leeway now t : ℕ) (token : Text) (p : Payload) (e : ℕ)
    → decode leeway now token ≡ some p
    → p.exp ≡ some e
    → now ≤ t
    → t < (e + leeway) * second
    → decode leeway t token ≡ some p
unfolding decode
decode_later leeway now t token p e h i j k =
    let (read, _) = if_live-some leeway now (claims_in token) h in
    let test : ltb t ((e + leeway) * second) ≡ true = ground arith in
    ap (if_live leeway t) read ∙ rw (i, test) refl

pub decode_expires :
    (leeway now : ℕ) (token : Text) (p : Payload) (e : ℕ)
    → decode leeway now token ≡ some p
    → p.exp ≡ some e
    → now < (e + leeway) * second
unfolding decode
decode_expires leeway now token p e h i =
    live_before leeway now e p.exp (if_live-some leeway now (claims_in token) h).1 i

abbrev pub plain_jwt : Jwt
plain_jwt = record {
  encode = claims_out;
  decode = decode;
  decode-encode = decode-claims;
  decode_expires = decode_expires;
  decode_later = decode_later;
}
