-- ===== src/Redis.antt =====
-- What the program relies on of the Redis server, as an interface: values by key, each with a time
-- to live. Times are in microseconds. `list_redis` shows that the laws can be met.
use urban_octo_tribble.Base.{
  ℕ, ◌+◌, ◌≤◌, ◌≡◌, ◌≢◌, inl, inr, refl, sym, ◌↔◌, Bool-cases, Bool, true, Option, none, some, List,
  [], ◌∷◌, ltb, if◌then◌else◌,
}

pub record Redis (K V : Type 0) : Type 1 where
  pub Store : Type 0
  -- what a key holds at a time, if no command comes before it
  pub look : K → ℕ → Store → Option V
  -- GET, EXISTS, HGETALL at a time; `none` is an exception of the client
  pub read : K → ℕ → Store → Option (Option V)
  pub read-look :
      (k : K) (now : ℕ) (s : Store) (o : Option V) → read k now s ≡ some o → o ≡ look k now s
  -- SETEX, or HSET and EXPIRE, with a time to live, at a time; `false` is an exception of the
  -- client, of which no law tells what it has left in the store
  pub save : K → V → ℕ → ℕ → Store → Bool × Store
  pub look-save_self :
      (k : K) (v : V) (ttl now t : ℕ) (s : Store)
      → (save k v ttl now s).0 ≡ true
      → now ≤ t
      → look k t (save k v ttl now s).1 ≡ (if ltb t (now + ttl) then some v else none)
  pub look-save_ne :
      (k j : K) (v : V) (ttl now t : ℕ) (s : Store)
      → (save k v ttl now s).0 ≡ true
      → j ≢ k
      → look j t (save k v ttl now s).1 ≡ look j t s

-- The server answers every command: no exception.
pub record IsReliable {K V : Type 0} (R : Redis K V) : Type 0 where
  pub reads : (k : K) (now : ℕ) (s : R.Store) → R.read k now s ≡ some (R.look k now s)
  pub saves : (k : K) (v : V) (ttl now : ℕ) (s : R.Store) → (R.save k v ttl now s).0 ≡ true

-- A server that never fails, with the newest entry of a key first.
abbrev pub Entries : Type 0 → Type 0 → Type 0
Entries K V = List (K × V × ℕ)

module _ {K V : Type 0} (same : K → K → Bool)
    (same_iff : (a b : K) → (same a b ≡ true) ↔ (a ≡ b)) where
  abbrev pub look_entries : K → ℕ → Entries K V → Option V
  look_entries k t [] = none
  look_entries k t ((j, v, until) ∷ s) =
      if same j k then (if ltb t until then some v else none) else look_entries k t s

  pub look_entries_self :
      (k : K) (v : V) (ttl now t : ℕ) (s : Entries K V)
      → look_entries k t ((k, v, now + ttl) ∷ s) ≡ (if ltb t (now + ttl) then some v else none)
  look_entries_self k v ttl now t s = rw ((same_iff k k).1 refl)

  pub look_entries_ne :
      (k j : K) (v : V) (ttl now t : ℕ) (s : Entries K V)
      → j ≢ k
      → look_entries j t ((k, v, now + ttl) ∷ s) ≡ look_entries j t s
  look_entries_ne k j v ttl now t s h = elim (Bool-cases (same k j)) [
    | inl e ↦ absurd (h (sym ((same_iff k j).0 e)))
    | inr e ↦ rw e
  ]

  pub read_entries :
      (k : K) (now : ℕ) (s : Entries K V) (o : Option V)
      → ◌≡◌ {A = Option (Option V)} (some (look_entries k now s)) (some o)
      → o ≡ look_entries k now s
  read_entries k now s o e = cc

  abbrev pub list_redis : Redis K V
  list_redis = record {
    Store = Entries K V;
    look = look_entries;
    read = λ k now s. some (look_entries k now s);
    read-look = read_entries;
    save = λ k v ttl now s. (true, (k, v, now + ttl) ∷ s);
    look-save_self = λ k v ttl now t s _ _. look_entries_self k v ttl now t s;
    look-save_ne = λ k j v ttl now t s _ h. look_entries_ne k j v ttl now t s h;
  }

  pub list_redis-IsReliable : IsReliable list_redis
  list_redis-IsReliable = record { reads = λ k now s. refl; saves = λ k v ttl now s. refl }
