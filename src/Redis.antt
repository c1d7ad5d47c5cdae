-- ===== src/Redis.antt =====
-- The Redis commands that the API server uses (`RedisLike` of token-store.ts, `AuthzRedis` of
-- authz.ts). A method of the server is a program of commands, so that the commands of several
-- requests can interleave; the database is a parameter with the documented laws of its commands.
pub mod Memory
pub mod Bind
use opencode_rc.Common.{
  ℕ, zero, suc, ◌+◌, ◌-◌, ◌≤◌, ◌<◌, Bool, true, false, Text, text_eq, Option, none, some, ◌≡◌, ◌⊎◌,
  if◌then◌else◌,
}

-- A database. `ttl` is the reply of TTL in whole seconds, a negative one as 0. `later n` is the
-- database after `n` seconds in which no command runs.
pub record Redis : Type 1 where
  pub Db : Type 0
  pub get : Text → Db → Option Text
  pub ttl : Text → Db → ℕ
  pub set : Text → Text → ℕ → Db → Db
  pub del : Text → Db → Db
  pub incr : Text → Db → Db
  -- The value that INCR leaves in place of another, in decimal.
  pub next : Option Text → Text
  pub later : ℕ → Db → Db
  pub get-set :
      (j k v : Text) (n : ℕ) (db : Db)
      → get j (set k v n db) ≡ (if text_eq k j then some v else get j db)
  pub get-del : (j k : Text) (db : Db) → get j (del k db) ≡ (if text_eq k j then none else get j db)
  pub ttl-set :
      (j k v : Text) (n : ℕ) (db : Db)
      → ttl j (set k v n db) ≡ (if text_eq k j then n else ttl j db)
  pub ttl-del : (j k : Text) (db : Db) → ttl j (del k db) ≡ (if text_eq k j then 0 else ttl j db)
  pub get-incr :
      (j k : Text) (db : Db)
      → get j (incr k db) ≡ (if text_eq k j then some (next (get j db)) else get j db)
  pub ttl-incr : (j k : Text) (db : Db) → ttl j (incr k db) ≡ ttl j db
  -- A key with an expiry is there exactly until it has passed.
  pub get-later : (j : Text) (n : ℕ) (db : Db) → n < ttl j db → get j (later n db) ≡ get j db
  pub get-expired :
      (j : Text) (n : ℕ) (db : Db) → 0 < ttl j db → ttl j db ≤ n → get j (later n db) ≡ none
  pub get-absent : (j : Text) (n : ℕ) (db : Db) → get j db ≡ none → get j (later n db) ≡ none
  pub ttl-later : (j : Text) (n : ℕ) (db : Db) → ttl j (later n db) ≡ ttl j db - n

-- A method: commands, each with what follows on its reply, and a result or an exception.
pub data Prog (A : Type 0) : Type 0 where
  ret : A → Prog A
  throw : Prog A
  get : Text → (Option Text → Prog A) → Prog A
  getdel : Text → (Option Text → Prog A) → Prog A
  ttl : Text → (ℕ → Prog A) → Prog A
  -- SET key value EX seconds
  set : Text → Text → ℕ → Prog A → Prog A
  -- SET key value EX seconds NX: whether the reply is OK
  set_nx : Text → Text → ℕ → (Bool → Prog A) → Prog A
  del : Text → Prog A → Prog A
  incr : Text → Prog A → Prog A

infixl 5 ◌>>=◌ ◌>>◌
abbrev pub ◌>>=◌ : {A B : Type 0} → Prog A → (A → Prog B) → Prog B
ret a >>= f = f a
throw >>= f = throw
get k r >>= f = get k (λ v. r v >>= f)
getdel k r >>= f = getdel k (λ v. r v >>= f)
ttl k r >>= f = ttl k (λ n. r n >>= f)
set k v n r >>= f = set k v n (r >>= f)
set_nx k v n r >>= f = set_nx k v n (λ b. r b >>= f)
del k r >>= f = del k (r >>= f)
incr k r >>= f = incr k (r >>= f)

abbrev pub ◌>>◌ : {A B : Type 0} → Prog A → Prog B → Prog B
m >> n = m >>= λ _. n

-- Each command alone.
abbrev pub redis_get : Text → Prog (Option Text)
redis_get k = get k ret

abbrev pub redis_getdel : Text → Prog (Option Text)
redis_getdel k = getdel k ret

abbrev pub redis_ttl : Text → Prog ℕ
redis_ttl k = ttl k ret

abbrev pub redis_set : Text → Text → ℕ → Prog (Unit {0})
redis_set k v n = set k v n (ret tt)

abbrev pub redis_set_nx : Text → Text → ℕ → Prog Bool
redis_set_nx k v n = set_nx k v n ret

abbrev pub redis_del : Text → Prog (Unit {0})
redis_del k = del k (ret tt)

abbrev pub redis_incr : Text → Prog (Unit {0})
redis_incr k = incr k (ret tt)

module _ (redis : Redis) {A : Type 0} where
  -- The first command of a method, run in one step.
  unfoldable pub step : Prog A → redis.Db → Prog A × redis.Db
  step (ret a) db = (ret a, db)
  step throw db = (throw, db)
  step (get k r) db = (r (redis.get k db), db)
  step (getdel k r) db = (r (redis.get k db), redis.del k db)
  step (ttl k r) db = (r (redis.ttl k db), db)
  step (set k v n r) db = (r, redis.set k v n db)
  step (set_nx k v n r) db = elim (redis.get k db) [
    | none ↦ (r true, redis.set k v n db)
    | some w ↦ (r false, db)
  ]
  step (del k r) db = (r, redis.del k db)
  step (incr k r) db = (r, redis.incr k db)

  -- A method alone: its result, `none` for an exception, and the database after it.
  unfoldable pub run : Prog A → redis.Db → Option A × redis.Db
  run (ret a) db = (some a, db)
  run throw db = (none, db)
  run (get k r) db = run (r (redis.get k db)) db
  run (getdel k r) db = run (r (redis.get k db)) (redis.del k db)
  run (ttl k r) db = run (r (redis.ttl k db)) db
  run (set k v n r) db = run r (redis.set k v n db)
  run (set_nx k v n r) db = elim (redis.get k db) [
    | none ↦ run (r true) (redis.set k v n db)
    | some w ↦ run (r false) db
  ]
  run (del k r) db = run r (redis.del k db)
  run (incr k r) db = run r (redis.incr k db)

  -- The first `n` commands of a method whose connection then fails.
  unfoldable pub run_some : ℕ → Prog A → redis.Db → redis.Db
  unfolding step
  run_some zero m db = db
  run_some (suc n) m db = let (m', db') = step m db in run_some n m' db'
