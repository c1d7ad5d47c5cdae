-- ===== src/Redis/Bind.antt =====
-- A method that goes on behind another: its run is the first one's, and then its own.
use opencode_rc.Common.{true, false, Option, none, some, ◌≡◌, refl}
use opencode_rc.Redis.{
  Redis, Prog, ret, throw, get, getdel, ttl, set, set_nx, del, incr, ◌>>=◌, run,
}

module _ (redis : Redis) {A B : Type 0} where
  -- What follows a run; an exception passes it by.
  abbrev pub continue : (A → Prog B) → Option A × redis.Db → Option B × redis.Db
  continue f (none, db) = (none, db)
  continue f (some a, db) = run redis (f a) db

  pub run_bind :
      (m : Prog A) (f : A → Prog B) (db : redis.Db)
      → run redis (m >>= f) db ≡ continue f (run redis m db)
  unfolding run
  run_bind (ret a) f db = refl
  run_bind throw f db = refl
  run_bind (get k r) f db = run_bind (r (redis.get k db)) f db
  run_bind (getdel k r) f db = run_bind (r (redis.get k db)) f (redis.del k db)
  run_bind (ttl k r) f db = run_bind (r (redis.ttl k db)) f db
  run_bind (set k v n r) f db = run_bind r f (redis.set k v n db)
  run_bind (set_nx k v n r) f db =
      elim (redis.get k db)
        as (λ o.
          (elim o as (λ x. Option B × redis.Db) [
            | none ↦ run redis (r true >>= f) (redis.set k v n db)
            | some w ↦ run redis (r false >>= f) db
          ])
          ≡ continue f (elim o as (λ x. Option A × redis.Db) [
            | none ↦ run redis (r true) (redis.set k v n db)
            | some w ↦ run redis (r false) db
          ])) [ none ↦ run_bind (r true) f (redis.set k v n db) | some w ↦ run_bind (r false) f db ]
  run_bind (del k r) f db = run_bind r f (redis.del k db)
  run_bind (incr k r) f db = run_bind r f (redis.incr k db)
