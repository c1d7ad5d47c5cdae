-- ===== src/Authz/Decisions.antt =====
-- Decisions of the authorizer: what it caches, and what an eviction does.
use opencode_rc.Common.{
  ℕ, ◌<◌, true, false, [], ◌∷◌, ◌++◌, Text, text, text_eq, text_eq_iff, text_eq_refl, Option, none,
  some, starts_with, ◌≡◌, refl, ap, ◌∙◌, arith, if◌then◌else◌,
}
use opencode_rc.Redis.{Redis, run}
use opencode_rc.Tokens.{AccessClaims}
use opencode_rc.Authz.{
  AuthzOptions, Decision, granted, denied, key_gen, key_decision, gen_of, cache_value,
  cached_decision, Response, ask, keep_decision, check_cached, check_enabled, enabled, check, evict,
  evict_all,
}

-- A decision that the webhook can answer with.
pub data IsAnswer : Decision → Type 0 where
  grant : IsAnswer granted
  deny : IsAnswer (denied none)
  deny_because : (c : ℕ) (s : Text) → IsAnswer (denied (some (c ∷ s)))

cached_decision-cache_value : (d : Decision) → IsAnswer d → cached_decision (cache_value d) ≡ d
unfolding cached_decision cache_value text_eq starts_with
cached_decision-cache_value d grant = refl
cached_decision-cache_value d deny = refl
cached_decision-cache_value d (deny_because c s) = refl

longer : (g s : Text) → text_eq (g ++ text ":" ++ s) [] ≡ false
unfolding text_eq text
longer [] s = refl
longer (c ∷ g) s = refl

gen_apart : (g u : Text) → text_eq (key_decision g u) key_gen ≡ false
unfolding key_decision key_gen text_eq
gen_apart [] u = refl
gen_apart (a ∷ []) u = ground arith
gen_apart (a ∷ b ∷ []) u = ground arith
gen_apart (a ∷ b ∷ c ∷ g) u = ground (arith, longer g u)

apart_gen : (g u : Text) → text_eq key_gen (key_decision g u) ≡ false
apart_gen g u = ground (
  arith,
  text_eq_iff key_gen (key_decision g u),
  text_eq_iff (key_decision g u) key_gen,
  gen_apart g u,
)

-- The answer to a user when nothing is cached: a webhook that fails denies.
abbrev pub fresh_answer : Option Decision → Decision
fresh_answer none = denied none
fresh_answer (some d) = d

module _ (redis : Redis) (opts : AuthzOptions) (cut : Text → Text)
    (fetch : AccessClaims → Option Response) where
  open redis use {Db, set, del, incr, later}

  abbrev pub checked : AccessClaims → Db → Option Decision × Db
  checked user db = run redis (check opts cut fetch user) db

  -- The key of a user's cached decision in a database.
  abbrev pub key_of : Text → Db → Text
  key_of uid db = key_decision (gen_of (redis.get key_gen db)) uid

  check_hit :
      (user : AccessClaims) (db : Db) (v : Text)
      → enabled opts cut fetch ≡ true
      → redis.get (key_of user.uid db) db ≡ some v
      → checked user db ≡ (some (cached_decision v), db)
  unfolding check check_enabled check_cached run
  check_hit user db v on h = ground arith

  check_miss :
      (user : AccessClaims) (db : Db)
      → enabled opts cut fetch ≡ true
      → redis.get (key_of user.uid db) db ≡ none
      → (checked user db).0 ≡ some (fresh_answer (ask opts cut fetch user))
  unfolding check check_enabled check_cached keep_decision run
  check_miss user db on h = ground arith

  check_stores :
      (user : AccessClaims) (db : Db) (d : Decision)
      → enabled opts cut fetch ≡ true
      → redis.get (key_of user.uid db) db ≡ none
      → ask opts cut fetch user ≡ some d
      → checked user db ≡ (
        some d,
        set
            (key_of user.uid db)
            (cache_value d)
            (if d.allowed then opts.allowed_ttl else opts.denied_ttl)
            db,
      )
  unfolding check check_enabled check_cached keep_decision run
  check_stores user db d on h e = ground arith

  -- With a webhook set, a check that finds nothing cached and whose webhook call fails denies, and
  -- changes nothing in the database.
  pub check_failed :
      (user : AccessClaims) (db : Db)
      → enabled opts cut fetch ≡ true
      → redis.get (key_of user.uid db) db ≡ none
      → ask opts cut fetch user ≡ none
      → checked user db ≡ (some (denied none), db)
  unfolding check check_enabled check_cached keep_decision run
  check_failed user db on h e = ground arith

  -- With a webhook set, the next check of a user after an eviction of that user asks the webhook
  -- again, and a webhook that fails denies.
  pub evict_lem :
      (user : AccessClaims) (db : Db)
      → enabled opts cut fetch ≡ true
      → (checked user (run redis (evict opts cut fetch user.uid) db).1).0
        ≡ some (fresh_answer (ask opts cut fetch user))
  unfolding evict run
  evict_lem user db on =
      let k = key_of user.uid db in
      let same =
        redis.get-del key_gen k db
        ∙ ap (λ b. if b then none else redis.get key_gen db)
            (gen_apart (gen_of (redis.get key_gen db)) user.uid) in
      check_miss user (del k db) on (
        ap (λ gen. redis.get (key_decision (gen_of gen) user.uid) (del k db)) same
        ∙ redis.get-del k k db
        ∙ ap (λ b. if b then none else redis.get k db) (text_eq_refl k))

  -- With a webhook set, the next check after an eviction of everyone, of a user with no entry under
  -- the next generation, asks the webhook again, and a webhook that fails denies.
  pub evict_all_lem :
      (user : AccessClaims) (db : Db)
      → enabled opts cut fetch ≡ true
      → redis.get (key_decision (redis.next (redis.get key_gen db)) user.uid) db ≡ none
      → (checked user (run redis (evict_all opts cut fetch) db).1).0
        ≡ some (fresh_answer (ask opts cut fetch user))
  unfolding evict_all run gen_of
  evict_all_lem user db on h =
      let gen = redis.next (redis.get key_gen db) in
      let moved =
        redis.get-incr key_gen key_gen db
        ∙ ap (λ b. if b then some gen else redis.get key_gen db) (text_eq_refl key_gen) in
      let k = key_decision gen user.uid in
      check_miss user (incr key_gen db) on (
        ap (λ o. redis.get (key_decision (gen_of o) user.uid) (incr key_gen db)) moved
        ∙ redis.get-incr k key_gen db
        ∙ ap (λ b. if b then some (redis.next (redis.get k db)) else redis.get k db)
            (apart_gen gen user.uid)
        ∙ h)

  -- The database once a check has asked the webhook, and then some time has passed.
  abbrev pub after : ℕ → AccessClaims → Db → Db
  after n user db = later n (checked user db).1

  cached_later :
      (user : AccessClaims) (db : Db) (d : Decision) (n : ℕ)
      → enabled opts cut fetch ≡ true
      → redis.get (key_of user.uid db) db ≡ none
      → ask opts cut fetch user ≡ some d
      → n < (if d.allowed then opts.allowed_ttl else opts.denied_ttl)
      → redis.get key_gen (after n user db) ≡ redis.get key_gen db
      → redis.get (key_of user.uid (after n user db)) (after n user db) ≡ some (cache_value d)
  cached_later user db d n on miss e lt same =
      let k = key_of user.uid db in
      let ttl = if d.allowed then opts.allowed_ttl else opts.denied_ttl in
      let stored = set k (cache_value d) ttl db in
      ap (λ gen. redis.get (key_decision (gen_of gen) user.uid) (after n user db)) same
      ∙ ap (λ (x : Option Decision × Db). redis.get k (later n x.1))
          (check_stores user db d on miss e)
      ∙ redis.get-later k n stored (simp (redis.ttl-set, text_eq_refl) lt)
      ∙ simp (redis.get-set, text_eq_refl)

enabled_any :
    (opts : AuthzOptions) (cut : Text → Text) (fetch fetch' : AccessClaims → Option Response)
    → enabled opts cut fetch' ≡ enabled opts cut fetch
unfolding enabled
enabled_any opts cut fetch fetch' = refl

-- With a webhook set, a decision that it answered, and that was not cached, is given again without
-- asking the webhook until its time is over, while the generation of the cache stays the same.
pub check_again :
    (redis : Redis) (opts : AuthzOptions) (cut : Text → Text)
    (fetch fetch' : AccessClaims → Option Response) (user : AccessClaims) (db : redis.Db)
    (d : Decision) (n : ℕ)
    → enabled opts cut fetch ≡ true
    → redis.get (key_of redis opts cut fetch user.uid db) db ≡ none
    → ask opts cut fetch user ≡ some d
    → IsAnswer d
    → n < (if d.allowed then opts.allowed_ttl else opts.denied_ttl)
    → redis.get key_gen (after redis opts cut fetch n user db) ≡ redis.get key_gen db
    → checked redis opts cut fetch' user (after redis opts cut fetch n user db)
      ≡ (some d, after redis opts cut fetch n user db)
check_again redis opts cut fetch fetch' user db d n on miss e answer lt same =
    check_hit redis opts cut fetch' user (after redis opts cut fetch n user db) (cache_value d)
      (enabled_any opts cut fetch fetch' ∙ on)
      (cached_later redis opts cut fetch user db d n on miss e lt same)
    ∙ ap (λ x. (some x, after redis opts cut fetch n user db))
        (cached_decision-cache_value d answer)
