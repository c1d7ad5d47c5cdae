-- ===== src/Authz/Admin.antt =====
-- `adminRoutes` of authz.ts: an operator applies an access change now.
use opencode_rc.Common.{
  Bool, true, false, ◌&&◌, not, Bool-cases, inl, inr, ◌⊎◌, Text, text_eq, [], Option, some, ◌≡◌,
  ◌≢◌, refl, ap, ◌∙◌, text_eq_refl, if◌then◌else◌,
}
use opencode_rc.Redis.{Redis, Prog, ret, ◌>>◌, run}
use opencode_rc.Tokens.{AccessClaims}
use opencode_rc.Authz.{
  AuthzOptions, Response, ask, enabled, evict, evict_all, token_matches, key_gen,
}
use opencode_rc.Authz.Decisions.{checked, fresh_answer, evict_lem}

-- The two routes.
pub data AdminRoute : Type 0 where
  everyone : AdminRoute
  one_user : (uid : Text) → AdminRoute

pub data AdminReply : Type 0 where
  not_found : AdminReply
  unauthorized : AdminReply
  no_content : AdminReply

module _ (opts : AuthzOptions) (cut : Text → Text) (fetch : AccessClaims → Option Response) where
  unfoldable pub admin_evict : AdminRoute → Prog AdminReply
  admin_evict everyone = do evict_all opts cut fetch; ret no_content
  admin_evict (one_user uid) = do evict opts cut fetch uid; ret no_content

  -- The routes, which do not exist without an admin token.
  unfoldable pub admin_routes :
      (admin_token : Text) (header : Option Text) → AdminRoute → Prog AdminReply
  admin_routes admin_token header route =
      if text_eq admin_token []
      then ret not_found
      else if token_matches header admin_token
      then admin_evict route
      else ret unauthorized

  -- Whether a request is the operator's.
  abbrev pub is_operator : (admin_token : Text) (header : Option Text) → Bool
  is_operator admin_token header = not (text_eq admin_token []) && token_matches header admin_token

  module _ (redis : Redis) where
    open redis use {Db}

    abbrev pub administered :
        (admin_token : Text) (header : Option Text) → AdminRoute → Db → Option AdminReply × Db
    administered admin_token header route db = run redis (admin_routes admin_token header route) db

    -- With a webhook set, an operator's requests, with the admin token that is set, are answered
    -- with no content: after one to evict a user, the next check of the user asks the webhook
    -- again, a webhook that fails denying, and one to evict everyone moves the generation of the
    -- cache on by one. A request of either kind that is not the operator's is not answered so, and
    -- leaves the database as it is.
    pub admin_evict_lem :
        (admin_token : Text) (header : Option Text) (user : AccessClaims) (db : Db)
        → enabled opts cut fetch ≡ true
        → let (reply, db') = administered admin_token header (one_user user.uid) db in
          let (reply_all, db_all) = administered admin_token header everyone db in
          ((is_operator admin_token header ≡ true)
            × (reply ≡ some no_content)
            × ((checked redis opts cut fetch user db').0
                ≡ some (fresh_answer (ask opts cut fetch user)))
            × (reply_all ≡ some no_content)
            × (redis.get key_gen db_all ≡ some (redis.next (redis.get key_gen db))))
          ⊎ ((is_operator admin_token header ≡ false)
              × (reply ≢ some no_content)
              × (db' ≡ db)
              × (reply_all ≢ some no_content)
              × (db_all ≡ db))
    unfolding admin_routes admin_evict evict evict_all run
    admin_evict_lem admin_token header user db on = elim (Bool-cases (text_eq admin_token [])) [
      | inl t ↦ rw t (inr (refl, (λ h. cc), refl, (λ h. cc), refl))
      | inr f ↦ elim (Bool-cases (token_matches header admin_token)) [
        | inr n ↦ rw (f, n) (inr (refl, (λ h. cc), refl, (λ h. cc), refl))
        | inl m ↦
            let e = evict_lem redis opts cut fetch user db on in
            let moved =
              ap (λ b. if b then some (redis.next (redis.get key_gen db)) else redis.get key_gen db)
                (text_eq_refl key_gen) in
            rw (f, m) (inl (refl, refl, e, refl, redis.get-incr key_gen key_gen db ∙ moved))
      ]
    ]
