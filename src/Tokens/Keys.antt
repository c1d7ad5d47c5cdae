-- ===== src/Tokens/Keys.antt =====
-- The keys of the token store: keys of different kinds never collide, keys of one kind do exactly
-- when their last parts are equal.
use opencode_rc.Common.{
  Bool, false, true, Text, text, text_eq, text_eq_iff, text_eq_refl, ◌≡◌, ◌≢◌, refl, arith,
}
use opencode_rc.Tokens.{key_code, key_chain, key_rt, key_used, key_grace}

module _ (a b : Text) where
  pub rt-rt : text_eq (key_rt a) (key_rt b) ≡ text_eq a b
  unfolding key_rt text_eq
  rt-rt = refl

  pub chain-chain : text_eq (key_chain a) (key_chain b) ≡ text_eq a b
  unfolding key_chain text_eq
  chain-chain = refl

  pub used-used : text_eq (key_used a) (key_used b) ≡ text_eq a b
  unfolding key_used text_eq
  used-used = refl

  pub grace-grace : text_eq (key_grace a) (key_grace b) ≡ text_eq a b
  unfolding key_grace text_eq
  grace-grace = refl

  pub code-code : text_eq (key_code a) (key_code b) ≡ text_eq a b
  unfolding key_code text_eq
  code-code = refl

  pub rt-chain : text_eq (key_rt a) (key_chain b) ≡ false
  unfolding key_rt key_chain text_eq
  rt-chain = refl

  pub rt-used : text_eq (key_rt a) (key_used b) ≡ false
  unfolding key_rt key_used text_eq
  rt-used = refl

  pub rt-grace : text_eq (key_rt a) (key_grace b) ≡ false
  unfolding key_rt key_grace text_eq
  rt-grace = refl

  pub chain-rt : text_eq (key_chain a) (key_rt b) ≡ false
  unfolding key_rt key_chain text_eq
  chain-rt = refl

  pub chain-used : text_eq (key_chain a) (key_used b) ≡ false
  unfolding key_chain key_used text_eq
  chain-used = refl

  pub chain-grace : text_eq (key_chain a) (key_grace b) ≡ false
  unfolding key_chain key_grace text_eq
  chain-grace = refl

  pub used-rt : text_eq (key_used a) (key_rt b) ≡ false
  unfolding key_used key_rt text_eq
  used-rt = refl

  pub used-chain : text_eq (key_used a) (key_chain b) ≡ false
  unfolding key_used key_chain text_eq
  used-chain = refl

  pub used-grace : text_eq (key_used a) (key_grace b) ≡ false
  unfolding key_used key_grace text_eq
  used-grace = refl

  pub grace-rt : text_eq (key_grace a) (key_rt b) ≡ false
  unfolding key_grace key_rt text_eq
  grace-rt = refl

  pub grace-chain : text_eq (key_grace a) (key_chain b) ≡ false
  unfolding key_grace key_chain text_eq
  grace-chain = refl

  pub grace-used : text_eq (key_grace a) (key_used b) ≡ false
  unfolding key_grace key_used text_eq
  grace-used = refl

pub ne_of_text_eq : (a b : Text) → a ≢ b → text_eq a b ≡ false
ne_of_text_eq a b h = ground (arith, text_eq_iff a b)

pub ruleset key_laws = (
  text_eq_refl, rt-rt, chain-chain, used-used, grace-grace, code-code, rt-chain, rt-used, rt-grace,
  chain-rt, chain-used, chain-grace, used-rt, used-chain, used-grace, grace-rt, grace-chain,
  grace-used,
)
