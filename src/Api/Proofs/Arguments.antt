-- ===== src/Api/Proofs/Arguments.antt =====
-- The rounds of `argumentTokens` (api/src/command-arguments.ts): each leaves less of the text.
use opencode_rc.Common.{ℕ, suc, none, some, length}
use opencode_rc.Api.Arguments.{Token}

-- One more than the length of what is behind a token.
behind : Token → ℕ
behind none = 0
behind (some t) = suc (length t.1)
