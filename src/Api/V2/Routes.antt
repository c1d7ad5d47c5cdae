-- ===== src/Api/V2/Routes.antt =====
-- v2-routes.ts: what opencode-rc lets through for each opencode 2.x route.
use opencode_rc.Common.{List, [], ◌∷◌, Text, text, String}
use opencode_rc.Config.{FeatureNameV2, uploads, downloads, terminal, shell, export, mcp}

pub data V2Rule : Type 0 where
  allow never : V2Rule
  feature : FeatureNameV2 → V2Rule

pub record V2Route : Type 0 where
  pub method : String
  pub template : Text
  pub rule : V2Rule

abbrev pub route : String → String → V2Rule → V2Route
route method template rule = record { method = method; template = text template; rule = rule }

-- V2_ROUTES
unfoldable pub v2_routes : List V2Route
unfolding text
v2_routes =
    route "GET" "/api/agent" allow
    ∷ route "GET" "/api/agent/:agentID" allow
    ∷ route "GET" "/api/command" allow
    ∷ route "GET" "/api/config" allow
    ∷ route "GET" "/api/config/shell" allow
    ∷ route "GET" "/api/credential" never
    ∷ route "POST" "/api/credential" never
    ∷ route "DELETE" "/api/credential/:credentialID" allow
    ∷ route "PATCH" "/api/credential/:credentialID" never
    ∷ route "POST" "/api/credential/:credentialID/activate" allow
    ∷ route "DELETE" "/api/debug/location" never
    ∷ route "GET" "/api/debug/location" never
    ∷ route "GET" "/api/event" allow
    ∷ route "PATCH" "/api/experimental/config" never
    ∷ route "POST" "/api/experimental/fs/write" (feature uploads)
    ∷ route "POST" "/api/experimental/generate" never
    ∷ route "POST" "/api/experimental/integration/wellknown" never
    ∷ route "DELETE" "/api/experimental/mcp/:server" never
    ∷ route "PUT" "/api/experimental/mcp/:server" never
    ∷ route "POST" "/api/experimental/mcp/:server/connect" (feature mcp)
    ∷ route "POST" "/api/experimental/mcp/:server/disconnect" (feature mcp)
    ∷ route "GET" "/api/experimental/migration/v1" allow
    ∷ route "DELETE" "/api/experimental/persistent-pty/:ptyID" never
    ∷ route "GET" "/api/experimental/persistent-pty/:ptyID" never
    ∷ route "PUT" "/api/experimental/persistent-pty/:ptyID" never
    ∷ route "GET" "/api/experimental/persistent-pty/:ptyID/connect" never
    ∷ route "POST" "/api/experimental/persistent-pty/:ptyID/connect-token" never
    ∷ route "GET" "/api/experimental/persistent-pty/:ptyID/snapshot" never
    ∷ route "POST" "/api/experimental/persistent-pty/handoff" never
    ∷ route "POST" "/api/experimental/persistent-pty/shutdown" never
    ∷ route "GET" "/api/experimental/session/:sessionID/export" (feature export)
    ∷ route "GET" "/api/experimental/session/:sessionID/instructions/entries" allow
    ∷ route "DELETE" "/api/experimental/session/:sessionID/instructions/entries/:key" never
    ∷ route "PUT" "/api/experimental/session/:sessionID/instructions/entries/:key" never
    ∷ route "GET" "/api/experimental/session/:sessionID/log" allow
    ∷ route "POST" "/api/experimental/session/:sessionID/skill" never
    ∷ route "GET" "/api/experimental/session/:sessionID/terminal" never
    ∷ route "POST" "/api/experimental/session/:sessionID/terminal" never
    ∷ route "GET" "/api/experimental/session/:sessionID/terminal/read" never
    ∷ route "POST" "/api/experimental/session/:sessionID/wait" allow
    ∷ route "POST" "/api/experimental/session/import" (feature uploads)
    ∷ route "GET" "/api/experimental/session/stats" allow
    ∷ route "GET" "/api/form" allow
    ∷ route "GET" "/api/fs/find" allow
    ∷ route "GET" "/api/fs/list" allow
    ∷ route "GET" "/api/fs/read/*" (feature downloads)
    ∷ route "GET" "/api/info" allow
    ∷ route "GET" "/api/integration" allow
    ∷ route "GET" "/api/integration/:integrationID" allow
    ∷ route "POST" "/api/integration/:integrationID/connect/command" never
    ∷ route "DELETE" "/api/integration/:integrationID/connect/command/:attemptID" never
    ∷ route "GET" "/api/integration/:integrationID/connect/command/:attemptID" never
    ∷ route "POST" "/api/integration/:integrationID/connect/external" never
    ∷ route "POST" "/api/integration/:integrationID/connect/key" allow
    ∷ route "POST" "/api/integration/:integrationID/connect/oauth" allow
    ∷ route "DELETE" "/api/integration/:integrationID/connect/oauth/:attemptID" allow
    ∷ route "GET" "/api/integration/:integrationID/connect/oauth/:attemptID" allow
    ∷ route "POST" "/api/integration/:integrationID/connect/oauth/:attemptID/complete" allow
    ∷ route "GET" "/api/location" allow
    ∷ route "POST" "/api/location/reload" never
    ∷ route "GET" "/api/mcp" allow
    ∷ route "GET" "/api/mcp/resource" allow
    ∷ route "GET" "/api/model" allow
    ∷ route "GET" "/api/model/default" allow
    ∷ route "POST" "/api/pair" never
    ∷ route "GET" "/api/permission/request" allow
    ∷ route "GET" "/api/permission/saved" allow
    ∷ route "DELETE" "/api/permission/saved/:id" allow
    ∷ route "GET" "/api/plugin" allow
    ∷ route "POST" "/api/plugin/check" never
    ∷ route "POST" "/api/plugin/update" never
    ∷ route "GET" "/api/project" allow
    ∷ route "PATCH" "/api/project/:projectID" allow
    ∷ route "GET" "/api/provider" allow
    ∷ route "GET" "/api/provider/:providerID" allow
    ∷ route "GET" "/api/pty" (feature terminal)
    ∷ route "POST" "/api/pty" (feature terminal)
    ∷ route "DELETE" "/api/pty/:ptyID" (feature terminal)
    ∷ route "GET" "/api/pty/:ptyID" (feature terminal)
    ∷ route "PUT" "/api/pty/:ptyID" (feature terminal)
    ∷ route "GET" "/api/pty/:ptyID/connect" (feature terminal)
    ∷ route "POST" "/api/pty/:ptyID/connect-token" (feature terminal)
    ∷ route "GET" "/api/reference" allow
    ∷ route "POST" "/api/rpc/:rpcID/:method" never
    ∷ route "GET" "/api/session" allow
    ∷ route "POST" "/api/session" allow
    ∷ route "DELETE" "/api/session/:sessionID" allow
    ∷ route "GET" "/api/session/:sessionID" allow
    ∷ route "PATCH" "/api/session/:sessionID" allow
    ∷ route "POST" "/api/session/:sessionID/agent" allow
    ∷ route "POST" "/api/session/:sessionID/background" allow
    ∷ route "POST" "/api/session/:sessionID/command" allow
    ∷ route "POST" "/api/session/:sessionID/compact" allow
    ∷ route "GET" "/api/session/:sessionID/context" allow
    ∷ route "GET" "/api/session/:sessionID/diff" allow
    ∷ route "PUT" "/api/session/:sessionID/environment" never
    ∷ route "POST" "/api/session/:sessionID/fork" allow
    ∷ route "GET" "/api/session/:sessionID/form" allow
    ∷ route "POST" "/api/session/:sessionID/form" never
    ∷ route "DELETE" "/api/session/:sessionID/form/:formID" allow
    ∷ route "GET" "/api/session/:sessionID/form/:formID" allow
    ∷ route "POST" "/api/session/:sessionID/form/:formID/reply" allow
    ∷ route "POST" "/api/session/:sessionID/generate" never
    ∷ route "GET" "/api/session/:sessionID/inbox" allow
    ∷ route "DELETE" "/api/session/:sessionID/inbox/:inboxID" allow
    ∷ route "PATCH" "/api/session/:sessionID/inbox/:inboxID" allow
    ∷ route "POST" "/api/session/:sessionID/interrupt" allow
    ∷ route "GET" "/api/session/:sessionID/message" allow
    ∷ route "GET" "/api/session/:sessionID/message/:messageID" allow
    ∷ route "POST" "/api/session/:sessionID/model" allow
    ∷ route "POST" "/api/session/:sessionID/move" allow
    ∷ route "GET" "/api/session/:sessionID/permission" allow
    ∷ route "POST" "/api/session/:sessionID/permission" never
    ∷ route "GET" "/api/session/:sessionID/permission/:requestID" allow
    ∷ route "POST" "/api/session/:sessionID/permission/:requestID/reply" allow
    ∷ route "POST" "/api/session/:sessionID/prompt" allow
    ∷ route "DELETE" "/api/session/:sessionID/revert" allow
    ∷ route "POST" "/api/session/:sessionID/revert/commit" allow
    ∷ route "POST" "/api/session/:sessionID/revert/stage" allow
    ∷ route "POST" "/api/session/:sessionID/shell" (feature shell)
    ∷ route "POST" "/api/session/:sessionID/synthetic" never
    ∷ route "POST" "/api/session/:sessionID/view" never
    ∷ route "GET" "/api/session/active" allow
    ∷ route "GET" "/api/shell" allow
    ∷ route "POST" "/api/shell" never
    ∷ route "DELETE" "/api/shell/:id" allow
    ∷ route "GET" "/api/shell/:id" allow
    ∷ route "GET" "/api/shell/:id/output" allow
    ∷ route "GET" "/api/skill" allow
    ∷ route "GET" "/api/vcs" allow
    ∷ route "GET" "/api/vcs/base" allow
    ∷ route "GET" "/api/vcs/branch" allow
    ∷ route "GET" "/api/vcs/diff" allow
    ∷ route "POST" "/api/vcs/init" never
    ∷ route "GET" "/api/vcs/status" allow
    ∷ route "POST" "/api/websearch" never
    ∷ route "GET" "/api/websearch/provider" allow
    ∷ route "DELETE" "/api/worktree" allow
    ∷ route "GET" "/api/worktree" allow
    ∷ route "POST" "/api/worktree" allow
    ∷ route "POST" "/api/worktree/refresh" allow
    ∷ route "GET" "/auth/connect/:code" never
    ∷ []
