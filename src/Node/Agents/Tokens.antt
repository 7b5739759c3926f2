-- ===== src/Node/Agents/Tokens.antt =====
-- node/agent.go: which instance a runtime speaks for, the task that an instance holds, and what is
-- forgotten with an instance.
use a4s.Prelude.{Option, none, some, String, ◌==◌, if◌then◌else◌, Result, ok, err}
use a4s.Prelude.Map
use a4s.Prelude.Map.Keys.{delete_where}
use a4s.Node.Agents.{Agents, unknown_token}

-- `random` is the text of 32 bytes from the random source, if it gives them.
unfoldable pub issue_token : Agents → Option String → String → Result (String × Agents)
unfolding delete_where
issue_token a random allocation =
    if allocation == "" then err "token requires an allocation" else elim random [
      | none ↦ err "generate runtime token: %w"
      | some token ↦ ok (
        token,
        record a {
          tokens = Map.put (delete_where (λ held. held == allocation) a.tokens) token allocation;
        },
      )
    ]

unfoldable pub resolve : Agents → String → Result String
resolve a token = if token == "" then err unknown_token else elim (Map.get a.tokens token) [
  | none ↦ err unknown_token
  | some allocation ↦ ok allocation
]

unfoldable pub hold_task : Agents → String → String → Agents
hold_task a allocation task = record a { tasks = Map.put a.tasks allocation task }

unfoldable pub release_task : Agents → String → Agents
release_task a allocation = record a { tasks = Map.delete a.tasks allocation }

unfoldable pub release : Agents → String → Agents
unfolding delete_where
release a allocation = record a {
  envelopes = Map.delete a.envelopes allocation;
  tasks = Map.delete a.tasks allocation;
  draining = Map.delete a.draining allocation;
  meters = Map.delete a.meters allocation;
  tokens = delete_where (λ held. held == allocation) a.tokens;
}
