-- ===== src/Server/Mutation/Trail.antt =====
-- The audit trail that one attempt leaves.
use microsoft_defender_mcp.Prelude.{
  ◌≡◌, ◌⊎◌, inl, inr, Bool-cases, true, false, Option, none, some, List, [], ◌∷◌, arith, All,
}
use microsoft_defender_mcp.Audit.{AuditRecord, AuditPhase, intent, outcome, final}
use microsoft_defender_mcp.Audit.AttemptId.{new_attempt_id}
use microsoft_defender_mcp.Cli.Categories.{tool_name}
use microsoft_defender_mcp.Server.Attempt.{
  Event, called, prompted, written, write_failed, printed, Outside, DefenderServer, MutationRequest,
}
use microsoft_defender_mcp.Server.Mutation.{execute_mutation}

-- The life of an attempt, as a machine that reads its events.
pub data Stage : Type 0 where
  fresh asked unlogged intended requested closed : Stage

-- What a record of a phase does before an intent record is on disk.
abbrev record_step : AuditPhase → Stage → Option Stage
record_step final next = some closed
record_step intent next = some next
record_step outcome next = none

abbrev close_with : AuditPhase → AuditPhase → Option Stage
close_with final final = some closed
close_with outcome outcome = some closed
close_with _ _ = none

abbrev advance : Stage → Event → Option Stage
advance fresh (prompted _) = some asked
advance fresh (written r) = record_step r.phase intended
advance fresh (write_failed r) = record_step r.phase unlogged
advance fresh (printed r) = close_with final r.phase
advance asked (written r) = record_step r.phase intended
advance asked (write_failed r) = record_step r.phase unlogged
advance asked (printed r) = close_with final r.phase
advance unlogged (written r) = close_with final r.phase
advance unlogged (write_failed r) = close_with final r.phase
advance intended called = some requested
advance requested (written r) = close_with outcome r.phase
advance requested (write_failed r) = close_with outcome r.phase
advance _ _ = none

abbrev pub advance_all : Stage → List Event → Option Stage
advance_all s [] = some s
advance_all s (e ∷ es) = elim (advance s e) [ none ↦ none | some t ↦ advance_all t es ]

-- The record of an event, if it has one.
abbrev pub OfRecord : (AuditRecord → Type 0) → Event → Type 0
OfRecord P (written r) = P r
OfRecord P (write_failed r) = P r
OfRecord P (printed r) = P r
OfRecord P _ = Unit

-- An event that neither sends anything nor puts a record on disk.
abbrev IsOffDisk : Event → Type 0
IsOffDisk (prompted _) = Unit
IsOffDisk (printed _) = Unit
IsOffDisk _ = ⊥

-- What the events of an attempt are: with an audit sink, a whole life; without one, a form and a
-- printed refusal at most, with nothing sent and nothing on disk.
pub data Lives (server : DefenderServer) (es : List Event) : Type 0 where
  logged : server.audit_sink ≡ true → advance_all fresh es ≡ some closed → Lives server es
  without_sink :
      server.audit_sink ≡ false
      → (advance_all fresh es ≡ some fresh)
        ⊎ (advance_all fresh es ≡ some asked)
        ⊎ (advance_all fresh es ≡ some closed)
      → All IsOffDisk es
      → Lives server es

module _ (world : Outside) (server : DefenderServer) (req : MutationRequest) where
  -- With an audit sink every attempt runs its life to the end: a form at most, then one final
  -- record, or an intent record that is on disk, the request and an outcome record, or a failed
  -- intent record and a final one.
  pub lifecycle :
      server.audit_sink ≡ true
      → advance_all fresh (execute_mutation world server req).1 ≡ some closed
  unfolding execute_mutation
  lifecycle sink = ground arith

  -- Without an audit sink the life never goes past the form but for a printed refusal.
  pub lifecycle_unlogged :
      server.audit_sink ≡ false
      → (advance_all fresh (execute_mutation world server req).1 ≡ some fresh)
        ⊎ (advance_all fresh (execute_mutation world server req).1 ≡ some asked)
        ⊎ (advance_all fresh (execute_mutation world server req).1 ≡ some closed)
  unfolding execute_mutation
  lifecycle_unlogged sink = ground arith

  off_disk : server.audit_sink ≡ false → All IsOffDisk (execute_mutation world server req).1
  unfolding execute_mutation
  off_disk sink = ground arith

  -- Where there is an audit sink the life is run to the end; without one nothing is on disk.
  pub execute_mutation-Lives : Lives server (execute_mutation world server req).1
  execute_mutation-Lives = elim (Bool-cases server.audit_sink) [
    | inl sink ↦ logged sink (lifecycle sink)
    | inr none_there ↦ without_sink none_there (lifecycle_unlogged none_there) (off_disk none_there)
  ]

  -- A record names this attempt, its tool, action and targets, and who acts.
  pub record IsAttributed (r : AuditRecord) : Type 0 where
    pub attempt : r.attempt_id ≡ new_attempt_id world.random
    pub tool : r.tool ≡ tool_name req.tool
    pub action : r.action ≡ req.action
    pub targets : r.targets ≡ req.targets
    pub parameters : r.parameters ≡ req.parameters
    pub identity : r.identity ≡ server.identity

  -- Every record of an attempt names the attempt, the tool, the action, the targets, the parameters
  -- and the identity that the request and the server have.
  pub execute_mutation-IsAttributed :
      All (OfRecord IsAttributed) (execute_mutation world server req).1
  unfolding execute_mutation
  execute_mutation-IsAttributed = ground arith
