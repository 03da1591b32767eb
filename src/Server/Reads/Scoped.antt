-- ===== src/Server/Reads/Scoped.antt =====
-- What a tool may reach: the categories of writing only where the scopes for it were requested.
use microsoft_defender_mcp.Prelude.{
  false, true, if◌then◌else◌, none, some, Option, ◌≡◌, String, refl, Bool, ◌&&◌, not, List, ok, err,
  All,
}
use microsoft_defender_mcp.Client.{Client}
use microsoft_defender_mcp.Json.{CallToolResult}
use microsoft_defender_mcp.Server.Device.{first_given, is_some}
use microsoft_defender_mcp.Server.Reads.{done, fetch, Planned, serve}
use microsoft_defender_mcp.Server.Reads.Safe.{Reaches, Bounded}
use microsoft_defender_mcp.Server.Reads.Scope.{
  ReadConfig, blocked_by, scope_of, check_scope_not_requested, unless, unless_blocked, refuse_field,
  without,
}
use microsoft_defender_mcp.Server.Reads.Steps.{Bounded-done, Bounded-err}

-- The action needs a write-named scope.
abbrev pub needs_scope : (action : String) → Bool
needs_scope action = is_some (scope_of action)

-- The action needs a write-named scope, and sign-in requested it: it is not that of a user under
-- `--read-only`.
abbrev pub scope_requested : ReadConfig → (action : String) → Bool
scope_requested config action = not (config.delegated && config.read_only) && needs_scope action

unless-Bounded :
    (w : Bool) (blocked : Option CallToolResult) (plan : Planned)
    → (blocked ≡ none → Bounded w plan)
    → Bounded w (unless blocked plan)
unless-Bounded w (some r) plan k = Bounded-done w r
unless-Bounded w none plan k = k refl

not_blocked :
    (action : String) (restricted : Bool) (scope : Option String)
    → (if restricted then blocked_by action scope else none) ≡ none
    → (not restricted && is_some scope) ≡ is_some scope
not_blocked action false scope h = refl
not_blocked action true none h = refl
not_blocked action true (some s) h = absurd (cc)

-- What is not blocked needs no scope, or one that was requested.
pub unblocked :
    (config : ReadConfig) (action : String)
    → check_scope_not_requested config action ≡ none
    → scope_requested config action ≡ needs_scope action
unfolding check_scope_not_requested
unblocked config action h =
    not_blocked action (config.delegated && config.read_only) (scope_of action) h

pub unless_blocked-Bounded :
    (config : ReadConfig) (action : String) (plan : Planned)
    → Bounded (needs_scope action) plan
    → Bounded (scope_requested config action) (unless_blocked config action plan)
unless_blocked-Bounded config action plan k =
    unless-Bounded _ (check_scope_not_requested config action) plan
      λ h. rw (unblocked config action h) k

refuse_field-Bounded :
    (w : Bool) (unused : Option String) (action : String) (plan : Planned)
    → Bounded w plan
    → Bounded w (refuse_field unused action plan)
refuse_field-Bounded w (some f) action plan k = Bounded-err w _
refuse_field-Bounded w none action plan k = k

pub without-Bounded :
    (w : Bool) (unused : List (Bool × String)) (action : String) (plan : Planned)
    → Bounded w plan
    → Bounded w (without unused action plan)
without-Bounded w unused action plan k = refuse_field-Bounded w (first_given unused) action plan k

-- The requests that are made are those of the plan.
pub serve-Reaches :
    (w : Bool) (client : Client) (plan : Planned)
    → Bounded w plan
    → All (Reaches w) (serve client plan).1
unfolding serve
serve-Reaches w client (err e) k = tt
serve-Reaches w client (ok (done r)) k = tt
serve-Reaches w client (ok (fetch req)) k = (k (fetch req) refl, tt)
