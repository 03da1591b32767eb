-- ===== src/Lib.antt =====
-- Verification library of the Microsoft Defender MCP server, a server of the Model Context Protocol
-- whose tools read from Microsoft Defender and, where the operator turned them on, act on devices,
-- indicators and alerts. What matters most is that it does not act when it should not, and that it
-- leaves a record of what it did: so the development starts from the pipeline of mutating actions,
-- and goes from there to what feeds it.
--
-- The parts, and where they are modelled:
--
-- - Server/Mutation: `execute_mutation` of src/server.rs, the seven stages that each mutating action
--   goes through: read-only, category, validation and justification, confirmation, intent record,
--   upstream request, outcome record. Each stage is a definition in a small monad of early returns
--   (Server/Attempt), which also collects the events that the outside sees, in order: records
--   written or not written to the audit log, summaries printed, forms shown, the upstream request.
--   Gates, Trail and Refusals state what may reach the upstream, what the log holds, and which
--   refusal is given. `audit_validation_error` is in Server/Rejection.
-- - Server/Device: `device_response_action` and `defender_device_response` of src/server.rs, eleven
--   actions on a machine. Rules is about the fields that each action takes, Sends about when a request
--   is made and what is recorded. Server/Prepare has what each action sends and what it aims at, and
--   Server/Tools what the tools share.
-- - Server/Indicators: `indicators_action` and `defender_indicators` of src/server.rs, which submit and
--   delete custom indicators; Sends is about what they send and record.
-- - Server/Dispatch: how a tool reads the arguments of an action and audits those that do not fit.
--   Server/Triage (`triage_action`, `defender_triage`) and Server/Response (`response_action`,
--   `defender_response`, the Live Response and package actions) are the other mutating tools; their
--   Rules and Sends are as those of the devices, and Bodies is about what an update says.
-- - Server/Reads: the read-only tools `defender_ti`, `defender_incidents_alerts`, `defender_machines`,
--   `defender_vulnerabilities` and `defender_forensics`, with every action that they choose among
--   (Intel, Hosts, Devices, Entities, Machines, Forensics, Downloads, ...). An action is a plan: an
--   answer, or one request. Scope and Scoped are about write-named scopes, Safe, Steps and Literal about
--   paths that stay where they should, and Reach states it of each tool.
-- - Client: the requests of src/client.rs, their query parameters (Query) and what a confined path is
--   (Paths).
-- - Hunting: src/hunting/mod.rs and src/hunting/catalog.rs, the checks on a query, the compact answers
--   (Answer, with what they keep in Cut), the cache of schemas (Cache) and the catalog; Policy and
--   Commands are crates/kql-parser/src/policy.rs, and Describe what the answers say of an Analysis.
--   Server/Hunting is `defender_hunting` with its four actions, and Sends is about what it sends.
-- - Validation: the validators of src/validation.rs. Names (host names, identifiers, file names,
--   batches, free texts), Hashes, Ip (with the address parser of Rust's standard library), Odata
--   (paging), Commands (Live Response), Indicators (values, actions, time stamps, classifications)
--   and Encoding (path segments).
-- - Inputs: the closed enumerations of src/server.rs, how they are read (`closed_enum`), what they are
--   called on the wire, and the inputs of the tools with how the arguments of an action are read from
--   them (Args, Reads, Tools, Response, Triage).
-- - Auth: Identity has the identities and permissions of src/auth.rs, Token its `get_token`: the cache,
--   the session of src/auth/session.rs, the checks before and after the refresh lock, and the renewal,
--   over a token endpoint. Token/Renewal states which calls make a request.
-- - Audit (src/audit.rs), Confirm (src/confirm.rs), Cli (src/cli.rs), Error (src/error.rs) and
--   Constants (src/constants.rs): the records and the attempt's identifier, the confirmation form, the
--   categories that flags turn on, the tool errors, the limits.
-- - Text and Json are strings and JSON values as data: a text is a list of code points, with its
--   length in UTF-8 bytes written out; Prelude holds shared results, lists and tests.
-- - Tests holds runs on concrete inputs, with stand-ins for the crates.
--
-- What the source takes from elsewhere is a parameter: the regex crate (`Regex`: what the four
-- patterns match, and which characters `\d` stands for), percent_encoding (`PercentEncoding`), the
-- URL parser (a function), chrono (`Chrono`: parsing, the clock, formatting; an instant is a number
-- of ticks), serde_json's printer, the client's answer to a form, the audit file (whether a record
-- can be appended and flushed), the random bytes and the endpoint's answers. The upstream closure of
-- a request is given by what it returns, and `called` marks the moment it runs. Validators that
-- return a borrowed string return the text.
--
-- Concurrent callers of `get_token` are an interleaving: a call sees one state before it waits for the
-- lock, and another one, which others may have left, once it holds it.
--
-- Numbers are natural numbers; the 32-bit parameters of the paging checks are integers, on which the
-- code only compares. The status that `as u16` cuts off is taken modulo 65536. Loops are structural,
-- so no fuel is needed, but for the address parser, which counts down the digits and the groups that
-- the standard library's own limits allow, and for printing a number, whose fuel is one more than the
-- number itself.
--
-- The parser of queries is compiled from a grammar: what it makes of a text (an analysis, and the last
-- statement with its end) is a parameter, and so is the walk over its parse tree. What serde says of
-- arguments that do not fit is a parameter (`explain`), and paths on the disk have the components that
-- they have on Unix.
--
-- Not modelled: the sign-in flow (src/auth/signin.rs), sending a request and reading its errors
-- (src/client.rs), the download of an artifact, the grammar of queries and the walk over its parse tree
-- (crates/kql-parser/src/lib.rs), prompts and resources, argument parsing and start-up (src/main.rs).
-- They are network, disk and process I/O or text, or are left for later.
pub mod Prelude
pub mod Text
pub mod Constants
pub mod Json
pub mod Error
pub mod Hunting
pub mod Auth
pub mod Cli
pub mod Client
pub mod Audit
pub mod Inputs
pub mod Confirm
pub mod Validation
pub mod Server
pub mod Tests
