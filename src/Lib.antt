-- ===== src/Lib.antt =====
-- OneSSH is a server that runs commands on hosts over SSH for MCP clients. This library models
-- parts of its Go code and states what they do.
--
-- The parts and how they meet. A request carries a bearer token, which internal/store looks up
-- among the tokens that an administrator or the OAuth server made; internal/mcpserver lets it
-- through to a tool unless the instance or the token disables the tool's group, as
-- internal/toolgroups says. A tool that runs a command takes a connection from internal/sshpool and
-- gives it to internal/execx, which writes the script, keeps what the command prints and reads the
-- exit code from the end of it; one that runs long becomes a job of internal/jobs, which asks the
-- host how it is and tells internal/events. The hosts, and through which other hosts they are
-- reached, are kept by internal/hostmanager. The tools that search files walk them with internal/searchcore.
--
-- The files.
--   Base: names of the libraries, tests on numbers and texts, lists measured by native numbers, and
--     what the program uses of Go's `strings` and `strconv`.
--   ToolGroups: internal/toolgroups/toolgroups.go. A Go map from groups to Booleans is the list of
--     its entries. Sets, Hiding, Parsing and Normalizing are about unions, `HidesTool`,
--     the parsers and `NormalizeList`.
--   Execx: internal/execx/runner.go. Writer is `limitedWriter` with what it hands to its callback
--     and to the file of the whole stream; Trailer, Shell, Lines and Pages are `parseTrailer`, `SHQ`
--     with `commandScript`, `selectLines`, and `ReadCommandOutput` with the UTF-8 it needs.
--   Store: the tables of internal/store as lists of rows, and transactions as functions from tables
--     to a result with tables. Tokens is internal/store/auth_sessions.go, Oauth is
--     internal/store/oauth.go. Every statement may fail for reasons of the database: the argument
--     `fails` says which do.
--   Mcpserver: internal/mcpserver/denylist.go and the look-ups of internal/mcpserver/apps.go. The
--     handler behind the middleware is a parameter.
--   Sshpool: internal/sshpool/pool.go. Credentials, the network and the servers' keys are a
--     parameter; a call of `get` for a jump host is an argument of the functions below it.
--     Rows is what a connection may write to the table of hosts.
--   Hostmanager: internal/hostmanager/manager.go, with `strings.ToLower` as a parameter, over Store/Hosts, which is
--     internal/store/hosts_keys.go, and over the pool. Operations has the calls of `Manager`; Chains,
--     Checked, Sound, Statements and History are about the chains of jump hosts, the checks of an
--     input, the table of hosts, its statements, and histories of calls.
--   Events: internal/events/events.go. A subscriber's channel is kept under the subscriber's number.
--   Imagex: internal/imagex/image.go. Fitted and Sizes are about the sizes of pictures; the decoders,
--     the encoders and the scaling of pixels are a parameter.
--   Jobs: internal/jobs/manager.go and internal/jobs/maintenance.go over Store/Jobs, which is
--     internal/store/jobs.go with what internal/store/command_runs.go does for jobs. Refreshing,
--     Killing and Maintenance are `RefreshAll`, `Kill` and `Maintain`; the workers of many hosts
--     deliver in the order of an argument.
--   Oauthserver: internal/oauthserver over Store/Oauth. Endpoints is `RegisterClient` and
--     `AuthorizationDecision`, Tokens is `Token`; Issued, Served and Bound are about codes and the
--     redirect URIs of clients. The parser of URLs, the hashes and the random values are parameters.
--   Searchcore: internal/searchcore/core.go. The file system, the `regexp` engine and the end of the
--     context are parameters. Paths is what it uses of `path` and `encoding/json`.
--   Examples: tests, and the results at concrete inputs.
--
-- Bounds and fuel. `chunks_from`, `valid_from`, `glob_from` and `json_body` take a byte in each round
-- and are given as many rounds as there are bytes. `get_within` is given two rounds more than
-- `maxJumpChain`, since a longer chain is refused. `walk_dir` counts the levels that are left below
-- `MaxTraversalDepth`, at which the source stops too. Sizes and counts are natural numbers: but for
-- the products of internal/imagex, which wrap around at 2^64, none of them comes near the bounds of
-- Go's `int`.
--
-- What is not modelled. Time-outs, goroutines and locks: calls are taken one after the other, and
-- SQL transactions are serial; but a call of the pool that locks an entry which it holds already is
-- told from one that comes to an end. In the names of tool groups, the lower case of characters outside ASCII, but for the two whose
-- lower case is an ASCII letter. The JSON around the lists of disabled tools. The row of the audit
-- log that a refused call writes, but for the tool's name. The handshake's own time limit in
-- `newSSHClient`. `Run` of internal/execx, `Grep` of internal/searchcore, the start and the logs of
-- jobs, the monitor, the memories, the files, the documents of the OAuth server and the console are
-- not modelled, nor is what a worker of `RefreshAll` writes after the deadline has passed, nor errors
-- of the database in internal/jobs, but for a status that the CHECK on its column refuses.
pub mod Base
pub mod ToolGroups
pub mod Execx
pub mod Store
pub mod Sshpool
pub mod Hostmanager
pub mod Events
pub mod Imagex
pub mod Jobs
pub mod Oauthserver
pub mod Mcpserver
pub mod Searchcore
mod Examples
