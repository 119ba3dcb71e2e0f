-- ===== src/Lib.antt =====
-- agent-ops: a model of the daemon's core, with the theorems that make it correct.
--
-- The program is a daemon that keeps one application instance alive. Tasks, their runs, a mission and
-- an event log live in an embedded database. A runner takes a task, composes the prompt of a language
-- model from the mission, gives the model the tools of the task's allowlist, and records how the run
-- ended. Remote tools come from MCP clients, and an MCP server lets a user change all of this.
--
-- State (internal/state/state.go, mission.go): `Store` holds the tables, the events and the run logs.
--   Data has the rows; Tx the transactions; Events, Tasks, Runs and Mission the operations (Append is
--   `append_event`, UpsertTask `upsert_task`, StartRun `start_run`, FinishRun `finish_run`,
--   AppendRunLog `append_run_log`, SetStatement `set_statement`, AddFact `add_fact`, and the reads).
--   Json has the payloads of the events. History puts the mutating operations into one step function and
--   a history of steps; Effect and Change say what a step does; Follower is what a follower of the log
--   makes of an event; Replay, Numbers, RunLife, RunOnce, RunRows, TaskLaws and Facts have the theorems
--   on histories, and Follows relates a store to one behind some operations.
-- Tool (internal/tool/tool.go, remote.go, shell.go; registerRemoteTools of internal/daemon/daemon.go):
--   Registry, Remote and Shell, with RegistryLaws.
-- Task (internal/task/runner.go; types of internal/driver/driver.go and internal/runreport/reporter.go):
--   Filter and Prompt are filterFactForPrompt and composeSystemPrompt; Runner is Runner.Run, over the
--   State operations and the Tool registry; FilterLaws, PromptLaws, RunnerLaws, RunEnds and RunTotal
--   have the theorems, Flight interleaves concurrent calls as steps of a relation, and RunFollows is the
--   step from Run to the operations of the store.
-- Config (internal/config/config.go): Data has the configuration after the YAML decoder, Defaults is
--   applyDefaults, Validate is validate and Parse; DefaultsLaws and Valid have the theorems. The
--   scheduler reads its schedules.
-- Scheduler (internal/scheduler/scheduler.go): Cron is the interface of the cron library; Model has
--   register, Hydrate, SetTask, makeJob (`tick`), RunNow and the model overrides; Entries, SetTask,
--   RegisterAll, Hydrate and Ticks have the theorems; Slots is a cron table to try things with.
-- Report (internal/runreport/reporter.go): Reporter is HTTPReporter.Report, which gets the runner's
--   records; Retries has the bounds of its loop, which has three attempts left at its start.
-- Mcp (internal/api/mcp/server.go): FactInspect is toolFactInspect, over State and Task.Prompt; Server has
--   the other tools and handleToolsCall, over State, Scheduler and Tool; Post has handleMCP, handlePOST,
--   handleGET, authOK and originOK; Effects and Orderly have the theorems on what a request changes.
-- Front (internal/api/mcp/server.go): Numbers is parseStatusRange and parsePathSet, Bridge ohAgentProxy and
--   ohvsProxy, Ready startReadinessGate, whose fuel is the polls that fit before its deadline, and App is
--   Handler, handleSetAuth and appReverseProxy, over Mcp.Post and AppAuth; Guard and Pages have the
--   theorems.
-- Claude (internal/driver/claude/claude.go): Wire has the messages of the API, Loop is Driver.Run, which
--   the runner calls as its driver; Cases, Follows, Dialogue, Protocol and Ends have the theorems. The
--   loop counts down the iterations that are left, from the bound of the call, or 25.
-- ClaudeCli (internal/driver/claudecli/claudecli.go): CapWriter is capWriter, Stream parseStream, Run
--   Driver.Run, another driver for the runner; Tail, Events and Outcome have the theorems.
-- Integrate (internal/integrate/integrate.go): EnvFile is the text that mergeEnvFile writes, Files the
--   reads and writes of the two files, Model is Add, Remove and List, which parse by Config.Validate;
--   KeyLaws, EnvLaws, FileLaws, Atomic, AddLaws, Reparse and Ready have the theorems, with
--   Config.Again, which parses a configuration twice.
-- AppAuth (internal/appauth/appauth.go): Gate is Apply, Enforce and RealClientIP; GateLaws and Spoof
--   have the theorems.
-- McpClient (internal/mcpclient/manager.go, client.go, stdio.go): Pool is New, Boot and Close; Supervisor
--   has superviseStdio as steps of a relation, with those of the subprocess and of Close.
-- Bootstrap (internal/bootstrap/bootstrap.go): Token is EnsureToken, Verdict extractJSONObject and
--   parseVerifierJSON, TailBuffer tailBuffer, and FirstRun MaybeRunFirstRun, over Scheduler.RunNow and the
--   State operations; Balance and Marked have the theorems.
-- Proxy (internal/proxy/proxy.go): Caddyfile is RenderCaddyfile and RenderMapFile; Sync is WriteConfig,
--   EnsureMapFile, Sync and the loop of Up as a list of calls; Order and Fresh have the theorems. Caddy
--   is only the routes that it loaded last.
-- Prelude: strings, lists, results, association lists, sorting, integers.
-- Each Tests file has the theorems at concrete inputs, and runs of the operations; Task.Samples
-- has what several of them start from.
--
-- Strings are lists of bytes; white space and letter case are those of ASCII. A time is a count of
-- nanoseconds since 1970, and the zero time is `none`. A payload that mustJSON writes is the object
-- that it spells, with U+FFFD for the bytes that are no UTF-8; the columns tools and facts hold the
-- lists that their JSON spells, of valid UTF-8. A map is an association list. The database may refuse
-- any call: which calls it refuses is an argument (`Faults`), and so are the clock, the random source,
-- the contexts, the language model and its API, the process of the claude command, the installations
-- of a first run without its task, the file system, the reload of Caddy, the effects of the tools, the
-- shell, the MCP servers, the YAML encoder, the addresses of package net, and bcrypt and sha256. The
-- Go mutexes make each operation one step. Every loop is a structural recursion; only the retries of a
-- report and the loop of the Messages API driver count down what is left of a bound that the source
-- has. The bounds are those of the source: 100 facts in the mission, 40 in the prompt, 10000 events,
-- 1000 runs or 5000 log lines in one read, 64 KiB of output of a command.
--
-- Not modelled: the formatting of times in reports, JSON text, the polling of a file lock, the
-- reserved sections of the configuration, the nil channels of a manager that was closed, the order of
-- runs that started at one instant and of routes with one host (here that of insertion), the
-- clustering watermarks, and whatever PROJECT.json lists as not modelled: the templates of the server,
-- the streams of its reverse proxies, network and file input and output, command lines, and the
-- remaining handlers.
pub mod Prelude
pub mod State
pub mod Tool
pub mod Task
pub mod Report
pub mod AppAuth
pub mod Claude
pub mod Integrate
pub mod Mcp
pub mod McpClient
pub mod Config
pub mod Scheduler
pub mod Proxy
pub mod Front
pub mod ClaudeCli
pub mod Bootstrap
