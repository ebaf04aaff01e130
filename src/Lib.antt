-- ===== src/Lib.antt =====
-- Gratis is a hosting panel: an API server (api/) and, on each hosted machine, an agent (agent/) that
-- runs as root. An agent connects to the API by gRPC, registers with a provisioning token, sends
-- heartbeats and carries out commands; the frontend uses the API by HTTP. A command passes from an
-- HTTP handler through SendCommand to the session of the agent, on the agent to Dispatch and from
-- there to one module, and its result comes back by the session to the call that waits for it.
--
-- The files, and the code that each is about:
--   Base, Text    helpers: Booleans, lists and maps over the native numbers; strings as lists of
--                 bytes with what the code uses of strings, strconv, fmt and path/filepath
--   Host          the effects of the agent: a `Call` for each use of os, os/exec, database/sql and
--                 net/http, and the monad `M` in which its functions are written; Host/Disk is a
--                 host with files, links and directories, given by the laws of its
--                 calls (`Disk`)
--   Proto         the messages of gen/agent/v1/agent.pb.go
--   Agent/Accounts    agent/internal/system/accounts.go (CreateAccount, DeleteAccount, setQuota)
--   Agent/Webserver   agent/internal/webserver/nginx.go (CreateVhost, DeleteVhost, RestartService)
--   Agent/Database    agent/internal/database/mariadb.go (CreateDatabase, DeleteDatabase)
--   Agent/Dns         agent/internal/dns/powerdns.go (CreateZone, UpsertRecord, DeleteRecord, …)
--   Agent/Email       agent/internal/email/manager.go, and Agent/Email/Dkim for dkim.go
--   Agent/Metrics     agent/internal/system/metrics.go (SampleCPU, CPUPercent, ReadMemInfo, …)
--   Agent/Session     agent/internal/rpc/agent.go: the handshake, heartbeats and answers, the session
--                     (Loop), its goroutines as they come to Dispatch (Turns), and Run (Run)
--   Agent/Dispatch    agent/internal/rpc/dispatch.go (Dispatch and its handlers)
--   Api/Store         api/internal/store/store.go, and authenticate of api/internal/grpc/server.go
--   Api/Server        api/internal/grpc/server.go: the agents that are connected, pending commands
--   Api/Routes        api/internal/grpc/routes.go: the HTTP handlers
--   Api/Mux           routes of routes.go: the patterns, and what net/http does by them
--   Api/Connect       Connect of api/internal/grpc/server.go up to its session
--   Api/Main          api/cmd/api/main.go, with New of store.go and NewServer of server.go; Run is
--                     Run of server.go, and main up to its exit
--   Agent/Main        agent/cmd/agent/main.go, up to its exit (Exit); Settings is what both programs
--                     do with their flags
--   Handshake         connect of agent.go against Connect of server.go, and the programs' starts
--   System            both programs at work: the sessions with their queues and streams, the calls
--                     of SendCommand, and every goroutine's steps (Steps), with what holds of one
--                     session (Links), of all (Invariant, Reached), and what follows
--   Panel             the two programs together: a virtual host end to end
-- A child module is named for what it is about: the calls a component makes (Calls), its paths
-- (Paths), its statements (Statements), and so on; Tests holds runs at concrete inputs.
--
-- How the code corresponds. A Go function that returns an error is a function into `M`: it takes
-- the calls made so far, newest first, and gives a result and more calls. What the host answers
-- to a call is `Env`, any function of the calls before it, so a theorem about every `Env` holds
-- on every host. An error keeps its format and its arguments, and `message` gives its text.
-- PostgreSQL is a record with one operation for each statement of store.go (`Postgres`); what its
-- foreign key means is the record `Keyed`. SHA-256, random bytes, the Unicode case tables, the time and floating point numbers are
-- parameters. The server's maps are association lists; sessions and the result channels of
-- SendCommand are numbers, and each critical section under the mutex and each channel operation
-- is one step of the relation `Step`.
--
-- Bounds: a sum, a difference and a product of counters are taken modulo 2 ^ 64, and a line of a
-- bufio.Scanner has fewer than 65536 bytes. A 64-bit quota stays below 2 ^ 64, which is a hypothesis
-- where it matters. The one function on fuel is `decimal`, whose fuel is the number plus one: each
-- round divides by ten.
--
-- In System a session is a `Link`: the channel agent.send of 32 places, the stream down to the agent,
-- its channel of 8 places, the commands at work, the stream up and the server's channel of 8 places.
-- A send to a full channel is no step. A stream holds any number of messages, and an end of it that
-- has failed takes no more steps. SendCommand looks up its session and enters its command in one
-- step, since nobody knows the new id before.
--
-- A select is modelled by what it takes: the session of the agent and both Run functions are functions
-- of a list of events, in which the answers of gRPC, of net/http and of the host stand; a list that
-- is at its end is a program that goes on. The goroutines of handleCommand that the agent has started
-- come to Dispatch at events of their own, in a session, as the agent connects, and as it waits; one that
-- panics ends the program with status 2.
--
-- A handler of Dispatch may panic: `Handler` gives no result then, and a nil pointer whose fields are
-- read is a `dereference` of none.
--
-- Where a theorem speaks of files, the host has a `Disk`: a record of the file or link at each path, of which
-- paths are directories, and of the laws of the calls of package os, of which Host/Disk/Machine is an instance. A link is never written
-- through, and what a program leaves alone is a hypothesis (`Spares`, `SparesKeys`).
--
-- Not modelled: the sockets, TLS and the streams of gRPC themselves, the redirection of an HTTP path
-- that is not clean, the closing of connections as a program ends, log output, the SQL of the
-- migration but for its foreign key, the decoding of DNS responses, which no caller asks for, and the
-- generated encoding of the messages.
pub mod Agent
pub mod Api
pub mod Base
pub mod Handshake
pub mod Host
pub mod Panel
pub mod Proto
pub mod Settings
pub mod System
pub mod Text
