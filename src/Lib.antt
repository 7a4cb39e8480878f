-- ===== src/Lib.antt =====
-- soft-ue-index: a Go program that keeps a compile_commands.json for Unreal Engine projects up to
-- date and answers code queries over MCP through one clangd process per project.
--
-- The parts, and the files that model them:
--   Cli            internal/cli/cli.go: the command line.
--   Watch          internal/watch: Coordinator is coordinator.go, a state of project entries,
--                  timers and worker goroutines with one step for each section under the
--                  lock; Classify is classify.go.
--   Lsp            internal/lsp: Manager is manager.go, the sessions with their clangd processes,
--                  one function for each section under the lock.
--                  Documents is what client.go keeps of opened documents, with the protocol's
--                  side in Documents/Server, Progress its view of the background index, and
--                  Outline its limit on trees of symbols; Framing is jsonrpc.go.
--   Mcp            internal/mcpserver: Limits is limits.go, Search the list tools of server.go,
--                  Stdio the frame writer of stdio.go.
--                  Calls is the call hierarchy, Fit the search of fitText, Outline the tools
--                  DocumentSymbols and Hover, and Source ReadSymbolSource, of server.go;
--                  Requests the reader, the validation and the proxy of stdio.go.
--   Registry       internal/registry: model.go and store.go, the registered projects on disk.
--   Fragment       internal/engineindex/fragment.go: the configuration that projects share.
--   Guard          internal/ubtguard/ubtguard.go: the wait for a running Unreal build.
--   Compdb         internal/compdb: Rider is rider.go, with the modules, the choice of a target
--                  and the synthesis of a database; Generator is generator.go; CommandLine,
--                  Entries and Validate are validate.go.
--   Toolchain      internal/toolchain/toolchain.go: versions and the choice of a clangd, Places
--                  where clangd and dotnet are looked for.
--   Base           the shared types: byte strings, association lists for Go maps, results,
--                  pointers as numbers, and in Paths what the program relies on in filepath.Dir.
--
-- Conventions. A Go string is a list of bytes, and the functions of package strings are modelled
-- for ASCII text. A Go map is an association list. A method that changes its receiver returns the
-- new record; a section under a mutex is one function, and what goroutines and timers do between
-- such sections is a step relation, so that every interleaving is covered. An error value is a
-- constructor that keeps what its message is made of. In Watch time is not measured: a
-- timer that is armed may fire at any step. In Lsp it is a number of seconds, in Guard one of
-- nanoseconds, modulo 2^64.
--
-- Fuel: the frame writer takes as many rounds as it has bytes, and one more; the wait for a build
-- as many as the total has nanoseconds, as long as no duration wraps around; the resolution of a path
-- as many as the path has bytes; the reader of a frame
-- as many lines, and a line as many full buffers, as the stream has bytes, and one more; the
-- lookup of a module as many as its directory has bytes, and one more; the digits
-- of an int are at most twenty. The walk of a call hierarchy recurses on the depth, its trimming
-- on the number of edges and nodes.
--
-- Not modelled: the calls of the system, JSON, the MCP SDK and clangd itself, which are arguments
-- where the modelled code calls them; the tests of server.go on paths (safePath, fileURIPath),
-- which ask the file system and are arguments too. Nor are the commands of internal/app, the
-- daemon, the watcher on the file system, the process that generates a database, the discovery of
-- engines and their index, and how the LSP client matches answers to its calls.
pub mod Base
pub mod Cli
pub mod Compdb
pub mod Fragment
pub mod Guard
pub mod Lsp
pub mod Mcp
pub mod Registry
pub mod Toolchain
pub mod Watch
