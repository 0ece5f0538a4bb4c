-- ===== src/Lib.antt =====
-- gols-bash, a language server for Bash: a model of its core and what is proved of it.
--
-- The server keeps a store of open documents, an index from URIs to parsed files, and answers
-- requests of an editor from these two. Messages come one at a time; a background scan of the
-- workspace and reports of a file watcher change the index between them.
--
-- Which file models which part (paths from the repository's root):
--   Lsp          internal/util/lsp/position.go: words, offsets, UTF-16 columns. `Lsp/Words`,
--                `Lsp/Lines` and `Lsp/Columns` prove what its loops do.
--   Positions    internal/server/positions.go, with the encodings of initialize.go.
--   Syntax       what the code reads of mvdan.cc/sh/v3/syntax. Its parser and `Walk` are parameters.
--   System       the operating system and path functions that are parameters.
--   Analyser     internal/analyser: `Symbols` has FindDeclarations and FindUsages, `Reachable` the
--                breadth-first search of reachableURIs, `Index` the index with its queries,
--                `Scanner` the tests of scanner.go and `Scanner/Walk` its walk. Their children prove.
--   Documents    internal/server/documents.go, the store of open documents.
--   Protocol     the messages of the protocol as far as they are read or filled.
--   State        the fields of bashServer (server.go) and its settings (configuration.go).
--   Workspace    internal/server/workspace.go, each operation as one step on the state. `Steps` has
--                their branches, `Coherence` the invariant, `Events` any sequence of them, and `Scan`
--                scanWorkspaces of server.go.
--   Requests     the handlers of single requests: `Rename` and `Identifier` (rename.go), `References`
--                (references.go and highlight.go), `Definition` (definition.go), `Hover` (hover.go) and
--                `Symbols` (symbols.go); `Located`, `Prepared`, `Defined`, `Hovered`, `Found` and
--                `Rename/Edits` prove.
--   ShellCheck   diagnostics.go: the runner and what is made of its output. `Columns`, `Ranges` and
--                `Lint` prove.
--   Diagnostics  documentDiagnostics and parseDiagnostics (diagnostics.go), and code_action.go.
--   Settings     configuration.go; `Updates` and `Refreshed` prove.
--   Initialize   initialize.go; `Capabilities` has the reply, and `Roots` proves.
--   Data         internal/data: the builtins and the reserved words. `Executables` has the scan of PATH,
--                and its child `OnPath` proves.
--   Completion   internal/server/completion.go; `Prefixes`, `Variables`, `Offered` and `Dollar` prove.
--   EditorConfig internal/server/editorconfig.go; `Ancestors` and `Nearest` prove.
--   Formatting   internal/server/formatting.go; `Indents` proves.
--   Messages     the methods that handle of internal/server/server.go knows, and what it sends.
--   Dispatch     handle itself. `Files` and `Queries` prove what single messages do; `Sessions` has any
--                sequence of messages and visits of the scan, with `Told` on documents, `Panics` on URIs
--                and `Lifecycle` on the end; `Background` has the tasks that the `initialized` message
--                starts.
--   Run          the end of Run (server.go) and the exit status of main.go.
--   Prelude      shared names, lists, sorting, Go strings (bytes) and Go maps (association lists).
--   Examples     tests, and the theorems at concrete inputs.
--
-- How the code is read: a Go string is its list of bytes. A Go map is an association list without
-- repeated keys; the order of the list stands for the order of a `range` loop, and the theorems hold
-- for every order. A pointer that may be nil is an Option. An `int` that is a line, a column or an
-- offset is a natural number and -1 is `none`, since every caller passes an `int(uint32)`. An `int32`
-- version is its bit pattern. What runs under one mutex is one step.
--
-- Fuel: the loop of OffsetForPosition and that of UTF16Len move on by a byte at least in each round,
-- so the length of the text is enough. The search of reachableURIs queues every file once, so one
-- round more than there are indexed files is enough. The search of editorConfigFiles goes up one
-- directory in each round, so two rounds more than the path has bytes are enough.
--
-- Panics: `uri.URI.Filename` panics on a URI that is not one of a file. Where a URI comes in from the
-- client, in the `initialize` request and where a document is opened, that is `none`. Everywhere else
-- `Filename` is a total function of the model: in a report of the file watcher workspaceFilePath calls
-- it behind a test of the scheme, and the other calls take URIs that the state holds. In a state with a
-- document at a URI of another kind those calls would panic in Go, which the model does not show.
--
-- Concurrency: jsonrpc2 hands the server one message at a time, and the visits of the background scan
-- come between messages. A session is a list of both, with the file system that each of them finds.
--
-- Not modelled: the transport and JSON (jsonrpc2, stdio), the logger (newLogger), the parsing of flags
-- and signals (main.go), which are input and output only; and the vendored libraries.
pub mod Prelude
pub mod Syntax
pub mod Lsp
pub mod Positions
pub mod System
pub mod Analyser
pub mod Documents
pub mod Protocol
pub mod State
pub mod Workspace
pub mod Requests
pub mod ShellCheck
pub mod Diagnostics
pub mod Settings
pub mod Initialize
pub mod Data
pub mod Completion
pub mod EditorConfig
pub mod Formatting
pub mod Messages
pub mod Dispatch
pub mod Run
pub mod Examples
