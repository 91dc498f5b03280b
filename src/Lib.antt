-- ===== src/Lib.antt =====
-- Nfuse: a daemon that meters traffic per port and cuts accounts off by quotas in the kernel.
--
-- The program keeps accounts and their port intervals in SQLite (internal/store), renders them into
-- an nftables ruleset with counters and quotas (internal/nft), and runs every change through one
-- path under one lock (internal/engine): sample the kernel, fold the usage into the database, make
-- the change, read the database back, validate it, apply it. Clients reach the engine over a Unix
-- socket (internal/rpc), the command line (internal/cli) or, to read usage by a token, over HTTP
-- (internal/httpapi). internal/model holds the data and its rules.
--
-- Files and code:
--   Model.antt and Model/: internal/model/model.go. Tier, Account, Port, Snapshot, Validate,
--     LimitBytes; Model/Size.antt is FormatBytes, Model/Token.antt is GenerateToken with the loop
--     uniqueToken of internal/store/store.go and internal/engine/engine.go, Model/Expiry.antt is
--     ParseExpiry and FormatExpiry.
--   Store.antt and Store/: internal/store/store.go. Db is the database, with tables as lists in the
--     order of ids; Load, CreateAccount, SetToken, SetTier, SetExpiry, SetUsage, MarkReset,
--     DeleteAccount, CreatePort, DeletePort, MovePort, EditPort, PersistUsage, the master token.
--     Store/Migrate.antt and Store/Migrate/ are migrate, with the columns that it adds to the file of an
--     older version, and ensureTokens (what they keep in Store/Migrate/Upgrading.antt).
--     Store/Opening.antt is Open and Close.
--   Engine.antt and Engine/: internal/engine/engine.go. State is the Controller with the database
--     and the kernel that it drives, Manager the interface of internal/nft; reconcile, its mutations
--     (Engine/Mutations.antt), RegenerateToken (Engine/Tokens.antt), View and QueryByToken
--     (Engine/Views.antt), New, sampleLoop, persistNow and syncKernel (Engine/Loops.antt; New after a hot
--     and a cold start in Engine/Loops/Restart.antt), nextReset and runDueResets (Engine/Resets.antt), the interleavings of all of them (Engine/Steps.antt),
--     samples and copies that come late (Engine/Staleness.antt), and Start and Stop with the goroutines
--     that they start and wait for (Engine/Lifetime.antt).
--   Nft.antt and Nft/: internal/nft/nft.go. buildScript as a list of commands and their text, the
--     object names, what Sample and TableExists make of the output of nft (Nft/Reading.antt), and
--     execManager as a Manager (Nft/Running.antt). Nft/Treatment.antt is what the rules do with a packet.
--   Rpc.antt and Rpc/: internal/rpc/rpc.go and server.go. dispatch and handle over a Backend; the
--     controller is one (Rpc/Live.antt). Rpc/Client.antt and Rpc/Client/ are client.go: one exchange,
--     the replay of call over a new connection, and every method of the client. Rpc/Listening.antt is
--     Listen and DaemonAlive, Rpc/Serving.antt is Serve and Close with the connections as steps.
--   HttpApi.antt and HttpApi/: internal/httpapi/httpapi.go. handle, queryFormat, the answers.
--   Cli.antt and Cli/: internal/cli/commands.go, cli.go and lifecycle.go. parsePortSpec, parsePortID,
--     parseTier, checkLimit, resolveAccount; parseArgs (Cli/Arguments.antt), writeJSON and writeHuman
--     (Cli/Report.antt), the commands with withClient (Cli/Commands.antt and Cli/Commands/Plans.antt)
--     as actions on a Shell (Cli/Shell.antt), Run (Cli/Run.antt), the daemon, the terminal interface's
--     start and teardown (Cli/Lifecycle.antt and Cli/Lifecycle/).
--   Tui.antt and Tui/: internal/tui/tui.go. The rows that render makes with the selection that it restores,
--     the keys, forms and prompts over the client (Tui/Dialogs.antt), and the cells of the rows with the
--     status line and the polling of the daemon's health (Tui/Status.antt). Tui/Help.antt is the shortcut
--     bar with its height, Tui/Input.antt the keys and clicks.
--   System.antt: internal/system/system.go. KernelVersion and CheckNetdevEgress.
--   Base.antt and Base/: shared helpers. Examples.antt and Examples/: a small installation and the
--     hosts around it, at which the theorems are applied.
--
-- Conventions. Ids are natural numbers: a row id of SQLite is positive, and a negative id of a client
-- matches no row, as an unknown one. Times are seconds since 1970; `none` is the zero time. Counts of
-- bytes are uint64 where the code adds or multiplies them, with the wrap-around written out. A float
-- limit is its sign, mantissa and exponent; what the platform makes of a float outside of uint64 is
-- the parameter `convert`. Port numbers are uint16: the theorems assume it where a client gives them.
-- Errors are constructors, not texts. Each statement of the store and each apply of the kernel may
-- fail, by the faults in Env or by the Manager. Reads of the random source are a list, and a loop
-- that would read on is `waiting`. The lock makes an operation one step; MovePort, SetUsage,
-- ResetAccount and syncKernel test under an earlier hold of it, and what they do under the second is
-- a step of its own (move_tested, set_usage_tested, reset_tested, resync). The steps of
-- Engine/Steps.antt allow more than the code does (a reading may fail at any time, several copies
-- may be taken); the theorems over them say what never happens. The order in which Go
-- iterates over a map is left open where no result depends on it.
--
-- Fuel. unique_token has one round for each random read, which is enough since each draw takes
-- sixteen reads at least. byte_unit has six rounds, enough for a uint64 since each divides by 1024.
-- itoa has fuel above its number.
-- parse_args has one round more than there are arguments, enough since each round takes one at least.
--
-- Parameters: one run of flag.Parse, the JSON codec, package time with its calendar and zones, the nft
-- command, sql.Open, the contents of the kernel's release file, the socket under the client, and what the daemon
-- opens and closes (Machine; a theorem on it asks nothing of these parts).
--
-- Not modelled: the serving of HTTP requests, which net/http does, the
-- tickers that pace the loops, the layout of printed lines and the usage text, the widgets, colours and
-- texts of the terminal interface, and main.
pub mod Base
pub mod Model
pub mod Store
pub mod Engine
pub mod Nft
pub mod System
pub mod Tui
pub mod Rpc
pub mod HttpApi
pub mod Cli
pub mod Examples
