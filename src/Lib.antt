-- ===== src/Lib.antt =====
-- RouterCLI is a framework for command lines in the style of a router: a Go module whose packages
-- stand at the root of its repository. This library models the parts that carry its logic and
-- proves what makes them correct. Base has the shared names and lemmas.
--
-- How the parts interact. A program loads its configuration (config), its catalogs (i18n) and the
-- trees of its Command Levels (command), checks them, and replays its startup configuration. Its read
-- loop then takes a line, splits it into tokens (tokenize), cuts off the filters behind a bar
-- (paging), resolves the tokens in the tree of the current Command Level (command), checks the
-- arguments, and runs a handler, whose output goes through the filters and the pager. While a line is
-- typed, a Tab or a "?" resolves it in the same tree (completer). A handler may move the session to
-- another level, past a role gate and a password gate that uses a rate limiter and the stored hashes
-- (command, auth), which the login uses as well. What reaches a terminal or a log is escaped
-- (sanitize, auditlog). Clients and the daemon talk over an encrypted channel (armorchan); the daemon
-- registers each as a session and writes the log (daemon).
--
--   Tokenize         tokenize/tokenize.go: Tokenize, QuoteIfNeeded
--   Sanitize         sanitize/sanitize.go: Field, Terminal, ValidateInput, IsSafeInput
--   Paging           paging: Filter (filter.go: ApplyFilters), Pipeline (pipeline.go: SplitPipeline,
--                    ParseStages), Pager (pager.go: Display and the effective sizes)
--   Command.Tree     command/model.go: Command, and the map of commands as a list of entries
--   Command.Args     command/command.go: ValidateArgs, AcceptsMoreArgs, runnableAsIs
--   Command.Resolve  command/command.go: Resolve
--   Command.Context  command/model.go, command/roles.go: AppContext, CommandLevel,
--                    CommandLevelStack, RoleSet
--   Command.Stack    command/commandlevelstack.go: Push, Pop, PopToRoot, Current, AtRoot, Depth,
--                    SetRootTree, MergeTrees
--   Command.Roles    command/roles.go: CurrentUserRoles, Authorized
--   Command.Level    command/treestructure.go: EnterCommandLevel, ExitCommandLevel and their gates
--   Command.Build    command/treestructure.go: LoadTreeStructure, verifyLevelHierarchy,
--                    filterLevelSwitchCommands, Base
--   Command.Loader   command/loader.go: LoadTree, validateTreeText, resolveHandlers;
--                    Command.Registry is command/registry.go
--   Command.Verify   command/verify.go: the four Verify functions
--   Command.Prune    command/prune.go: PruneDisabledCommands
--   Command.Literal  command/literalpath.go: LiteralCommandPath
--   Command.Replay   command/replay.go, command/alias.go: ReplayLines, LoadStartupConfig, ExpandAlias
--   Command.Reload   command/reload.go: PendingReload; Run has the steps of its goroutines
--   Command.Help     command/help.go: Names (SortCommandNames), Layout (wrapping), and the help texts
--   Completer        completer: the Tab, the words of the line (Words) and its rewrite; the "?" and
--                    OnChange (Keys)
--   I18n             i18n: the translator and the loading of catalogs
--   Auditlog         auditlog: the log, and the format of a line
--   Config           config: SystemConfig (Model), LoadSystemConfig, resolvePaths, validate
--   Auth             auth/ratelimit.go: RateLimiter and KeyedRateLimiter (RateLimiter, Keyed);
--                    auth/auth.go: VerifyPassword, HashPassword and the registry (Password);
--                    auth/totp.go and auth/mfa.go: TOTP codes and their single use (Totp);
--                    auth/password_policy.go (Policy); auth/login.go and auth/provider.go:
--                    PromptLogin (Login); auth/model.go: Session and User (Model)
--   Daemon.Store     daemon/store.go: Do, Close and the goroutine, whose steps are in Run
--   Daemon.Sessions  daemon/sessions.go: SessionDirectory, whose functions the store runs
--   Daemon.Protocol  daemon/protocol.go: the messages
--   Daemon.Peers     daemon/peercred.go: CheckPeer, PeerIdentity, and the gate of daemon/server.go
--   Daemon.Server    daemon/server.go: TriggerReboot, the messages of serveConnection (Serve has its
--                    beginning and end)
--   Daemon.Remote    daemon/remoteclient.go: RemoteClient
--   Armorchan        armorchan: Frame (frame.go), Channel (channel.go), Handshake (handshake.go)
--
-- State is passed along: a method takes the value of its receiver and returns the new one. A method
-- under a mutex is one step. A panic is a value of the result, as is each error, which stands for its
-- message by what the message shows. A pointer to a Command Level is its name, since ByName and Order
-- share the levels. An instant is a number of nanoseconds after the zero time, and a function that
-- reads the clock takes what it reads. Equal keys of a sort may come in any order in the source, as
-- may the entries of a map over which it ranges; the model takes one order.
--
-- Fuel. The alias loop of Resolve takes fuel, since an alias may name itself: the model has a result
-- for a chain that is longer than the fuel, and Command.Resolve.Aliases says for which trees and
-- which fuel Resolve returns. The loop of Display has one turn for each line and one more; each turn
-- prints a line, so this is enough, as Paging.Pager.Pages shows. The build order of LoadTreeStructure
-- has as many turns as there are levels, and Command.Build.Complete shows that no turn is missing;
-- unwrapHelpTokens has as many as there are tokens, for which Completer.Unwrap shows the same. Every
-- other loop is a recursion on a list or on a number.
--
-- Parameters. The compiler of regular expressions, the hashers of passwords (bcrypt), X25519,
-- SHA-256, HKDF, AES-GCM, HMAC-SHA1 and base32, the decoders of YAML and JSON, path/filepath,
-- time.ParseDuration, the classes of Unicode, strings.ToUpper and the formats of fmt and time are
-- arguments, with what the code relies on as hypotheses. So are the handlers, the keys that a user
-- presses, what is typed at a prompt, random keys and IDs, the user ID that the kernel reports, the
-- addresses of commands in memory, and whether a connection or a file takes what is written.
--
-- Not modelled: reading files and sockets, the operating system, the line editor, the texts of
-- prompts, and the example program, whose handlers stand on top of all this. Not yet: the goroutine
-- of a connection's farewell, the loop that accepts connections, and the login of the host.
pub mod Base
pub mod Tokenize
pub mod Sanitize
pub mod Paging
pub mod I18n
pub mod Completer
pub mod Auditlog
pub mod Config
pub mod Command
pub mod Auth
pub mod Armorchan
pub mod Daemon
