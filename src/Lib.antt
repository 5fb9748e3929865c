-- ===== src/Lib.antt =====
-- A model of podlaz, a command-line VPN client for Linux, with the properties that make its
-- privileged daemon safe to restart, replace and interrupt.
--
-- The unprivileged CLI talks to the daemon `podlazd`. The daemon keeps one Network Session at a
-- time: a durable record of what the user asked for and of the Privacy Envelope that protects the
-- session (Session). Requests reach it through a local interface (Api). Its private files are
-- replaced atomically (Files). The profiles that a session can use are in a store of the user
-- (Profile), in a file that is written like every other JSON file (StoreJson); subscriptions fill it
-- (Subscription). Before a change of the host the daemon writes a transaction, which carries what a
-- rollback needs (Transaction). A new TUN session takes resources that are free on the host
-- (Planner), and the diagnostics of a session end in one verdict (Diag). After a crash the recovery
-- undoes what the transactions that are left over authorize (Recovery). A lock orders the requests,
-- the automatic repairs and the read-only checks of a session (Lock).
--
--   Common       shared names; Go strings as lists of code points, errors as values, IPv4 texts
--   Files        internal/daemon/network_session_continuation.go: atomicWritePrivateFile
--   Api          internal/api/lifecycle.go: ConnectRequest, handoff policies, validation
--   Session      internal/daemon/network_session_state.go, network_session_continuation.go:
--                Model is the record, Protection and Validation its checks, Io the file, Plan the
--                change that each operation makes, Store the operations. Integrity and Durability
--                prove what a run does to the file, children of Plan what a change does.
--   Transaction  internal/state/transaction.go: Model is the record, Lifecycle its states and
--                `Transition`, Secrets the guard against persisted secrets, Validation the check
--                of a record (the JSON package is a parameter), Journal the directory with Save,
--                Load, Transition and the scan; Paths proves what sequences of requests can do,
--                the children of Journal what is left of the directory and what a scan reports
--   Planner      internal/network/planner/tun_resources.go: Evidence is what is read of the host,
--                Search the bounded loops, Allocation `AllocateTunResources`; Freedom
--                proves what is allocated, Failure what an error means
--   Diag         internal/tundiag/model.go, classifier.go: Model and Names are the report, Quorum
--                what is derived from the probes, Verdict `Finalize`, Soundness its proofs
--   Lock         internal/daemon/lifecycle_operation_lock.go: Core is the lock, System the
--                goroutines that use it and their interleavings, Safety their proofs
--   Recovery     internal/recovery: Text is what it uses of Go's libraries, Model the candidates, the
--                results and the host, Owners and Counters the tests of owners and the multisets,
--                Keys, Raw and Metadata desired_plan_rollback.go and rollback_raw_validation.go,
--                Nftables nftables_exact_rollback.go, Deletes and Phases the loops over the entries,
--                Links the gate of the link, Cleanup and Legacy daemon_executor.go, Allocation and
--                Allocated network_session_cleanup_executor.go, Dispatch `CleanupMany` and the order
--                of the candidates. Authority says which calls are authorized, for allocated resources
--                with Exact; Keeping, Steps, Loops, Runs and SessionRuns prove of every call of a run what its entries grant; Safety,
--                Conclusions, Order and, on Numbers, Rules are the properties
--   StoreJson    internal/storejson/write.go: WriteFile and SyncDir
--   Profile      internal/profile: Model is profile.go, Validation `Validate`, Selector the selectors
--                and `resolveProfile`, Changes what each operation of store.go and
--                subscription_delete.go makes of the loaded state, Host the parameters, Store the
--                operations on the file, with the lock of store_mutation_lock_linux.go. Integrity
--                proves what sequences of operations keep, Refinement that the file is an abstract
--                store, Accounting what an update reports, Resolution what a selector means,
--                Outcomes what a success leaves. DisplayName is display_name.go and NormalizeID,
--                and its child Duplicates is `DeduplicateDisplayNames`, with Suffixes and Marks
--   Subscription internal/sub: Model is source_model.go and source_validation.go, Store is store.go
--                and store_delete.go, Home the user's two files, Workflow source_workflow.go, over
--                both stores, Deletion the command of internal/app/cli/subscription_delete_cli.go.
--                Refinement proves what the store's operations do to its file, Rollback and Linking
--                what a failed and a successful import or update leave, and the child of Deletion
--                what a failed deletion leaves
--   Tests        runs of the model and the properties at concrete inputs
--
-- How the source is read. A string is a list of code points. A named string type of the source
-- with constants is a data type with one more constructor for every other text, or in Diag the
-- text itself. A returned error is a value; its text is not modelled, its kind is. A call of the
-- operating system may fail: `fails` says of each call of a run, by its number, whether it does,
-- and the properties hold for every such function. A file is what the decoder makes of its bytes,
-- a transaction's the document that the encoder gave; one that is published before its temporary
-- file is private, written, synced and closed is torn. A mutex, or the lock of a store, makes an
-- operation one step; the store of the subscriptions has no lock, and its properties are about one
-- process. Records are values, so the deep copies of the source are the identity. In Lock a
-- section under the mutex is one step of one goroutine, and any goroutine may go next. In Recovery
-- the host answers a call with any function of the calls made before it. A negative int is not
-- represented. The loops of the source are structural, and its bounded searches have their bound
-- as an argument. Two functions have a fuel: `itoa` has 20 digits, which Recovery/Numbers shows to
-- be enough for every int, and the search for a free suffix has one turn more than there are names
-- that are taken, which Suffixes shows to be enough. The JSON package, the package that parses
-- URLs, the change of letters to lower case, what a torn file holds, and what the workflow of a
-- subscription fetches and parses are parameters.
--
-- Not modelled: the HTTP server and most of the command line, child processes, the executors of the
-- commands that change the host (in Recovery they are calls) and the parsers of their output, the
-- decoders of profile links and of subscriptions, and the masking of texts.
pub mod Common
pub mod Files
pub mod StoreJson
pub mod Profile
pub mod Subscription
pub mod Api
pub mod Session
pub mod Transaction
pub mod Planner
pub mod Diag
pub mod Lock
pub mod Recovery
mod Tests
