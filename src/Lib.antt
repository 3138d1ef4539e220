-- ===== src/Lib.antt =====
-- go-patroni: a Go SDK and command line for Patroni clusters. The program reads the state of a
-- PostgreSQL cluster from a DCS (etcd), talks to Patroni's REST API, and carries out operations in
-- two steps: a plan is prepared from a fresh snapshot and shown to the user, then executed after a
-- second snapshot confirms what the plan states.
--
-- Parts and files (paths from the repository's root):
--   Base, Texts     shared helpers; a Go string is the list of its bytes. Texts holds the functions
--                   of the packages strings, strconv and net/url that the source uses.
--   Target          model/target.go: Target, Normalize, NormalizeNamespace, Validate, ClusterID,
--                   MemberID, ParseTargetID.
--   Version         model/version.go: ParseVersion, Compare (Version/Precedence), VersionRange and
--                   CheckPatroniVersion (Version/Range).
--   Catalog         catalog.go: the feature catalogue and SupportsFeature.
--   Dcs             dcs/types.go: the decoded cluster state and ClassifyRelativePath; dcs/path.go
--                   (Dcs/Keys). Dcs/Values holds JSON values and the Boolean readings of
--                   control/read.go.
--   Control         control/: Types and Errors (errors.go, classifyReadError, classifyHTTPStatus),
--                   Plans (plan.go), Outcomes (result.go), Platform (what the standard library
--                   gives), Service (service.go), Reports (evidence and failed reads of read.go),
--                   VersionGate (version_gate.go), and Doubts, a specification: which of the calls
--                   made were left in doubt, by their answers.
--   Control.Groups  control/citus.go: the snapshots of an operation, with the groups of a Citus
--                   cluster; the coordinator (Coordinator).
--   Control.Writes  writes to single members: MemberWriteResult and Validate of write_types.go, the
--                   classification of Patroni's answers (Responses), roles and selection (Members),
--                   several members as one result (Batches).
--   Control.Pause   control/pause.go: the request and the results (Pause), the plan (Contract,
--                   Preparation), the patches (Sending), the convergence loop (Readbacks), Execution,
--                   and PauseData.Validate (Validity). Proofs only: Costs (patches and waits),
--                   Settlement (calls in doubt).
--   Control.Reload  control/reload.go: Contract, Resolution (the planned members found again),
--                   Execution.
--   Control.Restart control/restart.go: the request (Restart), the plan (Contract, Preparation), schedules
--                   and their verification (Schedule, Scheduled), single members (Sending),
--                   Execution.
--   Control.Transition   control/failover.go: Intents (requests), Selections (resolveTransition),
--                   Contract (plans and their checks), Rest (callTransitionREST), Fallback (checks
--                   and verification), Recovery (executeTransitionFallback), Results, Preparation
--                   and Execution (the exported operations). Proofs only: Soundness, Spending,
--                   Settlement (calls in doubt) and Silence (the latest answer's status).
--
-- State and dependencies. A Service holds the injected dependencies: the snapshot reader, the Patroni
-- client, the DCS writer, the discovery, the clock, the context, the wait and the sources of ids and
-- random indices. They are parameters: each answers by any function of the calls made so far, so a
-- theorem for every Service covers every interleaving with changes of the cluster. Code that calls
-- them is a function from the trace of calls to a result and a longer trace. A Go error is what
-- errors.Is and errors.As find in its chain. A type `Option` stands for a pointer that may be nil; no
-- theorem depends on aliasing.
--
-- Parameters of the standard library are the fields of Platform: time formatting and parsing,
-- strings.EqualFold, strings.ToLower, fmt.Sprint of a float, strconv.ParseFloat, time.ParseDuration,
-- json.Unmarshal of a scheduled restart, url.Parse and URL.String, json.Marshal. One theorem group
-- assumes (`Marshals`) that json.Marshal of a map of strings to strings gives no error, as its
-- documentation has it.
--
-- Bounds. The verification loops recurse on their number of attempts, the loops over members on the
-- list, the version and text functions on their input. Only Itoa runs on fuel: n + 1 rounds for n,
-- enough since each round divides by ten. Integers that the program only compares and prints are exact
-- integers; Atoi keeps its 64-bit range.
--
-- Not modelled: the wording of errors (error values are constructors or `plain`), printing, flush,
-- reinitialize and the configuration operations, the decoder of DCS entries, the etcd and HTTP
-- clients, configuration, PostgreSQL access, the command line, generators and schemas.
pub mod Base
pub mod Texts
pub mod Target
pub mod Version
pub mod Catalog
pub mod Control
pub mod Dcs
