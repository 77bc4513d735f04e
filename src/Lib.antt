-- ===== src/Lib.antt =====
-- Quorum-based governance of Kubernetes manifests: an operator's change to the manifests in Git
-- becomes a ManifestSigningRequest (MSR), the governors sign it, and once the approval rule of the
-- ManifestRequestTemplate (MRT) is fulfilled by their signatures it becomes a
-- ManifestChangeApproval (MCA), whose controller moves the Argo CD Application to the approved
-- commit.
--
-- Dto models pkg/api/dto and Api models kubernetes/api/v1alpha1, with Api.Approval for the MCA and
-- Api.Template for the MRT and the Argo CD Application. Converter models
-- kubernetes/api/v1alpha1/converter, which turns the cluster's form of a rule into the one that is
-- evaluated. A Go struct is a record with the same fields, a string type with constants is a data
-- type with one more constructor for any other text, a nil pointer is none, and a map is an
-- association list.
--
-- Validation models EvaluateRules of pkg/validation/governor.go with the functions under it.
-- Signers models VerifySignature of pkg/validation/common.go and GetVerifiedSigners of
-- pkg/validation/msr/governor.go. ChangedFiles models VerifyChangedFiles of
-- pkg/validation/msr/msr.go. These three are what a controller and a governor's tool ask before a
-- change counts as approved. RuleWebhook models the check of the approval rule in
-- kubernetes/internal/webhook/v1alpha1/manifestrequesttemplate_webhook.go, which decides what
-- rules EvaluateRules can meet; the theorems under it join the two through Converter.
--
-- Controller is what the controllers of kubernetes/internal/controller share, for an object and
-- the client that reads and writes it (Host): the calls, the lock in the object's condition
-- Progressing (Lock: acquireLock, the releases, withLock and the locks of the sub-states) and the
-- calls of a Git repository (Git: repository_timeout.go). A handler is a function from the state
-- of a run to a result or an error with the state after it (Exec), so that what was changed before
-- an error stays changed. A run has the effects that it attempted on other systems, with what the
-- lock was then, which the code does not read; Triples, Keeps and Discipline are the logic of it.
-- Kube is the interface of the Kubernetes helper functions on finalizers and conditions.
--
-- Approval models kubernetes/internal/controller/manifestchangeapproval_controller.go: World is
-- the interface of the cluster, the repository, the notifier and the clock; Save is what is pushed
-- to Git and recorded; Create is reconcileCreate with its five handlers; Normal is the rest of
-- Reconcile. Signing models kubernetes/internal/controller/manifestsigningrequest_controller.go in
-- the same way, with NewSpec for the reconciliation of a new version and Fulfillment for the check
-- of the signatures and the update of the MCA that an approval brings; Api.Signing has its types.
-- Discipline in each proves what is done under the lock; Signing.Approved is about the check, with
-- the theorems on Signers and Validation, and Signing.Marked about the write that it decides.
--
-- Template models kubernetes/internal/controller/manifestrequesttemplate_controller.go: Paths and
-- Compare are what it uses of paths and compares (ValidateImmutableFields, hasNoNewUpdates,
-- filterNonManifestFiles), Texts what the tests on prefixes and suffixes mean, DeepEqual the proof
-- that specifications that compare as the same are equal, Build the objects it makes, Queue the
-- functions of governancequeue_controller.go that it calls, Locking its own variant of the lock,
-- Create the initialization, Revision the work on one revision and Normal the rest of Reconcile
-- with the deletion. Queue models the Reconcile of
-- kubernetes/internal/controller/governancequeue_controller.go. Api.Governance has the types of
-- queues and events. The controllers meet in the cluster: the MRT controller writes the request
-- (updated_msr), the MSR controller writes the approval (updated_mca), the MCA controller moves
-- the Application.
--
-- Admission models kubernetes/internal/webhook/v1alpha1/argocdchangeadmission_webhook.go, which
-- stands between Argo CD and the cluster: it finds the Application of a request, the MRT that
-- governs it and the MCA of that MRT, and compares the revision with the approved one. Its map of
-- initialization revisions is passed from request to request (serve).
--
-- Webhooks models the validating webhooks of kubernetes/internal/webhook/v1alpha1: GitUrl and
-- Template are manifestrequesttemplate_webhook.go beside its check of the rule (Default,
-- ValidateCreate, ValidateUpdate, SameGitRepository), Requests is
-- manifestsigningrequest_webhook.go and manifestchangeapproval_webhook.go.
--
-- Repository models kubernetes/internal/repository/base.go with the three factories beside it
-- (github, gitlab and bitbucket/repository.go): World is the state of a provider (BaseGitProvider)
-- and what it calls, Sync the methods that read, Fetch FetchMSRByVersion, Keys getPGPEntity, Push
-- and GovernorSignature the methods that write, Folders the names of folders, Files and Changes
-- the listing of changed files. A provider has two parts that the code does not read: the log of
-- what was done to its clone, and a mark that the run has blocked on its own mutex, has unlocked
-- it while it was free, or has panicked. Keeps, Mutex and Rollback prove what each part of a
-- method keeps of the mutex and of the log; Reading and Pushes put it together. Manager models
-- kubernetes/internal/repository/manager.go, which hands out a provider for a template from its
-- cache; time is in seconds.
--
-- Cli models what cli/internal/repository/base.go reads of Git: Changes the listing of changed
-- files that a governor's tool compares with the request, Folders the folders of the versions and
-- the one that GetLatestMSR takes. The operator and the tool meet in the repository: Cli.Agreement
-- and Cli.Verdict compare the two listings, Cli.Versions the names of the folders that one writes
-- and the other reads.
--
-- Interfaces and hypotheses: OpenPgp (go-crypto), the SHA-256 function, World (one for each
-- controller), Kube, Git (go-git, the operating system, go-crypto and the YAML package, as a
-- provider calls them), Trees (what both listings read of Git), Services (the cluster, the disk
-- and the SSH library, as the manager calls them) and Urls (the parser of URLs and two functions
-- on Unicode text) are parameters. The theorem on the methods that write asks that a key ring
-- which is read without an error has a key (HasEntities), as the code does. The theorems on the
-- controllers use HostLaws: a condition that has been set reads as it was set (KubeLaws), a
-- successful status update answers with the conditions that were sent, and the conditions that are
-- written to an object are those it has. The theorem on the stored queue uses that a successful
-- patch stores what it was sent (Stores). The orders in which Go ranges over the maps of keys and
-- of signers are parameters too, of which some theorems ask that they yield the map's entries.
--
-- Every loop of the modelled code is a recursion on a list or on a rule, and needs no fuel. The
-- decimal digits of a version have fuel, one more than the number, which is more than its digits.
-- Integers are Go's int: the code counts list elements and compares versions and thresholds, which
-- needs no bound; the one addition, of one to a version, wraps at 64 bits; and where the tool
-- reads a version from the name of a folder, a number beyond the largest int becomes that one, as
-- in strconv.Atoi. A pointer to a PGP key that is nil, which the cluster does not admit, is
-- outside the model.
--
-- Not modelled: logging, messages for people that no code reads (the drawing of the rule tree, the
-- sorted lists of files), the 30-second timeout of Git calls, the mapping functions of watches,
-- the notifier, kubernetes/cmd/main.go, and of the command line tool its reading of requests and
-- approvals, its pushes, its configuration and its output. The mutex of the manager is left out,
-- as both methods that touch its caches hold it throughout.
pub mod Common
pub mod Dto
pub mod Api
pub mod Converter
pub mod Validation
pub mod RuleWebhook
pub mod Signers
pub mod ChangedFiles
pub mod Kube
pub mod Exec
pub mod Controller
pub mod Approval
pub mod Signing
pub mod Template
pub mod Queue
pub mod Admission
pub mod Webhooks
pub mod Repository
pub mod Manager
pub mod Cli
pub mod Tests
