-- ===== src/Lib.antt =====
-- Sveltos addon-controller: a Kubernetes controller that deploys add-ons (helm charts, kustomizations
-- and plain resources) to the clusters that a ClusterProfile or Profile matches. For each matching
-- cluster it keeps a ClusterSummary, and the reconciliation of that ClusterSummary deploys the
-- add-ons. This library models the parts that decide what is deployed where and by whom.
--
-- The parts, and the files that model them:
-- - Api: the resources of api/v1beta1 (Spec, ClusterSummary, FeatureSummary, HelmChart and others), as
--   records with the fields that the modelled code reads or writes.
-- - RefSet: the interface of the set of object references that package libsveltosset provides. The
--   clients take an implementation as a parameter; a list is shown to be one.
-- - ChartManager (controllers/chartmanager/chartmanager.go): the list of ClusterSummaries registered
--   for a helm release in a cluster; the first is the release's manager. Keys has the keys of the
--   maps; Registry and Slices say what each step does to one list; Manager, Cleaning, Rebuild, Queries
--   and Versions follow the exported methods; Invariant is about sequences of calls.
-- - DependencyManager (controllers/dependencymanager/manager.go and sort_v1reference.go): which
--   profiles are deployed to which clusters because profiles that depend on them are. Registering,
--   Removing and Updating follow the steps of UpdateDependencies, Refinement and History compare it
--   with a table of last updates, Marks is about toBeUpdated, Hash about calculateHash.
-- - Provisioned (controllers/utils.go, isCluterSummaryProvisioned): whether a ClusterSummary is done.
-- - RollingUpdate (controllers/profile_utils.go, updateClusterSummaries and what it calls; failed
--   clusters in pkg/scope/clusterprofile.go): the update of the ClusterSummaries of a profile, no more
--   than MaxUpdate clusters at a time. Pass is one pass, MaxUpdate is getMaxUpdate, Bounds and Revising
--   follow the clusters that are being updated.
-- - Features and Deployer (pkg/scope/clustersummary.go and controllers/clustersummary_deployer.go): the
--   summaries of the features of a ClusterSummary, and the handlers that move them when a feature is
--   deployed. Deployer has the tests and updates, Deploying has deployFeature and
--   proceedDeployingFeature; Frame, Counting, Failures and Settled are about what they leave.
--   Undeploying has undeployFeature and processUndeployResult, and Removal is about them. Features.Lookup
--   says what each setter shows.
-- - Transition (controllers/clustersummary_transition.go): a profile that replaces another one, and the
--   teardown that waits for it (Waiting).
-- - Helm (controllers/handlers_helm.go, helm_apply_tracking.go): what is decided about a helm
--   chart. Tracking has the hashes of applied content and the marks of drift; Applying runs them
--   over a history of events (Names, Held, Refinement, Forgetting), in which no event falls between
--   the preparation of a staged chart and its recording. Decisions has shouldInstall,
--   shouldUpgrade, shouldUninstall and deployHelmChart around them, Settled is about them.
--   Ownership has determineChartOwnership and the requeueing of other ClusterSummaries (with
--   requeueClusterSummary of controllers/conflicts.go); Election and Takeover are about it.
--   Uninstalling has canUninstallHelmChart, and Waiting is about it (Profiles: the profiles that it
--   waits for). Walking has deploySingleChart and walkChartsAndDeploy (Loop); Complete and Hidden
--   are about what it goes over and returns. Summaries has buildReferencedHelmReleaseSummaries, and
--   Carried is about what a pass keeps of the one before.
-- - Reconciler (controllers/clustersummary_controller.go): the state that the reconciliation of a
--   ClusterSummary works on, and its cooldown (Cooldown). Gates has areDependenciesDeployed,
--   areDependentsRemoved and canRemoveFinalizer; Deleting has reconcileDelete (Finalizer is about it);
--   Deploying has deploy and proceedDeployingClusterSummary (Backoff is about the delay); Normal has
--   reconcileNormal (Guarded is about it).
-- - Selection (controllers/set_utils.go, selectClusters): the clusters that a Set selects; Bounds is about one
--   pass, Dropping about the next one also.
-- - Licenses (controllers/license_manager.go): registration order and the first clusters of it.
-- - Examples: resources for examples, and the theorems at concrete inputs.
--
-- How the parts interact: Reconciler runs the features through Deployer and reads the gates of
-- Transition and Provisioned; Deployer calls a handler per feature, of which Helm models the decisions;
-- Helm takes and hands over the manager role that ChartManager keeps; RollingUpdate creates and updates
-- the ClusterSummaries, after which the Reconciler acts, and DependencyManager says which profiles are
-- deployed because another one needs them.
--
-- How the code is read: a method that changes its receiver returns the new record; a mutex makes a
-- method one step; a Go map is an association list, and a range over it goes in the order of the
-- list, one of those that Go may take; strings are lists of bytes; an empty list is nil as well; a
-- hash that may be nil is an Option; logs, metrics and events are left out. A read of the API server
-- and the result of a patch are parameters (World in RollingUpdate, Transition, Helm.Ownership,
-- Helm.Summaries and the Reconciler, and in Helm.Walking, there with the answers of handleChart;
-- Answers in Deployer; Listing in Helm.Uninstalling), and so are rendering and hashing in
-- DependencyManager.Hash, the comparison of semantic versions in Helm.Decisions, the comparison of
-- tiers in Helm.Ownership, and the factor that the random generator gives in Reconciler.Deploying. The
-- handler of pull mode is an argument of the Deployer's functions. Times are seconds, counted by
-- natural numbers, as are the other counters: the bound of a machine word is left out. Every loop is a
-- recursion on the list that it ranges over, so that no fuel is needed.
--
-- Not modelled: the calls of helm, kustomize and clusters that the handlers make; the handlers of
-- kustomize and plain resources; the watchers, templates and Lua; the agent for drift detection and
-- its reports, but for the marks on helm releases; cluster promotions, health checks, and the
-- reconcilers of profiles around the functions above. They are calls of APIs and libraries for the
-- most part.
pub mod Common
pub mod Api
pub mod RefSet
pub mod ChartManager
pub mod DependencyManager
pub mod Provisioned
pub mod RollingUpdate
pub mod Features
pub mod Deployer
pub mod Transition
pub mod Selection
pub mod Licenses
pub mod Helm
pub mod Reconciler
pub mod Examples
