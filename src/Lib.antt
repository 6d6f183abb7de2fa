-- ===== src/Lib.antt =====
-- swarmcli-cd is a GitOps controller for Docker Swarm: it reads a set of applications, keeps each one
-- reconciled with its repository, reports their health, and takes away what applications that left
-- the set have left behind. This library models the parts that decide, and shows what they decide.
--
-- The program's parts and the files that model them:
--
-- * application/owner.go, the stamp that ties a release to a controller and an application, and the
--   rule on names that would share a scope: Owner, with Owner/Stamp and Owner/Scope.
--   `OwnerID` is `owner_id`, `AppFromOwnerID` is `app_from_owner_id`, `ReleasesCollide` is
--   `releases_collide`.
-- * application/application.go and application/enum.go, the data: Application. Fields that no modelled
--   code reads are left out.
-- * config/config.go, the applications file: Config/Paths (`repoPath`), Config/Check
--   (`validateApplication` and what it calls, each rule a check that returns its first error),
--   Config/Set (`applyDefaults`, `validate`, `Parse`). Messages are constructors, without the index in
--   a list that some carry. The YAML decoder is the record `Yaml`.
-- * appset/appset.go, the last good set: AppSet/Loader (`Load`, the two readers, `readContained`). The
--   fetcher and the file at a path, with the containment check of source/source.go before it, answer
--   from outside, and the digest is any function.
-- * appset/loop.go, which brings the running set to the declared one: AppSet/Diff (`diff`) and
--   AppSet/Loop (`apply`, `pruneDeparted`, `reclaimDeparted`, `Once`). The reconciler, the pruner, the
--   sweeper and the credentials are the record `World` over a state of their own, so every call that
--   may change it is made in the order of the code.
-- * prune/prune.go, the sweep: Prune/Rule (`Owner`, `departed`, `Undeclared`, `Claim`), Prune/Calls
--   (the calls that leave the program), Prune/Volumes (`purgeVolumes` and below), Prune/Sweep
--   (`Release`, `uninstall`, `stillListed`, `Departing`, `Departed`). Each call is an event of a trace,
--   the newest first, and the answer to it is any function of the trace: nothing is supposed of the
--   daemon, of the chart engine or of the order in which they fail.
-- * reclaim/reclaim.go, the sweep of caches on disk: Reclaim. The candidates that one sweep returns
--   are the `absent` of the next one.
-- * health/health.go, the rollup of health: Health. The chart engine's judgement of a service is the
--   record `Engine`.
-- * reconcile/entry.go and reconcile/reconcile.go: Reconcile/Membership (`Add`, `Remove`, `Draining`
--   and the lease of an entry, as a step relation, since goroutines interleave), Reconcile/Backoff
--   (`backoff`), Reconcile/Hold (`noteFailure`, `setUnstable`, `checkReproducible`, `Replace`),
--   Reconcile/Installs (`checkCompat`, `unsettled`, `claimInstalls`, `waveGroups`).
--   Reconcile/Converge is `converge`, with `awaitConverged` and `awaitSettled`: the redeploy of drifted
--   releases wave by wave, as a trace of deploys, reads, looks at the clock and waits.
--   Reconcile/Doomed is the resource prune's `departed`: which live objects a sweep may delete, from the
--   plan, the running services, the live objects and the stored revisions. Reconcile/Pruned is
--   `pruneServices` and `pruneResources`, which delete them and count the failures per release and
--   object.
-- * backend/, the side of the Docker daemon: Backend holds the data as the deploy reads it and the
--   labels, and its modules are
--   Backend/Records, which configs hold release records (`isReleaseRecord`, `releaseConfigNames`);
--   Backend/Gate, what a manifest may name (`rejectForbiddenResources` and what it calls);
--   Backend/Collision, whether another release shares a name's scope (`rejectRecordedCollision`, with
--   `rejectOwnNamespace` and its like);
--   Backend/Self, whether a release would replace the controller by less than it is
--   (`rejectSelfLoss`, `checkSelfVersion`, `checkAppSetSource`);
--   Backend/Mounts, what the controller mounts itself (`readSelfMounts`, `mounts`);
--   Backend/Deploy, the deploy of a stack (`DeployStack`, `applyNetworks`, `applySecrets`,
--   `applyConfigs`, `ApplyServices`, `updateService`), as a trace of the writes;
--   Backend/Remove, the removal of a stack (`RemoveStack`, `stackRemains`).
--   What the daemon answers, what the conversion of a manifest makes of it, and how an image name is
--   normalised or its version read come from outside, as records of functions. Within one run of a
--   guard, a read is a function of the name asked. compose/image.go's `SameImage` stands with
--   Backend/Self.
-- * drift/drift.go, what a plan says of the sync: Drift (`FromPlan`, `Diffs`).
--
-- How they meet: the loop of AppSet/Loop asks Config for the set, drives the reconciler of
-- Reconcile/Membership, and asks `Draining` before it lets Prune/Sweep delete anything; Reclaim runs at
-- the end of a pass. Owner decides in Prune/Rule whose a release is, and in Backend/Collision which
-- names collide. The sweep of Prune/Sweep takes a stack down by the removal of Backend/Remove, and a
-- reconcile deploys by Backend/Deploy before Reconcile/Pruned deletes what the release has left.
--
-- Base holds what they share: texts as lists of code points, tests on them with the lemmas that say
-- what they decide, membership, and results.
--
-- Bounds. The retry loop of a volume's removal runs on `settle_rounds` = 17 rounds of fuel: 16 waits
-- of 2 s pass the deadline of 30 s, as Prune/Volumes/Settle shows. An update of a service has the
-- three rounds of the code's own constant. The wait for corrected releases has two rounds more than
-- intervals that fit its timeout, which Reconcile/Converge/Ends shows to be enough. `backoff` shifts
-- on 64 bits, with the wrap written out. All other functions recur on their data.
--
-- Not modelled: the HTTP API, the web UI, the clients, the wiring of controller/ and the registries of
-- interfaces, which are I/O or glue; the daemon's logs, nodes and reports in backend/, its warnings and
-- registry credentials; the chart engine, YAML, git and the conversion of compose files by docker/cli,
-- which are libraries; of reconcile/ the body of a sync that composes the steps modelled, and what it
-- reports; drift/live.go and source/. Panics and what recovers from them are left out throughout, and
-- so are log lines, but for the warnings of the sweep that say what was deleted.
pub mod Base
pub mod Owner
pub mod Prune
pub mod Application
pub mod Health
pub mod AppSet
pub mod Reclaim
pub mod Config
pub mod Reconcile
pub mod Drift
pub mod Backend
pub mod Tests
