-- ===== src/Lib.antt =====
-- kvisor: an agent that watches a Kubernetes cluster, reports its objects to CAST AI and schedules
-- scans of its images and checks of its nodes and objects.
--
-- The parts. kube/controller.go runs the informers, keeps an index of ReplicaSets, Deployments and
-- Jobs, and hands every event to its subscribers. delta/ is the subscriber that collects the
-- changes and sends them to the server. imagescan/ is the subscriber that keeps the images and the
-- resources of nodes. Both ask the kube controller for the owner of a pod. linters/ holds two more
-- subscribers; policy/ is a webhook that uses the linter.
--
-- Base: names of the library, Go maps as association lists (`Base.Maps`), integers over the native
-- numbers (`Base.Int`), lists and texts.
-- Kube: `Kube.Object` has the fields of the Kubernetes objects that the code reads; `Kube.Index` is
-- `handleEvent` with `handleDeltaUpsert` and `handleDeltaDelete`; `Kube.Owners` is `GetPodOwnerID`
-- and `GetKvisorImageDetails`; `Kube.Dispatch` is the goroutine of `eventsHandler`;
-- `Kube.Informers` is `NewController`, `RequiredInformers` and `runSubscriber`; `Kube.Transform` is
-- `addObjectMeta`.
-- Delta: `Delta.Item` and `Delta.Collect` are delta/delta.go and delta/snapshot.go;
-- `Delta.Controller` is delta/controller.go, with `sendDelta` in two halves, since the lock is
-- released while it sends.
-- ImageScan: `ImageScan.State` and its children are the state of imagescan/delta.go and the
-- informer events that change it; `ImageScan.Runtime` is `getContainerRuntime`; `ImageScan.Select`
-- is `findBestNode` and `findBestNodeAndMode`; `ImageScan.Schedule` is the choice of the images of
-- a round and what the end of a scan changes, each end a step of its own; `ImageScan.Report` is
-- `updateImageStatuses` and `syncFromRemoteState` of imagescan/controller.go; `ImageScan.Run` is
-- its `Run` as a step relation, in which events, ticks, ends and panics of scans and the end of the
-- context come in any order; `ImageScan.Http` is imagescan/http_handler.go, up to its templates;
-- `ImageScan.Collector` is `getImage` and `findRegistryAuth` of
-- cmd/kvisor/imgcollector/collector/collector.go, which run in the job of a scan; `ImageScan.Jobs`
-- is imagescan/scanner.go and imagescan/errors.go: the job of one scan, the calls to the cluster,
-- the wait, the clean-up and what the log of a failed job says of the image.
-- Linter: `Linter.Lint` is linters/kubelinter/ (delta.go, controller.go), with the events that
-- arrive during a round; `Linter.Bench` is linters/kubebench/ (delta.go, controller.go), with the
-- answers of the cluster to the scan of a node as arguments and the LRU cache as an interface
-- (`Lru`), and `Linter.Specs` the jobs of linters/kubebench/spec/, with the one that
-- `createKubebenchJob` creates and the polls of the cluster; `Linter.RuleSet` is
-- castai/linter_types.go and `Linter.Run` is linters/kubelinter/kubelinter.go; `Linter.Custom` is
-- linters/kubelinter/customchecks/.
-- Policy is policy/ (enforcer.go, filter.go), which asks the linter about the object of a request.
-- Config is `Load` of config/config.go. Client is castai/client.go: `sendReport` and the reading of
-- responses. BlobsCache is blobscache/ (server.go, client.go, types.go).
-- Agent: `Agent.Features` is castai/telemetry/config.go, `Agent.Manager` is
-- castai/telemetry/manager.go with the observers, and `Agent.Cleanup` is `cleanupJobs` of
-- jobsgc/jobsgc.go.
-- Cloud: `Cloud` has the checks and the report that cloudscan/gke and cloudscan/eks share;
-- `Cloud.Gke` is the configuration of a GKE cluster, its checks (checks.go) in `Pools`, `Settings`
-- and `Access`, and the scan and the name of the cluster (scanner.go) in `Scan` and `Name`;
-- `Cloud.Eks` is cloudscan/eks/.
-- Samples: a small cluster and the runs of the code on it.
--
-- A Go map is an association list; the model's order of visits is the order of the list. A struct
-- behind a pointer that only one map holds is the map's value. Times are numbers, with 0 for the
-- zero time; CPU and memory amounts are integers of a common scale. Parameters stand for what is
-- outside the repository: label selectors (`selects`), `json.Marshal` (`Outside`), `sort.Slice`
-- (`sort_slice`), `Backoff.Step` (`step`), the clock (`now`), the poll loop of apimachinery
-- (`poll`, with `PollLaws`), `strings.ToLower` (`to_lower`), `resource.MustParse`, the backoff of
-- apimachinery (`retry`), JSON, the checks of kube-linter and the answers of the API client. Every
-- loop is a structural recursion, so that no fuel is needed; the rounds of scans are counted, and
-- as many rounds as there are pending images are enough.
--
-- Not modelled: the registry of kube-linter and its checks, the compression of reports, the HTML
-- templates of imagescan/, the timer loop of jobsgc/, the tokens of cloudscan/gke/token.go and the
-- wiring of cmd/. The copy of kube-bench in cmd/kvisor/kubebench is another project's code.
pub mod Base
pub mod Kube
pub mod Delta
pub mod ImageScan
pub mod Linter
pub mod Policy
pub mod Config
pub mod Client
pub mod BlobsCache
pub mod Agent
pub mod Cloud
pub mod Samples
