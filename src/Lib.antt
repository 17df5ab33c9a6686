-- ===== src/Lib.antt =====
-- kubeconfig-operator: a Kubernetes operator that turns a custom resource, the Kubeconfig, into a
-- client certificate, a kubeconfig file with it, and a cluster role binding for its user.
--
-- The parts of the program and the files that model them:
-- - api/v1alpha1/kubeconfig_types.go, conditions.go and controllers/phases: the custom resource, its
--   condition types and its phases. Api/Types.antt and Api/Conditions.antt, struct by struct.
-- - api/v1alpha1/kubeconfig_webhook.go: `Default` and the three `Validate` functions.
--   Api/Webhook.antt; Api/Equality.antt is `reflect.DeepEqual` at the two types it is used at.
-- - controllers/kubeconfig_controller.go: `Reconcile`, which reads the Kubeconfig, reads or creates
--   its secret, reads or creates its signing request with a fresh key, waits for the approval, stores
--   the certificate and the file, and binds the user to its role. Controllers/Kubeconfig.antt, with
--   its first part in Kubeconfig/Objects.antt (`load`, `user_secret`), its middle in Kubeconfig/Request.antt
--   (`find_csr`), and its end in Kubeconfig/Finish.antt (`check_approval`, `issue`).
-- - controllers/csr_controller.go: `Reconcile` and `ApproveCSR`, which approve the requests that the
--   first controller annotates. Controllers/Csr.antt.
-- - controllers/utils.go: keys, certificate requests, labels and the test for a final state.
--   Controllers/Keys.antt (`getCertApprovalCondition` is in Controllers/Csr.antt).
-- - controllers/resources.go and client_cert.go: the objects that are created, and the kubeconfig
--   file. Controllers/Resources.antt.
-- - pkg/kubeconfig/types.go: the file's format. Config.antt.
-- - pkg/utils/cluster_endpoint.go: the default server. Utils.antt.
-- - main.go and api/v1alpha1/groupversion_info.go, with `SetupWithManager` of both controllers and
--   `SetupWebhookWithManager`: the types of the scheme and the start of the process, as the calls into
--   controller-runtime. Program.antt, with the order of the calls in Program/Order.antt and what each of them
--   relies on in Program/Readiness.antt.
-- - api/v1alpha1/zz_generated.deepcopy.go: `DeepCopyInto`, `DeepCopy` and `DeepCopyObject` of each struct,
--   that of object_reference_types.go included. Api/Memory.antt has the structs as they lie in memory,
--   with their pointers, and Api/DeepCopy.antt the functions.
-- K8s.antt holds the Kubernetes object types with the fields that the code uses.
--
-- State and effects. A handler is a function on a `World` (Effects.antt): the state of everything
-- outside, and the list of the requests sent so far with their answers and of the recorded events,
-- newest first. It ends a statement with a value, by `return` with a result and an error, or by a
-- panic: a nil pointer that is followed (`deref`) or a nil map that is written (`put_content`).
-- The controllers share no memory: they interact through the API server alone, the first one by
-- an annotation on the request that the second one looks for. System.antt has the steps of a cluster, runs
-- of both, of the webhook and changes by others, and System/Interleaving.antt lets any number of them
-- go on at the same time, each access to the outside by itself, some cut off.
-- Three vocabularies for the requests of a run say what they rest on (Controllers/Safety.antt), what its
-- writes leave as it was (Controllers/Frames.antt) and which failures it reports (Controllers/Errors.antt);
-- Controllers/Csr/Answers.antt lists the cases of a run of the second controller.
--
-- The life of one Kubeconfig. Lifecycle/Stages.antt is a small machine of stages, read off the two
-- objects that the API server keeps under a name, with the moves of the operator and those of
-- administrators and the signer. Lifecycle/Server.antt is what an API server promises of these two
-- objects, stated for any server with a view of them. The other files of Lifecycle follow the
-- handlers part by part and relate them to the machine; Lifecycle/Progress does so for a server
-- that hinders nothing (`Cooperates`). Tests/Names.antt and Tests/Cooperation.antt are a cluster in
-- memory that keeps these promises.
--
-- Outside the repository. Platform.antt is a record of the functions that the code calls and does
-- not contain: the API server, the clock, the random source, key marshalling, X.509, PEM, base64,
-- YAML, and the helpers of the API machinery for conditions, owners and errors. What is relied on
-- of them is stated as hypotheses, in Platform/Laws.antt, `KeysWork`, `IsSound`, `Accepts`,
-- `HasRangeLaws` and `Submits`; Tests/Cluster.antt is a cluster in memory that satisfies them (Tests/Laws.antt).
--
-- Outside Api/Memory.antt and Api/DeepCopy.antt the objects are values without pointers: a handler
-- holds deep copies of what the client library keeps. Api/DeepCopy/Independence.antt is about what such a
-- copy shares with its original.
--
-- There is no fuel: all loops go over lists, and a handler has no loop around its requests.
--
-- Not modelled: log lines; the parsing of the command line; the test suites. Where Lifecycle follows
-- the stages, a handler runs as one step and no read is stale, though main.go turns the cache off for
-- Kubeconfigs only. Byte slices are texts. Errors that the code drops with `_`
-- are not told from success, but a marshaller may panic. A slice is the array that it spans: no code
-- of the repository cuts one out of another.
mod Base
pub mod K8s
pub mod Api
pub mod Config
pub mod Platform
pub mod Effects
pub mod Utils
pub mod Controllers
pub mod System
pub mod Lifecycle
pub mod Program
mod Tests
