-- ===== src/Lib.antt =====
-- The Gerrit operator: its controllers, the Gerrit service, the platform and the Gerrit client.
--
-- The operator watches custom resources and reconciles each with a Gerrit server. A controller
-- (controllers/) reads its resource, makes sure that it has an owner (controllers/helper/helper.go),
-- asks the Gerrit service (pkg/service/gerrit/gerrit.go) for a client, makes requests by that client
-- (pkg/client/gerrit/), and writes the status of the resource. The service reads and writes objects
-- of the cluster by the platform (pkg/service/platform/k8s/k8s.go, and openshift/openshift.go on
-- OpenShift). The controller for merge requests works on clones by the git client
-- (pkg/client/git/client.go). main.go starts the controllers one after the other.
--
-- How code is modelled. Code that makes calls is a function from a world to an outcome and the world
-- after it (Exec). A world (World) has the calls made so far, newest first, the resource that the
-- code holds by a pointer, and the two clients that the Gerrit client holds. The REST client is resty's
-- process-wide default client, whose host and credentials are set by a call, by every controller's
-- service alike; a request goes wherever it was pointed last. An outcome (Errors) is a
-- value, an error or a panic; an error keeps its chain of wrapped messages, formats and arguments
-- apart. An answer of the other side is a function of the calls made so far (World.Env), so that the
-- cluster and the server may change between two calls; the functions of libraries (JSON, URL
-- escaping, templates, regular expressions, cryptography, git, SSH) are fields of the same record. What is
-- logged is left out. A Go map is an association list, and where Go visits a map in no fixed order
-- the list has the order of the visit.
--
-- Which file models what:
--   Base        texts, numbers, association lists, decidable equality
--   Errors      errors and outcomes (pkg/client/gerrit/group.go, pkg/service/gerrit/gerrit.go)
--   Api         the custom resources (api/v1)
--   World       calls, requests, objects of the cluster, the environment
--   Exec        the code that makes calls; Exec.Keeps, Exec.Leads, Exec.Settled, Exec.Apart and
--               Exec.Total are rules for proofs
--   Platform    Platform.Env: the environment of a container (pkg/service/platform/helper/helper.go);
--               Platform.K8s: K8SService; Platform.Openshift: what OpenshiftService does in its own way
--   Client      Client.Rest, Projects, Groups, Changes, Access (project_access.go) and Ssh (gerrit.go),
--               all of pkg/client/gerrit; Client.Access.Request is generateSetAccessRequest;
--               Client.Git (pkg/client/git/client.go) and Client.Shell (pkg/client/ssh/ssh.go)
--   Service     pkg/service/gerrit/gerrit.go: Service.Connect (addresses, credentials, clients,
--               ports), Service.Configure and Service.Expose; Service.KeyPairs
--               (pkg/service/helpers/helpers.go); Service.Apart and Service.Secrets are rules for
--               proofs about the calls that the service makes
--   Helper      Helper.Owner (helper.go: owners, TryToDelete), Helper.Status (status.go), and
--               Helper.Client: the Kubernetes client at the resource behind the pointer
--   Controllers Common (what the controllers share), Projects, Groups, Members, Accesses,
--               MergeRequests, Replication, Gerrits and Syncer (controllers/gerritproject/syncer.go);
--               Gerrits takes its service as a record of operations, and Gerrits.Component fills it
--   Startup     main.go, platform.NewService and the environment variables
--   Tests       the theorems at concrete inputs
-- The service and the controllers call Platform.K8s where the source calls its PlatformService: they are
-- modelled on Kubernetes, and Platform.Openshift stands beside them.
-- In each, functions have the names of the source in lower case with underscores; a method of the
-- source that is long is cut at its early returns into functions that the comments name.
--
-- Bounds and fuel: no function runs on fuel. Loops over lists are recursion on the list, and the loop
-- of syncBackendProjects is recursion on the attempts that are left. `int64` failure counts wrap
-- around; ports are bounded by the 32-bit parse.
--
-- Not modelled: the making of clients (Init, newRestConfig); flags and logging; generated code and
-- mocks; the set-up of the controllers at the manager, but for its error and for the event filters.
pub mod Base
pub mod Errors
pub mod Api
pub mod World
pub mod Exec
pub mod Platform
pub mod Client
pub mod Service
pub mod Helper
pub mod Controllers
pub mod Startup
mod Tests
