-- ===== src/Lib.antt =====
-- sftpgo-operator, the Kubernetes operator for SFTPGo. Two controllers watch two custom resources:
-- an SftpGoServer stands for a ConfigMap, a claim, a Deployment and a Service that run SFTPGo, and
-- an SftpGoUser for a user account, which its controller keeps up to date over SFTPGo's REST API.
--
-- The files and the code that they model:
--   Api         api/v1alpha1/sftpgoserver_types.go and sftpgouser_types.go: each struct is a record,
--               each field a field. Api/Meta has the types of apimachinery that the structs use.
--   Sftpgo      internal/sftpgo/client.go. Sftpgo/Payload: `UserPayload` and `UserFromCR`;
--               Sftpgo/Decode: what the JSON decoder does by the field tags; Sftpgo/Client: `Client`
--               and its methods, which pass on a session of the client and the outside world.
--   Server      internal/controller/sftpgoserver_controller.go. Server/Defaults: `applyDefaults` and
--               the ports; Server/Config: `sftpgoMinimalConfig`; Server/Desired: the four objects;
--               Server/Reconcile: `Reconcile` and the functions that it hands to `CreateOrUpdate`.
--   User        internal/controller/sftpgouser_controller.go. User/Keys: the lines of a secret with
--               public keys; User/Reconcile: `Reconcile` and its helpers.
--   Cmd         cmd/main.go. Cmd/Main: the flags, the TLS options and the start of the manager;
--               Cmd/Slices: Go's `append`, by which the two lists of TLS options may share an array.
--   Copies      api/v1alpha1/zz_generated.deepcopy.go. Copies/Memory: references with addresses and the
--               ways to copy a field; Copies/Server and Copies/User: the structs that hold references
--               and their methods; Copies/Defaults: what `applyDefaults` does to memory.
--   Kube        what is outside the repository. Kube/Objects: the Kubernetes objects, with the
--               fields that the operator sets; Kube/Env: the operations on the world outside;
--               Kube/Calls: how a controller calls them.
--   Base        Go's results, integers and string functions, and the names shared by all files.
--   Tests       a small cluster with an SFTPGo, and the theorems at concrete inputs.
-- In Sftpgo, Server, User and Cmd the other files are about the code of those named here: what a
-- client asks and is answered (Client/Requests, Client/Token, Client/Url), the JSON form
-- (Payload/Reading, RoundTrip, Sent), runs of a controller as traces of calls (Runs, Live,
-- Deletion, Writes, Applies), the objects of a server (Ports, Wiring, Mutate, Conditions), what a
-- cluster holds after a reconcile (Store), what SFTPGo holds of a user (Client/Service, Delivered),
-- secrets (Secrets, Keys), the start of the process (Plan, Exit, Certificates), and what a copy
-- shares with its original (Copies/Separate, Objects).
--
-- A controller is a function of an environment `Env` and passes on a `Run`: the world, of which
-- nothing is known, and the trace of the calls made so far with their answers, newest first. So a
-- statement is about every cluster, every SFTPGo and every order of their failures, and speaks of
-- the calls that were made, in their order and with their arguments. A world may change between two
-- calls by itself. The laws of a library function that a theorem needs are a record of hypotheses
-- beside it: `Server.Store.IsCluster` says what `CreateOrUpdate` does to the objects of a cluster
-- whose API server keeps what it is sent, fills in defaults (the type of a Service; `defaulted`, of
-- which it is assumed that it leaves what is stored as it is, for the specification of a Deployment)
-- and sets the rest of the metadata as it likes; and `Sftpgo.Client.Service.IsService` says what
-- SFTPGo takes. `Reconcile` is cut at its early returns into functions; each translates the rest of
-- the method from the line that its comment names.
--
-- A result keeps the state beside an error, as Go does. Signed integers are mathematical ones: the
-- program compares, divides and prints them, and none of this overflows. Instants are nanoseconds
-- since the zero time. A JSON body is the tree that a decoder reads from it. A map is a list of
-- entries. Pointers to fields are options, except in Copies, where each has an address and
-- `DeepCopyInto` is a function that allocates: there a struct is assigned with the addresses that
-- it holds, and a copied field gets the first address not in use. An object of the API is a tree,
-- so what is stored at an address is kept beside it. The only fuel is in `decimal`, which prints a
-- number: one round for each digit, and a number has at most as many digits as its value plus one.
--
-- Not modelled: logging, HTTP timeouts, the closing of response bodies, the text of errors that the
-- libraries make, and a failure of `json.Marshal`, which cannot fail at a `UserPayload`. Also not
-- the parsing of the command line, the scheme with the type names in objects, and the test
-- utilities. The controllers' managers and the webhook and metrics servers are steps that `main`
-- makes, which succeed or fail.
pub mod Base
pub mod Api
pub mod Kube
pub mod Sftpgo
pub mod Server
pub mod User
pub mod Cmd
pub mod Copies
pub mod Tests
