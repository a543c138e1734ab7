-- ===== src/Lib.antt =====
-- criproxy: a gRPC proxy between the kubelet and several CRI runtimes.
--
-- A request of the kubelet names an object (a pod sandbox, a container, an image) or lists them. The
-- proxy (pkg/proxy/proxy.go) chooses the runtime by the prefix of the name, by the annotations of a
-- new sandbox, or asks all runtimes for a list; it takes the prefix off, calls the runtime through a
-- client (pkg/proxy/apiclient.go), and puts the prefix on the names of the answer.
--
-- Where what is modelled:
--   * Prelude, Text, Errors: lists and options over the native numbers; Go strings as lists of
--     bytes, with the functions of the package strings that the code uses; the errors.
--   * Naming, Prefix: clientBase of pkg/proxy/apiclient.go. isPrimary is is_primary, augmentId is
--     augment_id, and so on for imageName, idPrefixMatches, imageMatches and annotationsMatch;
--     addPrefix and its four cases are in Prefix.
--   * Object: the messages and wrappers of pkg/proxy/cri19.go and pkg/proxy/cri110.go behind the
--     interfaces of pkg/proxy/criobject.go. A record has the fields that the proxy reads or writes
--     and `rest` for the others; a pointer is an Option. An accessor of an interface is a function
--     to Option, with none where the message does not implement the interface. The two versions
--     share the definitions, but for Wrap of ExecRequest and AttachRequest: wrap_request takes the
--     version (Object/Version).
--   * Object/Matcher: pkg/proxy/typematcher.go, over the names of types; Proxy/Dispatch/Wrappers has the
--     names that both versions register.
--   * Conversion: the conversions of pkg/runtimeapis/v1_9/conversion.go and
--     pkg/runtimeapis/v1_9/conversion_generated.go, for every message that is in both versions. Same has
--     the messages with the same fields, as records over the version, and a function for both
--     directions of each; Messages, Upgrade and Downgrade the others. All has all requests and
--     responses as one type for each version, and ConvertTo convertTo of pkg/runtimeapis/convert.go.
--   * Connection: clientConnection of pkg/proxy/apiclient.go. Each function is one critical section.
--     connectNonLocked starts a goroutine, whose end is dial_succeeds or dial_fails; the latter is
--     never reached, since WaitForSocket has no limit there. Channels are numbers.
--   * Socket: WaitForSocket of pkg/utils/utils.go, over the answers of the operating system.
--   * Proxy/World: the clients' states, the calls made, and a schedule: a list of batches of events.
--     Before each critical section of a request the next batch is applied, so that a theorem for
--     every world is one for every interleaving with dialing goroutines and other requests. A
--     receive from a channel takes batches until a value is there; with none left it hangs.
--   * Proxy/Client: autoClient, apiClient and upgradingClient of pkg/proxy/apiclient.go. `next` of an
--     autoClient is written by the probe, at the end of the dialing.
--   * Proxy/Logic: rules that say, whatever the schedule, what a request returns and calls.
--   * Proxy/Routing, Proxy/Handlers: the methods of RuntimeProxy in pkg/proxy/proxy.go. A client is
--     its place in the list of clients.
--   * Proxy/Construction: NewRuntimeProxy of pkg/proxy/proxy.go and newAutoClient of
--     pkg/proxy/apiclient.go.
--   * Proxy/Dispatch: Match, Intercept and the dispatch table of pkg/proxy/proxy.go.
--   * Proxy/Probe: checkVersion and checkConnection of pkg/proxy/apiclient.go, over the answers of the
--     runtime to the method Version.
--   * Proxy/Server: intercept of pkg/proxy/grpc.go; each interceptor is a proxy with its own clients.
--     Its child Made has NewServer, and EndToEnd follows a request from the server to the runtime and
--     back.
--   * Proxy/Stop: Stop of pkg/proxy/proxy.go and of pkg/proxy/grpc.go.
--   * Program: runCriProxy of main.go up to Serve, and GetStreamUrl of pkg/utils/utils.go.
--   * Proxy/Quiet: worlds in which nothing else happens, for results that the schedule decides.
--   * Tests: runs of the definitions and the theorems at concrete inputs.
--
-- Parameters (the record Env): digest.Parse, the printing of a streaming URL, grpc.Invoke as a
-- function of the calls made before, and Upgrade and Downgrade of pkg/runtimeapis/convert.go over the
-- messages of Object; Conversion has these two over the whole messages, with the registry of protocol
-- buffers and Convert of the scheme as parameters. Program has the packages net and url, and
-- the server RegisterService of gRPC, which refuses a service that is there already.
--
-- Fuel: only the loop of WaitForSocket has it, one unit for a round; its termination theorem says
-- how much is enough. All other loops are structural.
--
-- Not modelled: Serve and GracefulStop of the gRPC server, the making of values by reflection, the
-- parsing of flags, and logging. A Go data race on a connection read outside of its lock is a read at
-- one point of the schedule. Copy of a message copies the value. The elements of a converted list are
-- there, and are converted by the function that is registered for their type.
pub mod Prelude
pub mod Text
pub mod Errors
pub mod Naming
pub mod Object
pub mod Prefix
pub mod Connection
pub mod Socket
pub mod Proxy
pub mod Tests
pub mod Conversion
pub mod Program
