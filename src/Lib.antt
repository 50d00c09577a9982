-- ===== src/Lib.antt =====
-- kubernetes_up_running: the JavaScript programs of the repository, the server components that one of
-- them configures and shows, and the operator that deploys another.
--
-- The parts of the program:
--
-- * primos/app.js, an Express service that lists prime numbers. Primos/Search.antt has esPrimo
--   (es_primo, its loop try_divisors) and obtenerPrimos (obtener_primos, its loop obtener_from with the
--   body push_if_primo, whose push throws when the array is full);
--   Primos/Server.antt the middleware, the handlers and their order (cors, get_primos, get_load,
--   get_health, not_found, app). The proofs stand in Primos/Prime.antt, Primos/Listing.antt and
--   Primos/Server/Answers.antt, the runs and witnesses in Primos/Tests.antt.
-- * multiplica/app.js, an Express service that multiplies: Multiplica.antt (get_multiplica,
-- multiplier_of,
--   get_load, get_health, not_found, app), with proofs in Multiplica/Answers.antt.
-- * The load generator that both services contain (consumirCPU, consumirMemoria, GET /load/:cpu/:mem):
--   Load.antt (consumir_cpu, consumir_memoria, load), with proofs in Load/Cpu.antt, Load/Memory.antt and
--   Load/Handler.antt.
-- * kuard/client/src, the React client of kuard, a module for each component: Client/Router.antt
--   (router.jsx, highlightlink.jsx and the pages of app.jsx), Client/Disconnected.antt
--   (disconnected.jsx), Client/App.antt and Client/Shell.antt (app.jsx, request.jsx),
--   Client/Markdown.antt (markdown.jsx), Client/Env.antt (env.jsx), Client/MemQ.antt (memq.jsx),
--   Client/Probe.antt (probe.jsx), Client/KeyGen.antt (keygen.jsx), Client/Mem.antt (mem.jsx) and
--   Client/Dns.antt (dns.jsx). The children called Markup have the elements that a page renders, in the
--   terms of Js/Element.antt. Client/Build.antt has webpack.config.js. fetcherror.js, the browser's
--   intervals and the settling of a fetch are in Client/Browser.antt. The proofs are in the children of
--   each module.
-- * kuard/pkg/debugprobe, the health probe that the probe page configures: Server/Probe.antt, with
--   proofs in its children; Server/Probe/EndToEnd.antt joins the page and the probe.
-- * kuard/pkg/memq/server/broker.go, the queues whose statistics the MemQ page shows: Server/Broker.antt
--   (create_queue, delete_queue, drain_queue, put_message, get_message, stats), with proofs in its
--   children. A critical section under the locks is one step of Server/Broker/Counters.antt.
--   Server/Broker/Api.antt has the HTTP handlers of api.go and Server/Broker/Client.antt what the client
--   of kuard/pkg/memq/client makes of their replies. Server/Broker/Shown.antt joins the statistics and the
--   MemQ page.
-- * kuard/pkg/keygen, the workload that the KeyGen page configures: Server/KeyGen.antt (restart,
--   workload_output, load_config, api_get, api_put), Server/KeyGen/Workload.antt (the loop of
--   workload.go) and Server/KeyGen/Worker.antt (the loop of memq.go, which takes its items from the
--   broker). Server/KeyGen/Running.antt is about restarts, Server/KeyGen/Output.antt joins the log and
--   the page, Server/KeyGen/Worker/Draining.antt joins the worker, the client, the handlers and the
--   broker.
-- * The environment: Client/Env.antt (env.jsx) and Server/Env.antt (kuard/pkg/env), joined by
--   Server/Env/RoundTrip.antt. The order of an object's properties is in Js/Object.antt, Go maps with
--   text keys are in Server/Maps.antt.
-- * kuard/pkg/app and the AddRoutes of each component, the routes of the server: Server/App.antt
-- (routes,
--   get_page_context), Server/App/Static.antt (kuard/pkg/sitedata) and Server/App/Files.antt (the file
--   system browser, with path.Clean and path.Join). Server/App/Pages.antt joins the
--   requests of the client's pages and the routes, Server/App/DeepLinks.antt the context, the script of
--   the page and the client,
--   Server/App/DevServer.antt the pages and the proxy of the client's development server.
-- * kuard/pkg/dnsapi, the queries of the DNS page: Server/Dns.antt, joined to the page by
--   Server/Dns/Answers.antt.
-- * kuard/pkg/memory, the memory that the memory page allocates: Server/Memory.antt, joined to the
-- page's
--   links and the routes by Server/Memory/Clicks.antt.
-- * ejemplos/9 replicasets/test-primos.js, the k6 script that loads the primos service:
--   Primos/LoadTest.antt.
-- * ejemplos/17 Extending Kubernetes/operator-multiplicador/main.go, the operator that deploys the
-- service
--   of multiplica for each resource Multiplicador: Operator.antt (the objects and their updates),
--   Operator/Reconcile.antt (ensure_service_and_proxy, cleanup_proxy_for_cr, reconcile_deleted) and
--   Operator/Deployments.antt (make_deployment, reconcile_one) and Operator/Polling.antt (reconcile_all),
--   on the API server of Operator/Api.antt.
--   Operator/Views.antt has the abstract view, Operator/Refinement.antt and Operator/Ensured.antt the
--   reconciliation on it, Operator/Sharing.antt resources with the same host, Operator/Converged.antt the
--   deployment, Operator/Polling/Rounds.antt a round over all resources; Operator/EndToEnd.antt joins
--   the operator and the service.
--   Operator/Events.antt has the second version (operator-multiplicador-v2), which drives the same
--   reconciliation by events and a work queue.
--
-- How the parts interact: a component of the client sends requests to the server and receives their
-- replies as settled promises (Promise) in any order; a failed one is reported to App, which passes it
-- to Disconnected. An operation of a component is a function from its state to the new state and the
-- browser calls that it makes (Effect). Intervals are a table of live ids (Timers). Events from outside
-- (clicks, replies, firings, calls of the probe) are lists of events or steps of a relation.
--
-- What the language does: Js/Number.antt has the whole numbers among the doubles, with the rounding of
-- large ones and the saturation of i++ at 2 ^ 53; Js/Text.antt has parseInt and decimal printing on
-- texts of code units; Js/Loop.antt the counting loop and its rules; Js/Sort.antt Array.prototype.sort
-- and the order of texts. esPrimo and the memory loop are over numbers at which doubles are exact.
--
-- Fuel: a loop of the services takes fuel, one unit for each test, and gives none, or hangs, when
-- it runs out. The theorems that a request is answered have the fuel as a hypothesis: more than the
-- number of rounds is enough. es_primo supplies its own fuel, the number itself, which its theorem
-- shows to be enough. The loops of the workload and of its MemQ worker take one unit for each
-- round.
--
-- Parameters: Express (Express.antt) is a record of a router's operations with its documented laws;
-- Express/Sample.antt meets them with a concrete router. The doubles that are not whole, with
-- parseFloat, Math.sqrt, Math.sin and Math.random, are the record Floats (Floats.antt), met by
-- Floats/Sample.antt. The formatting of times by the Go server is a parameter of its API; the
-- random ids and the clock of the broker, and the order in which Go visits a map, are arguments.
-- The API server of Kubernetes is a record of calls (Operator.Client) whose laws (IsCluster) hold
-- for a cluster that no one else changes: a call that writes an object succeeds if the server
-- accepts the object. Which objects it accepts is part of the parameter, and the theorems that need
-- it say that it accepts what is written for a resource (AcceptsDeployment, AcceptsService,
-- IsHosted). Operator/Sample.antt meets the laws with a server that refuses a second controller,
-- negative replicas, and a dot in the name of a service. Whether the system has memory for a block
-- that Server/Memory.antt allocates is an argument too, and so is the path that the server gets
-- when a browser follows a link of Server/App/Files.antt. The DNS resolver (Server.Dns.Resolver) is
-- a parameter with no laws; httprouter (Server.App.Router) has the law that a path goes to the
-- route that it matches, and webpack's proxy (Server.App.DevServer.Forwarder) those of its
-- documentation. The file system that the browser shows is an argument.
--
-- Not modelled: listening, logging and SIGTERM (process I/O); the markup of the page around its
-- components; the Form component of rjsf, numeral and marked (third-party); the templates and the
-- flags of the Go server; the informers and the queue of client-go; the built bundle, which the build
-- generates, and the cluster files.
--
-- Shared helpers are in Base.antt and its children: Boolean tests, lists over the native numbers,
-- integers.
pub mod Base
pub mod Js
pub mod Express
pub mod Floats
pub mod Load
pub mod Primos
pub mod Multiplica
pub mod Client
pub mod Server
pub mod Operator
