-- ===== src/Lib.antt =====
-- joebot: a server that clients behind firewalls connect to, and that opens SSH tunnels, web
-- terminals, file browsers and VNC sockets on them.
--
-- The program's parts and the files that model them:
--
-- * Ports (src/joebot/utils/ports_manager.go, GetFreePort and IsPortOccupied of utils.go): the
--   manager of ports that the server and each client have. A method runs under the manager's lock
--   and is a function on its state. The operating system is the record Os, whose laws are IsOs;
--   the calls are numbered so that no two answers need agree.
-- * Slices (the loops of RemoveClient and RemoveTunnel): slices with their backing array, and a
--   loop that removes from the slice that it ranges over.
-- * Strings (Go's strings and strconv): the functions that the program calls, on lists of bytes.
-- * Models (src/joebot/models): the structs.
-- * Task (src/joebot/task/task.go): frames and confirmations on a stream. A Delivery is what one
--   Read gives, a Writer answers each Write. NewTask and the deadlines are left out.
-- * Handler (src/joebot/handler/handler.go): the table of tasks, the goroutine of one stream as a
--   function, and the accept loop on the list of what Accept returns.
-- * Accounts (src/joebot/repository/users.go, the user operations of
--   src/joebot/server/server.go): the SQL statements are the record Database with the laws
--   IsDatabase; signing a token is a parameter.
-- * Server (src/joebot/server): clients at addresses of a heap and a slice of addresses;
--   Server/Tunnel has CreateTunnel and the tunnel services, Server/Services the four services
--   that a client gets, Server/Startup the start of the server. Server/Registry is what the list
--   of clients promises: IDs with their tunnels, and the step that each call makes. Server/Runs
--   has the calls in any order, Server/Sound their invariant and Server/Reached what holds after
--   them. There an operation of a client is one step, `none` is a panic, and a client has no
--   session until it starts; Server/Interleaved cuts CreateTunnel at its lock and at its request,
--   for goroutines that run at once, and Server/Lookup lets calls of RemoveClient come between
--   the rounds of GetClientById, which takes no lock. The gost library and gob are parameters.
-- * Web (src/joebot/handlers, middleware and routes): the middleware and each handler on one
--   request; `none` is a panic.
-- * Client (src/joebot/client): the client's state; Client/Tasks the Handle functions,
--   Client/Portal the start of the file browser, Client/Process Start with the handler that it
--   registers the tasks with, and Client/Runs the process of a client as steps: the look at the
--   context, Accept, the goroutines of accepted streams, UpdateClientInfo and the ends of
--   tunnels, in any order. The goroutine of a stream is one step, which may come at any time
--   after its Accept. Gost, Gotty and Filebrowser are parameters.
-- * Addresses (src/joebot/sshconnect/cfg.go): lists of IPv4 addresses, with int32 as 32 bits that
--   wrap round. net.ParseIP, net.ParseCIDR, IP.To4 and IPMask.Size are the record Net.
--   Addresses/Files has files of addresses and masks as texts; net.CIDRMask and what a file holds
--   are parameters.
-- * Install (src/joebot/sshconnect/sshconnect.go, BulkInstallJoebot of
--   src/joebot/server/server.go): what one host is sent and answers, and the collection of the
--   results. Install/Limit has the goroutines of all hosts, chLimit and the receiving loop as
--   steps in any order; that each goroutine sends its two results in the end is what
--   Install/Results shows of one host. The SSH and SFTP libraries are the record Remote.
-- * Services (the Create functions of src/joebot/server/client.go with the Handle functions of
--   src/joebot/client): a service from the request to the tunnel, on four streams, one file for
--   each service.
-- * Tunnels (CreateTunnel of src/joebot/server/client.go with
--   src/joebot/client/port_tunnel_task.go): the two sides of one request together.
-- * Updates (UpdateClientInfo of src/joebot/client/client.go with
--   src/joebot/server/client_info_update_task.go): the same in the other direction.
-- * Program (src/joebot/main.go): what the two commands start from their flags, which kingpin
--   reads.
-- * Prelude holds what the others share, Tests the theorems at concrete inputs.
--
-- How they interact: the Web handlers call the Server's operations; these send a request through
-- Task to a client, where Handler gives it to a Handle function of Client/Tasks; that reserves a
-- port with Ports and answers through Task, and the server then makes the tunnel with a port of
-- its own manager.
--
-- Bounds: the loop of ReservePort has the source's 10000 rounds, that of Start its 30.
-- GetAvailableIPRange is on fuel: one unit for each address of the range and one for the last
-- test of the loop. An installation on n hosts has 6 n steps.
--
-- Not modelled: the readers of JSON and the writer of results in src/joebot/sshconnect/cfg.go and
-- the helpers for files in src/joebot/utils/utils.go (calls of libraries that keep no state), the
-- static pages of src/joebot/routes/api.go and src/joebot/web_portal.go, Serve and Stop of
-- src/joebot/server/gost-tunnel.go (calls of gost), the copying of bytes between sockets,
-- scheduling inside the operations other than CreateTunnel and GetClientById, the build for
-- Windows of the terminal task, and the copies of other projects beside src/joebot. Stop of the
-- server, which is called when a tunnel service fails, is modelled and is not one of the calls of
-- Server/Runs: what holds after any calls holds as long as no tunnel service has failed. After
-- Stop the server has no tunnel service, and CreateTunnel panics.
pub mod Prelude
pub mod Ports
pub mod Slices
pub mod Strings
pub mod Models
pub mod Accounts
pub mod Addresses
pub mod Install
pub mod Task
pub mod Handler
pub mod Program
pub mod Tunnels
pub mod Updates
pub mod Web
pub mod Client
pub mod Server
pub mod Services
pub mod Tests
