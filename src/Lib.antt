-- ===== src/Lib.antt =====
-- flockwave-conn: connections, listeners, channels and their supervision.
--
-- The library gives asynchronous connections and listeners with a common life cycle, a factory that
-- creates them from a specification and wraps them in middleware, channels that turn the bytes of a
-- connection into messages, and a supervisor that keeps connections open. The paths below start at
-- the root of the repository.
--
-- Which file models what:
-- - Connection, src/flockwave/connections/base.py. Connection/State has ConnectionState, the fields
--   of ConnectionBase and `_set_state`; the AsyncBool flags are Booleans, and the signals that were
--   sent are a list. Connection/Calls has `open` and `close`. A call is cut where it may be suspended:
--   each wait for a flag, and the hook `_open` or `_close`, is a phase, and a schedule says which call
--   moves next and how. A wait is woken and goes on in two steps, as other tasks may run between them.
--   Signals, Hooks, Exclusion, Alone and Races hold the proofs.
-- - Listener, src/flockwave/listeners/base.py, in the same way. Listener/View reads a listener as a
--   connection.
-- - Task, the class TaskConnectionBase of src/flockwave/connections/base.py. Task/State puts the task, its
--   cancel scope and its event beside the calls of Connection/Calls, so that the hooks end when the task
--   lets them; a schedule says what moves next. Ends, Cancelled, Frozen and Stuck hold the proofs.
-- - Nursery, the class TrioListenerBase of src/flockwave/listeners/base.py, in the same way over
--   Listener/Calls.
-- - Factory, src/flockwave/connections/factory.py, of which the listener factory is another instance.
--   Factory/Registry has the two dictionaries and the methods that change them, Factory/Create the
--   method `create` for a dictionary, Factory/Use the context managers, around any body that changes
--   the factory. The registered classes and middleware are functions that may raise.
--   Factory/Url reads the URL form of a specification; what the standard library does to a URL is a
--   record parameter.
-- - Capabilities, src/flockwave/connections/capabilities.py.
-- - Channels, src/flockwave/channels/lossy.py, parser.py, message.py and encoder.py. The wrapped
--   channel or reader is the list of what it gives next; the parser and the random numbers are
--   parameters. Channels/ForRpc has the methods of a message channel for RPC.
-- - Socket, src/flockwave/connections/socket.py. Socket/Binding has SocketBinding, Socket/Udp and its
--   child Operations have UDPListenerConnection, one call at a time; Socket/Variants has the broadcast
--   and the subnet-bound listener, Socket/Multicast the multicast one, Socket/Tcp the TCP and Unix domain
--   classes, Socket/Connected the connected UDP socket. The network interfaces
--   (flockwave.networking) and what the operating system answers are record parameters.
-- - Supervision, src/flockwave/connections/supervision.py. Supervision/Loop has the function
--   `supervise` over a list of rounds, which says what happens to the connection at each turn of the
--   loop; Policies has the policies of the file, Supervisor the class ConnectionSupervisor.
-- - Descriptor, the class FDConnectionBase of src/flockwave/connections/base.py and its two subclasses in
--   file.py. State has the fields, `_attach` and `_detach`, Operations the other methods, Files the
--   subclasses. A file object is a number; the calls of it and the signals are kept in lists.
-- - Stream, src/flockwave/connections/stream.py, process.py and channel.py, in Stream/Base and its child
--   Wrapper, Stream/Process and Stream/Loopback, with the pair that the factory makes of two memory
--   channels. The memory channels are an interface, MemoryChannels, that has the laws of a queue.
-- - Serial, src/flockwave/connections/serial.py. Match has the search for a port, Streams the two kinds of
--   streams, Port the class SerialPortConnection. A device is the list of what it answers.
-- - Servers, the class UnixSocketListener of src/flockwave/connections/servers.py, over the files of a
--   machine and the errors that the calls of the operating system may raise.
-- - Rpc, src/flockwave/channels/rpc.py. Serve has the handling of inbound messages and the requests, Proxy
--   the proxies by which they are called, Context the tasks and the queue of the context; Answers, Ids,
--   Replies, Serving and Over hold the proofs. The map of futures (flockwave.concurrency) is an
--   interface, FutureMap in Rpc/Futures, of which the laws are those of a dictionary.
-- - Middleware, src/flockwave/connections/middleware. A wrapper is a function of the operations of a
--   connection; the log of the logging middleware is a list of lines. Middleware/Format has its formatter
--   of bytes.
-- - Common, what these share, with Common/Dict for Python's dictionaries.
-- The children named Tests run the definitions on concrete inputs.
--
-- How the parts meet: Socket/Udp, Descriptor, Stream and Serial keep a Connection and move it by the
-- `set_state` of Connection/State; Listener/Calls uses the phases and events of Connection/Calls;
-- Channels/Message uses the loop of Channels/Parser and the capabilities of Capabilities; Factory/Url
-- gives the specifications of Factory/Create; Task and Nursery move their calls by the steps of
-- Connection/Calls and Listener/Calls; Socket/Tcp opens its streams by Stream/Base.
--
-- Bounds: the loops are over lists, of which every round takes an element; no function takes fuel. A text and
-- a byte string are lists of numbers.
--
-- Not modelled: src/flockwave/connections/utils/hexdump.py, a copy of the hexdump library, of which the
-- lines are a parameter of Middleware/Format; dummy connections, of which the hooks are empty; the `_run`
-- of the two listener classes and `serve_unix`, which call Trio. Cancellation is modelled where a call waits for a flag, and where a cancel scope ends a task; a hook that is cancelled ends as one
-- that raises. Outside Connection, Listener, Task and Nursery the operations are modelled one call at a
-- time.
pub mod Capabilities
pub mod Channels
pub mod Common
pub mod Connection
pub mod Descriptor
pub mod Factory
pub mod Listener
pub mod Middleware
pub mod Nursery
pub mod Rpc
pub mod Serial
pub mod Servers
pub mod Socket
pub mod Stream
pub mod Supervision
pub mod Task
