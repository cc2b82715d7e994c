-- ===== src/Lib.antt =====
-- libslirc: a verification library for the core of the IRC library.
--
-- The program. An `irc` context owns modules, among them the event manager. An event carries
-- components (a container with one object for each base type) and a queue of event ids that it is
-- still to be handled as. `event_manager::handle` calls the handlers of one id after the other until
-- the queue is empty, and then puts the events that were registered to follow at the front of the
-- event manager's queue. Threads take events from that queue by `wait_event`, blocking or by a
-- callback. A connection module looks up a host, connects to it through Asio, and queues events for its
-- changes of state, the lines that it receives, and errors; Asio's io_service comes from the network
-- service, which runs it in a thread of its own unless the program sets another one.
--
-- The files.
--   Prelude    natural numbers, Boolean tests, lists, vectors with a capacity, association lists, the
--              exceptions (include/slirc/exceptions.hpp) and the class graph of the program.
--   EventId    include/slirc/event.hpp, `event::id_type`: comparisons, `std::less`, `std::hash`; EventId/Types
--              has the registration of enum types, with what the language says of the overloads that a call
--              finds by its argument.
--   Component  include/slirc/component_container.hpp: Laws has the operations' behaviour, Invariant
--              what holds of a container after any calls.
--   Event      src/event.cpp and the class `event`: Event/Queuing has `queue_as` over the vector of
--              ids and its index, Event/Spec what is documented of it, Event/Queuing/Pending and
--              /Range that the one does the other; Event/Unqueue and Event/Lifetime have the other
--              operations and the invariant.
--   Manager    src/modules/event_manager.cpp: the queue and its consumers. Manager/Delivery has
--              `try_unqueue` and its callers, Manager/Waiting the threads that wait as a step
--              relation, Manager/Handle the handling of an event, with `util::scoped_swap`, and
--              Manager/Handlers the connections of handlers (include/slirc/apis/event_manager.hpp), with
--              the order of their calls in Handlers/Order; Manager/Dispatch puts these handlers into the
--              handling of an event.
--   Irc        include/slirc/irc.hpp and src/irc.cpp: the modules of a context. Irc/Laws has the
--              operations, Irc/Lifetime a context whose modules are loaded and unloaded, and
--              Irc/Destruction its destructor.
--   Client     the calls of an event that go through its context to the event manager: objects that are
--              found by their addresses, `irc::make_event`, `event::queue`, `event::handle`. Client/Delivery
--              composes Irc, Event, Manager and its Handlers; Client/Unloaded is about a context without
--              an event manager. Client/Queued has several events queued, Client/Loop a number of rounds
--              of the loop of example/example.minibot.cpp, and Client/Lines goes from the bytes that a
--              connection reads to the handlers of their lines.
--   Network    src/network.cpp: the io_service and its thread; Network/Lifetime has its calls in any order.
--   Connection src/modules/connection.cpp and the two connection.hpp. Connection/Text has the searches of
--              `std::string`. Connection/Endpoint has `set_endpoint`, with the formats that it reads in
--              /Formats and /Tails and the bounds of what it finds in /Bounds. Connection/Impl has the state and the
--              events, Connection/Stages the stages on the way to a connection and the callbacks of Asio;
--              Impl/Trace, Impl/Effects and the files under Stages have what each of them leaves, Stages/Reads
--              the lines that the reads emit.
--              Connection/System is a connection in use, as a step relation; System/Progress, /Live, /Ended,
--              /Stranded and /Stuck have what holds of its runs. Connection/Lines has the loop of `recv` over the buffer and
--              its positions, Lines/Stream a reader of single characters that it is held against, and
--              Lines/Chunks the reads of a connection; Connection/Buffers has the bytes on their way out,
--              with the sizes of the writes in Buffers/Sizes, Connection/Api the remaining members that a user
--              calls, and Connection/Life the destructor and the callbacks that run behind it.
--   Stream     include/slirc/util/scoped_stream_flags.hpp and `event::id_type::print_debug`.
--
-- How the model corresponds. State is passed along: a method takes the object and returns the object
-- after the call, with its result. An exception is a value. A pointer to an event is its address. An
-- enum type or a class is the number of its `std::type_index`. A step of Manager/Waiting is what a
-- thread does while it holds the mutexes; a step of Connection/System is a call of a member or a callback
-- of Asio. What Asio has been asked to do is a list of operations, and any of them may end in any way.
--
-- Parameters. The growth of a vector's capacity, the class graph of the program with its reflexive
-- and transitive derivation, the callbacks of the user (any function of what they have seen), and
-- the signals of Boost: a call of a signal is any function of the event, the queue and the user's
-- state, and may throw. For the connections of handlers the signals are a record of functions, with what
-- Boost documents of them as a record of laws, which Manager/Handlers/Table fills; Manager/Dispatch assumes that
-- a signal calls its slots in their order until one throws. Of Asio, whether
-- `cancel` of a socket throws is a parameter; everything else that it answers is arbitrary.
--
-- Bounds and fuel. `try_unqueue` runs for as many rounds as there are consumers that have not been
-- called, since each round calls one. The loops of `handle` end only if the handlers stop queuing
-- ids; they run on fuel, and two more than the ids that are pending or may still be queued suffices.
-- The loop of `recv` moves forward in every round; one more round than the buffer has characters is
-- enough. `unsigned` has 32 bits and `long` 64, where a port is read and where `send_raw` counts. Other
-- counters and ids are natural numbers: the code compares and counts them, and computes nothing that
-- could wrap around before memory is exhausted.
--
-- Not modelled: assertions (SLIRC_ASSERT), which a release build leaves out; a callback of `wait_event`
-- that throws; a write that fails in Connection/Buffers, where the buffers are those of one connection; the
-- size of the buffer that Asio reads into; a call of `do_send_raw`, which takes no mutex, in the middle of
-- another member; the static assertion on module types (`is_valid_module_type`); and the types of
-- include/slirc/string.hpp, which come from a git submodule.
mod Prelude
pub mod EventId
pub mod Component
pub mod Event
pub mod Manager
pub mod Irc
pub mod Connection
pub mod Network
pub mod Client
pub mod Stream
