-- ===== src/Lib.antt =====
-- libe3, a library for the agent side of the E3 protocol between a RAN and its dApps: a dApp sets
-- up with the agent, subscribes to RAN functions, gets indications and sends control actions; the
-- service model of a RAN function runs while someone is subscribed to it.
--
-- Parts, and how they interact. E3Interface (src/core/e3_interface.cpp) owns the subscription
-- manager and the queue of outbound PDUs and uses the registry of service models. Its subscriber
-- loop decodes a PDU and calls the handler of its type. A handler calls the manager, which reports
-- by a callback which service model is to start or stop; the callback calls the registry. The
-- handler then puts a response on the queue, from which the publisher's thread sends. The queue is
-- a bounded ring with a sequence counter in each slot, written by many threads and read by many.
-- An encoder makes octets of PDUs and PDUs of octets, a connector carries the octets, and E3Agent
-- is the facade that makes an E3Interface and passes its user's calls on to it.
--
-- Files.
-- Base: what the source takes from the C++ standard library. Tests on unsigned integers,
--   std::vector as a list, std::unordered_map and std::unordered_set of integers as lists of which
--   only lookups are seen, arrays by index, and the bitwise operators on integers.
-- Types: include/libe3/types.hpp and include/libe3/error_codes.h. Enumerations in Types/Codes,
--   message structures in Types/Messages, the configuration in Types/Config, the conversions to
--   text in Types/Names.
-- Subscription: include/libe3/subscription_manager.hpp and src/core/subscription_manager.cpp. The
--   record SubscriptionManager has the members under their names; each method is a function of its
--   name, in Subscription/State (queries, clear), Register, Subscribe and Unsubscribe. A method's
--   locked section is one step, and the calls of the callback after it are a list of events.
--   Invariant, Lifecycle, Commands and Ids hold the proofs.
-- Mpmc: include/libe3/mpmc_queue.hpp. MpmcQueue has buffer_, capacity_, mask_, head_ and tail_;
--   Mpmc/Defs has the constructor, try_push and try_pop as one thread runs them with no other
--   between, size_approx and empty_approx. A size_t is a number below 2^64 and its wrap-around is
--   written out. Mpmc/Represents relates a ring to the list of its values, Mpmc/Fifo to the queue
--   of this list. Mpmc/Threads has any number of threads inside try_push and try_pop: Threads/Steps
--   has the points between two accesses to the ring and the step of a thread, Threads/Invariant
--   what holds between steps; the files from Slots to Exclusion prove it, Guarantees uses it.
-- Response: include/libe3/response_queue.hpp and src/core/response_queue.cpp. Response/Defs has
--   every method; the methods that wait take as an argument what other threads do to the queue
--   before each time that they look at it.
-- Registry: include/libe3/sm_interface.hpp and src/core/sm_registry.cpp. ServiceModel holds the
--   virtual methods of a service model, which users write, as an argument; RunningLaws states what
--   their comments say of start, stop and is_running. SmRegistry has sms_ and factories_, and
--   Registry/Defs every operation; destroyed models are a list beside the result.
-- Interface: include/libe3/e3_interface.hpp and src/core/e3_interface.cpp. Session has the members
--   that the handlers use after init. Interface/Defs and Interface/Dispatch have the handlers and
--   the switch of subscriber_loop; Wiring, Handlers, Received, Setup and Answers hold the proofs.
--   Interface/Lifecycle has the record E3Interface with init, start, stop and queue_outbound, for
--   any connector. A random message id and the clock are a handler's argument Draw; the encoder's
--   encode, the calls of factories and a model's handle_control_action are arguments too.
--   Interface/Loops has setup_loop, subscriber_loop, publisher_loop and sm_data_handler_loop, each
--   as a function of one round and a loop over a list of rounds, and register_sm with the emitter
--   and the provider that it gives a model. Interface/Threads has the rounds in any order.
--
-- Encoder: include/libe3/e3_encoder.hpp and src/encoder/e3_encoder.cpp. Encoder/Results has
--   EncodeResult and EncodedMessage, Encoder/Build the convenience methods of E3Encoder, for any
--   encode.
-- Json: src/encoder/json_encoder.hpp and json_encoder.cpp. The JSON library is the record Json, an
--   argument; JsonLaws in Json/Library states what its documentation says of assigning and reading
--   members and of dump and parse, and an exception is `none`. Json/Encode and Json/Decode have a
--   function for each method of the encoder, Json/Codec encode and decode, Json/Hex the
--   hexadecimal texts. Objects, RoundTrip, Typed, Delivery and Streams hold the proofs.
-- Posix: src/connector/posix_connector.hpp and posix_connector.cpp. Posix/Framing has
--   send_in_chunks and recv_with_size over a stream (Posix/Stream), Posix/Connector the record
--   PosixE3Connector and its constructor; over the system calls of Posix/Os, Posix/Sockets has the
--   methods that open and close sockets, Posix/Messages those that send and receive. Streams and
--   system calls are arguments with laws. What the methods change besides the connector is the
--   state of the system. Connector/Opening and Connector/Descriptors hold the proofs.
-- Zmq: src/connector/zmq_connector.hpp and zmq_connector.cpp. Zmq/Library has the calls of the
--   ZeroMQ library, an argument with laws on the open sockets, Zmq/Endpoints the names of the
--   endpoints, Zmq/Connector the record ZmqE3Connector and its constructor, Zmq/Sockets the methods
--   that make and close sockets, Zmq/Messages those that send and receive. Holdings, Calls, Clean,
--   Leaks and Reading hold the proofs.
-- Factories: src/encoder/encoder_factory.cpp and src/connector/connector_factory.cpp, for the
--   E3Config of Types/Config.
-- Agent: include/libe3/e3_agent.hpp and src/core/e3_agent.cpp. Agent/Sending has the methods of
--   E3Agent that send, Agent/Queries those that ask the subscription manager, Agent/Defs the others;
--   Agent/Phases says what init, start and stop are to do, Starts, Calls and Sends hold the proofs.
--
-- Bounds and fuel. The search for a free dApp identifier in register_dapp has fuel for 101 rounds,
-- as many as its own counter allows. The constructor's loop has 63 rounds of fuel, which is enough
-- for every capacity up to 2^63. A compare_exchange_weak may fail spuriously: the loops of
-- try_push and try_pop have fuel for these failures, and the theorems hold as soon as one round in
-- the fuel works. Response/Defs runs them with one round, in which it works. The number `room` in
-- Represents counts the pushes after which a position would reach 2^63, where the signed
-- comparison of the source overflows.
-- With several threads, the schedule of a ring of 2^n slots has fewer than 2^63 - 2^n steps, which
-- keeps the positions below 2^63; a schedule says in which order the threads take their steps. The
-- loops of the interface run over a list of rounds, which says what each round finds.
-- A loop that sends or receives octets has as much fuel as there are octets to move. The wait of
-- setup_inbound_connection has fuel for its polls, since nothing says that a peer comes.
--
-- Not modelled. The ASN.1 encoder, which calls what an ASN.1 compiler generates; the C API, which
-- converts structures; the logger, which only writes. A std::string is a text, so one that is not
-- UTF-8 is not modelled. zmq_ctx_destroy waits for the sockets of its context; in the model it
-- returns, and the theorems say which sockets are open then. An access to an atomic or to the value of a slot is one step, and all
-- threads see the steps in one order: what acquire and release allow beyond that is not modelled. A
-- round of a loop of the interface, and a call from outside, is one step too.
pub mod Base
pub mod Types
pub mod Subscription
pub mod Mpmc
pub mod Response
pub mod Registry
pub mod Interface
pub mod Encoder
pub mod Json
pub mod Posix
pub mod Zmq
pub mod Agent
pub mod Factories
