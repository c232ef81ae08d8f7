-- ===== src/Lib.antt =====
-- Verification library of the semiconductor metrology simulator: the process core, and the
-- SECS-II codec, the HSMS layer and the GEM service of its SECS/GEM interface, translated into
-- definitions that compute, with the theorems that make them correct.
--
-- The parts and how they interact. The controller (include/ssim/core/controller.hpp,
-- src/core/controller.cpp) owns the machine's state: each request of the panel, of the command
-- line, of the host or of the scan and processing threads is posted to its inbox and runs to the
-- end on its own thread, drives the process state machine and publishes events. The host talks
-- to the machine over HSMS: bytes from the socket go through the frame decoder, whose frames the
-- session handles; the body of a data message is one SECS-II item. The GEM service judges a data
-- message by its catalogue, answers it, hands remote commands to the machine API, which submits
-- them to the controller, and reports the machine's events and alarms to the host.
--
-- Files:
-- - Base: shared names, tests on numbers, lists, and Result of include/ssim/core/result.hpp
--   (Base/Outcome).
-- - Core/Process: ProcessStateMachine::apply of src/core/process_state_machine.cpp, with its
--   reason codes; Core/Process/Table compares it with the table of docs/PRD.md 6.5.
-- - Core/Alarms: AlarmManager of src/core/alarms.cpp. Each call is its part under the mutex,
--   with the notices that it then publishes; Core/Alarms/Laws is about the calls in the order of
--   the mutex, Core/Alarms/Announced about threads that publish in any order.
-- - Core/Controller: Controller::handle_command, transition and the notify_* functions of
--   src/core/controller.cpp, each from the moment that it runs on the controller thread. The
--   thread, the inbox and the promise that hands the result back are not modelled: a run of the
--   controller is the list of requests in the order in which the inbox gives them. Publishing an
--   event and calling the scan driver are entries of a trace. A call of the alarm manager and
--   the notices that it publishes are one step of the controller; calls of other threads in
--   between are left out. Core/Controller/Invariant, Control and Rules (src/core/ui_rules.cpp)
--   hold the proofs.
-- - Core/MachineApi: MachineApi of src/core/machine_api.cpp. A call blocks until the controller
--   thread has applied the command, so it is one step of the controller; what other threads do
--   in between is not part of it.
-- - Core/Ring: SpscRingQueue of include/ssim/core/spsc_ring_queue.hpp, each action being one
--   access of an atomic that the other thread writes, or of a slot; the actions of the two
--   threads come in any order (sequential consistency). Indices wrap around at 2 ^ 64. The
--   doubling of the size has 63 rounds as fuel, enough for a capacity of at most 2 ^ 63
--   (Core/Ring/Index). The spinning, the waiting flags, the condition variables and the memory
--   orders weaker than sequential consistency are not modelled: a thread may always try again.
-- - Core/EventBus: EventBus of src/core/event_bus.cpp, each action being one critical section of
--   a thread; unsubscribe goes through its stages, or returns at once where the id is not in the
--   table. The calls of the handlers are a list of subscriber ids; what a handler does is not
--   modelled, but for the calls of the bus that it makes.
-- - Core/Queue: BoundedQueue of include/ssim/core/queue.hpp, each call as it runs under the
--   mutex; a call that would wait has the outcome none. Core/Queue/Fifo is about histories of
--   calls, Core/Queue/Waiting about the two condition variables: the threads that sleep or woke
--   and the notifications still to come are counted, and threads may wake without one.
-- - Secs2/BigEndian, Secs2/Item, Secs2/Codec: src/secsgem/secs2/item.cpp and codec.cpp. An
--   element of an array item is the bit pattern of the C++ value, which is what the codec moves:
--   a signed integer through its unsigned twin, a float through memcpy. The decoder recurs on
--   the nesting levels that are left (kMaxNestingDepth less the depth), so that it needs no
--   fuel; list loops recur on the count.
-- - Secs2/Message, Secs2/MessageFactory: message.hpp and message_factory.cpp. The registry's
--   std::map is a list in the order of the keys.
-- - Hsms/Frame, Hsms/FrameDecoder: src/secsgem/hsms/frame.cpp and frame_decoder.cpp. The
--   decoder's loop has the length of the buffer as fuel. Each round takes at least 14 bytes
--   (Hsms/FrameDecoder/Rounds), so that fuel does not run out before the bytes do.
-- - Hsms/Connection, Hsms/Timer, Hsms/DataMessage: connection_state.cpp and data_message.cpp of
--   src/secsgem/hsms, timers.hpp.
-- - Hsms/Session: src/secsgem/hsms/session.cpp, with its operations in Hsms/Session/Receive
--   (on_bytes, handle_frame), Send (allocate_system_bytes, queue_data, send_request, send_reply)
--   and Tick (on_tick); Hsms/Session/Exchange follows a request to its reply. The loop of
--   allocate_system_bytes has as fuel three rounds more than there are open requests, since the
--   numbers that are taken are theirs, 0 and the pending linktest's (Hsms/Session/Send/Fresh);
--   where fuel ran out, the operation would be none. Points in time are numbers of milliseconds,
--   so that `now - last_activity >= interval` is written without the difference.
--   session_config_from, which rounds floating-point seconds, is not modelled.
-- - Gem/Identifiers, Gem/Messages: identifiers.cpp and messages.cpp of src/secsgem/gem, with the
--   builders and parsers of whole messages in Gem/Messages/Builders and the two catalogues in
--   Gem/Messages/Catalogues. A test of an item's shape and the access that it guards are one
--   function that returns Option; a std::string is the list of its bytes.
-- - Gem/Service: GemService of src/secsgem/gem/gem_service.cpp: its state and how it sends, with
--   the remote commands in Gem/Service/Commands, what the host sends in Requests and what the
--   machine reports in Events. What it posts to the sender is a list, oldest first; the callback
--   with the system bytes that were used is the call on_sent. The conversion of a double to a
--   float, on bit patterns, and the time since the start are parameters (Surroundings). A
--   handler that takes value() of a parsed body returns a Result, so that taking it of a failure
--   is seen. The log, the wiring of the subscriptions and gem_config_from are not modelled.
-- - Host/Pattern: src/host_sim/pattern.cpp, the readable notation of items. The parser's
--   position is the text that is left; the position and the quoted words of an error's message
--   are left out. Its recursion has as fuel one more than the length of the text, and the loop
--   over a list's children the length of what is left and one more; both are enough, since each
--   node takes a character (Host/Pattern/Total). strtod, the conversion of a double to a float
--   and the equality of floats are parameters; strtoll and strtoull with base 0 are written out
--   (Host/Pattern/Words).
-- - Examples: the theorems at concrete inputs.
--
-- Bounds: bytes and header fields are natural numbers with their ranges as hypotheses where a
-- theorem needs them. Messages of errors are kept as texts.
--
-- Not modelled: sockets and the inbox threads; the hardware simulation, the analysis pipeline
-- (floating point), the host simulator but for its patterns, the configuration, the machine
-- runtime, the panel and the command line.
pub mod Base
pub mod Core
pub mod Secs2
pub mod Hsms
pub mod Gem
pub mod Host
mod Examples
