-- ===== src/Lib.antt =====
-- The Python SDK of Sawtooth and its xo example, as far as they are modelled.
--
-- A transaction processor (sawtooth_sdk/processor) registers its handlers with a validator, receives
-- transactions over a stream (sawtooth_sdk/messaging), routes each to a handler, gives the handler a
-- context for the validator's state, and answers. The xo example (examples/xo_python/sawtooth_xo) is
-- such a handler: it plays tic-tac-toe and keeps its games in the state. A consensus engine talks to
-- the validator through a service and a driver (sawtooth_sdk/consensus) over the same stream.
--
-- Prelude, Text, Errors, Action and Dict hold what the parts share: numbers and lists, texts as lists
-- of code points and bytes with UTF-8, Python's exceptions as values, calls that change a state and
-- may raise, and Python's dict. Exceptions keep the state that was written before them.
--
-- Messaging     what Stream, Future and the received futures offer, as the record Link, and
--               Messaging.Stream, what the methods and coroutines do to the futures and queues when
--               each runs undivided; Messaging.Stream.Threads has the threads themselves: Clients and
--               EventLoop are what each may do next, Moves puts them together, Safe, Sending and Serving
--               keep an invariant that Reach carries to all runs, and Order, Receiving, Handing,
--               Broken, Recovery, Calls and Constructor have what follows from runs
-- Processor     Access (the calls of Context that a handler uses, and what a store is), Context
--               (context.py), Core (core.py: handlers, registration requests, _process) and Running
--               (core.py: _register, _unregister, _process_future, start) and Config (config.py)
-- Consensus     Service (zmq_service.py) with its Interface (service.py), Notifications and Driver
--               (zmq_driver.py, engine.py), where Driver.Start has the engine's thread beside the
--               driver's loop
-- Signing       Core (sawtooth_signing/core.py), Keys (secp256k1.py), and the signer and the factory
--               (__init__.py); the proofs are in Soundness, Signatures and Errors
-- Xo            Board, Rules and Handler (processor/handler.py), Game and State
--               (processor/xo_state.py), Payload (processor/xo_payload.py), and Processing, which
--               puts the handler into the processor; Display (what the handler logs); Config
--               (processor/config/xo.py) and Main (processor/main.py); Client (xo_client.py), with
--               World for the libraries that it calls, Reading and Requests for the REST API, Batches
--               and Transactions for what it sends, and the proofs in Payloads, Signed, Authentic,
--               Accepted, Waiting and Sending; Cli (xo_cli.py), with Arguments for the parsers, Listing, Shell and Drawing for
--               what the commands read and print, and the proofs in Parsed, Running, Reads, Showing and
--               Printing
-- Example       a small validator that the tests run on, with stand-ins for secp256k1 and for the web
--
-- The parts meet at interfaces: a handler works over the interface Access, which Context fills over a
-- Link; an engine works over the interface Service, which ZmqService fills over a Link; the client's
-- signer works over the interface Context of Signing.Core, which Keys fills; and what the client sends
-- and shows is what the processor's XoPayload and XoState read and write.
--
-- A function of the source has the definition of its name without the leading underscore; the
-- branches of `apply` are apply_delete, apply_create and apply_take, and the tests of a take are in
-- Xo.Rules. Fields of `self` are records or the state of an Action; `fut` of start is beside the state.
--
-- Loops that the source runs for ever take a number of rounds: the registration loop ends within
-- k + 1 rounds where the validator is not ready k times, the waiting for an activation within j + 1
-- rounds where it comes after j others, the driver's loop takes one round for a
-- message, and start says whether it has returned within its rounds. The client's waiting takes a
-- request of the status for a round, and more rounds than there are microseconds to wait are enough.
--
-- Threads are lists of moves: a move is a part of the code that other threads do not divide, or divide
-- without a difference to the state that is kept, `move` says what it does, or that it is not possible,
-- and `run` makes one after the other, so that a theorem on all lists of moves is one on all
-- interleavings. In Driver.Start a round of the loop and `stop` are one
-- move each.
--
-- Parameters stand for what is not in the sources: sha512, the tables of digits and white space that
-- int() uses, the generated encodings of protocol buffers (records Codec), the engine, and the link to
-- the validator; the library secp256k1; requests, time, random, yaml, base64 and files for the client;
-- argparse, the terminal and the environment for the command line; os, toml and yaml for the
-- configuration. What is relied on is named: IsStore, Serves, IsQueue, IsSecp256k1, IsAscii, IsClock,
-- Works, Prints, Conforms.
--
-- Not modelled: logging (log.py, and the log calls but for the text of _display), the sockets of the
-- stream and the calls of asyncio beyond what the moves say of them, the printing of the processor's
-- configuration, the help texts of the command lines, the message factory of the tests
-- (xo_message_factory.py calls a package that is not in the repository), the build copy of xo, and the
-- code in Java.
pub mod Prelude
pub mod Text
pub mod Errors
pub mod Action
pub mod Dict
pub mod Messaging
pub mod Processor
pub mod Consensus
pub mod Signing
pub mod Xo
pub mod Example
