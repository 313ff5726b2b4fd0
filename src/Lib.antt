-- ===== src/Lib.antt =====
-- The verification library of sasd-protocols: protocols that keep a game of balls alike on several
-- machines. A client (game_*.c) turns keys into events, serialises them as packets, and sends them
-- to a server, which passes each packet on to the other clients with the sender's number put in. A
-- thread of each client cuts what it receives into packets and queues them; the game takes them
-- from the queue, and all clients compute the same states from the same events.
--
-- The parts, and the files that model them:
--
-- Balls models src/balls/balls.h and src/balls/balls.c, the step of the game. Balls/Types has the
-- structs and the well-formedness of states and events, Balls/Initial has `initial_state`,
-- Balls/Compare `compare_events`, Balls/Collide `collide_balls` and `reset_ball`, and Balls/Advance
-- with its children `advance_state`, a part for each loop: Move for the ball that is steered, moves
-- and may leave the arena, Score for the deaths and points. `qsort` is an argument; Balls/Sorting
-- says what the C standard promises of it, and Balls/Runs/Insertion has a routine that keeps the
-- promise. An access outside an array is `none`. An `int32_t` is an integer whose operations wrap.
--
-- Buffer models src/buffer.h and src/buffer.c: Buffer/Push the functions that write, Buffer/Pop
-- those that read. The allocator is an argument: does `malloc` succeed, and does `realloc` fail,
-- keep the block in place or move it? A caller's `buffer_t` is a handle, that is live, freed or
-- undefined. Buffer/Push/Fits and Buffer/Pop/Reads are the interface that Packets uses.
--
-- Packets models src/packets.h and src/packets.c: Packets/Serialize `packet_serialize`,
-- Packets/Deserialize `packet_deserialize`, and Packets/Layout is the layout of the bytes on the
-- wire, which the code does not mention.
--
-- Bvec models src/bvec.h and src/bvec.c, Vec src/vec.h and src/vec.c, the growing vectors. Vec/Slots is
-- the vector as its callers see it, by elements.
--
-- Framing has what src/recvpool.c and src/server.c share, the reading of a packet's size, and the
-- notion of a stream of whole packets. Recvpool models src/recvpool.c, its thread and its queue;
-- Server models src/server.c, its list of clients and the handlers of a client's thread. Each
-- handler is one step, as it runs under the mutexes of what it touches. What `recv`, `read` and
-- `send` give are arguments.
--
-- Server/Threads models the threads together: a state has the context, where each client's thread is,
-- and what went out on each connection, and a step is what one thread does under the mutexes that it
-- holds, so that the orders of the threads are the sequences of steps. A registration is one step,
-- although it takes the mutex of each history on its own, since an append to a history by its client
-- can be put before or behind it. Server/Threads/Hub is the specification, with the packets and the
-- notices as lists; Hub/Repeats says what a client gets of another one, Hub/Sound that the hub keeps
-- it. Link relates the two, Handlers and Accept say what the handlers do when they succeed, Moves,
-- Members and Joins have a simulation for each step, Rounds relates the steps to the round of the
-- loop in Server, and Promises has what follows. A step is there only
-- where its calls are defined: a write behind a block ends the run. Recvpool/Nodes is the queue of
-- Recvpool as stored nodes, with the addresses that `malloc` gives as an argument: a node whose packet
-- cannot be deserialised leaves the queue and stays stored, as in the code.
--
-- Rollback models the loop that src/game_timewarp.c and src/game_fasteventordering.c share: a client
-- stores its states and, by frame, the events that it knows; an event that comes late makes it compute
-- the states behind it again. Rollback/Cells has the blocks of events and the vectors of pointers to
-- them, Rollback/Keys what becomes of SDL's events, Rollback/Loop a round of the loop, and Rollback/Main
-- the program around it. What a round gets from the pool and from SDL is an input of it; rounds are
-- played while `running` is set, so not after the one in which the window is closed. The children
-- of Rollback/Loop follow a round: Turns the own and the received events, with Events and Arrivals for
-- where they are put, Synchronize the states that are computed again, Round all of it, and OnTime the
-- rounds without a late event. Rollback/Replay is the specification, a game with no trace.
--
-- TimeWarp has what src/game_timewarp.c does in its own way, and Ordering what
-- src/game_fasteventordering.c does: `compute_delays`, and in Ordering/Client the program that uses the
-- delays. Both give Rollback a `Protocol`.
--
-- DeadReckoning models src/dr_server.c in DeadReckoning/Server, and src/game_deadreckoning.c in
-- DeadReckoning/Client, where Estimate has the specification of what is shown.
--
-- LocalGame models src/game.c, the game without a network. Terminal models src/client.c, a client on a
-- terminal: a word that is typed is an input, with what came into the queue before it, and what is
-- seen is the prompt, the bytes that are sent and the pieces of text that are printed (Packets/Print;
-- Packets/Print/Values says which values are among them).
--
-- A vector of pointers to blocks of events holds the blocks themselves, since each block has one
-- element that points to it; a block that `realloc` moves leaves a dangling element, whose use is
-- undefined. The theorems about whole games suppose that blocks grow in place and memory does not run
-- out (`GrowsInPlace`), and bound the number of frames by 2^29, so that no frame leaves an `int`.
--
-- Loops over arrays and lists are recursion on the list, or on the number of rounds that are left.
-- The loops over a stream of packets, and the growth of a vector, run on fuel: one round for each
-- packet that is complete and one more, and one round for each element that is missing and one
-- more, are enough. The loop that prints packets needs one round more than there are, and the
-- recursion that frees the nodes of the queue a depth that is their number.
--
-- Not modelled: sockets, `select` and pipes, the creation of threads, drawing, the windows and
-- clocks of SDL, logging, and freeing but for the nodes of the queue; src/main.c, an unused sketch; and
-- the port to Java.
pub mod Balls
pub mod Buffer
pub mod Bvec
pub mod DeadReckoning
pub mod Framing
pub mod LocalGame
pub mod Ordering
pub mod Packets
pub mod Prelude
pub mod Recvpool
pub mod Rollback
pub mod Server
pub mod Terminal
pub mod TimeWarp
pub mod Vec
