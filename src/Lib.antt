-- ===== src/Lib.antt =====
-- A model railway that a controller drives: loco_controller keeps the connections of the locos, of the
-- actuators and of the sensors, and an oracle that sends the locos towards their targets in rounds.
-- The controller and the firmware of the three kinds of boards speak the protocol of loco_protocol.
-- The boards are loco_pico (in each loco, it drives the motor), actuators_pico (it sets the switches)
-- and sensors_pico (it reads the tags of the locos that pass).
--
-- The parts and their files:
--   Protocol     loco_protocol/src/lib.rs: the enums, their byte codes and texts, the wire structs.
--                One module per enum, with `try_from` (TryFrom<u8>), `into` (From<..> for u8) and
--                `fmt` (Display); Protocol/Codes puts the codes together.
--   RailNetwork  loco_controller/src/rail_network.rs: Types, Convert (the conversions between
--                checkpoints and segments), Tables (`RailNetwork::new`), Search (the two searches
--                for the next checkpoint). Topology, Conflicts, Soundness and Arrival hold the proofs.
--   Backend      loco_controller/src/backend.rs: Types, State (`Backend::new` and the operations that
--                touch no stream), Frames (the messages), Locos, Actuators and Sensors (the operations
--                on the connections). Delivery, Reports, Connections, Termination and Totality hold
--                the proofs.
--   Oracle       loco_controller/src/oracle.rs: Types, Segments (`determine_active_segments`), Order
--                (`sort_active_segments`), Controls (`determine_controls`), Process (`active_locos` and
--                `process`). Intents, Commanded and Turns say what its results should be,
--                without the operations. Commands, Safety, Plans, Progress, Ordering, Priorities, Fairness,
--                Arrivals, Switches, Grants, Totality and Round hold the proofs.
--   Http         loco_controller/src/main.rs: the handlers of the HTTP interface as functions on the
--                backend, and `serve`, which picks the handler of a request. Http/Automatic and
--                Http/Totality hold the proofs.
--   Threads      loco_controller/src/main.rs: `backend_locos`, `backend_sensors`, `backend_actuators` and
--                `backend_oracle`, each for one connection or one round. Calls has the calls on the
--                shared backend, each of which holds one mutex, and sequences of them; Views has what
--                the threads see of the backend, as an abstract state, and Program has `main`: the
--                shared backend and the oracle from the start on, through a list of what the program
--                meets. Trace says which calls each of these events is. Refinement, Rounds, Reports,
--                Requests, Entries, Totality, Steps and Running hold the proofs.
--   Pico         the boards. Sizes: the constants of common_pico/src/lib.rs. Receive (how a board
--                receives a message) and Loop (the loop of `handle_messages`), with Replay, which follows
--                that loop through a stream of whole messages, are shared by
--                Pico/Loco: loco_pico/src/bin/loco_pico.rs, with Types, Motor (`PwmController`),
--                Messages (`Loco`), Main (a round of `main`) and Program (`main`); Safety, Termination,
--                Delivery, Answers, Requests, Replay, Connect and Frequency hold the proofs. And by
--                Pico/Actuators: actuators_pico/src/bin/actuators_pico.rs, with Types, Messages
--                (`SwitchRails`, `Actuators`), Switches (the array of `main`), Main (a round of `main`)
--                and Program (`main`); Delivery, Replay and Termination hold the proofs.
--                Pico/Sensors: sensors_pico/src/bin/sensors_pico.rs, with Types, Tags
--                (`tag_reader_task`), Updates (`Sensors`), Session (the loop of `handle_sensors_updates`,
--                through a list of what its rounds meet) and Tasks (the two tasks on the slots);
--                Buffer, Delivery, Locating and Slots hold the proofs.
--                Pico/DetectTagUid: sensors_pico/src/bin/detect_tag_uid.rs, the body of its loop.
--   System       the parts together: a round of the oracle from the locos' answers, over the bytes on the
--                streams of the controller, to the switches and the motors behind the boards. Links has
--                what a round writes on which stream, Questions and Commands the two halves of a round,
--                Round the whole round, Switches and Locos the boards behind it (Orders, Distinct and
--                Motions hold the lemmas), and Frames the form of all frames.
--   Wire         bincode and the TCP streams of the controller, which the program only calls: an
--                interface of functions, and the documented behaviour as a record of laws, which the
--                theorems that need it take as a hypothesis. Pico/Socket is the same for the boards;
--                `PwmOutput`, `Output` and `Mfrc522` (the Types of the three boards) and `Reader`
--                (Pico/DetectTagUid) stand for the drivers of the outputs and of the tag readers.
--   Common       what the parts share: results, maps, the stable sort, Boolean tests.
--   Examples     the theorems at concrete inputs; Examples/Pipe is a stream on which the laws of Wire
--                hold, Examples/Slices a socket on which those of Pico/Socket hold.
--
-- The correspondence. A fallible function returns `Result`: `ok`, `err` with the source's error, or
-- `panic` for an `unwrap` that fails. A method that changes the backend or the oracle takes the state
-- and returns the new one. A map is an association list. The source's `HashMap` of locos has no fixed
-- order; the model's list has one, and the theorems on rounds hold for the locos in any order. A `u8`
-- is a number; where the code may wrap, the definition says what it does. A guard of a mutex is one
-- step here, and no lock is poisoned. Loops are recursion on the list that they walk.
--
-- Bounds. The two searches recur with the iterations that are left before `longest_path`, 6 on the
-- tables of `new`: a way round the railway has 6 checkpoints, so a target is at most 7 hops away.
-- `serve_sensors`, which only an error ends, takes fuel: a round takes at least four bytes off the
-- stream, so fuel beyond the number of bytes to come is enough. So does `handle_messages` of the boards,
-- whose messages take at least the three bytes of a header. The buffer of a payload has 256 bytes, and
-- the length of a payload is a byte.
--
-- Threads. Each call of the controller's threads holds one mutex and is one step; the calls of all
-- threads come in any order. The sensors' reports are a call each, as in the source. What a loop of the
-- oracle computes between its calls touches nothing that is shared. Threads/Program takes a whole
-- connection, or a whole round, as one event, one after the other. On the sensors' board, the sections
-- that hold the mutex of the slots are the steps.
--
-- Not modelled: the start of the boards (Wi-Fi, the USB log, the set-up of pins and readers), their LED
-- and timers, the durations that the tool for tags logs, the listeners and arguments of
-- loco_controller/src/main.rs, the routing of actix-web, and the build scripts: they are calls of drivers
-- and of third-party code, around no state of their own. Dropped connections reach the model as reads and
-- writes that fail.
pub mod Common
pub mod Protocol
pub mod Wire
pub mod RailNetwork
pub mod Backend
pub mod Oracle
pub mod Http
pub mod Threads
pub mod Pico
pub mod System
pub mod Examples
