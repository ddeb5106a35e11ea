-- ===== src/Lib.antt =====
-- Verification of the embodied-hand-lab repository: a JAKA arm with an Inspire RH56 hand, teleoperated
-- from a Quest headset, recorded as episodes and driven by learned policies.
--
-- The program. Datagrams from the headset pass a gate that watches their session, sequence and age
-- (`src/motion_input/transport_gate.py`). Its samples pass a hold-to-run clutch, which decides when
-- arm and hand follow (`src/motion_input/clutch.py`). A coordinator admits the resulting targets by
-- epoch and sequence number, brakes and recovers (`src/teleop_rearchitecture/engagement.py`). The
-- newer chain of `src/teleoperation` has a clutch of its own over a relative pose mapper, a
-- lifecycle machine, and datagrams that carry accepted targets to the worker of the robot. The hand
-- is driven over a serial port (`src/rh56_driver`). Recording pairs the sources at the times of a
-- canonical clock (`src/episode_dataset/timeline.py`), hands samples to a writer on a thread of its
-- own (`src/episode_dataset/async_writer.py`), and is turned into rows afterwards
-- (`src/episode_dataset/synchronization.py`). A policy's action chunks are blended per command tick
-- (`src/embodiment_core/act_temporal_executor.py`).
--
-- The files. A module is a part of the program; its children are what is proved of it.
--   Prelude       lists, tests, integers and exceptions that all parts share; Float orders doubles.
--   Clutch        src/motion_input/clutch.py: `AnalogHoldToRun` (Trigger), `ArmClutchMachine` (Arm) and
--                 `HandClutchMachine` (Hand), with every method that changes state. A machine is a
--                 record, a method returns the new machine and the action.
--   Headset       src/motion_input/controller_provider.py with the packet of controller_protocol.py:
--                 samples and validity (Samples), the provider (Reception, Provider), the edges of the buttons
--                 (Adapter); src/motion_input/transport_gate.py: the monitor of the transport
--                 (Monitor), what a datagram is (Datagrams), and the gate, which composes the provider,
--                 the adapter, the monitor and the machines of Clutch (Gate).
--   Engagement    src/teleop_rearchitecture/engagement.py: `EngagementCoordinator`, each method with its
--                 result code, and any sequence of calls; Pose has `relative_pose`.
--   Serial        src/rh56_driver/serial_backend.py: the codes for 16-bit words (Words), frames and their
--                 splitting (Frames), register transactions with counters and failure contexts
--                 (Registers), the vector commands (Commands), the canonical ones (Canonical). The
--                 reply of the port is the list of chunks that successive reads return.
--   HandSchema    src/rh56_driver/hand_schema.py: the orders of the six fingers and the changes between
--                 them.
--   Timeline      src/episode_dataset/timeline.py: `advance_fixed_deadline`, `CausalTimeline` and
--                 `CanonicalClock`.
--   Recorder      src/episode_dataset/async_writer.py: the calls of the writer (Calls), the queue with
--                 its counters (Writer) and the thread that works it off (Worker). What the threads do is
--                 a list of events, in any order; putting a call and counting it are two events.
--   Synchronization
--                 src/episode_dataset/synchronization.py: the search of Python's bisect (Bisection), the
--                 latest observation of each source (Observations), the grid, the rows and the counts of
--                 the report (Report).
--   Ensemble      src/embodiment_core/act_temporal_executor.py: the dictionary by tick (Buckets), and the
--                 methods of `AbsoluteTimeTemporalEnsembler` (Executor).
--   Teleoperation src/teleoperation/processing/clutch.py (Clutch) over the anchors of
--                 src/teleoperation/transforms/frame_mapping.py (Mapper); the supervisor of
--                 src/teleoperation/supervision.py (Supervision); and the stub of the robot,
--                 src/teleoperation/jaka/fake_backend.py (Backend).
--   Lifecycle     src/teleoperation/state_machine.py with two enumerations of
--                 src/teleoperation/contracts.py. Sequence is src/teleoperation/sequence.py.
--   Wire          src/teleoperation/wire.py: the fields of a datagram (Layout), `encode_target` and
--                 `decode_target` (Packets), the functions that make packets (Requests), and the status
--                 packets with the loop of `WorkerStatusReceiver.latest` (Status).
--   Tests         runs on concrete inputs.
--
-- Conventions. An object is a record and a method that mutates it returns the new record beside what it
-- returns or raises, so what an exception leaves behind is part of the model. Times that the code
-- keeps non-negative are natural numbers; where the code tests a sign the argument is an integer. A
-- double is a point of an exact order where the code only compares it (Float), and its 64 bits where
-- the code only carries it (Wire). A record passed to a function from outside has only the fields that
-- the function reads.
--
-- Parameters. Numerical code is a parameter of the definitions that use it: the poses of numpy
-- (Mapper, Supervision, Engagement.Pose), rounding to single precision (HandSchema,
-- Serial.Canonical), weights and average (Ensemble), `zlib.crc32` and `float` of an integer (Wire),
-- `str.strip` (Lifecycle), the parser and the assembler of hand and head (Headset.Gate), the writer of
-- files (Recorder), the clock maps of the cameras and the rounding of the tolerance,
-- which may raise (Synchronization). The theorems hold for every choice, but for the laws of rounding that
-- are named as hypotheses.
--
-- Recursion and fuel. Receiving recurses on the chunks of the reply, whose end is the deadline. Four
-- loops count down on fuel: `split_frames` on the length of the buffer, since a turn consumes a byte or
-- more; `trim` on the number of stored entries, since a turn drops one; `bisect_loop` on the length of
-- the list, since a turn shortens the interval; and `grid` on the nanoseconds between the ends and two
-- turns more, since two grid times differ by a nanosecond or more at rates of up to 10 ^ 9. The other
-- loops are structural.
--
-- Not modelled: the native programs and the scripts; sockets, serial ports, cameras, files and
-- processes; kinematics, simulation and retargeting, which are arithmetic on floats; the dataset
-- exporters; the parsing of the headset's messages, the packets of hands and head, the collector, the
-- timing of the control loop and the session of the operator, which are left for later.
pub mod Prelude
pub mod Float
pub mod Engagement
pub mod Ensemble
pub mod Lifecycle
pub mod Serial
pub mod Teleoperation
pub mod Timeline
pub mod Tests
pub mod Clutch
pub mod Sequence
pub mod HandSchema
pub mod Wire
pub mod Headset
pub mod Synchronization
pub mod Recorder
