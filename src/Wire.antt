-- ===== src/Wire.antt =====
-- src/teleoperation/wire.py: the datagrams between the Python side and the worker of the robot.
pub mod Layout
pub mod Packets
pub mod Requests
pub mod Status
