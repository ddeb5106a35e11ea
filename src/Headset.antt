-- ===== src/Headset.antt =====
-- src/motion_input/controller_provider.py and transport_gate.py: what the host makes of the packets
-- that the headset sends about its left controller. `Samples` has the data, `Reception` and `Provider`
-- keep the session and the counters, `Adapter` demands a release after each fault, `Monitor` holds
-- the two hysteresis channels, `Gate` composes them.
pub mod Samples
pub mod Reception
pub mod Provider
pub mod Adapter
pub mod Monitor
pub mod Datagrams
pub mod Gate
