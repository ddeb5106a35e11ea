-- ===== src/Teleoperation.antt =====
-- src/teleoperation: the pose mapper and the clutch of a session, the supervisor, and the stub backend
-- of its tests.
pub mod Mapper
pub mod Clutch
pub mod Backend
pub mod Supervision
