-- ===== src/Tests.antt =====
-- Concrete runs of the modelled code: tests by evaluation, and the theorems at inputs that meet their
-- hypotheses.
mod Engaging
mod Clutches
mod Port
mod Times
mod Controllers
mod Fingers
mod Ensembling
mod Datagrams
mod Supervising
mod Transport
mod Synchronizing
mod Recording
