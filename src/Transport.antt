-- ===== src/Transport.antt =====
-- comsrv/src/transport: the tasks that own a connection.
pub mod CobsStream
pub mod Tcp
pub mod Can
pub mod Serial
