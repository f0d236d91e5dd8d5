-- ===== src/Daemon.antt =====
-- internal/daemon: the supervisor of the tunnels and the processes that it runs.
pub mod Process
pub mod Supervisor
