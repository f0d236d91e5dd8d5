-- ===== src/Examples.antt =====
-- Concrete tunnels, supervisors, graphs and clusters, and the theorems at them.
mod Samples
mod Graph
mod Planning
mod Running
mod Adding
mod Configured
mod Cluster
mod Published
mod Reaching
mod Commands
mod Streaming
mod Assigning
mod Forwarding
