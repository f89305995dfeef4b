-- ===== src/Tests.antt =====
-- Concrete runs of the model, and the theorems at inputs that meet their hypotheses.
mod Sample
mod Slaves
mod Requests
mod Strings
mod Guards
mod Servers
mod Registrations
mod Connections
mod Objects
mod Caches
mod Clusters
mod Processes
mod Threads
