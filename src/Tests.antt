-- ===== src/Tests.antt =====
-- Concrete devices, peers and codecs, and the theorems at inputs that meet their hypotheses.
mod Toys
mod Peers
mod Datagrams
mod Links
mod Loops
mod Sessions
mod Values
mod Rings
mod Threads
mod Backends
mod Servers
mod Tables
