-- ===== src/Tests.antt =====
-- The theorems at concrete inputs, over the store in memory and the plain platform.
mod Queue
mod Counter
mod Nodes
mod Hosts
mod Fixups
mod Snapshot
mod Migrations
mod Recovery
mod Items
mod Status
mod Workers
mod Documents
mod Redirects
mod Failures
