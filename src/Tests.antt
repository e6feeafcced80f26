-- ===== src/Tests.antt =====
-- Concrete stores, queues and servers, and each theorem applied to one of them.
mod Mongo
mod Queue
mod Endpoints
mod Serving
mod Scheduler
mod Uploads
mod Pools
mod Watcher
mod Tasks
mod Disk
mod Wired
mod Docker
mod Texts
mod Served
mod Created
mod Containers
mod Start
