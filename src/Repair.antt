-- ===== src/Repair.antt =====
-- packages/healing/src: the repair of a failed step. `toLowerCase`, the paths and the file system are
-- parameters.
mod Strategies
mod Engine
mod Applied
mod Verified
mod Recorded
mod Ends
mod Endless
mod Tests
