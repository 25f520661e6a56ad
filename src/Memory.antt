-- ===== src/Memory.antt =====
-- packages/memory/src/run-store.ts: the memory of the project and the files of its runs. A file that
-- was written as JSON stands by its value.
mod Values
mod Project
mod Entries
mod Loads
mod Finds
mod Tidy
mod Bundles
mod Latest
mod Tests
