-- ===== src/Tests.antt =====
-- Runs of the model on concrete data, each an instance of a theorem.
mod Alloc
mod Toc
mod Rebuild
mod Ram
mod Extents
mod Records
mod Options
mod Files
