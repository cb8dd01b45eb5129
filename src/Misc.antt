-- ===== src/Misc.antt =====
-- src/misc.c beside the paths: growing memory, and the filter of -o arguments. `my_dirname` and
-- `path_starts_with` are with the handlers, counting and byte counts with the options.
pub mod Memory
pub mod Growth
pub mod Args
mod Tests
