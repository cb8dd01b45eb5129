-- ===== src/Lib.antt =====
-- CacheFS: a FUSE file system that shows another directory with other owners and permissions, and
-- keeps metadata, listings and file blocks in a cache on a faster disk.
--
-- The parts, and how they interact. FUSE calls the handlers of src/cachefs.c with a path below the
-- mount. A handler turns it into a path of the backend (`process_path`), asks the metadata cache
-- (src/cache_meta.c, over SQLite) and the block cache (src/cache_block.c, one file for each block),
-- calls the system, and stores or invalidates what the caches hold. What is shown to the user goes
-- through the maps of users and groups (src/usermap.c), the owner offsets and the chains of
-- permission rules (src/permchain.c).
--
-- Files:
--   Prelude         names shared by all: Boolean tests, lists, C strings, size_t, bits
--   Posix           return codes, struct stat, errno; Posix/Strtol and Posix/Strtok are the functions
--                   of the C library that the option parsers call
--   Meta            src/cache_meta.h and src/cache_meta.c: contexts, entries, one function for each
--                   C function. `Sqlite` has one field for each prepared statement; Meta/Contract says
--                   what is relied on, Meta/Sample is a database in memory that behaves so.
--   Meta/Entries, Meta/Listing, Meta/Transaction
--                   proofs on the metadata, on listings, on the transaction of cache_dir_store
--   Meta/Refine     the table of metadata as a map from paths to entries
--   Meta/Reach      the cache in time: calls and pauses as steps
--   Block           src/cache_block.h and src/cache_block.c: paths of blocks, the walk through the
--                   block directory, eviction. `BlockFs` is what is called of the system.
--   Block/Names, Block/Operations
--                   the hash and the names of block files; the public functions
--   Block/Contract, Block/Sample
--                   what is relied on of the system; a file system in memory that behaves so
--   Block/ReadWrite, Block/Drop, Block/Evict, Block/Oldest, Block/Account, Block/Collision
--                   proofs on reads after writes, invalidation, eviction, the counted size, and the
--                   hash
--   Permchain       src/permchain.c: rules and their application; Permchain/Parse is the parser
--   Permchain/Apply, Permchain/Parsed
--                   proofs on the bits that a chain can change
--   Usermap         src/usermap.c: the tables; Usermap/Spec is `parse_user_map` of src/cachefs.c
--   Usermap/Lookup, Usermap/Inverse, Usermap/Fuel
--                   proofs on lookups, on the pair of a map and its reverse map, and on the loop
--   Mount           src/cachefs.c: settings, the handlers' state (`State`: both cache contexts, the
--                   counters, the system), and what they call of the system (`Os`)
--   Mount/Ids, Mount/Paths, Mount/Attr, Mount/Files, Mount/Policy, Mount/Entries
--                   the offsets; process_path; getattr; open, read, write and
--                   src/cache_coherency.c; chmod, chown and the owner of new files; delete, mkdir,
--                   symlink and rename
--   Mount/Create, Mount/Forward, Mount/Readdir
--                   mknod, create and link; the handlers that forward one call; readdir
--   Mount/Offset, Mount/Cached, Mount/Reread, Mount/Fresh, Mount/Forget, Mount/Renamed, Mount/Chmod,
--   Mount/Owner, Mount/Expired, Mount/Relist, Mount/Prefix, Mount/RootListing
--                   proofs on these; Mount/Sample is a system in memory
--   Userinfo        src/userinfo.c: lookups of users and groups, and the cache of memberships.
--                   `Stdlib` is qsort and bsearch, `UserDb` the two databases
--   Userinfo/Order, Userinfo/Names, Userinfo/Cache, Userinfo/Members, Userinfo/Belongs
--                   the comparisons and what is relied on of qsort and bsearch; the growing buffer;
--                   searches; the arrays; membership. Userinfo/Sample is an insertion sort
--   Options         the options of src/cachefs.c: keys, numbers and the settings at the start
--   Options/Process, Options/Mirror, Options/MapFile, Options/Start, Options/Configure
--                   process_option; --mirror, with the counting of src/misc.c; the map files; what the
--                   parts of `main` have in common, with the byte counts of src/misc.c; `main`
--   Options/Leads, Options/Plain, Options/Root, Options/Lines, Options/Pairs
--                   proofs on what is so of the settings that `main` goes on with
--   Misc            src/misc.c: Misc/Memory is the memory block, with proofs in Misc/Growth; Misc/Args is
--                   the filter of arguments, with its use in src/cachefs.c
--   Arena           src/arena.c: blocks and what is handed out of them; Arena/Regions is proofs on that
--   RateLimiter     src/rate_limiter.c, over the operations of double; RateLimiter/Queue is proofs on
--                   any row of requests
-- A Tests module applies each theorem that has hypotheses at a concrete input.
--
-- Conventions. A C function is a function with the name of the C function; helpers stand for loops
-- and for the parts after an early return. State is passed and given back. A NULL pointer is `none`.
-- A system call that fails leaves the system as it was. `size_t` wraps at 2 ^ 64; `uid_t` is a 32-bit
-- number and -1 is `no_id`; a `char` is a byte, signed where the hash reads it; the clock
-- and what the caches keep are whole seconds, and one handler reads the clock once; the block size of the
-- settings is not 0, and a TTL below 0 is 0. snprintf into PATH_MAX bytes keeps 4095 of them.
--
-- Fuel. `add_rules` and `parse_elements` take the length of the text plus one as fuel, and each of
-- their rounds takes at least one character. `decimal` takes the number plus one. The loop that
-- doubles a buffer in `user_uid` and `group_gid` takes 54, as many lengths as fit in a size_t, and that
-- of `parse_mirrored_users` the number of names plus one. A capacity that is doubled passes any size_t
-- in 66 rounds, and `kept_tokens` takes at least one character in a round. All other loops
-- are recursions on a list or on a count that the C code computes.
--
-- Not modelled: failed allocations, debug output and statistics printing, the mutex of the lazy
-- start, freeing; the sleep of the rate limiters in bindfs_read and bindfs_write; of the
-- options the arguments that are added for libfuse and the making of the cache root; signal handlers; src/cache_meta_lmdb.c, which is not built.
pub mod Prelude
pub mod Posix
pub mod Meta
pub mod Block
pub mod Permchain
pub mod Usermap
pub mod Mount
pub mod Userinfo
pub mod Options
pub mod Misc
pub mod Arena
pub mod RateLimiter
