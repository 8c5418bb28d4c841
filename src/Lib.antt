-- ===== src/Lib.antt =====
-- The allocators, the filepath code and the small utilities of libdane, a C library.
--
-- The parts and the files that model them (paths from the root of the repository):
--
-- - Base: numbers, words, Boolean tests, lists and the lemmas that all files share.
-- - Common: the result codes of include/libd/common.h, and the test of a mask; `Limits` has the macros
--   for the limits of each width.
-- - Memory.Helpers: src/memory/internal/helpers.c, the test of an alignment and rounding up.
-- - Memory.Linear: src/memory/linear_allocator.c. A `LinearAllocator` holds the fields of the
--   struct; a pointer that is handed out is its offset from the start of the data. `create`,
--   `destroy`, `alloc`, `set_savepoint`, `restore_savepoint`, `reset` and `bytes_free` are the
--   `libd_linear_allocator_` functions; they return the result code, what was stored through the
--   out parameter, the allocator, and the system calls that succeeded. `Kernel` says how the
--   system answers. `Valid` has the invariant, `Arena` the client: a step relation over any
--   sequence of calls, with the blocks that are held, which `Blocks` describes; `Ungranted` is about
--   an `mprotect` that refuses to grow.
-- - Memory.Pool: src/memory/pool_allocator.c. A `PoolAllocator` holds the fields of the struct and
--   the bytes of the slots, in which the free list is threaded by 32-bit indices; an access
--   outside of the block is `none`. `create`, `destroy`, `alloc`, `free` and `reset` are the
--   `libd_pool_allocator_` functions. `Valid` relates the bytes to a list of free slots,
--   `FreeList`, `Alloc` and `Free` show what each operation does to that list, `Pointers` which
--   pointers `free` takes, and `Client` is the step relation of a client that also writes into the
--   slots it holds.
-- - Utils.DArray: include/libd/utils/darray.h, for any element type. An outcome is a return, an
--   access out of bounds, or a growth loop that has not ended. The loop runs on fuel; 64 rounds
--   are enough for every need up to 2 ^ 63 elements. `Valid` has the invariant, and `Client`
--   compares any sequence of writes with the same writes on a list, on a heap that may refuse.
-- - Utils.Encodings: include/libd/utils/encodings.h.
-- - Platform.Paths: src/platform/posix/paths.c, and Filesystem.PlatformWrap:
--   src/filesystem/internal/platform_wrap.c.
-- - Platform.ThreadLocal: src/platform/posix/thread_local_storage.c. `Slots` maps a thread and a
--   key to a block; `storage_` and `static_` are the functions of a handle and of the static one.
--   `Replies` lists what a call can reply, `Interleaved` is the step relation of several threads
--   on one handle, with a record of what each wrote last, and `Cleanup` that of starts and
--   cleanups of the static storage. A static handle is `NULL`, a handle, or one that was freed; an
--   access to a freed one is `none`. The functions of a handle are given `NULL` or one that is not
--   freed, but for `storage_destroy`, which is given any of them.
-- - Filesystem.Filepath: `libd_filesystem_filepath_normalize` of src/filesystem/filepath.c. A scan
--   position is the list of the bytes behind it and the list of those ahead, up to the end of the
--   object, and the output is a function from offsets to bytes. The loop runs on fuel, one unit
--   for each round; for the paths that `General` and `Clean` describe, one round more than the
--   path has bytes is enough. `Spec` describes the bytes that are kept, `Steps` a round at such a
--   byte, `Clean` whole paths of them, `Stuck` a byte without progress. `General` is the
--   specification for every path, with the paths that read out of bounds: a path is a list of
--   tokens, walked on a stack of names. `Written` and `Runs` relate the output and the rounds to
--   it; `Characters`, `Names`, `References`, `Stack` and `Components` are about the single
--   components, `General.Ends` about the ends of the loop, `General.Tokens` about references on
--   every stack, `General.Walks` about the tokens of a path, `General.Refine` about whole paths,
--   `General.Rooted` about the bounds of paths from the root. `Walk` is the specification for paths
--   from the root with one separator behind each reference, and `Refine` derives it from `General`.
--   `Idempotent` is about normal forms as paths, `Progress` about the end of the loop on every text,
--   `Room` about an output that is too small, `Faults` about paths that read out of bounds, and
--   `Lower` about an output below the input. `Stubs` has the functions without code. The table of
--   tests/filesystem/test_filepath.c is run in `Filepath.Tests`.
-- - Filesystem.Tokens: the token types of src/filesystem/filepath.h.
-- - Filesystem.Allocator: src/filesystem/filepath_allocator.c and
--   src/filesystem/internal/allocator_wrap.c, on top of Memory.Linear; `Client` is any sequence of its
--   calls.
-- - Errors: src/errors/errors.c, src/errors/internal/platform_wrap.c and include/libd/errors.h, on top
--   of the static storage of Platform.ThreadLocal. `Bytes` has the bytes of a context, `Laws` what a
--   thread reads back, `Sizes` a storage of another size.
-- - Testing: include/libd/testing.h. `Registry` is the list of tests and the loop of `main`, on fuel for
--   one round more than there are tests; `Predicates` and `Assertions` are the comparisons, on words
--   of 64 bits, and what an assertion prints.
--
-- The platform is a 64-bit one: `size_t` and `uintptr_t` have 64 bits, and every narrower sum is cut
-- to its width where the source does so. The largest alignment is 16.
-- `malloc`, `realloc`, `mmap`, `mprotect`, `munmap`, `sysconf`, `vsnprintf`, `strcmp` and the pthread
-- calls are parameters; theorems that need an answer name it as a hypothesis, and the tests
-- instantiate them.
--
-- Not modelled: what a destructor does with a block at the end of a thread, and the compiler macros of
-- include/libd/utils/align_compat.h. The functions that include/libd/filesystem.h declares, other than
-- `libd_filesystem_filepath_normalize`, `_expand` and `_ancestor`, have no code. The specification of
-- normalisation is about names in whole UTF-8 characters, and an output above the input.
pub mod Base
pub mod Common
pub mod Memory
pub mod Utils
pub mod Platform
pub mod Filesystem
pub mod Testing
pub mod Errors
