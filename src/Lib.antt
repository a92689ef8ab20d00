-- ===== src/Lib.antt =====
-- ld_preload, the interposer of rtld_linux.c: a shared object that takes the place of file calls of
-- libc, maps one path prefix to another in their arguments, and passes them on.
--
-- The parts and how they interact:
-- - Path/Clean.antt is `clean_path_into`. Path/Normal.antt says what cleaning a path means, by its
--   names, apart from buffers; Path/Clean/Refine.antt relates the two. Path/Join.antt is
--   `join_and_clean_path`.
-- - Path/Prefix.antt is `struct rewrite_policy`, `path_matches_prefix`, `substitute_prefix` and
--   `substitute_prefix_reverse`. Path/Compose.antt puts cleaning in front of the substitution, as
--   the ends of `rewrite_absolute_path` and of `rewrite_relative_path_from_dirfd` do.
-- - Policy.antt is `init_rewrite_policy`, on what `getenv` gives, and Policy/Stores.antt its
--   assignments in their order.
-- - Libc.antt names the interposed calls (`Call`), the symbols looked up (`Symbol`) and what is asked
--   of the environment, the dynamic linker and the real functions (`Libc`): these are parameters.
-- - Process.antt is the static state (`resolve_once`, `rewrite_once`, the pointers `real_...` and
--   `rewrite_policy`) with its initialisation, `REQUIRE_SYMBOL` and the variadic mode. Code that
--   changes the state is a function from a process to an outcome with the next process.
-- - Rewrite.antt is what becomes of a path argument: `rewrite_absolute_path`,
--   `rewrite_relative_path_from_dirfd`, `rewrite_path_argument`, `rewrite_cwd_relative_argument`,
--   `rewrite_at_argument`, and the block that the `...at` functions write out (`at_target`).
--   Rewrite/Relations.antt says what is passed on, from the process at the entry.
-- - Orig.antt is every `orig_...`. Interpose/ has the exported functions, by how they rewrite:
--   Plain (not at all), Absolute, Cwd, At, Pair (two paths) and WorkingDirectory (`getcwd`).
--   Interpose/Dispatch.antt gathers them in one function of the call. Interpose/Callers.antt says
--   what a caller has to provide, and Interpose/Passes.antt as which call another is passed on.
-- - Path/Translate.antt says where a policy sends an absolute path, by the abstract clean text, and
--   Interpose/Redirect.antt where it sends a call. Rewrite/Exact.antt and Interpose/Exact.antt relate
--   the code to them. Path/Confined.antt is about the names of such a path.
-- - Interpose/Steps.antt is a process as a sequence of whole calls, of any thread, and of changes to
--   the world between them. Interpose/WorkingDirectory/Round.antt puts `chdir` and `getcwd` together.
-- - Program.antt is a client: it makes interposed calls and, between them, runs other code. `run` is
--   a run with the library in front of libc and `plain` one without it. Program/Transparent.antt is
--   about a policy that is disabled, Program/Lands.antt and Program/Redirected.antt about one that
--   rewrites, and Program/Live.antt about every process.
-- - Smoke.antt is smoke/fixture.c, the client of the smoke tests: its helpers, and below Smoke/ its
--   scenarios, by their function names, and `main`. What it asks of functions that the library does
--   not interpose, and its memory, is a parameter (Smoke/Environment.antt).
-- - Examples/ has a small world, runs at concrete paths, and the theorems applied to them.
--
-- How the code is read. A C string is the list of its bytes, without the NUL. An outcome is `ok`, a
-- return of -1 (`refuse`), an access outside an object (`fault`), or that the fuel was not enough
-- (`hang`). A buffer is what has been written to it, with the size of its object; every access to it
-- is tested against that size. The loop of `clean_path_into` has one unit of fuel for each byte of
-- the source and one more, which is enough because every round but the last takes at least one byte.
-- PATH_MAX is 4096, as in linux/limits.h.
-- The digits of a number `n` get `n + 1` rounds, of which `digits-enough` (Prelude/Int.antt) shows that
-- they are enough.
-- `size_t` values do not wrap: each is at most the length of an object plus a small constant.
--
-- Assumed of libc, in `IsLibc` (Process/Laws.antt): the strings from `getenv`, `getcwd` and
-- `readlink` have no NUL inside. What the real functions write to the buffers they are given is not
-- tested. A real call may change the world in any way, and answer anything. Theorems that compare a
-- run with the library to one without it also assume, in `IgnoresMode` (Program/Transparent.antt),
-- that the real `open` and `openat` do not read a mode that the flags do not ask for, and a settled
-- process (Process/Settled.antt): both initialisations are behind, and the real function was found of
-- each call that is made. No theorem asks for all of them, since glibc exports neither `newfstatat`
-- nor `openat2`. Reading a variadic argument that was not passed is undefined in C, and counts as a
-- fault. C leaves open in which order `link` and `rename` evaluate their two rewritten arguments; the
-- order is a parameter too (`right_first`).
--
-- In the fixture a string constant passed by pointer is an address (`literal`), a local variable that
-- a call fills is an address of the `Frame`, and a child of `fork` is the run in which `fork` answers
-- 0. A real `execve` or `execv` that succeeds does not return; its answer stands for the status with
-- which the new program ends, and the child ends with that. The branch for a `SYS_openat2` that is
-- defined is the one modelled.
--
-- Not modelled: threads that run at the same time (a `pthread_once` is one step), lengths above
-- INT_MAX in the result of `snprintf`, what the kernel does, the Go launcher (main.go, terminal.go,
-- exports.go) and the shell scripts of the smoke tests (smoke/run.sh, smoke/audit_workloads.sh).
pub mod Prelude
pub mod Path
pub mod Policy
pub mod Libc
pub mod Process
pub mod Rewrite
pub mod Orig
pub mod Interpose
pub mod Program
pub mod Smoke
pub mod Examples
