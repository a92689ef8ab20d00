-- ===== src/Examples/Fixture.antt =====
-- What the fixture runs over: real calls whose answers are listed in their order, and a memory.
use ld_preload.Prelude.{
  ℕ, ◌+◌, ◌<◌, true, false, List, [], ◌∷◌, some, refl, arith, Bytes, codes, get_or, IsCString,
  length, take, ℤ,
}
use ld_preload.Examples.World.{small_libc, small_libc-IsLibc, settled}
use ld_preload.Libc.{Libc}
use ld_preload.Path.Clean.{path_max}
use ld_preload.Policy.{disabled_policy}
use ld_preload.Process.{Process}
use ld_preload.Process.Laws.{IsLibc}
use ld_preload.Process.Settled.{IsSettled}
use ld_preload.Program.Transparent.{IgnoresMode}
use ld_preload.Smoke.{payload, payload_fd}
use ld_preload.Smoke.Environment.{Outside, Frame, eexist}

-- The world counts the calls, and a call answers what stands at its number.
abbrev pub scripted : List ℕ → Libc ℕ
scripted answers = record small_libc { call = λ c w. (ℤ.pos (get_or answers w 0), w + 1) }

pub scripted-IgnoresMode : (answers : List ℕ) → IgnoresMode (scripted answers)
scripted-IgnoresMode answers c w h = refl

pub scripted-IsLibc : (answers : List ℕ) → IsLibc (scripted answers)
scripted-IsLibc answers = record {
  getenv_text = small_libc-IsLibc.getenv_text;
  getcwd_text = small_libc-IsLibc.getcwd_text;
  readlink_text = small_libc-IsLibc.readlink_text;
}

-- A parent of children that end well, with a memory that holds the payload everywhere.
abbrev pub outside : Outside ℕ
outside = record {
  errno = λ w. eexist;
  put_errno = λ e w. w;
  report = λ s w. w;
  announce = λ s w. w;
  strerror = λ e. codes "error";
  literal = λ s. 100;
  load = λ a n w. take n payload_fd;
  string = λ a w. payload;
  clear = λ a n w. w;
  terminate = λ a n w. w;
  field = λ f a w. 0;
  put_field = λ f a v w. w;
  mkdtemp = λ t w. (some (codes "/tmp/ld_preload_smoke.abcdef"), w);
  chmod = λ p m w. (ℤ.pos 0, w);
  setxattr = λ p n v l f w. (ℤ.pos 0, w);
  getxattr = λ p n v l w. (ℤ.pos l, w);
  fgetxattr = λ d n v l w. (ℤ.pos l, w);
  lgetxattr = λ p n v l w. (ℤ.pos l, w);
  fork = λ w. (ℤ.pos 9, w);
  waitpid = λ p s o w. (p, w);
  execv = λ p a w. (ℤ.negsuc 0, w);
  fchdir = λ d w. (ℤ.pos 0, w);
  syscall_openat2 = λ d p h n w. (ℤ.pos 3, w);
  wifexited = λ s. true;
  wexitstatus = λ s. s;
  wifsignaled = λ s. false;
  wtermsig = λ s. 0;
  wifstopped = λ s. false;
  wstopsig = λ s. 0;
  atoi = λ s. ℤ.pos 3;
}

abbrev pub frame : Frame
frame = record {
  buf = 1;
  read_buf = 2;
  st = 3;
  stx = 4;
  stfs = 5;
  times = 6;
  wait_status = 7;
  how = 8;
  exec_argv = 9;
  exec_envp = 10;
}

abbrev pub unrewritten : Process ℕ
unrewritten = record settled { rewrite_policy = disabled_policy }

pub unrewritten-IsSettled : IsSettled unrewritten
unrewritten-IsSettled = record { resolved = refl; configured = refl }

pub settled-IsSettled : IsSettled settled
settled-IsSettled = record { resolved = refl; configured = refl }

abbrev pub notes : Bytes
notes = codes "/from/notes"

pub notes-short : IsCString notes × (length notes < path_max)
notes-short = (ground arith, omega arith)

-- creat, write and close.
abbrev pub write_answers : List ℕ
write_answers = 3 ∷ 24 ∷ 0 ∷ []
