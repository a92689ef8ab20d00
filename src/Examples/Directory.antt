-- ===== src/Examples/Directory.antt =====
-- `getcwd` in the small world, and in one whose working directory has a long name.
use ld_preload.Prelude.{
  ℕ, zero, suc, ◌+◌, ◌<◌, ◌≤◌, some, none, ◌≡◌, ◌++◌, ◌∷◌, [], refl, arith, Bytes, codes, IsCString,
  length, fault, ℤ, Bool, true, false, Option, ltb, ok,
}
use ld_preload.Examples.World.{
  small_libc, small_libc-IsLibc, fresh, settled, from_to, from_to-IsSound, to_text, found_symbols,
}
use ld_preload.Interpose.WorkingDirectory.{getcwd}
use ld_preload.Interpose.WorkingDirectory.Laws.{CwdResult, getcwd-CwdResult}
use ld_preload.Interpose.WorkingDirectory.Faults.{Names, getcwd_null_faults, getcwd_overflow_faults}
use ld_preload.Interpose.WorkingDirectory.Round.{Enters, enter_and_tell, getcwd-chdir}
use ld_preload.Libc.{Libc, Call}
use ld_preload.Path.Normal.{clean, normalise, resolve, names}
use ld_preload.Process.{Process}
use ld_preload.Path.Clean.{path_max, slash}
use ld_preload.Path.Prefix.Laws.{IsUnder}
use ld_preload.Process.Laws.{Runs, disabled-IsSound}

getcwd-CwdResult_example :
    Runs (λ r q. CwdResult small_libc 64 fresh r q) (getcwd small_libc (some 64) 64) fresh
getcwd-CwdResult_example =
    getcwd-CwdResult small_libc small_libc-IsLibc 64 64 (omega arith) (omega arith) fresh
      disabled-IsSound

small_names : Names small_libc 64 settled (codes "/from/w")
small_names = record {
  resolved = refl;
  present = refl;
  configured = refl;
  on = refl;
  named_cwd = refl;
}

getcwd_null_faults_example : getcwd small_libc none 64 settled ≡ fault
getcwd_null_faults_example = getcwd_null_faults small_libc 64 settled (codes "/from/w") small_names

-- A name of `n` times the letter a.
abbrev letters : ℕ → Bytes
letters zero = []
letters (suc n) = 97 ∷ letters n

length-letters : (n : ℕ) → length (letters n) ≡ n
length-letters zero = refl
length-letters (suc n) = omega (arith, length-letters n)

letters-IsCString : (n : ℕ) → IsCString (letters n)
letters-IsCString zero = tt
letters-IsCString (suc n) = (omega arith, letters-IsCString n)

module _ (n : ℕ) where
  abbrev long_name : Bytes
  long_name = slash ∷ letters n

  abbrev long_libc : Libc ℕ
  long_libc = record small_libc { getcwd = λ size w. (some (to_text ++ long_name), w) }

  long_names : (size : ℕ) → Names long_libc size settled (to_text ++ long_name)
  long_names size = record {
    resolved = refl;
    present = refl;
    configured = refl;
    on = refl;
    named_cwd = refl;
  }

  abbrev long_under : IsUnder to_text (to_text ++ long_name)
  long_under = record { suffix = long_name; splits = refl; boundary = refl }

  long_text-IsCString : IsCString (to_text ++ long_name)
  long_text-IsCString = ground (arith, letters-IsCString n)

  length-long : length (from_to.from ++ long_name) ≡ 6 + n
  length-long = omega (arith, length-letters n)

  long_le : 4090 ≤ n → path_max ≤ length (from_to.from ++ long_name)
  long_le h = omega (arith, length-long)

  long_lt : (size : ℕ) → 6 + n < size → length (from_to.from ++ long_name) < size
  long_lt size h = omega (arith, length-long)

getcwd_overflow_faults_example : getcwd (long_libc 4096) (some 8192) 8192 settled ≡ fault
getcwd_overflow_faults_example =
    getcwd_overflow_faults (long_libc 4096) 8192 settled (to_text ++ long_name 4096) 8192
      (long_names 4096 8192) from_to-IsSound (long_text-IsCString 4096) (long_under 4096)
      (long_le 4096 (omega arith)) (long_lt 4096 8192 (omega arith))

-- A world that is the working directory.
abbrev moving : Call → Bytes → ℤ × Bytes
moving (Call.chdir (some path)) w = (ℤ.pos 0, path)
moving c w = (ℤ.pos 7, w)

abbrev told : Bool → Bytes → Option Bytes
told true cwd = some cwd
told false cwd = none

abbrev moving_libc : Libc Bytes
moving_libc = record {
  getenv = λ w name. none;
  dlsym = λ w s. found_symbols s;
  getcwd = λ size w. (told (ltb (length w) size) w, w);
  readlink = λ path size w. (none, w);
  call = moving;
  set_errno = λ e w. w;
  right_first = λ s. false;
}

abbrev at_root : Process Bytes
at_root = record {
  resolve_once = true;
  rewrite_once = true;
  real = found_symbols;
  rewrite_policy = from_to;
  world = codes "/";
}

abbrev entered : Bytes
entered = codes "/from/./w"

moved_directory : Enters from_to entered (codes "/to/w") 64 64
unfolding clean normalise resolve names
moved_directory = record {
  on = refl;
  absolute = refl;
  text = ground arith;
  short = omega arith;
  moves = record {
    under = record { suffix = codes "/w"; splits = refl; boundary = refl };
    moved = refl;
  };
  moved_short = omega arith;
  named_short = omega arith;
  size_small = omega arith;
  size_fits = omega arith;
}

getcwd-chdir_example :
    enter_and_tell moving_libc 64 64 entered at_root
    ≡ ok ((ℤ.pos 0, some (clean entered)), record at_root { world = codes "/to/w" })
getcwd-chdir_example =
    getcwd-chdir moving_libc 64 64 entered (codes "/to/w") at_root
      (record { resolved = refl; configured = refl }) refl refl from_to-IsSound moved_directory refl
