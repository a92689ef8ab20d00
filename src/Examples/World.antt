-- ===== src/Examples/World.antt =====
-- A small world: the two variables set, a working directory below `/from`, and real calls that
-- answer 7. Its states hold `errno`.
use ld_preload.Prelude.{
  ℕ, Bool, true, false, Option, none, some, ◌≡◌, refl, ap, subst, arith, ltb, leb, ◌==◌, Bytes,
  codes, IsCString, length, ℤ,
}
use ld_preload.Libc.{Libc, Symbol}
use ld_preload.Path.Prefix.{Policy, or_nil}
use ld_preload.Path.Prefix.Laws.{IsMeasured}
use ld_preload.Policy.{disabled_policy, policy_of}
use ld_preload.Process.{Process}
use ld_preload.Process.Laws.{IsLibc, IsSound}

abbrev pub from_text : Bytes
from_text = codes "/from"

abbrev pub to_text : Bytes
to_text = codes "/to"

abbrev pub from_to : Policy
from_to = policy_of from_text to_text

abbrev cwd_text : Bytes
cwd_text = codes "/from/w"

abbrev variable : Bool → Option Bytes
variable true = some from_text
variable false = some to_text

-- What a call leaves in a buffer, if it fits.
abbrev within : Bool → Option Bytes
within true = some cwd_text
within false = none

-- The functions that are found: all but `newfstatat` and `openat2`, which glibc does not export.
abbrev pub found_symbols : Symbol → Bool
found_symbols Symbol.newfstatat = false
found_symbols Symbol.openat2 = false
found_symbols s = true

abbrev pub small_libc : Libc ℕ
small_libc = record {
  getenv = λ w name. variable (length name == 23);
  dlsym = λ w s. found_symbols s;
  getcwd = λ size w. (within (ltb 7 size), w);
  readlink = λ path size w. (within (leb 7 size), w);
  call = λ c w. (ℤ.pos 7, w);
  set_errno = λ e w. e;
  right_first = λ s. true;
}

pub from_text-IsCString : IsCString from_text
from_text-IsCString = ground arith

pub to_text-IsCString : IsCString to_text
to_text-IsCString = ground arith

cwd_text-IsCString : IsCString cwd_text
cwd_text-IsCString = ground arith

variable-IsCString : (b : Bool) (s : Bytes) → variable b ≡ some s → IsCString s
variable-IsCString true s e = subst IsCString (ap or_nil e) from_text-IsCString
variable-IsCString false s e = subst IsCString (ap or_nil e) to_text-IsCString

within-IsCString : (b : Bool) (s : Bytes) → within b ≡ some s → IsCString s
within-IsCString true s e = subst IsCString (ap or_nil e) cwd_text-IsCString
within-IsCString false s e = absurd (ground (arith, e))

pub small_libc-IsLibc : IsLibc small_libc
small_libc-IsLibc = record {
  getenv_text = λ w name s e. variable-IsCString (length name == 23) s e;
  getcwd_text = λ size w s e. within-IsCString (ltb 7 size) s e;
  readlink_text = λ path size w s e. within-IsCString (leb 7 size) s e;
}

-- A process at its start, and one that is initialised.
abbrev pub fresh : Process ℕ
fresh = record {
  resolve_once = false;
  rewrite_once = false;
  real = λ s. false;
  rewrite_policy = disabled_policy;
  world = 0;
}

abbrev pub settled : Process ℕ
settled = record {
  resolve_once = true;
  rewrite_once = true;
  real = found_symbols;
  rewrite_policy = from_to;
  world = 0;
}

pub from_to-IsMeasured : IsMeasured from_to
from_to-IsMeasured = record { from_measured = refl; to_measured = refl }

pub from_to-IsSound : IsSound from_to
from_to-IsSound = record {
  measured = from_to-IsMeasured;
  from_text = from_text-IsCString;
  to_text = to_text-IsCString;
  from_short = omega arith;
  to_short = omega arith;
}
