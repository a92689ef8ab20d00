-- ===== src/Path/Clean.antt =====
-- rtld_linux.c, `clean_path_into`. The buffer `dst` is the bytes written below `out`, in order, so
-- that `out` is their number: bytes at and above `out` are never read. `seg_starts` holds the
-- entries below `seg_count`, the latest first.
mod Scan
mod Text
mod Round
pub mod Fuel
pub mod Loop
pub mod Refine
pub mod Result
use ld_preload.Prelude.{
  ℕ, zero, suc, ◌+◌, ◌-◌, Bool, not, ◌&&◌, List, [], ◌∷◌, ◌++◌, Option, some, ltb, leb, ◌==◌,
  if◌then◌else◌, Bytes, length, get_or, take, Outcome, fault, hang, refuse, ok, ◌>>=◌, ◌>>◌,
  refuse_if, access_if,
}

-- `PATH_MAX` of linux/limits.h.
abbrev pub path_max : ℕ
path_max = 4096

abbrev pub slash : ℕ
slash = b'/'

abbrev pub dot : ℕ
dot = b'.'

pub record Cleaner : Type 0 where
  pub dst : Bytes
  pub seg_starts : List ℕ

abbrev pub empty : Cleaner
empty = record { dst = []; seg_starts = [] }

abbrev pub out : Cleaner → ℕ
out c = length c.dst

abbrev pub seg_count : Cleaner → ℕ
seg_count c = length c.seg_starts

-- `while (*src == '/') src++;`
pub skip_slashes : Bytes → Bytes
skip_slashes [] = []
skip_slashes (c ∷ s) = if c == slash then skip_slashes s else c ∷ s

-- `while (*src != '\0' && *src != '/') src++;`: the bytes from `start` on, and where `src` stops.
pub segment : Bytes → Bytes
segment [] = []
segment (c ∷ s) = if c == slash then [] else c ∷ segment s

pub after_segment : Bytes → Bytes
after_segment [] = []
after_segment (c ∷ s) = if c == slash then c ∷ s else after_segment s

-- `seg_len == 1 && start[0] == '.'`, and the same for `..`.
abbrev pub is_dot : Bytes → Bool
is_dot seg = length seg == 1 && get_or seg 0 0 == dot

abbrev pub is_dot_dot : Bytes → Bool
is_dot_dot seg = length seg == 2 && get_or seg 0 0 == dot && get_or seg 1 0 == dot

-- `path[0] == '/'`
abbrev pub is_absolute : Bytes → Bool
is_absolute s = get_or s 0 0 == slash

-- Bytes written at `dst + out`, in a buffer of `capacity` bytes.
pub put : ℕ → Bytes → Cleaner → Outcome Cleaner
put capacity bytes c = do
  access_if (leb (out c + length bytes) capacity)
  ok (record c { dst = c.dst ++ bytes })

-- `out = seg_starts[--seg_count]; if (out == 0 && absolute) dst[out++] = '/';`
pub pop_segment : Bool → ℕ → List ℕ → Bytes → Outcome Cleaner
pop_segment absolute capacity [] dst = fault
pop_segment absolute capacity (start ∷ starts) dst =
    let c : Cleaner = record { dst = take start dst; seg_starts = starts } in
    if start == 0 && absolute then put capacity (slash ∷ []) c else ok c

-- `if (out != 0 && dst[out - 1] != '/') { … dst[out++] = '/'; }`
pub put_separator : ℕ → ℕ → Cleaner → Outcome Cleaner
put_separator capacity dst_len c =
    if not (out c == 0) && not (get_or c.dst (out c - 1) 0 == slash)
    then (do refuse_if (leb dst_len (out c + 1)); put capacity (slash ∷ []) c)
    else ok c

-- `seg_starts[seg_count++] = out;`
pub push_start : Cleaner → Outcome Cleaner
push_start c = do
  access_if (ltb (seg_count c) path_max)
  ok (record c { seg_starts = out c ∷ c.seg_starts })

pub push_segment : ℕ → ℕ → Bytes → Cleaner → Outcome Cleaner
push_segment capacity dst_len seg c = do
  refuse_if (leb path_max (seg_count c))
  separated ← put_separator capacity dst_len c
  started ← push_start separated
  refuse_if (leb dst_len (out started + length seg))
  put capacity seg started

-- What a round of the loop does with its segment.
pub clean_segment : Bool → ℕ → ℕ → Bytes → Cleaner → Outcome Cleaner
clean_segment absolute capacity dst_len seg c =
    if is_dot seg
    then ok c
    else if is_dot_dot seg && ltb 0 (seg_count c)
    then pop_segment absolute capacity c.seg_starts c.dst
    else if is_dot_dot seg && absolute
    then ok c
    else push_segment capacity dst_len seg c

-- `while (*src != '\0')`; a round that finds only slashes is the last one.
pub clean_loop : ℕ → Bool → ℕ → ℕ → Bytes → Cleaner → Outcome Cleaner
clean_loop zero absolute capacity dst_len src c = hang
clean_loop (suc fuel) absolute capacity dst_len src c = elim (skip_slashes src) [
  | [] ↦ ok c
  | d ∷ s ↦
      (clean_segment absolute capacity dst_len (segment (d ∷ s)) c
        >>= clean_loop fuel absolute capacity dst_len (after_segment (d ∷ s)))
]

-- Behind the loop: an empty result becomes `/` or `.`, and the string is terminated.
pub clean_finish : Bool → ℕ → ℕ → Cleaner → Outcome Bytes
clean_finish absolute capacity dst_len c = do
  filled ←
      if out c == 0
      then (do refuse_if (ltb dst_len 2); put capacity ((if absolute then slash else dot) ∷ []) c)
      else ok c
  access_if (ltb (out filled) capacity)
  ok filled.dst

-- `if (absolute) { … dst[out++] = '/'; }`
pub clean_start : Bool → ℕ → ℕ → Outcome Cleaner
clean_start absolute capacity dst_len =
    if absolute then (do refuse_if (ltb dst_len 2); put capacity (slash ∷ []) empty) else ok empty

pub clean_from : ℕ → ℕ → Bytes → Outcome Bytes
clean_from capacity dst_len src = do
  let absolute = is_absolute src
  started ← clean_start absolute capacity dst_len
  cleaned ← clean_loop (suc (length src)) absolute capacity dst_len src started
  clean_finish absolute capacity dst_len cleaned

-- `NULL` is `none`; of `dst` only the size of its object is an argument.
unfoldable pub clean_path_into : Option Bytes → Option ℕ → ℕ → Outcome Bytes
unfolding clean_from clean_start clean_loop clean_finish clean_segment pop_segment push_segment
    put_separator push_start put skip_slashes segment after_segment
clean_path_into (some src) (some capacity) dst_len = do
  refuse_if (dst_len == 0)
  clean_from capacity dst_len src
clean_path_into _ _ dst_len = refuse
