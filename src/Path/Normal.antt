-- ===== src/Path/Normal.antt =====
-- What cleaning a path means, apart from any buffer: the names between the slashes, the names that
-- `.` and `..` leave, and the text of those.
pub mod Names
pub mod Laws
pub mod NulFree
use ld_preload.Prelude.{
  ℕ, Bool, true, false, List, [], ◌∷◌, ◌++◌, ◌==◌, if◌then◌else◌, Bytes, All, ◌≢◌,
}
use ld_preload.Path.Clean.{slash, dot, is_dot, is_dot_dot, is_absolute}

-- One byte put in front of the text `s` whose names are `ns`.
abbrev extend : ℕ → Bytes → List Bytes → List Bytes
extend c [] ns = (c ∷ []) ∷ []
extend c (d ∷ s) [] = (c ∷ []) ∷ []
extend c (d ∷ s) (n ∷ ns) = if d == slash then (c ∷ []) ∷ n ∷ ns else (c ∷ n) ∷ ns

-- The non-empty pieces between slashes.
unfoldable pub names : Bytes → List Bytes
names [] = []
names (c ∷ s) = let ns = names s in if c == slash then ns else extend c s ns

-- A name as a directory entry has it.
pub record IsName (n : Bytes) : Type 0 where
  pub ne_nil : n ≢ []
  pub no_slash : All (λ c. c ≢ slash) n

-- The names kept, the latest first, and whether the last change was to give one up.
pub record Normal : Type 0 where
  pub kept : List Bytes
  pub popped : Bool

abbrev pub keep : Bytes → Normal → Normal
keep n s = record { kept = n ∷ s.kept; popped = false }

abbrev give_up : Bool → Bytes → Bool → List Bytes → Normal
give_up absolute n popped [] =
    if absolute
    then (record { kept = []; popped = popped })
    else (record { kept = n ∷ []; popped = false })
give_up absolute n popped (k ∷ ks) = record { kept = ks; popped = true }

unfoldable pub resolve_name : Bool → Bytes → Normal → Normal
resolve_name absolute n s =
    if is_dot n then s else if is_dot_dot n then give_up absolute n s.popped s.kept else keep n s

unfoldable pub resolve : Bool → List Bytes → Normal → Normal
unfolding resolve_name
resolve absolute [] s = s
resolve absolute (n ∷ ns) s = resolve absolute ns (resolve_name absolute n s)

abbrev pub root : Bool → Bytes
root true = slash ∷ []
root false = []

-- The text up to where the next name goes: each name kept with a slash behind it.
abbrev pub base : Bool → List Bytes → Bytes
base absolute [] = root absolute
base absolute (k ∷ ks) = base absolute ks ++ (k ++ slash ∷ [])

-- The text with no slash behind the last name.
abbrev pub closed : Bool → List Bytes → Bytes
closed absolute [] = base absolute []
closed absolute (k ∷ ks) = base absolute ks ++ k

abbrev pub text : Bool → Normal → Bytes
text absolute s = if s.popped then base absolute s.kept else closed absolute s.kept

abbrev pub nothing_kept : Normal
nothing_kept = record { kept = []; popped = false }

unfoldable pub normalise : Bytes → Normal
normalise src = resolve (is_absolute src) (names src) nothing_kept

-- Nothing at all is written as `.`.
abbrev pub or_dot : Bytes → Bytes
or_dot [] = dot ∷ []
or_dot (c ∷ s) = c ∷ s

-- The text that `clean_path_into` is to produce.
unfoldable pub clean : Bytes → Bytes
clean src = or_dot (text (is_absolute src) (normalise src))
