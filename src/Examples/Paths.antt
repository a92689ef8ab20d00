-- ===== src/Examples/Paths.antt =====
-- Cleaning, prefixes and substitution at concrete paths.
use ld_preload.Prelude.{
  Bool, true, ◌++◌, ◌∷◌, [], some, ◌≡◌, ◌<◌, ◌⊎◌, ◌↔◌, refl, arith, Bytes, codes, IsCString, length,
  ok, refuse, Meets, ◌+◌, ◌≢◌, hang, suc,
}
use ld_preload.Examples.World.{from_text, to_text, from_to, from_to-IsMeasured, to_text-IsCString}
use ld_preload.Path.Compose.{clean_and_substitute, join_and_substitute, Unmoved}
use ld_preload.Path.Confined.{Confined, substitute-Confined}
use ld_preload.Path.Clean.{path_max, slash, Cleaner, clean_loop, clean_path_into}
use ld_preload.Path.Clean.Fuel.{clean_loop_ends, clean_path_into_ends}
use ld_preload.Path.Clean.Loop.{TooLong}
use ld_preload.Path.Clean.Refine.{clean_path_into-clean}
use ld_preload.Path.Join.{join_and_clean_path, join_and_clean_path-clean}
use ld_preload.Path.Normal.{base, clean, names, normalise, resolve}
use ld_preload.Path.Normal.Laws.{IsProper, IsTidy}
use ld_preload.Path.Clean.Result.{
  clean_path_into-IsTidy, clean_path_into_again, clean_path_into_trailing_slash,
}
use ld_preload.Path.Prefix.{path_matches_prefix, substitute_prefix, substitute_prefix_reverse}
use ld_preload.Path.Prefix.Laws.{IsUnder, path_matches_prefix_iff}
use ld_preload.Path.Prefix.Substitute.{
  Moves, LeftAlone, substitute_prefix-Moves, substitute_prefix_reverse-substitute_prefix,
}

abbrev messy : Bytes
messy = codes "/a/b/../c//./d/"

abbrev below : Bytes
below = codes "/from/x"

below-IsCString : IsCString below
below-IsCString = ground arith

clean-messy : clean messy ≡ codes "/a/c/d"
unfolding clean normalise resolve names
clean-messy = refl

clean_up : clean (codes "/a/b/..") ≡ codes "/a/"
unfolding clean normalise resolve names
clean_up = refl

clean_relative_up : clean (codes "../..") ≡ codes "."
unfolding clean normalise resolve names
clean_relative_up = refl

run_messy : clean_path_into (some messy) (some 16) 16 ≡ ok (codes "/a/c/d")
unfolding clean_path_into
run_messy = refl

run_short_buffer : clean_path_into (some messy) (some 4) 4 ≡ refuse
unfolding clean_path_into
run_short_buffer = refl

moved_below : substitute_prefix from_to (some below) 16 16 ≡ ok (codes "/to/x")
unfolding substitute_prefix
moved_below = refl

left_beside : substitute_prefix from_to (some (codes "/from2")) 16 16 ≡ refuse
unfolding substitute_prefix
left_beside = refl

clean_path_into-clean_example :
    Meets
      (TooLong 16 (length messy))
      (λ t. (t ≡ clean messy) × (length t < 16))
      (clean_path_into (some messy) (some 16) 16)
clean_path_into-clean_example = clean_path_into-clean messy 16 16 (omega arith)

join_and_clean_path-clean_example :
    Meets
      (TooLong 16 (length (codes "/a") + 1 + length (codes "../b")))
      (λ t. (t ≡ clean (codes "/a" ++ slash ∷ codes "../b")) × (length t < 16))
      (join_and_clean_path (some (codes "/a")) (some (codes "../b")) (some 16) 16)
join_and_clean_path-clean_example =
    join_and_clean_path-clean (codes "/a") (codes "../b") 16 16 (omega arith)

substitute_prefix-Moves_example :
    Meets
      (LeftAlone true from_text to_text below 16)
      (λ t. (true ≡ true) × Moves from_text to_text below t × (length t < 16))
      (substitute_prefix from_to (some below) 16 16)
substitute_prefix-Moves_example =
    substitute_prefix-Moves from_to below 16 16 from_to-IsMeasured below-IsCString (omega arith)

substitute_prefix_reverse-substitute_prefix_example :
    substitute_prefix_reverse from_to (some (codes "/to/x")) 16 16 ≡ ok below
substitute_prefix_reverse-substitute_prefix_example =
    substitute_prefix_reverse-substitute_prefix from_to below (codes "/to/x") 16 16 16 16
      from_to-IsMeasured below-IsCString to_text-IsCString (omega arith) (omega arith) (omega arith)
      moved_below

path_matches_prefix_iff_example :
    (b : Bool) × (path_matches_prefix (some below) from_text (length from_text) ≡ ok b)
    × ((b ≡ true) ↔ IsUnder from_text below)
path_matches_prefix_iff_example = path_matches_prefix_iff below from_text below-IsCString

clean_path_into-IsTidy_example :
    Meets (TooLong 16 (length messy)) IsTidy (clean_path_into (some messy) (some 16) 16)
clean_path_into-IsTidy_example = clean_path_into-IsTidy messy 16 16 (omega arith) refl

clean_path_into_again_example :
    Meets
      (TooLong 16 (length messy))
      (λ t. Meets ⊥ (λ u. (t ≡ u) ⊎ (t ≡ u ++ slash ∷ [])) (clean_path_into (some t) (some 16) 16))
      (clean_path_into (some messy) (some 16) 16)
clean_path_into_again_example = clean_path_into_again messy 16 16 (omega arith) refl (omega arith)

name_b : IsProper (codes "b")
name_b = record {
  name = record { ne_nil = ground arith; no_slash = ground arith };
  not_dot = refl;
  not_dot_dot = refl;
}

clean_path_into_trailing_slash_example :
    Meets
      (TooLong 16 (length (codes "/a" ++ slash ∷ (codes "b" ++ codes "/.."))))
      (λ t. t ≡ base true (normalise (codes "/a")).kept)
      (clean_path_into (some (codes "/a" ++ slash ∷ (codes "b" ++ codes "/.."))) (some 16) 16)
clean_path_into_trailing_slash_example =
    clean_path_into_trailing_slash (codes "/a") 16 16 (omega arith) refl (codes "b") name_b

-- Where the loop starts on an absolute path.
abbrev at_slash : Cleaner
at_slash = record { dst = slash ∷ []; seg_starts = [] }

clean_loop_ends_example :
    (clean_loop 100 true 16 16 messy at_slash ≢ hang)
    × (clean_loop 100 true 16 16 messy at_slash
        ≡ clean_loop (suc (length messy)) true 16 16 messy at_slash)
clean_loop_ends_example = clean_loop_ends true 16 16 100 messy at_slash (omega arith)

clean_path_into_ends_example : clean_path_into (some messy) (some 4) 16 ≢ hang
clean_path_into_ends_example = clean_path_into_ends (some messy) (some 4) 16

abbrev upward : Bytes
upward = codes "/from/a/../../from/b"

substitute-Confined_example :
    Meets
      (Unmoved from_to upward path_max)
      (Confined to_text)
      (clean_and_substitute from_to upward path_max)
    × Meets
        (Unmoved from_to (below ++ slash ∷ upward) path_max)
        (Confined to_text)
        (join_and_substitute from_to below upward path_max)
substitute-Confined_example =
    substitute-Confined from_to from_to-IsMeasured below upward below-IsCString (ground arith) refl
      refl
