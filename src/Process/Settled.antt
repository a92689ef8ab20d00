-- ===== src/Process/Settled.antt =====
-- A process in which both initialisations are behind, whatever functions were found.
use ld_preload.Prelude.{Bool, true, refl, ◌≡◌, ok}
use ld_preload.Libc.{Libc, Call, Symbol, symbol}
use ld_preload.Process.{Process, M, require_symbol, invoke}
use ld_preload.Process.Once.{require_symbol_present}

pub record IsSettled {W : Type 0} (p : Process W) : Type 0 where
  pub resolved : p.resolve_once ≡ true
  pub configured : p.rewrite_once ≡ true

-- The real function of the call was found.
abbrev pub Available : (Symbol → Bool) → Call → Type 0
Available real c = real (symbol c) ≡ true

module _ {W : Type 0} where
  pub IsSettled-world : (p : Process W) (w : W) → IsSettled p → IsSettled (record p { world = w })
  IsSettled-world p w h = record { resolved = h.resolved; configured = h.configured }

  pub require_symbol_settled :
      {A : Type 0} (L : Libc W) (s : Symbol) (failure : A) (rest : M W A) (p : Process W)
      → IsSettled p
      → p.real s ≡ true
      → require_symbol L s failure rest p ≡ rest p
  require_symbol_settled L s failure rest p h found =
      require_symbol_present L s failure rest p h.resolved found

  pub invoke_eq :
      (L : Libc W) (c : Call) (p : Process W)
      → invoke L c p ≡ ok ((L.call c p.world).0, record p { world = (L.call c p.world).1 })
  unfolding invoke
  invoke_eq L c p = refl
