-- ===== src/Base/Unvisited.antt =====
-- A measure for a walk that keeps the set of its open calls: the keys that are not among them.
use Prim.Native.Nat.{ℕ, suc, ◌≤◌, ◌<◌}
use Prim.Native.String.{String}
use mathlib.Core.Path.{◌≡◌, refl}
use mathlib.Core.Bool.{false}
use mathlib.Core.List.{List, [], ◌∷◌}
use native.Mathlib.Omega.{arith}
use text.Mathlib.TextEquality.{eq_iff}
use metaclaw.Base.Tests.{if◌then◌else◌}
use metaclaw.Base.Lists.{In, length}
use metaclaw.Base.Sets.{contains}

pub unvisited : List String → List String → ℕ
unvisited [] visiting = 0
unvisited (k ∷ ks) visiting =
    if contains visiting k then unvisited ks visiting else suc (unvisited ks visiting)

unvisited-le :
    (ks visiting : List String) (id : String) → unvisited ks (id ∷ visiting) ≤ unvisited ks visiting
unfolding unvisited
unvisited-le [] visiting id = omega arith
unvisited-le (k ∷ ks) visiting id = ground (arith, unvisited-le ks visiting id)

-- To open the call of a key that is not open leaves fewer.
pub unvisited-lt :
    (ks visiting : List String) (id : String)
    → contains visiting id ≡ false
    → In id ks
    → unvisited ks (id ∷ visiting) < unvisited ks visiting
unfolding unvisited
unvisited-lt [] visiting id h e = absurd e
unvisited-lt (k ∷ ks) visiting id h e =
    ground
      (arith, eq_iff k id, eq_iff id k, unvisited-le ks visiting id, unvisited-lt ks visiting id)

pub unvisited-nil : (ks : List String) → unvisited ks [] ≡ length ks
unfolding unvisited
unvisited-nil [] = refl
unvisited-nil (k ∷ ks) = omega (arith, unvisited-nil ks)
