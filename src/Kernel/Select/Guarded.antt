-- ===== src/Kernel/Select/Guarded.antt =====
-- Chains of early returns.
use metaclaw.Base.{◌≡◌, refl, sym, Bool, true, false, none, some, some_inj, List, [], ◌∷◌, All}
use metaclaw.Kernel.Snapshot.{Decision}
use metaclaw.Kernel.Select.{first_return}

-- What holds of all the decisions of a chain holds of the one that it returns.
pub first_return-All :
    (P : Decision → Type 0) (guards : List (Bool × Decision)) (d : Decision)
    → All (λ g. P g.1) guards
    → first_return guards ≡ some d
    → P d
unfolding first_return
first_return-All P [] d p h = cc
first_return-All P ((true, e) ∷ later) d p h = rw (sym (some_inj h)) (p.0)
first_return-All P ((false, e) ∷ later) d p h = first_return-All P later d (p.1) h

-- A chain that returns nothing has no test that holds.
pub first_return-none :
    (guards : List (Bool × Decision)) → first_return guards ≡ none → All (λ g. g.0 ≡ false) guards
unfolding first_return
first_return-none [] h = tt
first_return-none ((true, e) ∷ later) h = cc
first_return-none ((false, e) ∷ later) h = (refl, first_return-none later h)
