-- ===== src/Prelude/Numerals.antt =====
-- `Number.prototype.toString(base)`, as code units.
use Prim.Native.Nat.{ℕ, zero, suc, ◌+◌, ◌/◌, ◌%◌}
use mathlib.Core.List.{List, [], ◌∷◌, ◌++◌}
use excubitor.Prelude.Tests.{ltb, if◌then◌else◌}

abbrev digit : ℕ → ℕ
digit d = if ltb d 10 then b'0' + d else b'W' + d

-- The digits of a number below `base` to the power of the fuel.
unfoldable pub show : ℕ → ℕ → ℕ → List ℕ
show base zero n = []
show base (suc fuel) n =
    let front = show base fuel (n / base) in
    if ltb n base then digit n ∷ [] else front ++ digit (n % base) ∷ []
