-- ===== src/Agent/Tools/Sorting.antt =====
-- `Array.prototype.sort` with no comparison, as src/agent/tools/fs.tools.ts uses it: texts in the order
-- of their UTF-16 code units. Equal texts cannot be told apart, so any stable or unstable sort agrees.
use Prim.Native.Nat.{ℕ, ◌+◌, ◌-◌, ◌/◌, ◌%◌, compare, Ordering}
use Prim.Native.Char.{code}
use lotus_build_server.Base.{String, Bool, true, false, List, [], ◌∷◌, ltb, if◌then◌else◌}

units : String → List ℕ
units String.[] = []
units (String.◌∷◌ c s) =
    let n = code c in
    if ltb n 0x10000
    then n ∷ units s
    else (0xd800 + (n - 0x10000) / 0x400) ∷ (0xdc00 + (n - 0x10000) % 0x400) ∷ units s

-- not after, in the order of the units
units_le : List ℕ → List ℕ → Bool
units_le [] ys = true
units_le (x ∷ xs) [] = false
units_le (x ∷ xs) (y ∷ ys) =
    let rest = units_le xs ys in
    elim (compare x y) [ Ordering.lt ↦ true | Ordering.eq ↦ rest | Ordering.gt ↦ false ]

insert : String → List String → List String
unfolding units_le units
insert s [] = s ∷ []
insert s (t ∷ ts) = if units_le (units s) (units t) then s ∷ t ∷ ts else t ∷ insert s ts

unfoldable pub sort : List String → List String
unfolding insert
sort [] = []
sort (s ∷ ts) = insert s (sort ts)
