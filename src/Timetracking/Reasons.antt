-- ===== src/Timetracking/Reasons.antt =====
-- `joinReasons` of services/timetracking/internal/service/service.go.
use Prim.Native.String.{String, ◌++◌}
use mathlib.Core.List.{List, [], ◌∷◌}

-- The rounds of the loop after the first.
abbrev pub join_from : String → List String → String
join_from out [] = out
join_from out (r ∷ rs) = join_from (out ++ "," ++ r) rs

abbrev pub join_reasons : List String → String
join_reasons [] = ""
join_reasons (r ∷ rs) = join_from r rs
