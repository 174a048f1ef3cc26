-- ===== src/Web/Limits.antt =====
-- The page sizes that a listing of web/web.go asks for.
use tasker.Base.{String, ℤ, pos, ◌≤ℤ◌, arith, Option, none, some, str_eq, Bool-cases, inl, inr}
use tasker.Web.{Std, clamp_limit, parse_limit, list_filter}

clamp_limit_bounds : (n : ℤ) → (pos 1 ≤ℤ clamp_limit n) × (clamp_limit n ≤ℤ pos 500)
unfolding clamp_limit
clamp_limit_bounds n = ground arith

parse_limit_bounds : (o : Option ℤ) → (pos 1 ≤ℤ parse_limit o) × (parse_limit o ≤ℤ pos 500)
parse_limit_bounds none = (omega arith, omega arith)
parse_limit_bounds (some n) = clamp_limit_bounds n

-- Whatever the query string of a listing holds, the filter that is handed to QueryJobs asks for at
-- least one job and at most 500.
list_filter-limit :
    (std : Std) (query : String → String)
    → (pos 1 ≤ℤ (list_filter std query).limit) × ((list_filter std query).limit ≤ℤ pos 500)
unfolding list_filter
list_filter-limit std query = elim (Bool-cases (str_eq (query "limit") "")) [
  | inl absent ↦ rw absent (omega arith, omega arith)
  | inr given ↦ rw given (parse_limit_bounds (std.atoi (query "limit")))
]
