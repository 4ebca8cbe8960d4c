-- ===== src/Hooks/LoopGuard/Window.antt =====
-- The trailing window of tool calls, and what the two detectors compute from it.
use first_agent_dev.Prelude.{
  ℕ, zero, suc, ◌+◌, ◌*◌, ◌/◌, String, Bool, true, false, ◌&&◌, ◌||◌, List, [], ◌∷◌, ◌++◌, last,
  length, str_eq, ◌==◌, if◌then◌else◌,
}

-- `_Observation`, the signature of one call.
pub record Observation : Type 0 where
  pub tool_name : String
  pub params_hash : String

-- `a == b` on signatures
unfoldable pub same_call : Observation → Observation → Bool
same_call a b = str_eq a.tool_name b.tool_name && str_eq a.params_hash b.params_hash

-- `deque(maxlen=window).append(x)`
unfoldable pub push : ℕ → List Observation → Observation → List Observation
push window xs x = last window (xs ++ x ∷ [])

-- `sig_counts`: a dictionary keeps the order of first insertion.
unfoldable pub add_count : Observation → List (Observation × ℕ) → List (Observation × ℕ)
add_count o [] = (o, 1) ∷ []
add_count o ((k, n) ∷ r) = if same_call k o then (k, n + 1) ∷ r else (k, n) ∷ add_count o r

unfoldable pub counts_from : List (Observation × ℕ) → List Observation → List (Observation × ℕ)
counts_from acc [] = acc
counts_from acc (o ∷ os) = counts_from (add_count o acc) os

unfoldable pub sig_counts : List Observation → List (Observation × ℕ)
sig_counts = counts_from []

-- `x in xs`
unfoldable pub member : Observation → List Observation → Bool
member x [] = false
member x (y ∷ ys) = same_call x y || member x ys

-- `len(set(xs))`
unfoldable pub distinct : List Observation → ℕ
distinct [] = 0
distinct (x ∷ xs) = if member x xs then distinct xs else suc (distinct xs)

-- `not any(tail[j] != tail[j - 2] for j in range(2, len(tail)))`
unfoldable pub has_period_two : List Observation → Bool
has_period_two (a ∷ b ∷ c ∷ r) = same_call c a && has_period_two (b ∷ c ∷ r)
has_period_two _ = true

-- the test that the loop over k makes on `sigs[-2 * k :]`
unfoldable pub alternates : List Observation → Bool
alternates tail = (distinct tail == 2) && has_period_two tail

-- `for k in range(1, len(sigs) // 2 + 1)`; n rounds are left
unfoldable pub cycles_from : List Observation → ℕ → ℕ → ℕ
cycles_from sigs zero cycles = cycles
cycles_from sigs (suc n) cycles =
    let rest = cycles_from sigs n (suc cycles) in
    if alternates (last (2 * suc cycles) sigs) then rest else cycles

unfoldable pub cycles : List Observation → ℕ
cycles sigs = cycles_from sigs (length sigs / 2) 0
