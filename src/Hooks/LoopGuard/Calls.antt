-- ===== src/Hooks/LoopGuard/Calls.antt =====
-- Equality of signatures, and how often a signature occurs.
use first_agent_dev.Prelude.{
  ℕ, suc, ◌≡◌, ◌≢◌, ap, sym, ◌∙◌, true, false, inl, inr, List, [], ◌∷◌, Bool-cases, and_true,
  str_eq, eq_iff, eq_refl, if◌then◌else◌,
}
use first_agent_dev.Hooks.LoopGuard.Window.{Observation, same_call}

pub same_call_refl : (a : Observation) → same_call a a ≡ true
unfolding same_call
same_call_refl a = rw (eq_refl a.tool_name, eq_refl a.params_hash)

pub same_call→≡ : (a b : Observation) → same_call a b ≡ true → a ≡ b
unfolding same_call
same_call→≡ a b h =
    let (n, p) = and_true (str_eq a.tool_name b.tool_name) (str_eq a.params_hash b.params_hash) h in
    let name = (eq_iff a.tool_name b.tool_name).0 n in
    let hash = (eq_iff a.params_hash b.params_hash).0 p in
    λ i. record { tool_name = name i; params_hash = hash i }

pub same_call_false→≢ : (a b : Observation) → same_call a b ≡ false → a ≢ b
same_call_false→≢ a b h e =
    let k : true ≡ same_call a b = sym (same_call_refl a) ∙ ap (same_call a) e in cc

pub ≢→same_call : (a b : Observation) → a ≢ b → same_call a b ≡ false
≢→same_call a b n = elim (Bool-cases (same_call a b)) [
  | inr e ↦ e
  | inl e ↦ absurd (n (same_call→≡ a b e))
]

-- how often a call occurs
unfoldable pub occurrences : Observation → List Observation → ℕ
occurrences o [] = 0
occurrences o (x ∷ xs) = if same_call x o then suc (occurrences o xs) else occurrences o xs
