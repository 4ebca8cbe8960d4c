-- ===== src/Hooks/Cases.antt =====
-- Splits on what a guard answers.
use first_agent_dev.Prelude.{String, ◌≡◌, refl, ◌⊎◌, inl, inr}
use first_agent_dev.Hooks.Types.{Error, Result, ok, raise, Action, allow, deny, modify, other}

pub Result-cases {ℓ} :
    {A : Type ℓ} (r : Result A) → ((a : A) × (r ≡ ok a)) ⊎ ((e : Error) × (r ≡ raise e))
Result-cases (ok a) = inl (a, refl)
Result-cases (raise e) = inr (e, refl)

pub ok_inj {ℓ} : {A : Type ℓ} {a b : A} → ok a ≡ ok b → a ≡ b
ok_inj h = cc

pub Action-cases :
    (a : Action) → (a ≡ allow) ⊎ (a ≡ deny) ⊎ (a ≡ modify) ⊎ ((t : String) × (a ≡ other t))
Action-cases allow = inl refl
Action-cases deny = inr (inl refl)
Action-cases modify = inr (inr (inl refl))
Action-cases (other t) = inr (inr (inr (t, refl)))
