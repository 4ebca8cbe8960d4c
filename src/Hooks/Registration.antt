-- ===== src/Hooks/Registration.antt =====
-- `HookRegistry.register`.
use mathlib.Core.Path.{subst}
use mathlib.Core.List.{append-nil, append_assoc}
use first_agent_dev.Prelude.{
  ℕ, String, ◌≡◌, sym, ◌∙◌, Bool, true, false, inl, inr, List, [], ◌∷◌, ◌++◌, any, arith,
  Bool-cases, ◌==◌, if◌then◌else◌,
}
use first_agent_dev.Hooks.Types.{ok, LifecyclePoint, same_point}
use first_agent_dev.Hooks.Cases.{Result-cases, ok_inj}
use first_agent_dev.Hooks.Registry.{Middleware, HookRegistry, attach, validate_middleware, register}

abbrev pub same_id : ℕ → ℕ → Bool
same_id n i = i == n

same_id_refl : (n : ℕ) → same_id n n ≡ true
same_id_refl n = ground arith

module _ {W : Type 0} (m : Middleware W) (acting_family : String) where
  -- what `register` does with a middleware that it accepts
  register-cases :
      (reg reg' : HookRegistry W)
      → register m acting_family reg ≡ ok reg'
      → (u : Unit {0}) × (validate_middleware m acting_family ≡ ok u)
        × (any (same_id m.identity) reg'.registered ≡ true)
  unfolding register
  register-cases reg reg' h = elim (Result-cases (validate_middleware m acting_family)) [
    | inr (e, q) ↦ cc (rw (q, register) at h)
    | inl (u, q) ↦
        let h1 = rw (q, register) at h in
        (
          u,
          q,
          elim (Bool-cases (any (same_id m.identity) reg.registered)) [
            | inl k ↦
                subst (λ (x : HookRegistry W). any (same_id m.identity) x.registered ≡ true)
                  (ok_inj (rw k at h1)) k
            | inr k ↦
                subst (λ (x : HookRegistry W). any (same_id m.identity) x.registered ≡ true)
                  (ok_inj (rw k at h1)) (rw (same_id_refl m.identity))
          ],
        )
  ]

  -- Registering an accepted middleware once more changes nothing: it does not run twice.
  pub register-register :
      (reg reg' : HookRegistry W)
      → register m acting_family reg ≡ ok reg'
      → register m acting_family reg' ≡ ok reg'
  unfolding register
  register-register reg reg' h =
      let (u, valid, known) = register-cases reg reg' h in rw (valid, known, register)

  unfoldable pub copies : LifecyclePoint → List LifecyclePoint → List (Middleware W)
  copies q [] = []
  copies q (p ∷ ps) = if same_point p q then m ∷ copies q ps else copies q ps

  attach-copies :
      (ps : List LifecyclePoint) (chains : LifecyclePoint → List (Middleware W))
      (q : LifecyclePoint)
      → attach m ps chains q ≡ chains q ++ copies q ps
  unfolding attach copies
  attach-copies [] chains q = sym (append-nil (chains q))
  attach-copies (p ∷ ps) chains q =
      attach-copies ps (λ r. if same_point p r then chains r ++ m ∷ [] else chains r) q
      ∙ elim (Bool-cases (same_point p q)) [
        | inl e ↦ rw e (append_assoc (chains q) (m ∷ []) (copies q ps))
        | inr e ↦ rw e
      ]

  -- A new middleware that is accepted goes to the end of the chains of its own points, once for each
  -- time that it names the point, and leaves every other chain as it was.
  pub register-chains :
      (reg reg' : HookRegistry W) (q : LifecyclePoint)
      → any (same_id m.identity) reg.registered ≡ false
      → register m acting_family reg ≡ ok reg'
      → reg'.chains q ≡ reg.chains q ++ copies q m.attaches_to
  unfolding register
  register-chains reg reg' q fresh h = elim (Result-cases (validate_middleware m acting_family)) [
    | inr (e, k) ↦ cc (rw (k, register) at h)
    | inl (u, k) ↦
        subst (λ (x : HookRegistry W). x.chains q ≡ reg.chains q ++ copies q m.attaches_to)
          (ok_inj (rw (k, fresh, register) at h)) (attach-copies m.attaches_to reg.chains q)
  ]
