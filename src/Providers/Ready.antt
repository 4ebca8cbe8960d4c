-- ===== src/Providers/Ready.antt =====
-- providers/message_rules.py: a request that has been made ready for its provider.
use mathlib.Core.Path.{subst⁻¹}
use first_agent_dev.Prelude.{
  ◌≡◌, refl, sym, ap, ◌∙◌, String, Bool, true, false, Option, none, some, inl, inr, List, [], ◌∷◌,
  Bool-cases, Option-cases, not, ◌&&◌, ◌||◌, all, filter, is_some, str_eq, if◌then◌else◌,
}
use first_agent_dev.Hooks.Types.{Object}
use first_agent_dev.Providers.Messages.{
  RequestInfo, MessageRules, Floats, greedy, pin_top_p, strip_cache, normalize, or_else,
}

-- The keys that are for the prompt cache are absent.
abbrev pub uncached_keys : List (String × Object) → Bool
uncached_keys extras =
    all (λ k. not (str_eq k.0 "prompt_cache_key") && not (str_eq k.0 "prompt_cache_retention"))
      extras

-- Normalising touches neither the messages nor the model nor the temperature.
pub record Keeps {F : Type 0} (r r' : RequestInfo F) : Type 0 where
  pub messages : r'.messages ≡ r.messages
  pub model : r'.model_slug ≡ r.model_slug
  pub temperature : r'.temperature ≡ r.temperature

or_else_same : {A : Type 0} (o : Option A) → or_else o o ≡ o
or_else_same none = refl
or_else_same (some a) = refl

module _ {F : Type 0} (floats : Floats F) where
  pin_top_p-Keeps :
      (b : Bool) (temp top_p : Option F) (r : RequestInfo F)
      → Keeps r (pin_top_p floats b temp top_p r)
  pin_top_p-Keeps false temp top_p r = record { messages = refl; model = refl; temperature = refl }
  pin_top_p-Keeps true temp (some x) r = record {
    messages = refl;
    model = refl;
    temperature = refl;
  }
  pin_top_p-Keeps true temp none r = elim (Bool-cases (greedy floats temp)) [
    | inl e ↦ rw e (record { messages = refl; model = refl; temperature = refl })
    | inr e ↦ rw e (record { messages = refl; model = refl; temperature = refl })
  ]

  strip_cache-Keeps : (b : Bool) (r : RequestInfo F) → Keeps r (strip_cache floats b r)
  strip_cache-Keeps true r = record { messages = refl; model = refl; temperature = refl }
  strip_cache-Keeps false r = record { messages = refl; model = refl; temperature = refl }

  pin_top_p-top_p :
      (b : Bool) (r : RequestInfo F)
      → (pin_top_p floats b r.temperature r.top_p r).top_p ≡ (
          if b && greedy floats r.temperature && not (is_some r.top_p)
          then some floats.one
          else r.top_p)
  pin_top_p-top_p false r = refl
  pin_top_p-top_p true r = elim (Option-cases r.top_p) [
    | inl n ↦ elim (Bool-cases (greedy floats r.temperature)) [
      | inl e ↦ rw (n, e) refl
      | inr e ↦ rw (n, e) refl
    ]
    | inr (x, y) ↦ elim (Bool-cases (greedy floats r.temperature)) [
      | inl e ↦ rw (y, e) refl
      | inr e ↦ rw (y, e) refl
    ]
  ]

  strip_cache-top_p : (b : Bool) (r : RequestInfo F) → (strip_cache floats b r).top_p ≡ r.top_p
  strip_cache-top_p true r = refl
  strip_cache-top_p false r = refl

  not_or : (a b : Bool) → not (a || b) ≡ (not a && not b)
  not_or true b = refl
  not_or false b = refl

  uncached_keys-filter :
      (p : String × Object → Bool) (xs : List (String × Object))
      → ((x : String × Object)
          → p x ≡ true
          → (not (str_eq x.0 "prompt_cache_key") && not (str_eq x.0 "prompt_cache_retention"))
            ≡ true)
      → uncached_keys (filter p xs) ≡ true
  uncached_keys-filter p [] h = refl
  uncached_keys-filter p (x ∷ xs) h = elim (Bool-cases (p x)) [
    | inl y ↦ rw (y, filter) (rw (h x y) (uncached_keys-filter p xs h))
    | inr n ↦ rw (n, filter) (uncached_keys-filter p xs h)
  ]

  strip_cache-uncached :
      (b : Bool) (r : RequestInfo F)
      → b ≡ false
      → uncached_keys (strip_cache floats b r).extras ≡ true
  strip_cache-uncached true r h = cc
  strip_cache-uncached false r h =
      uncached_keys-filter _ r.extras (λ (k, _) y. sym (not_or _ _) ∙ y)

  -- a request that has been made ready for its entry
  abbrev pub ready : MessageRules → RequestInfo F → RequestInfo F
  ready rules r = normalize floats rules r.temperature r.top_p r

  ready-pinned :
      (rules : MessageRules) (r : RequestInfo F)
      → ready rules r
        ≡ strip_cache floats rules.supports_prompt_cache
            (pin_top_p floats rules.requires_top_p_one_when_greedy r.temperature r.top_p r)
  unfolding normalize
  ready-pinned rules r = rw (or_else_same r.temperature, or_else_same r.top_p) refl

  pub ready-Keeps : (rules : MessageRules) (r : RequestInfo F) → Keeps r (ready rules r)
  ready-Keeps rules r =
      let pinned = pin_top_p floats rules.requires_top_p_one_when_greedy r.temperature r.top_p r in
      let a = pin_top_p-Keeps rules.requires_top_p_one_when_greedy r.temperature r.top_p r in
      let b = strip_cache-Keeps rules.supports_prompt_cache pinned in
      subst⁻¹ (Keeps r) (ready-pinned rules r) (record {
        messages = b.messages ∙ a.messages;
        model = b.model ∙ a.model;
        temperature = b.temperature ∙ a.temperature;
      })

  pub ready-top_p :
      (rules : MessageRules) (r : RequestInfo F)
      → (ready rules r).top_p ≡ (
          if rules.requires_top_p_one_when_greedy
            && greedy floats r.temperature
            && not (is_some r.top_p)
          then some floats.one
          else r.top_p)
  ready-top_p rules r =
      ap (λ (x : RequestInfo F). x.top_p) (ready-pinned rules r)
      ∙ strip_cache-top_p rules.supports_prompt_cache _
      ∙ pin_top_p-top_p rules.requires_top_p_one_when_greedy r

  pub ready-uncached :
      (rules : MessageRules) (r : RequestInfo F)
      → rules.supports_prompt_cache ≡ false
      → uncached_keys (ready rules r).extras ≡ true
  ready-uncached rules r h =
      subst⁻¹ (λ (x : RequestInfo F). uncached_keys x.extras ≡ true) (ready-pinned rules r)
        (strip_cache-uncached rules.supports_prompt_cache _ h)
