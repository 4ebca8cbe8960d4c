-- ===== src/Observability/Tests.antt =====
-- A session with a budget of ten, whose calls cost seven each.
use first_agent_dev.Prelude.{
  ℕ, ◌+◌, pos, String, ◌≡◌, refl, true, none, some, [], ◌∷◌, str_eq, ltb, if◌then◌else◌, arith,
}
use first_agent_dev.Hooks.Types.{
  ok, before_tool_exec, after_tool_exec, no_entries, HookPayload, deny,
}
use first_agent_dev.Observability.Cost.{
  Floats, Parsing, CostGuardian, is_amount, default_cost_extractor, handle_cost,
}
use first_agent_dev.Observability.Totals.{
  observed_in, Events, Saw, observed_by, after_events, after_events-Saw,
}
use first_agent_dev.Observability.Overdrawn.{default_cost_extractor-amounts, overdrawn-deny}

abbrev cents : Floats
cents = record {
  Float = ℕ;
  zero = 0;
  plus = λ a b. a + b;
  greater = λ a b. ltb b a;
  is_finite = λ a. true;
  six_digits = λ a. "";
}

abbrev parsing : Parsing cents
parsing = record {
  without_prefix = λ s. if str_eq s "cost=usd=7" then some "usd=7" else none;
  split_commas = λ s. s ∷ [];
  partition = λ s. if str_eq s "usd=7" then some ("usd", "7") else none;
  strip = λ s. s;
  int_of = λ s. some (pos 0);
  float_of = λ s. if str_eq s "7" then some 7 else some 0;
  quoted = λ s. s;
}

abbrev paid : HookPayload
paid = record {
  tool_call = none;
  tool_result =
      some
        (record { summary = "done"; result = none; error = none; artifacts = "cost=usd=7" ∷ [] });
  role = "coder";
  acting_family = "";
  context = no_entries;
}

abbrev spent : ℕ → CostGuardian cents
spent n = record {
  budget_usd = some 10;
  extractor = default_cost_extractor cents parsing;
  has_log = true;
  rollup = record { tokens_in = 0; tokens_out = 0; usd = n; samples = 2 };
  rows = [];
}

abbrev events : Events
events = (before_tool_exec, paid) ∷ (after_tool_exec, paid) ∷ (after_tool_exec, paid) ∷ []

seven :
    observed_by cents (default_cost_extractor cents parsing) ((after_tool_exec, paid) ∷ [])
    ≡ record { tokens_in = 0; tokens_out = 0; usd = 7 } ∷ []
unfolding observed_by default_cost_extractor observed_in
seven = refl

after_events-Saw_example :
    Saw cents
      (spent 0)
      (observed_by cents (default_cost_extractor cents parsing) events)
      (after_events cents parsing events (spent 0))
after_events-Saw_example = after_events-Saw cents parsing events (spent 0)

grows : (a b c : ℕ) → ltb b a ≡ true → is_amount cents c ≡ true → ltb b (a + c) ≡ true
grows a b c h k = ground arith

overdrawn-deny_example :
    (reason : String) × ((handle_cost cents parsing before_tool_exec paid
        (after_events cents parsing events (spent 14))).0
      ≡ ok (record { action = deny; reason = reason; payload = none }))
overdrawn-deny_example =
    overdrawn-deny cents parsing grows (spent 14) (default_cost_extractor-amounts cents parsing) 10
      events paid refl refl refl
