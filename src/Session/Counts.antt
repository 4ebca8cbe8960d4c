-- ===== src/Session/Counts.antt =====
-- loop.py: a parallel batch has a result for each of its calls.
use mathlib.Core.Path.{subst}
use first_agent_dev.Prelude.{
  ℕ, suc, String, ◌≡◌, refl, ap, Option, none, some, List, [], ◌∷◌, length,
}
use first_agent_dev.Hooks.Types.{Result, ok, raise, ToolResult, ToolCall, HookPayload}
use first_agent_dev.Hooks.Registry.{Run}
use first_agent_dev.Session.Types.{
  StopInfo, Session, Tried, returned, refused, crashed, default_tool_result_for_denial,
}
use first_agent_dev.Session.Execute.{Outcome, Setting}
use first_agent_dev.Session.Parallel.{
  Pool, Slot, denied_slot, pending_slot, ResultsMap, add_slot, on_gather_denied, on_gather, gather,
  Finished, add_result, on_finish, finish_one, finish, on_finished, on_results, on_gathered,
  execute_batch_parallel,
}

-- what is known of a result, if there is one
abbrev pub IfOk : {A : Type 0} → (A → Type 0) → Result A → Type 0
IfOk P (ok a) = P a
IfOk P (raise e) = Unit {0}

module _ {U : Type 0} (setting : Setting U) where
  abbrev HasSlots : ℕ → Outcome U (List Slot) → Type 0
  HasSlots n o = IfOk (λ slots. length slots ≡ n) o.0

  add_slot-HasSlots :
      (rest : Run (Session U) → Outcome U (List Slot)) (slot : Slot) (n : ℕ)
      (o : Outcome U (List Slot))
      → HasSlots n o
      → HasSlots (suc n) (add_slot setting rest slot o)
  unfolding add_slot
  add_slot-HasSlots rest slot n (raise e, s) h = tt
  add_slot-HasSlots rest slot n (ok slots, s) h = ap suc h

  on_gather_denied-HasSlots :
      (rest : Run (Session U) → Outcome U (List Slot)) (c : ToolCall) (n : ℕ)
      (r : Result ToolResult) (s : Run (Session U))
      → ((s' : Run (Session U)) → HasSlots n (rest s'))
      → HasSlots (suc n) (on_gather_denied setting rest c r s)
  unfolding on_gather_denied
  on_gather_denied-HasSlots rest c n (raise e) s h = tt
  on_gather_denied-HasSlots rest c n (ok r) s h = add_slot-HasSlots rest (denied_slot r) n _ (h _)

  on_gather-HasSlots :
      (rest : Run (Session U) → Outcome U (List Slot)) (c : ToolCall) (n : ℕ)
      (t : Tried HookPayload × Run (Session U))
      → ((s : Run (Session U)) → HasSlots n (rest s))
      → HasSlots (suc n) (on_gather setting rest c t)
  unfolding on_gather
  on_gather-HasSlots rest c n (crashed e, s) h = tt
  on_gather-HasSlots rest c n (returned p, s) h =
      add_slot-HasSlots rest (pending_slot p) n (rest s) (h s)
  on_gather-HasSlots rest c n (refused reason, s) h =
      on_gather_denied-HasSlots rest c n (default_tool_result_for_denial reason) s h

  gather-HasSlots :
      (cs : List ToolCall) (s : Run (Session U)) → HasSlots (length cs) (gather setting cs s)
  unfolding gather
  gather-HasSlots [] s = refl
  gather-HasSlots (c ∷ cs) s =
      on_gather-HasSlots (gather setting cs) c (length cs) _ (gather-HasSlots cs)

  abbrev HasResults : ℕ → Finished U → Type 0
  HasResults n o = IfOk (λ r. length r.0 ≡ n) o.0

  add_result-HasResults :
      (r : ToolResult) (n : ℕ) (o : Finished U)
      → HasResults n o
      → HasResults (suc n) (add_result setting r o)
  unfolding add_result
  add_result-HasResults r n (raise e, s) h = tt
  add_result-HasResults r n (ok (rs, d), s) h = ap suc h

  module _ (n : ℕ) (rest : Option String → Run (Session U) → Finished U)
      (h : (d : Option String) (s : Run (Session U)) → HasResults n (rest d s)) where
    on_finish-HasResults :
        (c : ToolCall) (r : ToolResult) (d : Option String)
        (t : Tried HookPayload × Run (Session U))
        → HasResults (suc n) (on_finish setting rest c r d t)
    unfolding on_finish
    on_finish-HasResults c r d (crashed e, s) = tt
    on_finish-HasResults c r d (returned _, s) = add_result-HasResults r n _ (h _ _)
    on_finish-HasResults c r d (refused reason, s) = add_result-HasResults r n _ (h _ _)

    finish_one-HasResults :
        (p : HookPayload) (c : Option ToolCall) (m : ResultsMap) (d : Option String)
        (s : Run (Session U))
        → HasResults (suc n) (finish_one setting rest p c m d s)
    unfolding finish_one
    finish_one-HasResults p none m d s = add_result-HasResults _ n _ (h d s)
    finish_one-HasResults p (some c) m d s = on_finish-HasResults c _ d _

  finish-HasResults :
      (slots : List Slot) (m : ResultsMap) (d : Option String) (s : Run (Session U))
      → HasResults (length slots) (finish setting slots m d s)
  unfolding finish
  finish-HasResults [] m d s = refl
  finish-HasResults (denied_slot r ∷ slots) m d s =
      add_result-HasResults r (length slots) _ (finish-HasResults slots m d s)
  finish-HasResults (pending_slot p ∷ slots) m d s =
      finish_one-HasResults (length slots) (finish setting slots m) (finish-HasResults slots m) p
        p.tool_call m d s

  abbrev pub HasAll : ℕ → Outcome U (List ToolResult × Option StopInfo) → Type 0
  HasAll n o = IfOk (λ r. length r.0 ≡ n) o.0

  on_finished-HasAll : (n : ℕ) (o : Finished U) → HasResults n o → HasAll n (on_finished setting o)
  unfolding on_finished
  on_finished-HasAll n (raise e, s) h = tt
  on_finished-HasAll n (ok (rs, none), s) h = h
  on_finished-HasAll n (ok (rs, some d), s) h = h

  on_results-HasAll :
      (n : ℕ) (slots : List Slot) (o : Outcome U ResultsMap)
      → length slots ≡ n
      → HasAll n (on_results setting slots o)
  unfolding on_results
  on_results-HasAll n slots (raise e, s) h = tt
  on_results-HasAll n slots (ok m, s) h = on_finished-HasAll n _ (
      subst (λ k. HasResults k (finish setting slots m none s)) h
        (finish-HasResults slots m none s))

  on_gathered-HasAll :
      (pool : Pool U) (n : ℕ) (o : Outcome U (List Slot))
      → HasSlots n o
      → HasAll n (on_gathered setting pool o)
  unfolding on_gathered
  on_gathered-HasAll pool n (raise e, s) h = tt
  on_gathered-HasAll pool n (ok slots, s) h = on_results-HasAll n slots _ h

  pub execute_batch_parallel-HasAll :
      (pool : Pool U) (batch : List ToolCall) (s : Run (Session U))
      → HasAll (length batch) (execute_batch_parallel setting pool batch s)
  unfolding execute_batch_parallel
  execute_batch_parallel-HasAll pool batch s =
      on_gathered-HasAll pool (length batch) _ (gather-HasSlots batch s)
