-- ===== src/Workflow/Evidence.antt =====
-- What a report of the parser rests on, and what the check against the plan leaves of it.
use first_agent_dev.Prelude.{
  ℕ, String, ◌≡◌, ◌≢◌, sym, ap, ◌∙◌, Bool, Option, none, some, ◌⊎◌, inl, inr, List, [], ◌∷◌, arith,
  Bool-cases, Option-cases,
}
use first_agent_dev.Hooks.Types.{Entries}
use first_agent_dev.Workflow.Artifacts.{EvalVerdict}
use first_agent_dev.Workflow.Parse.{
  Patterns, first_token, last_token, three, under_header, scan, scan_verdict, match_verdict_token,
  parse_with, parse_eval_report,
}

module _ {A : Type 0} (token : String → Option A) where
  -- `a` is the token of one of the lines
  abbrev pub HasToken : A → List String → Type 0
  HasToken a [] = ⊥
  HasToken a (l ∷ ls) = (token l ≡ some a) ⊎ HasToken a ls

  first_token-HasToken : (ls : List String) {a : A} → first_token token ls ≡ some a → HasToken a ls
  unfolding first_token
  first_token-HasToken [] h = cc
  first_token-HasToken (l ∷ ls) h = elim (Option-cases (token l)) [
    | inl e ↦ inr (first_token-HasToken ls (rw (e, first_token) at h))
    | inr (b, e) ↦ inl (e ∙ (rw (e, first_token) at h))
  ]

  last_token-HasToken :
      (found : Option A) (ls : List String) {a : A}
      → last_token token found ls ≡ some a
      → (found ≡ some a) ⊎ HasToken a ls
  unfolding last_token
  last_token-HasToken found [] h = inl h
  last_token-HasToken found (l ∷ ls) {a} h = elim (Option-cases (token l)) [
    | inl e ↦
        let later : (found ≡ some a) ⊎ HasToken a ls =
          last_token-HasToken found ls (rw (e, last_token) at h) in
        ground arith
    | inr (b, e) ↦
        let later : (some b ≡ some a) ⊎ HasToken a ls =
          last_token-HasToken (some b) ls (rw (e, last_token) at h) in
        ground arith
  ]

  HasToken-three : (a : A) (ls : List String) → HasToken a (three token ls) → HasToken a ls
  HasToken-three x [] h = h
  HasToken-three x (a ∷ []) h = h
  HasToken-three x (a ∷ b ∷ []) h = h
  HasToken-three x (a ∷ b ∷ c ∷ r) h = ground arith

  under_header-HasToken :
      (header : String → Bool) (ls : List String) {a : A}
      → under_header token header ls ≡ some a
      → HasToken a ls
  unfolding under_header
  under_header-HasToken header [] h = cc
  under_header-HasToken header (l ∷ ls) {a} h = elim (Bool-cases (header l)) [
    | inr e ↦ inr (under_header-HasToken header ls (rw (e, under_header) at h))
    | inl e ↦ elim (Option-cases (first_token token (l ∷ three token ls))) [
      | inl n ↦ inr (under_header-HasToken header ls (rw (e, n, under_header) at h))
      | inr (b, y) ↦
          let found : HasToken a (l ∷ three token ls) =
            first_token-HasToken (l ∷ three token ls) (y ∙ (rw (e, y, under_header) at h)) in
          elim found [ inl q ↦ inl q | inr q ↦ inr (HasToken-three a ls q) ]
    ]
  ]

  pub scan-HasToken :
      (header : String → Bool) (ls : List String) {a : A}
      → scan token header ls ≡ some a
      → HasToken a ls
  unfolding scan
  scan-HasToken header ls {a} h = elim (Option-cases (under_header token header ls)) [
    | inr (b, e) ↦ under_header-HasToken header ls (e ∙ (rw (e, scan) at h))
    | inl e ↦
        let later : (none ≡ some a) ⊎ HasToken a ls =
          last_token-HasToken none ls (rw (e, scan) at h) in
        elim later [ inl q ↦ cc | inr q ↦ q ]
  ]

module _ (p : Patterns) (run_id plan_id evaluation_id : String) (plan_version : ℕ)
    (eval_independence : Option Entries) where
  parse_with-verdict :
      (o : Option EvalVerdict) (s : String) {v : EvalVerdict}
      → (parse_with p run_id plan_id evaluation_id plan_version eval_independence o s).verdict ≡ v
      → v ≢ EvalVerdict.blocked
      → o ≡ some v
  unfolding parse_with
  parse_with-verdict none s h n = absurd (n (sym h))
  parse_with-verdict (some w) s h n = ap some h

  -- A verdict other than BLOCKED is the token of a line of the evaluator's message, so a message with
  -- no such line is never taken for a success.
  pub parse_eval_report-HasToken :
      (s : String) {v : EvalVerdict}
      → (parse_eval_report p run_id plan_id evaluation_id plan_version eval_independence s).verdict
        ≡ v
      → v ≢ EvalVerdict.blocked
      → HasToken (match_verdict_token p) v (p.splitlines s)
  unfolding parse_eval_report scan_verdict
  parse_eval_report-HasToken s h n =
      scan-HasToken (match_verdict_token p) p.verdict_header (p.splitlines s)
        (parse_with-verdict (scan_verdict p s) s h n)
