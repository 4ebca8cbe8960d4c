-- ===== src/Providers/Order.antt =====
-- What `validate_message_order` accepts, said without its loops.
use first_agent_dev.Prelude.{
  ℕ, ◌+◌, ◌≡◌, refl, sym, ap, ◌∙◌, String, Bool, true, false, not, ◌&&◌, ◌⊎◌, ◌↔◌, inl, inr, List,
  [], ◌∷◌, ◌++◌, Bool-cases, contains, contains-filter, contains-nil, contains-cons, contains-head,
  if◌then◌else◌,
}
use first_agent_dev.Providers.Messages.{
  Message, Violation, dangling, orphaned, has_role, known_role, final_violations, pair_violations,
  declared, resolved, minus, unless_empty, validate_message_order,
}

-- a last message that may be served
abbrev pub MayEnd : Bool → Message → Type 0
MayEnd trailing m = (known_role m ≡ true) × ((has_role "assistant" m ≡ false) ⊎ (trailing ≡ true))

abbrev pub user_after : Message → Message → Bool
user_after m n = has_role "user" n && has_role "tool" m

-- A conversation that can be served: it ends well, no user message directly follows the result of a
-- tool unless that is asked for, and the tool calls are resolved and the results are declared.
pub record WellOrdered (ms : List Message) (trailing after_tool : Bool) : Type 0 where
  pub ends : (before : List Message) (m : Message) → ms ≡ before ++ m ∷ [] → MayEnd trailing m
  pub apart :
      (after_tool ≡ true)
      ⊎ ((before after : List Message) (m n : Message)
          → ms ≡ before ++ m ∷ n ∷ after
          → user_after m n ≡ false)
  pub served : (id : String) → contains id (declared ms) ≡ true → contains id (resolved ms) ≡ true
  pub asked : (id : String) → contains id (resolved ms) ≡ true → contains id (declared ms) ≡ true

final_append :
    (t : Bool) (before : List Message) (m : Message)
    → final_violations t (before ++ m ∷ []) ≡ final_violations t (m ∷ [])
unfolding final_violations
final_append t [] m = refl
final_append t (x ∷ []) m = refl
final_append t (x ∷ y ∷ r) m = final_append t (y ∷ r) m

final→MayEnd : (t : Bool) (m : Message) → final_violations t (m ∷ []) ≡ [] → MayEnd t m
unfolding final_violations
final→MayEnd t m h = elim (Bool-cases (known_role m)) [
  | inl k ↦ elim (Bool-cases (has_role "assistant" m)) [
    | inr a ↦ (k, inl a)
    | inl a ↦ elim (Bool-cases t) [ inl y ↦ (k, inr y) | inr n ↦ cc (rw (a, n) at h) ]
  ]
  | inr k ↦ elim (Bool-cases (has_role "assistant" m && not t)) [
    | inl a ↦ cc (rw a at h)
    | inr a ↦ cc (rw (a, k) at h)
  ]
]

MayEnd→final : (t : Bool) (m : Message) → MayEnd t m → final_violations t (m ∷ []) ≡ []
unfolding final_violations
MayEnd→final t m (k, inl a) = rw (k, a)
MayEnd→final t m (k, inr y) = elim (Bool-cases (has_role "assistant" m)) [
  | inl a ↦ rw (k, a, y)
  | inr a ↦ rw (k, a)
]

last_message :
    (m : Message) (ms : List Message)
    → (before : List Message) × (n : Message) × (m ∷ ms ≡ before ++ n ∷ [])
last_message m [] = ([], m, refl)
last_message m (x ∷ ms) =
    let (before, n, e) = last_message x ms in (m ∷ before, n, ap (λ r. m ∷ r) e)

ends→final :
    (t : Bool) (ms : List Message)
    → ((before : List Message) (m : Message) → ms ≡ before ++ m ∷ [] → MayEnd t m)
    → final_violations t ms ≡ []
unfolding final_violations
ends→final t [] h = refl
ends→final t (m ∷ ms) h =
    let (before, n, e) = last_message m ms in
    ap (final_violations t) e ∙ final_append t before n ∙ MayEnd→final t n (h before n e)

pair-head :
    (i : ℕ) (m n : Message) (r : List Message)
    → pair_violations i (m ∷ n ∷ r) ≡ []
    → user_after m n ≡ false
unfolding pair_violations
pair-head i m n r h = elim (Bool-cases (user_after m n)) [ inr e ↦ e | inl e ↦ cc (rw e at h) ]

pair-tail :
    (i : ℕ) (m : Message) (r : List Message)
    → pair_violations i (m ∷ r) ≡ []
    → pair_violations (i + 1) r ≡ []
unfolding pair_violations
pair-tail i m [] h = refl
pair-tail i m (n ∷ r) h = elim (Bool-cases (user_after m n)) [
  | inl e ↦ cc (rw e at h)
  | inr e ↦ rw e at h
]

pair→apart :
    (i : ℕ) (before after : List Message) (m n : Message)
    → pair_violations i (before ++ m ∷ n ∷ after) ≡ []
    → user_after m n ≡ false
pair→apart i [] after m n h = pair-head i m n after h
pair→apart i (x ∷ before) after m n h =
    pair→apart (i + 1) before after m n (pair-tail i x (before ++ m ∷ n ∷ after) h)

apart→pair :
    (i : ℕ) (ms : List Message)
    → ((before after : List Message) (m n : Message)
        → ms ≡ before ++ m ∷ n ∷ after
        → user_after m n ≡ false)
    → pair_violations i ms ≡ []
unfolding pair_violations
apart→pair i [] h = refl
apart→pair i (m ∷ []) h = refl
apart→pair i (m ∷ n ∷ r) h = rw (h [] r m n refl) (
    apart→pair (i + 1) (n ∷ r) (λ before after x y e. h (m ∷ before) after x y (ap (λ l. m ∷ l) e)))

minus→within :
    (xs ys : List String) (id : String)
    → minus xs ys ≡ []
    → contains id xs ≡ true
    → contains id ys ≡ true
minus→within xs ys id h c = elim (Bool-cases (contains id ys)) [
  | inl e ↦ e
  | inr e ↦
      let left : contains id (minus xs ys) ≡ true =
        contains-filter (λ x. not (contains x ys)) id xs c (ap not e) in
      let none_left : contains id (minus xs ys) ≡ false = ap (contains id) h ∙ contains-nil id in cc
]

within→minus :
    (xs ys : List String)
    → ((id : String) → contains id xs ≡ true → contains id ys ≡ true)
    → minus xs ys ≡ []
within→minus [] ys h = refl
within→minus (x ∷ xs) ys h =
    rw (h x (contains-head x xs)) (within→minus xs ys (λ id c. h id (contains-cons id x xs c)))

unless_empty-nil :
    (v : List String → Violation) (xs : List String) → unless_empty v xs ≡ [] → xs ≡ []
unless_empty-nil v [] h = refl
unless_empty-nil v (x ∷ xs) h = cc

append_nil {ℓ} : {A : Type ℓ} (xs ys : List A) → xs ++ ys ≡ [] → (xs ≡ []) × (ys ≡ [])
append_nil [] ys h = (refl, h)
append_nil (x ∷ xs) ys h = cc

accepted-WellOrdered :
    (ms : List Message) (trailing after_tool : Bool)
    → validate_message_order ms trailing after_tool ≡ []
    → WellOrdered ms trailing after_tool
unfolding validate_message_order
accepted-WellOrdered ms trailing after_tool h =
    let pairs = if after_tool then [] else pair_violations 1 ms in
    let unresolved = unless_empty dangling (minus (declared ms) (resolved ms)) in
    let undeclared = unless_empty orphaned (minus (resolved ms) (declared ms)) in
    let (abc, d) = append_nil (final_violations trailing ms ++ pairs ++ unresolved) undeclared h in
    let (ab, c) = append_nil (final_violations trailing ms ++ pairs) unresolved abc in
    let (a, b) = append_nil (final_violations trailing ms) pairs ab in
    record {
      ends = λ before m e.
          final→MayEnd trailing m
            (sym (final_append trailing before m) ∙ sym (ap (final_violations trailing) e) ∙ a);
      apart = elim (Bool-cases after_tool) [
        | inl y ↦ inl y
        | inr n ↦
            let none_paired : pair_violations 1 ms ≡ [] = rw n at b in
            inr (λ before after m n e.
              pair→apart 1 before after m n (sym (ap (pair_violations 1) e) ∙ none_paired))
      ];
      served = λ id. minus→within (declared ms) (resolved ms) id (unless_empty-nil dangling _ c);
      asked = λ id. minus→within (resolved ms) (declared ms) id (unless_empty-nil orphaned _ d);
    }

WellOrdered-accepted :
    (ms : List Message) (trailing after_tool : Bool)
    → WellOrdered ms trailing after_tool
    → validate_message_order ms trailing after_tool ≡ []
unfolding validate_message_order
WellOrdered-accepted ms trailing after_tool w =
    let a = ends→final trailing ms w.ends in
    let c = within→minus (declared ms) (resolved ms) w.served in
    let d = within→minus (resolved ms) (declared ms) w.asked in
    elim w.apart [
      | inl y ↦ rw (a, y, c, d)
      | inr f ↦
          let b = apart→pair 1 ms f in
          elim (Bool-cases after_tool) [ inl y ↦ rw (a, y, c, d) | inr n ↦ rw (a, n, b, c, d) ]
    ]

-- The check of the message order finds no violation just when the conversation may be served: its last
-- message is one that may be, no user message directly follows the result of a tool unless the
-- provider asks for that, and the tool calls that it declares are those that it resolves.
pub validate_message_order-WellOrdered :
    (ms : List Message) (trailing after_tool : Bool)
    → (validate_message_order ms trailing after_tool ≡ []) ↔ WellOrdered ms trailing after_tool
validate_message_order-WellOrdered ms trailing after_tool =
    (accepted-WellOrdered ms trailing after_tool, WellOrdered-accepted ms trailing after_tool)
