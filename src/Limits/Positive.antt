-- ===== src/Limits/Positive.antt =====
-- inner_loop/runtime_limits.py: what the loader accepts for a key is at least one, or a zero that the
-- key allows.
use mathlib.Core.Path.{subst, subst⁻¹}
use first_agent_dev.Prelude.{
  some_inj, ℕ, suc, ℤ, pos, negsuc, String, ◌≡◌, refl, Bool, true, false, not, ◌||◌, inl, inr,
  Option, none, some, List, [], ◌∷◌, all, truthy, str_eq, leb, ltb, ◌==◌, if◌then◌else◌, if_split,
  eq_iff, Bool-cases, Option-cases, arith, and_true,
}
use first_agent_dev.Limits.Keys.{
  zero_allowed_keys, unit_interval_keys, bool_keys, float_keys, role_key_to_name, known_keys,
  is_key, find_key,
}
use first_agent_dev.Limits.Load.{
  Python, Found, note_warning, strip_inline_comment, accept_bool_key, accept_float,
  accept_float_key, take_int, accept_int, accept_int_key, accept_key, accept_pair, scan_limits_line,
  scan_limits,
}

-- an entry that is at least one, or whose key allows a zero
abbrev pub allowed_entry : String × ℕ → Bool
allowed_entry kv = leb 1 kv.1 || is_key kv.0 zero_allowed_keys

abbrev pub positive_entry : String × ℕ → Bool
positive_entry kv = leb 1 kv.1

-- A key that is found has the property of a key of the list.
find_key-strict :
    (m : List (String × String)) (key : String) {role : String}
    → find_key key m ≡ some role
    → all (λ kv. not (is_key kv.0 zero_allowed_keys)) m ≡ true
    → is_key key zero_allowed_keys ≡ false
unfolding find_key
find_key-strict [] key h a = cc
find_key-strict ((k, v) ∷ r) key h a =
    let (now, later) = and_true (not (is_key k zero_allowed_keys)) _ a in
    elim (Bool-cases (str_eq k key)) [
      | inl y ↦
          subst (λ x. is_key x zero_allowed_keys ≡ false) ((eq_iff k key).0 y)
            (let strict : is_key k zero_allowed_keys ≡ false = ground (arith, now) in strict)
      | inr n ↦ find_key-strict r key (rw (n, find_key) at h) later
    ]

or_false : (a b : Bool) → a || b ≡ true → b ≡ false → a ≡ true
or_false a b h k = ground arith

pub find_key-large :
    (m : List (String × ℕ)) (key : String) {n : ℕ}
    → find_key key m ≡ some n
    → all allowed_entry m ≡ true
    → is_key key zero_allowed_keys ≡ false
    → leb 1 n ≡ true
unfolding find_key
find_key-large [] key h a z = cc
find_key-large ((k, v) ∷ r) key {n} h a z =
    let (now, later) = and_true (allowed_entry (k, v)) _ a in
    elim (Bool-cases (str_eq k key)) [
      | inl y ↦
          let strict : is_key k zero_allowed_keys ≡ false =
            subst⁻¹ (λ x. is_key x zero_allowed_keys ≡ false) ((eq_iff k key).0 y) z in
          let large : leb 1 v ≡ true = or_false (leb 1 v) (is_key k zero_allowed_keys) now strict in
          subst (λ x. leb 1 x ≡ true) (some_inj (rw (y, find_key) at h)) large
      | inr q ↦ find_key-large r key (rw (q, find_key) at h) later z
    ]

large_if : (n : ℕ) (z : Bool) → ltb n (if z then 0 else 1) ≡ false → leb 1 n || z ≡ true
large_if n true h = ground arith
large_if n false h = ground arith

large_entry :
    (key : String) (n : ℕ)
    → ltb n (if is_key key zero_allowed_keys then 0 else 1) ≡ false
    → allowed_entry (key, n) ≡ true
large_entry key n h = large_if n (is_key key zero_allowed_keys) h

large_strict :
    (key : String) (n : ℕ)
    → ltb n (if is_key key zero_allowed_keys then 0 else 1) ≡ false
    → is_key key zero_allowed_keys ≡ false
    → leb 1 n ≡ true
large_strict key n h z =
    or_false (leb 1 n) (is_key key zero_allowed_keys) (large_if n (is_key key zero_allowed_keys) h)
      z

module _ {F : Type 0} (python : Python F) where
  abbrev pub Sound : Found F → Type 0
  Sound s = (all allowed_entry s.ints ≡ true) × (all positive_entry s.roles ≡ true)

  accept_bool_key-Sound :
      (key value : String) (line_no : ℕ) (s : Found F)
      → Sound s
      → Sound (accept_bool_key python key value line_no s)
  unfolding accept_bool_key note_warning
  accept_bool_key-Sound key value line_no s h =
      if_split Sound (is_key (python.plain (python.strip value)) ("true" ∷ "yes" ∷ "on" ∷ "1" ∷ []))
        (λ _. h)
        (λ _.
          if_split Sound
            (is_key (python.plain (python.strip value)) ("false" ∷ "no" ∷ "off" ∷ "0" ∷ []))
            (λ _. h) (λ _. h))

  accept_float-Sound :
      (key value : String) (line_no : ℕ) (x : F) (s : Found F)
      → Sound s
      → Sound (accept_float python key value line_no x s)
  unfolding accept_float note_warning
  accept_float-Sound key value line_no x s h =
      if_split Sound (not (python.is_finite x)) (λ _. h)
        (λ _.
          if_split Sound (is_key key unit_interval_keys)
            (λ _. if_split Sound (not (python.in_unit_interval x)) (λ _. h) (λ _. h))
            (λ _.
              if_split Sound
                (if is_key key zero_allowed_keys then python.below_zero x else python.below_one x)
                (λ _. h) (λ _. h)))

  accept_float_key-Sound :
      (key value : String) (line_no : ℕ) (s : Found F)
      → Sound s
      → Sound (accept_float_key python key value line_no s)
  unfolding accept_float_key note_warning
  accept_float_key-Sound key value line_no s h = elim (Option-cases (python.float_of value)) [
    | inl e ↦ rw (e, accept_float_key) h
    | inr (x, e) ↦ rw (e, accept_float_key) (accept_float-Sound key value line_no x s h)
  ]

  take_int-Sound :
      (key : String) (n : ℕ) (s : Found F)
      → ltb n (if is_key key zero_allowed_keys then 0 else 1) ≡ false
      → Sound s
      → Sound (take_int python key n s)
  unfolding take_int
  take_int-Sound key n s e (h, k) =
      let entry : allowed_entry (key, n) ≡ true = large_entry key n e in
      elim (Option-cases (find_key key role_key_to_name)) [
        | inl q ↦ rw (q, take_int) (rw (entry, h) refl, k)
        | inr (role, q) ↦
            let strict : is_key key zero_allowed_keys ≡ false =
              find_key-strict role_key_to_name key q refl in
            let large : leb 1 n ≡ true = large_strict key n e strict in
            rw (q, take_int) (rw (entry, h) refl, rw (large, k) refl)
      ]

  accept_int-Sound :
      (key : String) (line_no : ℕ) (n : ℤ) (s : Found F)
      → Sound s
      → Sound (accept_int python key line_no n s)
  unfolding accept_int note_warning
  accept_int-Sound key line_no (negsuc n) s h = h
  accept_int-Sound key line_no (pos n) s h =
      if_split Sound (ltb n (if is_key key zero_allowed_keys then 0 else 1)) (λ _. h)
        (λ e. take_int-Sound key n s e h)

  accept_int_key-Sound :
      (key value : String) (line_no : ℕ) (s : Found F)
      → Sound s
      → Sound (accept_int_key python key value line_no s)
  unfolding accept_int_key note_warning
  accept_int_key-Sound key value line_no s h = elim (Option-cases (python.int_of value)) [
    | inl e ↦ rw (e, accept_int_key) h
    | inr (n, e) ↦ rw (e, accept_int_key) (accept_int-Sound key line_no n s h)
  ]

  accept_key-Sound :
      (key value : String) (line_no : ℕ) (s : Found F)
      → Sound s
      → Sound (accept_key python key value line_no s)
  unfolding accept_key note_warning
  accept_key-Sound key value line_no s h =
      if_split Sound (not (is_key key known_keys)) (λ _. h)
        (λ _.
          if_split Sound (is_key key bool_keys) (λ _. accept_bool_key-Sound key value line_no s h)
            (λ _.
              if_split Sound (is_key key float_keys)
                (λ _. accept_float_key-Sound key value line_no s h)
                (λ _. accept_int_key-Sound key value line_no s h)))

  accept_pair-Sound :
      (pair : Option (String × String)) (line_no : ℕ) (s : Found F)
      → Sound s
      → Sound (accept_pair python pair line_no s)
  unfolding accept_pair
  accept_pair-Sound none line_no s h = h
  accept_pair-Sound (some (key, rest)) line_no s h =
      accept_key-Sound (python.strip key) (python.strip (strip_inline_comment python rest)) line_no
        s h

  scan_limits_line-Sound :
      (line_no : ℕ) (raw : String) (s : Found F)
      → Sound s
      → Sound (scan_limits_line python line_no raw s)
  unfolding scan_limits_line
  scan_limits_line-Sound line_no raw s h =
      let line = python.rstrip raw in
      let stripped = python.lstrip line in
      if_split Sound (not (truthy (python.strip line)) || python.starts_with_hash stripped) (λ _. h)
        (λ _.
          if_split Sound (python.size line == python.size stripped) (λ _. h)
            (λ _.
              if_split Sound (not s.in_block) (λ _. h)
                (λ _. accept_pair-Sound (python.partition stripped) line_no s h)))

  pub scan_limits-Sound :
      (line_no : ℕ) (lines : List String) (s : Found F)
      → Sound s
      → Sound (scan_limits python line_no lines s)
  unfolding scan_limits
  scan_limits-Sound line_no [] s h = h
  scan_limits-Sound line_no (raw ∷ r) s h =
      scan_limits-Sound (suc line_no) r (scan_limits_line python line_no raw s)
        (scan_limits_line-Sound line_no raw s h)
