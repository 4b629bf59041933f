-- ===== src/EnvDo/Warnings/Bounds.antt =====
-- mergeWarnings of broker/src/env-do.ts: how much may be stored.
use gha_mcp_host.Prelude.{
  ℕ, zero, suc, ◌≤◌, ◌≡◌, refl, sym, ap, ◌∙◌, true, false, ◌||◌, List, [], ◌∷◌, ◌++◌, Option, none,
  some, arith, length, take, length-take, text_eq, Bool-cases, inl, inr,
}
use gha_mcp_host.Text.{Text, text_eq-same, has_ink}
use gha_mcp_host.EnvDo.Warnings.{
  Incoming, max_stored_warnings, max_warning_chars, push_all, has, unique, some_if_any, of_incoming,
  of_option, stored_list, merge_warnings,
}

abbrev pub AllShort : List Text → Type 0
AllShort [] = Unit {0}
AllShort (v ∷ vs) = (length v ≤ max_warning_chars) × AllShort vs

abbrev pub Distinct : List Text → Type 0
Distinct [] = Unit {0}
Distinct (v ∷ vs) = (has v vs ≡ false) × Distinct vs

text_eq_refl : (v : Text) → text_eq v v ≡ true
text_eq_refl [] = refl
text_eq_refl (x ∷ xs) = ground (arith, text_eq_refl xs)

push_all-AllShort : (vs : List Text) → AllShort (push_all vs)
unfolding push_all
push_all-AllShort [] = _
push_all-AllShort (v ∷ vs) = elim (Bool-cases (has_ink v)) [
  | inl e ↦ rw e (omega (arith, length-take max_warning_chars v), push_all-AllShort vs)
  | inr e ↦ rw e (push_all-AllShort vs)
]

unique-AllShort : (seen vs : List Text) → AllShort vs → AllShort (unique seen vs)
unfolding unique
unique-AllShort seen [] a = _
unique-AllShort seen (v ∷ vs) a = elim (Bool-cases (has v seen)) [
  | inl e ↦ rw e (unique-AllShort seen vs a.1)
  | inr e ↦ rw e (a.0, unique-AllShort (v ∷ seen) vs a.1)
]

take-AllShort : (n : ℕ) (vs : List Text) → AllShort vs → AllShort (take n vs)
take-AllShort zero vs a = _
take-AllShort (suc n) [] a = _
take-AllShort (suc n) (v ∷ vs) a = (a.0, take-AllShort n vs a.1)

-- A text that was seen does not come again.
has-unique : (v : Text) (seen vs : List Text) → has v seen ≡ true → has v (unique seen vs) ≡ false
unfolding has unique
has-unique v seen [] h = refl
has-unique v seen (w ∷ ws) h = elim (Bool-cases (has w seen)) [
  | inl e ↦ rw e (has-unique v seen ws h)
  | inr e ↦ elim (Bool-cases (text_eq v w)) [
    | inl same ↦ cc (ap (λ t. has t seen) (text_eq-same v w same), h, e)
    | inr other ↦ rw (e, other) (has-unique v (w ∷ seen) ws (rw (other) h))
  ]
]

unique-Distinct : (seen vs : List Text) → Distinct (unique seen vs)
unfolding has unique
unique-Distinct seen [] = _
unique-Distinct seen (v ∷ vs) = elim (Bool-cases (has v seen)) [
  | inl e ↦ rw e (unique-Distinct seen vs)
  | inr e ↦ rw e (has-unique v (v ∷ seen) vs (rw (text_eq_refl v)), unique-Distinct (v ∷ seen) vs)
]

has-take : (n : ℕ) (v : Text) (vs : List Text) → has v vs ≡ false → has v (take n vs) ≡ false
unfolding has
has-take zero v vs h = refl
has-take (suc n) v [] h = refl
has-take (suc n) v (w ∷ ws) h = elim (Bool-cases (text_eq v w)) [
  | inl e ↦ cc h
  | inr e ↦ rw e (has-take n v ws (sym (ap (λ b. b || has v ws) e) ∙ h))
]

take-Distinct : (n : ℕ) (vs : List Text) → Distinct vs → Distinct (take n vs)
take-Distinct zero vs d = _
take-Distinct (suc n) [] d = _
take-Distinct (suc n) (v ∷ vs) d = (has-take n v vs d.0, take-Distinct n vs d.1)

-- What may be stored: nothing, or a list that is not empty, of at most ten distinct warnings, each
-- of at most 300 code units.
abbrev pub IsStorable : Option (List Text) → Type 0
IsStorable none = Unit {0}
IsStorable (some []) = ⊥
IsStorable (some (v ∷ vs)) =
    (length (v ∷ vs) ≤ max_stored_warnings) × AllShort (v ∷ vs) × Distinct (v ∷ vs)

-- Whatever a chunk and the broker have to say, and whatever is stored, the merged warnings may be
-- stored.
pub merge_warnings-IsStorable :
    (stored : Option (List Text)) (incoming : Incoming) (extra extra' : Option Text)
    → IsStorable (merge_warnings stored incoming extra extra')
unfolding merge_warnings some_if_any
merge_warnings-IsStorable stored incoming extra extra' =
    let said =
      stored_list stored ++ (of_incoming incoming ++ (of_option extra ++ of_option extra')) in
    let kept = unique [] (push_all said) in
    storable (take max_stored_warnings kept) (omega (arith, length-take max_stored_warnings kept))
      (take-AllShort max_stored_warnings kept
        (unique-AllShort [] (push_all said) (push_all-AllShort said)))
      (take-Distinct max_stored_warnings kept (unique-Distinct [] (push_all said)))
  where
    storable :
        (vs : List Text)
        → length vs ≤ max_stored_warnings
        → AllShort vs
        → Distinct vs
        → IsStorable (some_if_any vs)
    storable [] n a d = _
    storable (v ∷ vs) n a d = (n, a, d)
