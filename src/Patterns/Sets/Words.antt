-- ===== src/Patterns/Sets/Words.antt =====
-- Priorities and categories as words.
use patience.Base.{
  ◌≡◌, refl, ◌↔◌, ℕ, Option, some, none, Text, codes, same_text, same_text-eq, to_lower, arith,
  if◌then◌else◌, ap, ◌∙◌,
}
use patience.Patterns.Sets.{
  Priority, priority_low, priority_medium, priority_high, priority_critical, priority_string,
  unmarshal_priority,
}

priority_of : Text → Option Priority
priority_of word =
    if same_text word (codes "low")
    then some priority_low
    else if same_text word (codes "medium")
    then some priority_medium
    else if same_text word (codes "high")
    then some priority_high
    else if same_text word (codes "critical")
    then some priority_critical
    else none

priority_of_sound :
    (word : Text) (p : Priority) → priority_of word ≡ some p → word ≡ priority_string p
unfolding priority_of priority_string
priority_of_sound word p h = ground (
  arith,
  h,
  same_text-eq word (codes "low"),
  same_text-eq word (codes "medium"),
  same_text-eq word (codes "high"),
  same_text-eq word (codes "critical"),
)

priority_of-priority_string : (p : Priority) → priority_of (priority_string p) ≡ some p
unfolding priority_of priority_string same_text
priority_of-priority_string priority_low = refl
priority_of-priority_string _ = refl

-- A word is read as a priority exactly if, in lower case, it is what the priority prints; so what is
-- printed is read back, in any case of its letters.
pub unmarshal_priority_iff :
    (unicode : ℕ → ℕ) (s : Text) (p : Priority)
    → (unmarshal_priority unicode s ≡ some p) ↔ (to_lower unicode s ≡ priority_string p)
unfolding unmarshal_priority priority_of
unmarshal_priority_iff unicode s p = (
  (λ h. priority_of_sound (to_lower unicode s) p h),
  (λ h. ap priority_of h ∙ priority_of-priority_string p),
)
