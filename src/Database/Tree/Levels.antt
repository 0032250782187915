-- ===== src/Database/Tree/Levels.antt =====
-- The levels of a topic: `strings.Split` and `strings.Join` with "/".
use life_stream_go_mqtt_brok.Prelude.{
  ℕ, List, ◌∷◌, ◌≡◌, [], if◌then◌else◌, ◌++◌, ◌==◌, refl, ◌<◌, ◌∙◌, All, length, ap, false, arith,
  Bool-cases, inl, inr,
}

abbrev pub slash : ℕ
slash = 0x2F

abbrev with_first : ℕ → List (List ℕ) → List (List ℕ)
with_first c [] = (c ∷ []) ∷ []
with_first c (l ∷ ls) = (c ∷ l) ∷ ls

unfoldable pub split : List ℕ → List (List ℕ)
split [] = [] ∷ []
split (c ∷ cs) = let rest = split cs in if c == slash then [] ∷ rest else with_first c rest

unfoldable pub join : List (List ℕ) → List ℕ
join [] = []
join (l ∷ []) = l
join (l ∷ (k ∷ ls)) = l ++ (slash ∷ join (k ∷ ls))

join-with_first :
    (c : ℕ) (l : List ℕ) (ls : List (List ℕ)) → join ((c ∷ l) ∷ ls) ≡ c ∷ join (l ∷ ls)
unfolding join
join-with_first c l [] = refl
join-with_first c l (k ∷ ls) = refl

-- The two steps of `split` on a split that is not empty, as it never is.
join_step :
    (c : ℕ) (r : List (List ℕ))
    → 0 < length r
    → join (if c == slash then [] ∷ r else with_first c r) ≡ c ∷ join r
join_step c [] h = absurd (omega arith)
join_step c (l ∷ ls) h = elim (Bool-cases (c == slash)) [
  | inl is_slash ↦ rw is_slash (unfold join in ap (λ (x : ℕ). x ∷ join (l ∷ ls)) (ground arith))
  | inr other ↦ rw other (join-with_first c l ls)
]

split_step_pos :
    (c : ℕ) (r : List (List ℕ))
    → 0 < length r
    → 0 < length (if c == slash then [] ∷ r else with_first c r)
split_step_pos c [] h = absurd (omega arith)
split_step_pos c (l ∷ ls) h = ground arith

split_pos : (s : List ℕ) → 0 < length (split s)
unfolding split
split_pos [] = omega arith
split_pos (c ∷ cs) = split_step_pos c (split cs) (split_pos cs)

-- The levels that a topic is split into are joined to the same topic.
pub join-split : (s : List ℕ) → join (split s) ≡ s
unfolding split
join-split [] = unfold join in refl
join-split (c ∷ cs) =
    join_step c (split cs) (split_pos cs) ∙ ap (λ (t : List ℕ). c ∷ t) (join-split cs)

abbrev pub NoSlash : List ℕ → Type 0
NoSlash l = All (λ (c : ℕ). (c == slash) ≡ false) l

split-append : (l s : List ℕ) → NoSlash l → split (l ++ slash ∷ s) ≡ l ∷ split s
unfolding split
split-append [] s h = refl
split-append (c ∷ l) s (other, h) = rw (other, split-append l s h) refl

pub split-single : (l : List ℕ) → NoSlash l → split l ≡ l ∷ []
unfolding split
split-single [] h = refl
split-single (c ∷ l) (other, h) = rw (other, split-single l h) refl

-- Levels without a slash, one at least, that are joined are split to the same levels.
pub split-join :
    (l : List ℕ) (ls : List (List ℕ)) → All NoSlash (l ∷ ls) → split (join (l ∷ ls)) ≡ l ∷ ls
unfolding join
split-join l [] (h, hs) = split-single l h
split-join l (k ∷ ls) (h, hs) =
    split-append l (join (k ∷ ls)) h ∙ ap (λ (t : List (List ℕ)). l ∷ t) (split-join k ls hs)
