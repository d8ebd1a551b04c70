-- ===== src/Saturation/Verdicts.antt =====
-- The saturation signal of scraper/saturation.py against a count of the engines that cool.
use topicstreams.Cooldown.{CooldownSnapshot}
use topicstreams.Sorting.{length-sorted, member-sorted}
use topicstreams.Saturation.{cooling, evaluate_saturation}
use topicstreams.Base.{
  ℕ, ◌+◌, ◌≤◌, String, ◌≡◌, refl, ap, ◌∙◌, ◌↔◌, Bool, true, not, ◌&&◌, List, [], ◌∷◌, arith, ltb,
  str_eq, if◌then◌else◌, length, any, filter, member, member-filter,
}

-- How many snapshots are of a cooling engine that is no canary.
abbrev pub robust_cooling : List String → List CooldownSnapshot → ℕ
robust_cooling canary [] = 0
robust_cooling canary (s ∷ snaps) =
    (if ltb 0 s.failures && not (member s.engine canary) then 1 else 0)
    + robust_cooling canary snaps

-- An engine has a snapshot that says it is cooling.
abbrev pub is_cooling : String → List CooldownSnapshot → Bool
is_cooling e snaps = any (λ s. ltb 0 s.failures && str_eq s.engine e) snaps

robust-count :
    (canary : List String) (snaps : List CooldownSnapshot)
    → length (filter (λ e. not (member e canary)) (cooling snaps)) ≡ robust_cooling canary snaps
unfolding cooling
robust-count canary [] = refl
robust-count canary (s ∷ snaps) = ground (arith, robust-count canary snaps)

member-cooling :
    (e : String) (snaps : List CooldownSnapshot) → member e (cooling snaps) ≡ is_cooling e snaps
unfolding cooling member
member-cooling e [] = refl
member-cooling e (s ∷ snaps) = ground (arith, member-cooling e snaps)

-- The exit IP counts as saturated exactly when at least the threshold of engines that are no
-- canaries are cooling; each engine that is cooling is named in one of the two lists, by whether it
-- is a canary, and no other engine is named.
evaluate_saturation_lem :
    (snaps : List CooldownSnapshot) (canary : List String) (threshold : ℕ) (e : String)
    → (((evaluate_saturation snaps canary threshold).saturated ≡ true)
        ↔ (threshold ≤ robust_cooling canary snaps))
      × (member e (evaluate_saturation snaps canary threshold).cooling_robust
          ≡ (not (member e canary) && is_cooling e snaps))
      × (member e (evaluate_saturation snaps canary threshold).cooling_canary
          ≡ (member e canary && is_cooling e snaps))
unfolding evaluate_saturation
evaluate_saturation_lem snaps canary threshold e = (
  ground (
    arith,
    length-sorted (filter (λ x. not (member x canary)) (cooling snaps)),
    robust-count canary snaps,
  ),
  member-sorted e _
      ∙ member-filter (λ x. not (member x canary)) e (cooling snaps)
      ∙ ap (λ b. not (member e canary) && b) (member-cooling e snaps),
  member-sorted e _
      ∙ member-filter (λ x. member x canary) e (cooling snaps)
      ∙ ap (λ b. member e canary && b) (member-cooling e snaps),
)
