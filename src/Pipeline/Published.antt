-- ===== src/Pipeline/Published.antt =====
-- boot.js, the event of an official warning: what is in the store after it.
use aapda_sync.Base.{
  ℕ, zero, suc, ◌-◌, ◌≤◌, Bool, true, false, not, some, String, List, [], ◌∷◌, ◌≡◌, refl, ap, ◌∙◌,
  arith, inl, inr, length, length-take, any, get_elem?, lookup, ltb, leb, Bool-cases,
}
use aapda_sync.Base.Sorts.{IsAscending}
use aapda_sync.Feed.{row_age}
use aapda_sync.Feed.Push.{count_id, push_national-once}
use aapda_sync.States.{Profile}
use aapda_sync.States.Cells.{Cell}
use aapda_sync.States.Alerts.{Alert, alert_auth, sev_for}
use aapda_sync.States.Profiles.Sound.{all_known}
use aapda_sync.States.Warned.{without_authority, any-keep, known-none, given_some}
use aapda_sync.Pipeline.Warnings.{
  Warnings, warnable, warning_of, row_alert, issue, issued, warned, warning_event, pop_beyond,
}

get_elem?-any {ℓ} :
    {A : Type ℓ} (p : A → Bool) (xs : List A) (i : ℕ) (x : A)
    → any p xs ≡ false
    → get_elem? xs i ≡ some x
    → p x ≡ false
get_elem?-any p [] i x e e' = cc
get_elem?-any p (y ∷ ys) zero x e e' = ground arith
get_elem?-any p (y ∷ ys) (suc i) x e e' = get_elem?-any p ys i x (ground arith) e'

-- A score below 45.
abbrev is_quiet : String × ℕ → Bool
is_quiet row = not (leb 45 row.1)

warnable-loud : (live : List (String × ℕ)) → any is_quiet (warnable live) ≡ false
warnable-loud [] = refl
warnable-loud (row ∷ live) = ground (arith, warnable-loud live)

length-pop_beyond {ℓ} :
    {A : Type ℓ} (n : ℕ) (xs : List A) → length xs ≤ suc n → length (pop_beyond n xs) ≤ n
length-pop_beyond n xs h = ground (arith, length-take (length xs - 1) xs)

first-pop_beyond {ℓ} :
    {A : Type ℓ} (n : ℕ) (x : A) (xs : List A) → get_elem? (pop_beyond (suc n) (x ∷ xs)) 0 ≡ some x
first-pop_beyond n x [] = ground arith
first-pop_beyond n x (y ∷ ys) = elim (Bool-cases (ltb (suc n) (suc (suc (length ys))))) [
  | inl e ↦
      (let same : suc (suc (length ys)) - 1 ≡ suc (length ys) = omega arith in rw (e, same) refl)
  | inr e ↦ rw e refl
]

module _ (now : ℕ) (focus state_name id : String) (p : Profile) (cells : List Cell)
    (live : List (String × ℕ)) (pick : ℕ) (h : String) (v : ℕ) (w : Warnings) where
  event_issues :
      (auth : String × String)
      → get_elem? (warnable live) pick ≡ some (h, v)
      → lookup h alert_auth ≡ some auth
      → warning_event now focus state_name id p cells live pick w
        ≡ some (issue now focus state_name (warning_of id p cells h v auth.0 auth.1) w)
  unfolding warning_event
  event_issues auth e e' =
      ap (λ o. warned now focus state_name id p cells o w) e
      ∙ ap (λ o. issued now focus state_name id p cells h v o w) e'

  -- A warning is issued for a hazard that is drawn: the hazard scores 45 or more; the newest of at
  -- most ten alerts of the state is for it, with the severity of its score; and the national feed is in
  -- order, holds at most 60 rows, and has the warning once.
  pub warning_event-published :
      get_elem? (warnable live) pick ≡ some (h, v)
      → all_known live ≡ true
      → length w.alerts ≤ 10
      → length w.national ≤ 60
      → (w' : Warnings) × (a : Alert) × (warning_event now focus state_name id p cells live pick w
          ≡ some w')
        × (get_elem? w'.alerts 0 ≡ some a)
        × ((a.haz ≡ h) × (a.sev ≡ sev_for v) × (45 ≤ v))
        × (length w'.alerts ≤ 10)
        × IsAscending row_age w'.national
        × (length w'.national ≤ 60)
        × (count_id a.id w'.national ≡ 1)
  unfolding issue warning_of
  warning_event-published e known le le' =
      let quiet =
        any-keep without_authority (λ (row : String × ℕ). leb 45 row.1) live
          (known-none live known) in
      let (auth, k) =
        given_some (lookup h alert_auth)
          (get_elem?-any without_authority (warnable live) pick (h, v) quiet e) in
      let loud = get_elem?-any is_quiet (warnable live) pick (h, v) (warnable-loud live) e in
      let a = warning_of id p cells h v auth.0 auth.1 in
      let (order, short, once) =
        push_national-once now focus state_name (row_alert a) w.national le' in
      (
        issue now focus state_name a w,
        a,
        event_issues auth e k,
        first-pop_beyond 9 a w.alerts,
        (refl, refl, ground arith),
        length-pop_beyond 10 (a ∷ w.alerts) (omega (arith, le)),
        order,
        short,
        once,
      )
