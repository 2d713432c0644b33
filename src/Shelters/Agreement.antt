-- ===== src/Shelters/Agreement.antt =====
-- The three places that compute a shelter's capacity, compared.
use aapda_sync.Base.{ℕ, ◌/◌, ◌≡◌, arith, true, List, some}
use aapda_sync.Base.Int.{pos}
use aapda_sync.Shelters.{
  Limit, Condition, Cell, Row, Shelter, Form, conditioned, mk_shelter, recompute_shelter, save_form,
  zone_risk, tightest, candidates, Binding,
}

-- A form that is saved as it was shown.
abbrev pub shown : Shelter → Form
shown s = record {
  occ = some (pos s.current_occupancy);
  wd = some (pos s.water_days);
  fd = some (pos s.food_days);
  md = some (pos s.medical_staff);
}

conditioned-ready :
    (state : Condition) (risk : ℕ) (best : Limit × ℕ)
    → (conditioned state risk best).1 ≡ true
    → state ≡ Condition.ready
    → ((conditioned state risk best).0 ≡ best.1)
      × ((conditioned state risk best).2 ≡ Binding.by best.0)
unfolding conditioned
conditioned-ready Condition.compromised risk best h e = absurd (ground arith)
conditioned-ready Condition.standby risk best h e = absurd (ground arith)
conditioned-ready Condition.ready risk best h e = ground arith

conditioned-standby :
    (state : Condition) (risk : ℕ) (best : Limit × ℕ)
    → (conditioned state risk best).1 ≡ true
    → state ≡ Condition.standby
    → (conditioned state risk best).0 ≡ best.1 / 2
unfolding conditioned
conditioned-standby Condition.compromised risk best h e = absurd (ground arith)
conditioned-standby Condition.standby risk best h e = ground arith
conditioned-standby Condition.ready risk best h e = absurd (ground arith)

-- Of an operational shelter that is not on standby, the recomputation and a form saved unchanged
-- give all that the table gave.
pub recompute_shelter-mk_shelter :
    (cells : List Cell) (r : Row)
    → (mk_shelter cells r).operational ≡ true
    → r.state ≡ Condition.ready
    → (recompute_shelter (mk_shelter cells r) ≡ mk_shelter cells r)
      × (save_form (shown (mk_shelter cells r)) (mk_shelter cells r) ≡ mk_shelter cells r)
unfolding mk_shelter recompute_shelter save_form
recompute_shelter-mk_shelter cells r h e = ground (
  arith,
  conditioned-ready r.state (zone_risk cells r.zone)
      (tightest (candidates r.cap r.occ r.water r.food r.med)) h e,
)

-- Of an operational shelter on standby the table gives half of the places that the recomputation
-- gives; and a form saved unchanged gives as many as the recomputation.
pub recompute_shelter-standby :
    (cells : List Cell) (r : Row)
    → (mk_shelter cells r).operational ≡ true
    → r.state ≡ Condition.standby
    → ((mk_shelter cells r).effective_capacity
        ≡ (recompute_shelter (mk_shelter cells r)).effective_capacity / 2)
      × ((save_form (shown (mk_shelter cells r)) (mk_shelter cells r)).effective_capacity
          ≡ (recompute_shelter (mk_shelter cells r)).effective_capacity)
unfolding mk_shelter recompute_shelter save_form
recompute_shelter-standby cells r h e = ground (
  arith,
  conditioned-standby r.state (zone_risk cells r.zone)
      (tightest (candidates r.cap r.occ r.water r.food r.med)) h e,
)
