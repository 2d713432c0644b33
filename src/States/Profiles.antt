-- ===== src/States/Profiles.antt =====
-- states.js ST_PROFILE, with its readers.
pub mod FromUt
pub mod FromMh
pub mod FromCt
pub mod FromTr
pub mod Sound
use aapda_sync.Base.{ℕ, Bool, true, false, Option, none, some, String, List, [], ◌∷◌, map, lookup}
use aapda_sync.States.{Profile, Terrain, Register}
use aapda_sync.States.Profiles.FromUt.{
  uttarakhand, assam, bihar, himachal_pradesh, sikkim, uttar_pradesh, kerala, odisha, west_bengal,
}
use aapda_sync.States.Profiles.FromMh.{
  maharashtra, meghalaya, arunachal_pradesh, madhya_pradesh, jammu_and_kashmir, gujarat, rajasthan,
  andhra_pradesh, chhattisgarh,
}
use aapda_sync.States.Profiles.FromCt.{
  karnataka, tamil_nadu, telangana, jharkhand, punjab, haryana, manipur, mizoram, nagaland,
}
use aapda_sync.States.Profiles.FromTr.{
  tripura, goa, delhi, puducherry, chandigarh, dadra_and_nagar_haveli, daman_and_diu,
  andaman_and_nicobar_islands, lakshadweep,
}

-- `ST_PROFILE`
abbrev pub st_profile : List (String × Profile)
st_profile =
    ("ut", uttarakhand)
    ∷ ("as", assam)
    ∷ ("br", bihar)
    ∷ ("hp", himachal_pradesh)
    ∷ ("sk", sikkim)
    ∷ ("up", uttar_pradesh)
    ∷ ("kl", kerala)
    ∷ ("or", odisha)
    ∷ ("wb", west_bengal)
    ∷ ("mh", maharashtra)
    ∷ ("ml", meghalaya)
    ∷ ("ar", arunachal_pradesh)
    ∷ ("mp", madhya_pradesh)
    ∷ ("jk", jammu_and_kashmir)
    ∷ ("gj", gujarat)
    ∷ ("rj", rajasthan)
    ∷ ("ap", andhra_pradesh)
    ∷ ("ct", chhattisgarh)
    ∷ ("ka", karnataka)
    ∷ ("tn", tamil_nadu)
    ∷ ("tg", telangana)
    ∷ ("jh", jharkhand)
    ∷ ("pb", punjab)
    ∷ ("hr", haryana)
    ∷ ("mn", manipur)
    ∷ ("mz", mizoram)
    ∷ ("nl", nagaland)
    ∷ ("tr", tripura)
    ∷ ("ga", goa)
    ∷ ("dl", delhi)
    ∷ ("py", puducherry)
    ∷ ("ch", chandigarh)
    ∷ ("dn", dadra_and_nagar_haveli)
    ∷ ("dd", daman_and_diu)
    ∷ ("an", andaman_and_nicobar_islands)
    ∷ ("ld", lakshadweep)
    ∷ []

abbrev pub state_ids : List String
state_ids = map (λ (row : String × Profile). row.0) st_profile

abbrev pub state_profile : String → Option Profile
state_profile id = lookup id st_profile

abbrev pub coastal_of : Option Profile → Bool
coastal_of none = false
coastal_of (some p) = p.cst

abbrev pub is_coastal : String → Bool
is_coastal id = coastal_of (state_profile id)

abbrev pub label_of : Register → String × String
label_of Register.sdma = (
  "SDMA-integrated",
  "Shelter and road registers are synchronised with the State Disaster Management Authority.",
)
label_of Register.provisional = (
  "Provisional register",
  "Modelled risk here is national and live. The shelter and road registers are provisional pending this state's SDMA feed — treat capacity figures as planning estimates, not as a verified register.",
)

-- `registerLabel(id)`, for the profile that is found.
abbrev pub register_label : Option Profile → Option (String × String)
register_label none = none
register_label (some p) = some (label_of p.reg)
