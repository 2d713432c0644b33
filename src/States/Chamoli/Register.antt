-- ===== src/States/Chamoli/Register.antt =====
-- data.js: the register of Chamoli, UT_CELLS and the tables after it. Heights above the drainage and
-- days of stock are in tenths, gauges and confidences in hundredths. Places on the map are left out.
use aapda_sync.Base.{ℕ, Option, none, some, String, List, [], ◌∷◌}
use aapda_sync.Base.Int.{ℤ, pos, negsuc}
use aapda_sync.Shelters
use aapda_sync.Shelters.{Condition}
use aapda_sync.States.Alerts.{Alert}
use aapda_sync.States.Registers.{Hospital, Road, Report}

-- A row of UT_CELLS, with the letter and the digit of its place on the grid.
pub record Survey : Type 0 where
  pub place : String × ℕ
  pub h3 : String
  pub name : String
  pub fl : ℤ
  pub ls : ℤ
  pub pop : ℕ
  pub elev : ℕ
  pub slope : ℕ
  pub hand : ℕ
  pub rain : Option ℕ
  pub riv : Option ℕ

abbrev survey : String → ℕ → String → String → ℤ → ℤ → ℕ → ℕ → ℕ → ℕ → Option ℕ → Option ℕ → Survey
survey letter digit h3 name fl ls pop elev slope hand rain riv = record {
  place = (letter, digit);
  h3 = h3;
  name = name;
  fl = fl;
  ls = ls;
  pop = pop;
  elev = elev;
  slope = slope;
  hand = hand;
  rain = rain;
  riv = riv;
}

abbrev pub ut_cells : List Survey
ut_cells =
    survey "A" 1 "871e2a32fffffff" "Gwaldam" (pos 22) (pos 48) 1230 1629 35 440 (some 132) none
    ∷ survey "A" 2 "871e2a35fffffff" "Tharali" (pos 45) (pos 36) 3820 856 15 68 (some 167) (some 83)
    ∷ survey "A" 3 "871e2a34fffffff" "Dewal" (pos 28) (pos 55) 910 1466 38 340 (some 143) none
    ∷ survey "A" 4 "871e2a33fffffff" "Narayanbagar" (pos 35) (pos 32) 1780 1008 20 150 (some 151)
        none
    ∷ survey "A" 5 "871e2a36fffffff" "Adibadri" (pos 33) (pos 24) 1440 1102 23 210 (some 154) none
    ∷ survey "B" 1 "871e2a3afffffff" "Simli" (pos 64) (pos 27) 4180 744 12 34 (some 199) (some 101)
    ∷ survey "B" 2 "871e2a48fffffff" "Karnaprayag" (pos 87) (pos 38) 11640 788 14 28 (some 224)
        (some 109)
    ∷ survey "B" 3 "871e2a46fffffff" "Gauchar" (pos 76) (pos 29) 6910 762 11 22 (some 211)
        (some 104)
    ∷ survey "B" 4 "871e2a45fffffff" "Sonala" (pos 41) (pos 47) 1540 998 28 165 (some 172) none
    ∷ survey "B" 5 "871e2a3bfffffff" "Ravigram" (pos 52) (pos 31) 2740 906 18 83 (some 176) none
    ∷ survey "C" 1 "871e2a47fffffff" "Langasu" (pos 58) (pos 33) 2380 842 19 74 (some 189) (some 91)
    ∷ survey "C" 2 "871e2a4ffffffff" "Nandprayag" (pos 94) (pos 61) 4820 912 22 31 (some 218)
        (some 106)
    ∷ survey "C" 3 "871e2a4dfffffff" "Chamoli Town" (pos 88) (pos 44) 8240 954 17 46 (some 201)
        (some 102)
    ∷ survey "C" 4 "871e2a3cfffffff" "Nauli" (pos 69) (pos 35) 3260 880 16 51 (some 194) (some 97)
    ∷ survey "C" 5 "871e2a37fffffff" "Kaleshwar" (pos 59) (pos 41) 2020 1024 21 105 (some 183) none
    ∷ survey "D" 1 "871e2a3ffffffff" "Marwari" (pos 44) (pos 51) 1870 1180 24 120 (some 165) none
    ∷ survey "D" 2 "871e2a4cfffffff" "Birahi" (pos 71) (pos 78) 1960 1104 34 92 (some 196) (some 94)
    ∷ survey "D" 3 "871e2a4bfffffff" "Pipalkoti" (pos 63) (pos 52) 3410 1260 26 140 (some 178)
        (some 88)
    ∷ survey "D" 4 "871e2a40fffffff" "Helang" (pos 57) (pos 66) 2140 1420 31 180 (some 181)
        (some 89)
    ∷ survey "D" 5 "871e2a39fffffff" "Ghat" (pos 38) (pos 69) 1650 1310 36 240 (some 162) none
    ∷ survey "E" 1 "871e2a49fffffff" "Gulabkoti" (pos 49) (pos 86) 1120 1388 41 220 (some 184) none
    ∷ survey "E" 2 "871e2a43fffffff" "Tapovan" (pos 62) (pos 84) 1380 1902 39 260 (some 174)
        (some 86)
    ∷ survey "E" 3 "871e2a42fffffff" "Joshimath" (pos 46) (pos 89) 16800 1875 33 480 (some 158) none
    ∷ survey "E" 4 "871e2a44fffffff" "Reni" (pos 55) (pos 92) 820 1620 46 310 (some 168) none
    ∷ survey "E" 5 "871e2a3efffffff" "Sukhi Top" (negsuc 0) (negsuc 0) 410 2240 48 620 none none
    ∷ []

abbrev shelter : String → String → String → ℕ → ℕ → ℕ → ℕ → ℕ → Condition → Shelters.Row
shelter id name zone cap occ water food med state = record {
  id = id;
  name = name;
  zone = zone;
  cap = cap;
  occ = occ;
  water = water;
  food = food;
  med = med;
  state = state;
}

-- A shelter that is full or open is judged alike by the capacity.
abbrev pub ut_shelters : List Shelters.Row
ut_shelters =
    shelter "SH-201" "GIC Karnaprayag" "B2" 900 612 35 40 2 Condition.ready
    ∷ shelter "SH-202" "Chamoli Community Hall" "C3" 520 486 14 22 1 Condition.ready
    ∷ shelter "SH-203" "Gauchar Relief Camp" "B3" 1400 730 60 55 4 Condition.ready
    ∷ shelter "SH-204" "Pipalkoti Inter College" "D3" 680 214 42 38 2 Condition.ready
    ∷ shelter "SH-205" "Joshimath ITBP Ground" "E3" 2200 1180 75 60 6 Condition.ready
    ∷ shelter "SH-206" "Nandprayag Sanskrit Vidyalaya" "C2" 380 380 8 11 0 Condition.ready
    ∷ shelter "SH-207" "Tharali Block Office" "A2" 450 96 50 45 1 Condition.ready
    ∷ shelter "SH-208" "Simli Degree College" "B1" 760 302 30 35 2 Condition.ready
    ∷ shelter "SH-209" "Birahi Panchayat Bhawan" "D2" 240 88 25 20 0 Condition.compromised
    ∷ shelter "SH-210" "Gwaldam Tourist Rest House" "A1" 300 44 60 60 1 Condition.standby
    ∷ []

abbrev pub ut_hospitals : List Hospital
ut_hospitals =
    record { id = "HOSP-1"; name = "District Hospital Gopeshwar"; beds = 180; icu = 12 }
    ∷ record { id = "HOSP-2"; name = "CHC Karnaprayag"; beds = 60; icu = 4 }
    ∷ record { id = "HOSP-3"; name = "CHC Joshimath"; beds = 40; icu = 2 }
    ∷ []

abbrev pub ut_alerts : List Alert
ut_alerts =
    record {
      id = "CAP-IMD-UT-014";
      auth = "India Meteorological Department, Dehradun";
      sev = "Extreme";
      urg = "Immediate";
      cert = "Observed";
      haz = "flood";
      event = "Extremely Heavy Rainfall Warning";
      head = "Extremely heavy rainfall very likely over Chamoli and Rudraprayag districts";
      area = "Chamoli, Rudraprayag — Uttarakhand";
      age = 72;
      expires_in = 7;
      inst = (some "Avoid travel on hill roads. Move away from riverbanks and slope toes.");
    }
    ∷ record {
      id = "CAP-CWC-AL-006";
      auth = "Central Water Commission, Flood Forecasting Directorate";
      sev = "Severe";
      urg = "Immediate";
      cert = "Observed";
      haz = "flood";
      event = "River in Severe Flood Situation";
      head = "Alaknanda at Nandprayag above danger level, rising";
      area = "Alaknanda basin — Nandprayag to Karnaprayag";
      age = 37;
      expires_in = 12;
      inst = (some "Riverside settlements to move to designated relief camps.");
    }
    ∷ record {
      id = "CAP-USDMA-021";
      auth = "Uttarakhand State Disaster Management Authority";
      sev = "Severe";
      urg = "Expected";
      cert = "Likely";
      haz = "landslide";
      event = "Landslide Warning";
      head = "High landslide risk on NH-7 between Pipalkoti and Joshimath";
      area = "Chamoli — NH-7 corridor";
      age = 114;
      expires_in = 19;
      inst = (some "NH-7 restricted to emergency traffic. Do not halt below cut slopes.");
    }
    ∷ record {
      id = "CAP-IMD-UT-009";
      auth = "India Meteorological Department, Dehradun";
      sev = "Moderate";
      urg = "Future";
      cert = "Possible";
      haz = "lightning";
      event = "Thunderstorm with Lightning";
      head = "Thunderstorm with lightning likely at isolated places";
      area = "Garhwal division";
      age = 267;
      expires_in = 5;
      inst = (some "Take shelter indoors. Avoid open fields and isolated trees.");
    }
    ∷ []

-- With the zone that `loadState` gives each.
abbrev pub ut_roads : List Road
ut_roads =
    record {
      name = "NH-7 · Pipalkoti–Helang";
      state = "landslide";
      reason = "Debris across both lanes, 40 m stretch";
      age = 50;
      by = "FO-Chamoli-04";
      confidence = 95;
      zone = "D3";
    }
    ∷ record {
      name = "NH-7 · Nandprayag bridge approach";
      state = "flooded";
      reason = "Water over carriageway, 0.4 m";
      age = 24;
      by = "FO-Chamoli-02";
      confidence = 90;
      zone = "C2";
    }
    ∷ record {
      name = "SH-9 · Karnaprayag–Gwaldam";
      state = "partially_blocked";
      reason = "Single lane, boulder fall cleared partially";
      age = 132;
      by = "FO-Chamoli-07";
      confidence = 85;
      zone = "A2";
    }
    ∷ record {
      name = "NH-7 · Chamoli–Birahi";
      state = "slow";
      reason = "Surface water, heavy traffic";
      age = 20;
      by = "FO-Chamoli-04";
      confidence = 80;
      zone = "C3";
    }
    ∷ record {
      name = "Link road · Reni–Tapovan";
      state = "blocked";
      reason = "Slope failure, no access";
      age = 217;
      by = "SDRF-Joshimath";
      confidence = 98;
      zone = "E4";
    }
    ∷ record {
      name = "SH-9 · Tharali–Dewal";
      state = "open";
      reason = "Reopened after clearance";
      age = 92;
      by = "FO-Chamoli-09";
      confidence = 90;
      zone = "A3";
    }
    ∷ []

abbrev pub ut_reports : List Report
ut_reports =
    record {
      id = "CR-40218";
      cat = "Water entering houses";
      loc = "Nandprayag bazaar";
      cell = "C2";
      desc = "Water has come into the ground floor of shops near the bridge.";
      age = 22;
      st = "verified";
      by = (some "FO-Chamoli-02");
    }
    ∷ record {
      id = "CR-40221";
      cat = "Road blocked";
      loc = "Pipalkoti–Helang, NH-7";
      cell = "D3";
      desc = "Big rocks and mud on the road. Nothing can pass.";
      age = 52;
      st = "verified";
      by = (some "FO-Chamoli-04");
    }
    ∷ record {
      id = "CR-40226";
      cat = "Cracks in ground";
      loc = "Joshimath, Sunil ward";
      cell = "E3";
      desc = "New cracks have appeared in the lane since morning.";
      age = 8;
      st = "pending";
      by = none;
    }
    ∷ record {
      id = "CR-40229";
      cat = "Shelter overcrowded";
      loc = "Nandprayag Vidyalaya";
      cell = "C2";
      desc = "The camp is full, people are standing outside in the rain.";
      age = 3;
      st = "pending";
      by = none;
    }
    ∷ []
