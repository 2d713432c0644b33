-- ===== src/States/Profiles/FromCt.antt =====
-- states.js: the profiles of Karnataka to Nagaland.
use aapda_sync.Base.{true, false, [], ◌∷◌}
use aapda_sync.States.{Profile, Terrain, Register}

abbrev pub karnataka : Profile
karnataka = record {
  n = "Karnataka";
  d = "Karnataka";
  pop = "6.8 Cr";
  cst = true;
  terr = Terrain.ghats;
  hz =
      ("landslide", 51)
      ∷ ("flood", 46)
      ∷ ("drought", 44)
      ∷ ("lightning", 38)
      ∷ ("cyclone", 17)
      ∷ [];
  pri = "landslide";
  age = 407;
  dis = "Landslide Watch";
  reg = Register.provisional;
  scope = "state";
  note =
      "Western Ghats slopes saturated after four days of rain. Shiradi and Charmadi ghat sections under restriction.";
  z =
      "Belagavi" ∷ "Bagalkot" ∷ "Vijayapura" ∷ "Kalaburagi" ∷ "Bidar" ∷ "Uttara Kannada" ∷ "Dharwad"
      ∷ "Gadag" ∷ "Koppal" ∷ "Raichur" ∷ "Udupi" ∷ "Shivamogga" ∷ "Haveri" ∷ "Bellary" ∷ "Yadgir"
      ∷ "Mangaluru" ∷ "Chikkamagaluru" ∷ "Davanagere" ∷ "Chitradurga" ∷ "Tumakuru" ∷ "Kodagu"
      ∷ "Hassan" ∷ "Mandya" ∷ "Mysuru" ∷ "Bengaluru" ∷ [];
}

abbrev pub tamil_nadu : Profile
tamil_nadu = record {
  n = "Tamil Nadu";
  d = "Tamil Nadu";
  pop = "7.8 Cr";
  cst = true;
  terr = Terrain.coastal;
  hz =
      ("cyclone", 48) ∷ ("flood", 44) ∷ ("landslide", 39) ∷ ("heatwave", 42) ∷ ("tsunami", 27) ∷ [];
  pri = "cyclone";
  age = 332;
  dis = "Cyclone Watch";
  reg = Register.provisional;
  scope = "state";
  note =
      "Northeast monsoon systems under watch. Ooty–Coonoor ghat road under intermittent restriction after slips.";
  z =
      "Nilgiris" ∷ "Erode" ∷ "Krishnagiri" ∷ "Vellore" ∷ "Tiruvallur" ∷ "Coimbatore" ∷ "Salem"
      ∷ "Tiruvannamalai" ∷ "Kanchipuram" ∷ "Chennai" ∷ "Tiruppur" ∷ "Namakkal" ∷ "Perambalur"
      ∷ "Villupuram" ∷ "Cuddalore" ∷ "Dindigul" ∷ "Karur" ∷ "Trichy" ∷ "Thanjavur" ∷ "Nagapattinam"
      ∷ "Theni" ∷ "Madurai" ∷ "Sivaganga" ∷ "Ramanathapuram" ∷ "Kanyakumari" ∷ [];
}

abbrev pub telangana : Profile
telangana = record {
  n = "Telangana";
  d = "Telangana";
  pop = "3.9 Cr";
  cst = false;
  terr = Terrain.plateau;
  hz =
      ("lightning", 54)
      ∷ ("flood", 41)
      ∷ ("heatwave", 58)
      ∷ ("drought", 36)
      ∷ ("wildfire", 19)
      ∷ [];
  pri = "heatwave";
  age = 412;
  dis = "Heatwave";
  reg = Register.provisional;
  scope = "state";
  note =
      "Daytime maxima 4–5 °C above normal across the northern districts. Heat action plan invoked in Hyderabad.";
  z =
      "Adilabad" ∷ "Nirmal" ∷ "Mancherial" ∷ "Jagtial" ∷ "Peddapalli" ∷ "Kamareddy" ∷ "Nizamabad"
      ∷ "Karimnagar" ∷ "Sircilla" ∷ "Jayashankar" ∷ "Sangareddy" ∷ "Medak" ∷ "Siddipet"
      ∷ "Hanamkonda" ∷ "Mulugu" ∷ "Vikarabad" ∷ "Hyderabad" ∷ "Rangareddy" ∷ "Warangal"
      ∷ "Kothagudem" ∷ "Mahabubnagar" ∷ "Nagarkurnool" ∷ "Nalgonda" ∷ "Suryapet" ∷ "Khammam" ∷ [];
}

abbrev pub jharkhand : Profile
jharkhand = record {
  n = "Jharkhand";
  d = "Jharkhand";
  pop = "3.9 Cr";
  cst = false;
  terr = Terrain.plateau;
  hz =
      ("lightning", 58)
      ∷ ("flood", 34)
      ∷ ("drought", 41)
      ∷ ("heatwave", 44)
      ∷ ("wildfire", 26)
      ∷ [];
  pri = "lightning";
  age = 342;
  dis = "Thunderstorm";
  reg = Register.provisional;
  scope = "state";
  note =
      "Lightning is the leading cause of disaster fatality in the state. Advisory for the Chhotanagpur plateau.";
  z =
      "Garhwa" ∷ "Palamu" ∷ "Chatra" ∷ "Koderma" ∷ "Sahibganj" ∷ "Latehar" ∷ "Hazaribagh"
      ∷ "Giridih" ∷ "Deoghar" ∷ "Godda" ∷ "Lohardaga" ∷ "Ramgarh" ∷ "Bokaro" ∷ "Dhanbad" ∷ "Dumka"
      ∷ "Gumla" ∷ "Ranchi" ∷ "Khunti" ∷ "Jamtara" ∷ "Pakur" ∷ "Simdega" ∷ "W Singhbhum"
      ∷ "Saraikela" ∷ "E Singhbhum" ∷ "Jamshedpur" ∷ [];
}

abbrev pub punjab : Profile
punjab = record {
  n = "Punjab";
  d = "Punjab";
  pop = "3.0 Cr";
  cst = false;
  terr = Terrain.plain;
  hz =
      ("flood", 44)
      ∷ ("heatwave", 41)
      ∷ ("lightning", 27)
      ∷ ("drought", 24)
      ∷ ("earthquake", 22)
      ∷ [];
  pri = "flood";
  age = 288;
  dis = "Flood Watch";
  reg = Register.provisional;
  scope = "state";
  note =
      "Sutlej and Beas releases under watch. Bet-area villages advised to keep livestock on higher ground.";
  z =
      "Pathankot" ∷ "Gurdaspur" ∷ "Hoshiarpur" ∷ "Nawanshahr" ∷ "Rupnagar" ∷ "Amritsar"
      ∷ "Tarn Taran" ∷ "Kapurthala" ∷ "Jalandhar" ∷ "Mohali" ∷ "Ferozepur" ∷ "Fazilka" ∷ "Moga"
      ∷ "Ludhiana" ∷ "Fatehgarh Sahib" ∷ "Faridkot" ∷ "Muktsar" ∷ "Barnala" ∷ "Sangrur" ∷ "Patiala"
      ∷ "Bathinda" ∷ "Mansa" ∷ "Malerkotla" ∷ "Khanna" ∷ "Rajpura" ∷ [];
}

abbrev pub haryana : Profile
haryana = record {
  n = "Haryana";
  d = "Haryana";
  pop = "2.9 Cr";
  cst = false;
  terr = Terrain.plain;
  hz = ("flood", 41) ∷ ("heatwave", 52) ∷ ("lightning", 26) ∷ ("drought", 29) ∷ [];
  pri = "heatwave";
  age = 254;
  dis = "Heatwave";
  reg = Register.provisional;
  scope = "state";
  note =
      "Maxima above the heatwave threshold across the southern districts. Yamuna levels under routine watch.";
  z =
      "Panchkula" ∷ "Ambala" ∷ "Yamunanagar" ∷ "Kurukshetra" ∷ "Karnal" ∷ "Kaithal" ∷ "Jind"
      ∷ "Panipat" ∷ "Sonipat" ∷ "Rohtak" ∷ "Fatehabad" ∷ "Hisar" ∷ "Bhiwani" ∷ "Jhajjar"
      ∷ "Faridabad" ∷ "Sirsa" ∷ "Charkhi Dadri" ∷ "Mahendragarh" ∷ "Gurugram" ∷ "Palwal" ∷ "Ratia"
      ∷ "Narnaul" ∷ "Rewari" ∷ "Nuh" ∷ "Hathin" ∷ [];
}

abbrev pub manipur : Profile
manipur = record {
  n = "Manipur";
  d = "Manipur";
  pop = "32 L";
  cst = false;
  terr = Terrain.hill;
  hz = ("landslide", 54) ∷ ("flood", 47) ∷ ("earthquake", 49) ∷ ("lightning", 21) ∷ [];
  pri = "landslide";
  age = 361;
  dis = "Landslide Watch";
  reg = Register.provisional;
  scope = "state";
  note = "Hill slopes saturated along NH-2 and NH-37. Imphal valley drainage under watch.";
  z =
      "Tamenglong" ∷ "Noney" ∷ "Senapati" ∷ "Kangpokpi" ∷ "Ukhrul" ∷ "Jiribam" ∷ "Nambol"
      ∷ "Imphal West" ∷ "Imphal East" ∷ "Kamjong" ∷ "Pherzawl" ∷ "Bishnupur" ∷ "Thoubal"
      ∷ "Yairipok" ∷ "Tengnoupal" ∷ "Churachandpur" ∷ "Moirang" ∷ "Kakching" ∷ "Chandel" ∷ "Moreh"
      ∷ "Singngat" ∷ "Thanlon" ∷ "Sugnu" ∷ "Machi" ∷ "Lokchao" ∷ [];
}

abbrev pub mizoram : Profile
mizoram = record {
  n = "Mizoram";
  d = "Mizoram";
  pop = "12 L";
  cst = false;
  terr = Terrain.hill;
  hz = ("landslide", 57) ∷ ("flood", 33) ∷ ("earthquake", 44) ∷ ("lightning", 19) ∷ [];
  pri = "landslide";
  age = 298;
  dis = "Landslide Watch";
  reg = Register.provisional;
  scope = "state";
  note = "Cut-slope failures reported on the Aizawl–Lunglei road after continuous rain.";
  z =
      "Mamit" ∷ "Kolasib" ∷ "Vairengte" ∷ "Saitual" ∷ "Champhai" ∷ "Zawlnuam" ∷ "Sairang" ∷ "Aizawl"
      ∷ "Darlawn" ∷ "Khawzawl" ∷ "Reiek" ∷ "Thenzawl" ∷ "Serchhip" ∷ "Ngopa" ∷ "Biate" ∷ "Tlabung"
      ∷ "Lunglei" ∷ "Hnahthial" ∷ "Lawngtlai" ∷ "Chawngte" ∷ "Bungtlang" ∷ "Saiha" ∷ "Tuipang"
      ∷ "Phura" ∷ "Sangau" ∷ [];
}

abbrev pub nagaland : Profile
nagaland = record {
  n = "Nagaland";
  d = "Nagaland";
  pop = "22 L";
  cst = false;
  terr = Terrain.hill;
  hz = ("landslide", 52) ∷ ("flood", 29) ∷ ("earthquake", 46) ∷ ("wildfire", 24) ∷ [];
  pri = "landslide";
  age = 276;
  dis = "Landslide Watch";
  reg = Register.provisional;
  scope = "state";
  note = "Slips reported on NH-29 near Kohima. Dimapur low-lying wards under drainage watch.";
  z =
      "Peren" ∷ "Jalukie" ∷ "Dimapur" ∷ "Niuland" ∷ "Mon" ∷ "Chumoukedima" ∷ "Medziphema" ∷ "Kohima"
      ∷ "Tseminyu" ∷ "Longleng" ∷ "Wokha" ∷ "Bhandari" ∷ "Zunheboto" ∷ "Mokokchung" ∷ "Tuli"
      ∷ "Phek" ∷ "Pfutsero" ∷ "Meluri" ∷ "Tuensang" ∷ "Changtongya" ∷ "Chozuba" ∷ "Kiphire"
      ∷ "Shamator" ∷ "Noklak" ∷ "Aboi" ∷ [];
}
