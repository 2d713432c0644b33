-- ===== src/States/Profiles/FromTr.antt =====
-- states.js: the profiles of Tripura to Lakshadweep.
use aapda_sync.Base.{true, false, [], ◌∷◌}
use aapda_sync.States.{Profile, Terrain, Register}

abbrev pub tripura : Profile
tripura = record {
  n = "Tripura";
  d = "Tripura";
  pop = "41 L";
  cst = false;
  terr = Terrain.hill;
  hz =
      ("flood", 51)
      ∷ ("landslide", 44)
      ∷ ("earthquake", 41)
      ∷ ("lightning", 34)
      ∷ ("cyclone", 18)
      ∷ [];
  pri = "flood";
  age = 322;
  dis = "Flood Watch";
  reg = Register.provisional;
  scope = "state";
  note = "Howrah and Gomati rivers above warning level. Low-lying wards of Agartala under watch.";
  z =
      "Kanchanpur" ∷ "Dharmanagar" ∷ "Kailashahar" ∷ "Panisagar" ∷ "Kumarghat" ∷ "Longtharai"
      ∷ "Ambassa" ∷ "Kamalpur" ∷ "Manu" ∷ "Gandacherra" ∷ "Khowai" ∷ "Teliamura" ∷ "Jirania"
      ∷ "Mohanpur" ∷ "Chhamanu" ∷ "Agartala" ∷ "Bishalgarh" ∷ "Sonamura" ∷ "Melaghar" ∷ "Amarpur"
      ∷ "Udaipur" ∷ "Belonia" ∷ "Santirbazar" ∷ "Sabroom" ∷ "Rajnagar" ∷ [];
}

abbrev pub goa : Profile
goa = record {
  n = "Goa";
  d = "Goa";
  pop = "15 L";
  cst = true;
  terr = Terrain.coastal;
  hz =
      ("flood", 42)
      ∷ ("landslide", 36)
      ∷ ("cyclone", 31)
      ∷ ("lightning", 24)
      ∷ ("tsunami", 11)
      ∷ [];
  pri = "flood";
  age = 214;
  dis = "Flood Watch";
  reg = Register.provisional;
  scope = "state";
  note = "Mandovi and Zuari catchments running high. Low-lying khazan lands under tidal watch.";
  z =
      "Pernem" ∷ "Mandrem" ∷ "Bicholim" ∷ "Sattari" ∷ "Valpoi" ∷ "Mapusa" ∷ "Bardez" ∷ "Calangute"
      ∷ "Sanquelim" ∷ "Usgao" ∷ "Panaji" ∷ "Tiswadi" ∷ "Old Goa" ∷ "Ponda" ∷ "Marcaim" ∷ "Mormugao"
      ∷ "Vasco" ∷ "Cortalim" ∷ "Curchorem" ∷ "Sanguem" ∷ "Margao" ∷ "Salcete" ∷ "Quepem"
      ∷ "Canacona" ∷ "Betul" ∷ [];
}

abbrev pub delhi : Profile
delhi = record {
  n = "Delhi";
  d = "NCT of Delhi";
  pop = "2.1 Cr";
  cst = false;
  terr = Terrain.urban;
  hz =
      ("flood", 46)
      ∷ ("heatwave", 61)
      ∷ ("lightning", 22)
      ∷ ("earthquake", 44)
      ∷ ("drought", 18)
      ∷ [];
  pri = "heatwave";
  age = 188;
  dis = "Heatwave";
  reg = Register.provisional;
  scope = "state";
  note =
      "Heat action plan in force. Yamuna at Old Railway Bridge under routine monitoring during releases from Hathnikund.";
  z =
      "Narela" ∷ "Alipur" ∷ "Bawana" ∷ "Burari" ∷ "Karawal Nagar" ∷ "Rohini" ∷ "Model Town"
      ∷ "Civil Lines" ∷ "Seelampur" ∷ "Shahdara" ∷ "Punjabi Bagh" ∷ "Karol Bagh" ∷ "Connaught Pl"
      ∷ "Preet Vihar" ∷ "Vivek Vihar" ∷ "Janakpuri" ∷ "Rajouri Garden" ∷ "Hauz Khas" ∷ "Daryaganj"
      ∷ "Patparganj" ∷ "Dwarka" ∷ "Najafgarh" ∷ "Vasant Kunj" ∷ "Saket" ∷ "Mehrauli" ∷ [];
}

abbrev pub puducherry : Profile
puducherry = record {
  n = "Puducherry";
  d = "Puducherry";
  pop = "16 L";
  cst = true;
  terr = Terrain.coastal;
  hz = ("cyclone", 44) ∷ ("flood", 38) ∷ ("tsunami", 29) ∷ ("heatwave", 33) ∷ [];
  pri = "cyclone";
  age = 246;
  dis = "Cyclone Watch";
  reg = Register.provisional;
  scope = "state";
  note =
      "Coastal advisory in force for the Puducherry and Karaikal regions. Fishermen advised not to venture out.";
  z =
      "Mahe" ∷ "Palloor" ∷ "Pandakkal" ∷ "Chalakkara" ∷ "Yanam" ∷ "Kurasampeta" ∷ "Mannadipet"
      ∷ "Villianur" ∷ "Thirunallar" ∷ "Neravy" ∷ "Lawspet" ∷ "Oulgaret" ∷ "Puducherry" ∷ "Karaikal"
      ∷ "Kottucherry" ∷ "Muthialpet" ∷ "Reddiarpalayam" ∷ "Ariyankuppam" ∷ "Nedungadu"
      ∷ "T.R. Pattinam" ∷ "Thattanchavady" ∷ "Bahour" ∷ "Nettapakkam" ∷ "Manavely" ∷ "Kirumampakkam"
      ∷ [];
}

abbrev pub chandigarh : Profile
chandigarh = record {
  n = "Chandigarh";
  d = "Chandigarh";
  pop = "12 L";
  cst = false;
  terr = Terrain.urban;
  hz = ("flood", 31) ∷ ("heatwave", 44) ∷ ("lightning", 21) ∷ ("earthquake", 36) ∷ [];
  pri = "heatwave";
  age = 192;
  dis = "Heatwave Advisory";
  reg = Register.provisional;
  scope = "state";
  note =
      "Sukhna choe and the N-choe drainage under watch during heavy spells. Heat advisory in force.";
  z =
      "Sector 1" ∷ "Sector 8" ∷ "Manimajra" ∷ "Sector 26" ∷ "Kishangarh" ∷ "Sector 15" ∷ "Sector 17"
      ∷ "Sector 22" ∷ "Sector 32" ∷ "Behlana" ∷ "Dhanas" ∷ "Sector 34" ∷ "Sector 35" ∷ "Sector 43"
      ∷ "Hallomajra" ∷ "Maloya" ∷ "Sector 45" ∷ "Sector 47" ∷ "Burail" ∷ "Ramdarbar" ∷ "Dadumajra"
      ∷ "Sector 52" ∷ "Sector 56" ∷ "Badheri" ∷ "Attawa" ∷ [];
}

abbrev pub dadra_and_nagar_haveli : Profile
dadra_and_nagar_haveli = record {
  n = "Dadra and Nagar Haveli";
  d = "Dadra & Nagar Haveli";
  pop = "4.5 L";
  cst = false;
  terr = Terrain.hill;
  hz = ("flood", 39) ∷ ("landslide", 24) ∷ ("lightning", 26) ∷ ("heatwave", 34) ∷ [];
  pri = "flood";
  age = 226;
  dis = "Flood Watch";
  reg = Register.provisional;
  scope = "state";
  note =
      "Damanganga catchment under watch. Madhuban dam releases coordinated with Valsad district.";
  z =
      "Dadra" ∷ "Rakholi" ∷ "Samarvarni" ∷ "Naroli" ∷ "Amli" ∷ "Velugam" ∷ "Silvassa" ∷ "Masat"
      ∷ "Kherdi" ∷ "Athal" ∷ "Dapada" ∷ "Khanvel" ∷ "Kilvani" ∷ "Sindoni" ∷ "Rudana" ∷ "Dudhani"
      ∷ "Galonda" ∷ "Mandoni" ∷ "Chisda" ∷ "Bedpa" ∷ "Ambabari" ∷ "Kauncha" ∷ "Sili" ∷ "Umbarkoi"
      ∷ "Kudacha" ∷ [];
}

abbrev pub daman_and_diu : Profile
daman_and_diu = record {
  n = "Daman and Diu";
  d = "Daman & Diu";
  pop = "2.4 L";
  cst = true;
  terr = Terrain.coastal;
  hz = ("cyclone", 41) ∷ ("flood", 33) ∷ ("tsunami", 14) ∷ ("heatwave", 31) ∷ [];
  pri = "cyclone";
  age = 268;
  dis = "Cyclone Watch";
  reg = Register.provisional;
  scope = "state";
  note = "Arabian Sea system under watch. Fishing fleet advised to remain in harbour.";
  z =
      "Diu" ∷ "Ghoghla" ∷ "Bucharwada" ∷ "Vanakbara" ∷ "Nagoa" ∷ "Saudwadi" ∷ "Fudam" ∷ "Malala"
      ∷ "Zolawadi" ∷ "Simbor" ∷ "Nani Daman" ∷ "Moti Daman" ∷ "Devka" ∷ "Jampore" ∷ "Varkund"
      ∷ "Bhimpore" ∷ "Dabhel" ∷ "Kachigam" ∷ "Dunetha" ∷ "Kadaiya" ∷ "Marwad" ∷ "Magarwada"
      ∷ "Pariyari" ∷ "Dhabel" ∷ "Somnath" ∷ [];
}

abbrev pub andaman_and_nicobar_islands : Profile
andaman_and_nicobar_islands = record {
  n = "Andaman and Nicobar Islands";
  d = "Andaman & Nicobar";
  pop = "4.0 L";
  cst = true;
  terr = Terrain.island;
  hz =
      ("tsunami", 58)
      ∷ ("earthquake", 62)
      ∷ ("cyclone", 47)
      ∷ ("flood", 34)
      ∷ ("landslide", 29)
      ∷ [];
  pri = "earthquake";
  age = 154;
  dis = "Seismic Watch";
  reg = Register.provisional;
  scope = "state";
  note =
      "Sunda arc seismicity elevated. INCOIS tsunami bulletin status: no threat, monitoring continues.";
  z =
      "Diglipur" ∷ "Mayabunder" ∷ "Rangat" ∷ "Long Island" ∷ "Baratang" ∷ "Kalighat" ∷ "Billiground"
      ∷ "Kadamtala" ∷ "Havelock" ∷ "Neil" ∷ "Port Blair" ∷ "Bambooflat" ∷ "Ferrargunj" ∷ "Wandoor"
      ∷ "Chouldari" ∷ "Garacharma" ∷ "Prothrapur" ∷ "Hut Bay" ∷ "Tushnabad" ∷ "Manglutan"
      ∷ "Car Nicobar" ∷ "Nancowry" ∷ "Kamorta" ∷ "Katchal" ∷ "Campbell Bay" ∷ [];
}

abbrev pub lakshadweep : Profile
lakshadweep = record {
  n = "Lakshadweep";
  d = "Lakshadweep";
  pop = "68 K";
  cst = true;
  terr = Terrain.island;
  hz = ("cyclone", 44) ∷ ("tsunami", 31) ∷ ("flood", 27) ∷ [];
  pri = "cyclone";
  age = 208;
  dis = "Cyclone Watch";
  reg = Register.provisional;
  scope = "state";
  note =
      "Arabian Sea system under watch. Inter-island vessel movement restricted; sea state very rough.";
  z =
      "Bitra" ∷ "Chetlat" ∷ "Kiltan" ∷ "Kadmat" ∷ "Amini" ∷ "Perumal Par" ∷ "Bangaram"
      ∷ "Thinnakara" ∷ "Parali" ∷ "Agatti" ∷ "Kavaratti" ∷ "Suheli" ∷ "Pitti" ∷ "Andrott"
      ∷ "Kalpeni" ∷ "Cheriyam" ∷ "Tilakkam" ∷ "Kodithala" ∷ "Viringili" ∷ "Kalpitti" ∷ "Minicoy"
      ∷ "Minicoy South" ∷ "Valiyakara" ∷ "Cheriyakara" ∷ "Androth East" ∷ [];
}
