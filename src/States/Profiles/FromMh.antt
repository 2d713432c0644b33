-- ===== src/States/Profiles/FromMh.antt =====
-- states.js: the profiles of Maharashtra to Chhattisgarh.
use aapda_sync.Base.{true, false, [], ◌∷◌}
use aapda_sync.States.{Profile, Terrain, Register}

abbrev pub maharashtra : Profile
maharashtra = record {
  n = "Maharashtra";
  d = "Maharashtra";
  pop = "12.4 Cr";
  cst = true;
  terr = Terrain.ghats;
  hz =
      ("flood", 64)
      ∷ ("landslide", 56)
      ∷ ("drought", 44)
      ∷ ("lightning", 47)
      ∷ ("cyclone", 28)
      ∷ [];
  pri = "flood";
  age = 487;
  dis = "Flood";
  reg = Register.provisional;
  scope = "state";
  note =
      "Panchganga above warning level at Kolhapur. Ghat-section landslide advisories for the Konkan corridor.";
  z =
      "Nandurbar" ∷ "Dhule" ∷ "Jalgaon" ∷ "Buldhana" ∷ "Akola" ∷ "Palghar" ∷ "Nashik" ∷ "Aurangabad"
      ∷ "Jalna" ∷ "Amravati" ∷ "Thane" ∷ "Mumbai" ∷ "Ahmednagar" ∷ "Parbhani" ∷ "Nagpur" ∷ "Raigad"
      ∷ "Pune" ∷ "Solapur" ∷ "Nanded" ∷ "Wardha" ∷ "Ratnagiri" ∷ "Satara" ∷ "Kolhapur"
      ∷ "Chandrapur" ∷ "Gadchiroli" ∷ [];
}

abbrev pub meghalaya : Profile
meghalaya = record {
  n = "Meghalaya";
  d = "Meghalaya";
  pop = "33 L";
  cst = false;
  terr = Terrain.hill;
  hz = ("landslide", 66) ∷ ("flood", 57) ∷ ("earthquake", 43) ∷ ("lightning", 34) ∷ [];
  pri = "landslide";
  age = 422;
  dis = "Landslide";
  reg = Register.provisional;
  scope = "state";
  note =
      "The Cherrapunji belt has taken 380 mm in 24 hours. Slope failures reported on the Shillong–Silchar road.";
  z =
      "Ampati" ∷ "Tura" ∷ "Resubelpara" ∷ "Williamnagar" ∷ "Baghmara" ∷ "Mahendraganj" ∷ "Dalu"
      ∷ "Rongjeng" ∷ "Nongstoin" ∷ "Mairang" ∷ "Mawkyrwat" ∷ "Ranikor" ∷ "Shillong" ∷ "Nongpoh"
      ∷ "Byrnihat" ∷ "Cherrapunji" ∷ "Mawsynram" ∷ "Pynursla" ∷ "Jowai" ∷ "Khliehriat" ∷ "Amlarem"
      ∷ "Dawki" ∷ "Sohra" ∷ "Umiam" ∷ "Ri Bhoi" ∷ [];
}

abbrev pub arunachal_pradesh : Profile
arunachal_pradesh = record {
  n = "Arunachal Pradesh";
  d = "Arunachal Pradesh";
  pop = "15 L";
  cst = false;
  terr = Terrain.himalaya;
  hz = ("landslide", 61) ∷ ("flood", 52) ∷ ("earthquake", 58) ∷ ("wildfire", 21) ∷ [];
  pri = "landslide";
  age = 292;
  dis = "Landslide";
  reg = Register.provisional;
  scope = "state";
  note = "Slope failures on NH-13 and NH-513. Two circles in Dibang Valley temporarily cut off.";
  z =
      "Tawang" ∷ "West Kameng" ∷ "East Kameng" ∷ "Kurung Kumey" ∷ "Upper Subansiri" ∷ "Bomdila"
      ∷ "Seppa" ∷ "Ziro" ∷ "Daporijo" ∷ "Mechuka" ∷ "Papum Pare" ∷ "Itanagar" ∷ "Aalo" ∷ "Pasighat"
      ∷ "Yingkiong" ∷ "Namsai" ∷ "Tezu" ∷ "Roing" ∷ "Anini" ∷ "Hayuliang" ∷ "Changlang" ∷ "Miao"
      ∷ "Khonsa" ∷ "Longding" ∷ "Deomali" ∷ [];
}

abbrev pub madhya_pradesh : Profile
madhya_pradesh = record {
  n = "Madhya Pradesh";
  d = "Madhya Pradesh";
  pop = "8.5 Cr";
  cst = false;
  terr = Terrain.plateau;
  hz =
      ("lightning", 64)
      ∷ ("flood", 47)
      ∷ ("heatwave", 44)
      ∷ ("drought", 38)
      ∷ ("wildfire", 29)
      ∷ [];
  pri = "lightning";
  age = 262;
  dis = "Thunderstorm";
  reg = Register.provisional;
  scope = "state";
  note =
      "Lightning advisory for the Gwalior–Chambal belt and Bundelkhand. Seven fatalities recorded this week.";
  z =
      "Sheopur" ∷ "Morena" ∷ "Bhind" ∷ "Datia" ∷ "Chhatarpur" ∷ "Neemuch" ∷ "Gwalior" ∷ "Shivpuri"
      ∷ "Tikamgarh" ∷ "Panna" ∷ "Ratlam" ∷ "Ujjain" ∷ "Guna" ∷ "Sagar" ∷ "Satna" ∷ "Indore"
      ∷ "Bhopal" ∷ "Vidisha" ∷ "Jabalpur" ∷ "Rewa" ∷ "Khargone" ∷ "Khandwa" ∷ "Betul" ∷ "Chhindwara"
      ∷ "Balaghat" ∷ [];
}

abbrev pub jammu_and_kashmir : Profile
jammu_and_kashmir = record {
  n = "Jammu and Kashmir";
  d = "Jammu, Kashmir & Ladakh";
  pop = "1.6 Cr";
  cst = false;
  terr = Terrain.himalaya;
  hz = ("landslide", 58) ∷ ("flood", 49) ∷ ("earthquake", 54) ∷ ("wildfire", 16) ∷ [];
  pri = "landslide";
  age = 372;
  dis = "Flash Flood Watch";
  reg = Register.provisional;
  scope = "state";
  note =
      "Cloudburst risk in the higher reaches. Amarnath route and the Jammu–Srinagar highway under watch.";
  z =
      "Kupwara" ∷ "Bandipora" ∷ "Kargil" ∷ "Leh" ∷ "Nubra" ∷ "Baramulla" ∷ "Ganderbal" ∷ "Sonamarg"
      ∷ "Zanskar" ∷ "Durbuk" ∷ "Budgam" ∷ "Srinagar" ∷ "Kishtwar" ∷ "Padum" ∷ "Nyoma" ∷ "Pulwama"
      ∷ "Anantnag" ∷ "Doda" ∷ "Ramban" ∷ "Hanle" ∷ "Poonch" ∷ "Rajouri" ∷ "Udhampur" ∷ "Jammu"
      ∷ "Kathua" ∷ [];
}

abbrev pub gujarat : Profile
gujarat = record {
  n = "Gujarat";
  d = "Gujarat";
  pop = "7.0 Cr";
  cst = true;
  terr = Terrain.desert;
  hz =
      ("drought", 61)
      ∷ ("heatwave", 57)
      ∷ ("cyclone", 44)
      ∷ ("earthquake", 48)
      ∷ ("flood", 31)
      ∷ [];
  pri = "drought";
  age = 762;
  dis = "Drought Watch";
  reg = Register.provisional;
  scope = "state";
  note =
      "Cumulative rainfall 34% below normal for the season to date. Fodder and drinking-water position under weekly review.";
  z =
      "Kutch" ∷ "Banaskantha" ∷ "Patan" ∷ "Mehsana" ∷ "Sabarkantha" ∷ "Lakhpat" ∷ "Morbi"
      ∷ "Surendranagar" ∷ "Gandhinagar" ∷ "Aravalli" ∷ "Dwarka" ∷ "Jamnagar" ∷ "Rajkot"
      ∷ "Ahmedabad" ∷ "Kheda" ∷ "Porbandar" ∷ "Junagadh" ∷ "Amreli" ∷ "Anand" ∷ "Vadodara"
      ∷ "Gir Somnath" ∷ "Bhavnagar" ∷ "Bharuch" ∷ "Surat" ∷ "Valsad" ∷ [];
}

abbrev pub rajasthan : Profile
rajasthan = record {
  n = "Rajasthan";
  d = "Rajasthan";
  pop = "8.1 Cr";
  cst = false;
  terr = Terrain.desert;
  hz =
      ("drought", 66)
      ∷ ("heatwave", 71)
      ∷ ("flood", 24)
      ∷ ("lightning", 31)
      ∷ ("wildfire", 22)
      ∷ [];
  pri = "heatwave";
  age = 762;
  dis = "Heatwave + Drought Watch";
  reg = Register.provisional;
  scope = "state";
  note =
      "Western districts running well below normal rainfall with daytime maxima above the heatwave threshold.";
  z =
      "Sri Ganganagar" ∷ "Hanumangarh" ∷ "Churu" ∷ "Jhunjhunu" ∷ "Alwar" ∷ "Bikaner" ∷ "Nagaur"
      ∷ "Sikar" ∷ "Dausa" ∷ "Bharatpur" ∷ "Jaisalmer" ∷ "Jodhpur" ∷ "Ajmer" ∷ "Jaipur" ∷ "Karauli"
      ∷ "Barmer" ∷ "Pali" ∷ "Bhilwara" ∷ "Tonk" ∷ "Dholpur" ∷ "Jalore" ∷ "Sirohi" ∷ "Udaipur"
      ∷ "Bundi" ∷ "Kota" ∷ [];
}

abbrev pub andhra_pradesh : Profile
andhra_pradesh = record {
  n = "Andhra Pradesh";
  d = "Andhra Pradesh";
  pop = "5.3 Cr";
  cst = true;
  terr = Terrain.coastal;
  hz =
      ("cyclone", 56) ∷ ("flood", 42) ∷ ("heatwave", 51) ∷ ("lightning", 44) ∷ ("tsunami", 21) ∷ [];
  pri = "cyclone";
  age = 672;
  dis = "Cyclone Watch";
  reg = Register.provisional;
  scope = "state";
  note =
      "Coastal districts on advisory as the depression tracks west-northwest. Fishermen advised not to venture out.";
  z =
      "Kurnool" ∷ "Nandyal" ∷ "Srikakulam" ∷ "Vizianagaram" ∷ "Parvathipuram" ∷ "Anantapur"
      ∷ "Kadapa" ∷ "Visakhapatnam" ∷ "Anakapalli" ∷ "Alluri" ∷ "Sri Sathya Sai" ∷ "Annamayya"
      ∷ "Kakinada" ∷ "Konaseema" ∷ "E Godavari" ∷ "Chittoor" ∷ "Tirupati" ∷ "Eluru" ∷ "W Godavari"
      ∷ "Krishna" ∷ "Nellore" ∷ "Prakasam" ∷ "Bapatla" ∷ "Guntur" ∷ "Palnadu" ∷ [];
}

abbrev pub chhattisgarh : Profile
chhattisgarh = record {
  n = "Chhattisgarh";
  d = "Chhattisgarh";
  pop = "3.0 Cr";
  cst = false;
  terr = Terrain.plateau;
  hz =
      ("lightning", 62)
      ∷ ("flood", 38)
      ∷ ("wildfire", 41)
      ∷ ("heatwave", 39)
      ∷ ("drought", 27)
      ∷ [];
  pri = "lightning";
  age = 217;
  dis = "Thunderstorm";
  reg = Register.provisional;
  scope = "state";
  note =
      "Lightning advisory in force for the northern and Bastar divisions. Eleven fatalities statewide this season.";
  z =
      "Koriya" ∷ "Surajpur" ∷ "Balrampur" ∷ "Surguja" ∷ "Jashpur" ∷ "Mungeli" ∷ "Korba" ∷ "Bilaspur"
      ∷ "Raigarh" ∷ "Sarangarh" ∷ "Kabirdham" ∷ "Bemetara" ∷ "Baloda Bazar" ∷ "Janjgir" ∷ "Sakti"
      ∷ "Rajnandgaon" ∷ "Durg" ∷ "Raipur" ∷ "Mahasamund" ∷ "Gariaband" ∷ "Kanker" ∷ "Narayanpur"
      ∷ "Kondagaon" ∷ "Bastar" ∷ "Dantewada" ∷ [];
}
