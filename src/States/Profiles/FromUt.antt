-- ===== src/States/Profiles/FromUt.antt =====
-- states.js: the profiles of Uttarakhand to West Bengal.
use aapda_sync.Base.{true, false, [], ◌∷◌}
use aapda_sync.States.{Profile, Terrain, Register}

abbrev pub uttarakhand : Profile
uttarakhand = record {
  n = "Uttarakhand";
  d = "Chamoli District";
  pop = "1.14 Cr";
  cst = false;
  terr = Terrain.himalaya;
  hz =
      ("flood", 91)
      ∷ ("landslide", 84)
      ∷ ("earthquake", 34)
      ∷ ("lightning", 26)
      ∷ ("wildfire", 18)
      ∷ [];
  pri = "flood";
  age = 212;
  dis = "Flood + Landslide";
  reg = Register.sdma;
  scope = "district";
  note =
      "Alaknanda above danger level at Nandprayag. Two NH-7 slope failures. 14 relief camps activated.";
  z =
      "Gwaldam" ∷ "Tharali" ∷ "Dewal" ∷ "Narayanbagar" ∷ "Adibadri" ∷ "Simli" ∷ "Karnaprayag"
      ∷ "Gauchar" ∷ "Sonala" ∷ "Ravigram" ∷ "Langasu" ∷ "Nandprayag" ∷ "Chamoli Town" ∷ "Nauli"
      ∷ "Kaleshwar" ∷ "Marwari" ∷ "Birahi" ∷ "Pipalkoti" ∷ "Helang" ∷ "Ghat" ∷ "Gulabkoti"
      ∷ "Tapovan" ∷ "Joshimath" ∷ "Reni" ∷ "Sukhi Top" ∷ [];
}

abbrev pub assam : Profile
assam = record {
  n = "Assam";
  d = "Assam";
  pop = "3.5 Cr";
  cst = false;
  terr = Terrain.delta;
  hz =
      ("flood", 88)
      ∷ ("landslide", 31)
      ∷ ("earthquake", 47)
      ∷ ("lightning", 38)
      ∷ ("wildfire", 12)
      ∷ [];
  pri = "flood";
  age = 602;
  dis = "Flood";
  reg = Register.provisional;
  scope = "state";
  note =
      "Brahmaputra above danger level at Dhubri and Neamatighat. 38 revenue circles affected, 22 camps open.";
  z =
      "Dhubri" ∷ "Kokrajhar" ∷ "Bongaigaon" ∷ "Barpeta" ∷ "Goalpara" ∷ "Chirang" ∷ "Baksa"
      ∷ "Nalbari" ∷ "Kamrup" ∷ "Darrang" ∷ "Udalguri" ∷ "Sonitpur" ∷ "Biswanath" ∷ "Morigaon"
      ∷ "Nagaon" ∷ "Lakhimpur" ∷ "Dhemaji" ∷ "Golaghat" ∷ "Jorhat" ∷ "Hojai" ∷ "Sivasagar"
      ∷ "Dibrugarh" ∷ "Tinsukia" ∷ "Cachar" ∷ "Karimganj" ∷ [];
}

abbrev pub bihar : Profile
bihar = record {
  n = "Bihar";
  d = "Bihar";
  pop = "12.7 Cr";
  cst = false;
  terr = Terrain.plain;
  hz =
      ("flood", 76)
      ∷ ("lightning", 61)
      ∷ ("heatwave", 34)
      ∷ ("earthquake", 41)
      ∷ ("drought", 22)
      ∷ [];
  pri = "flood";
  age = 502;
  dis = "Flood";
  reg = Register.provisional;
  scope = "state";
  note = "Bagmati and Burhi Gandak above warning level. Kosi embankment under continuous watch.";
  z =
      "W Champaran" ∷ "E Champaran" ∷ "Sitamarhi" ∷ "Madhubani" ∷ "Supaul" ∷ "Gopalganj"
      ∷ "Muzaffarpur" ∷ "Darbhanga" ∷ "Saharsa" ∷ "Araria" ∷ "Siwan" ∷ "Vaishali" ∷ "Samastipur"
      ∷ "Madhepura" ∷ "Purnia" ∷ "Saran" ∷ "Patna" ∷ "Begusarai" ∷ "Khagaria" ∷ "Katihar" ∷ "Rohtas"
      ∷ "Nalanda" ∷ "Jehanabad" ∷ "Gaya" ∷ "Bhagalpur" ∷ [];
}

abbrev pub himachal_pradesh : Profile
himachal_pradesh = record {
  n = "Himachal Pradesh";
  d = "Himachal Pradesh";
  pop = "74 L";
  cst = false;
  terr = Terrain.himalaya;
  hz =
      ("landslide", 82)
      ∷ ("flood", 58)
      ∷ ("earthquake", 44)
      ∷ ("wildfire", 31)
      ∷ ("lightning", 24)
      ∷ [];
  pri = "landslide";
  age = 317;
  dis = "Landslide";
  reg = Register.provisional;
  scope = "state";
  note =
      "NH-3 blocked at two points near Mandi. Chandra valley slopes saturated after four days of rain.";
  z =
      "Chamba" ∷ "Lahaul" ∷ "Kaza" ∷ "Kinnaur" ∷ "Pooh" ∷ "Dharamshala" ∷ "Kangra" ∷ "Kullu"
      ∷ "Manali" ∷ "Reckong Peo" ∷ "Palampur" ∷ "Hamirpur" ∷ "Mandi" ∷ "Karsog" ∷ "Rampur" ∷ "Una"
      ∷ "Bilaspur" ∷ "Sundernagar" ∷ "Shimla" ∷ "Rohru" ∷ "Nalagarh" ∷ "Solan" ∷ "Nahan"
      ∷ "Paonta Sahib" ∷ "Renuka" ∷ [];
}

abbrev pub sikkim : Profile
sikkim = record {
  n = "Sikkim";
  d = "Sikkim";
  pop = "6.8 L";
  cst = false;
  terr = Terrain.himalaya;
  hz = ("landslide", 79) ∷ ("flood", 62) ∷ ("earthquake", 51) ∷ ("lightning", 18) ∷ [];
  pri = "landslide";
  age = 397;
  dis = "Landslide";
  reg = Register.provisional;
  scope = "state";
  note =
      "Teesta catchment saturated. NH-10 restricted to daylight movement. Glacial lake watch in force.";
  z =
      "Dzongu" ∷ "Chungthang" ∷ "Lachen" ∷ "Lachung" ∷ "Yumthang" ∷ "Mangan" ∷ "Phodong" ∷ "Kabi"
      ∷ "Tsomgo" ∷ "Nathula" ∷ "Yuksom" ∷ "Gyalshing" ∷ "Gangtok" ∷ "Rongli" ∷ "Zuluk" ∷ "Pelling"
      ∷ "Soreng" ∷ "Singtam" ∷ "Pakyong" ∷ "Rhenock" ∷ "Dentam" ∷ "Namchi" ∷ "Ravangla"
      ∷ "Jorethang" ∷ "Melli" ∷ [];
}

abbrev pub uttar_pradesh : Profile
uttar_pradesh = record {
  n = "Uttar Pradesh";
  d = "Uttar Pradesh";
  pop = "24 Cr";
  cst = false;
  terr = Terrain.plain;
  hz =
      ("flood", 68)
      ∷ ("heatwave", 47)
      ∷ ("lightning", 44)
      ∷ ("drought", 26)
      ∷ ("earthquake", 29)
      ∷ [];
  pri = "flood";
  age = 532;
  dis = "Flood";
  reg = Register.provisional;
  scope = "state";
  note = "Ganga above warning level at Ballia and Ghazipur. Ghaghra rising in the Terai districts.";
  z =
      "Saharanpur" ∷ "Bijnor" ∷ "Pilibhit" ∷ "Lakhimpur" ∷ "Bahraich" ∷ "Muzaffarnagar"
      ∷ "Moradabad" ∷ "Bareilly" ∷ "Sitapur" ∷ "Gonda" ∷ "Meerut" ∷ "Aligarh" ∷ "Lucknow"
      ∷ "Ayodhya" ∷ "Gorakhpur" ∷ "Mathura" ∷ "Etawah" ∷ "Kanpur" ∷ "Prayagraj" ∷ "Kushinagar"
      ∷ "Agra" ∷ "Jhansi" ∷ "Banda" ∷ "Varanasi" ∷ "Ballia" ∷ [];
}

abbrev pub kerala : Profile
kerala = record {
  n = "Kerala";
  d = "Kerala";
  pop = "3.5 Cr";
  cst = true;
  terr = Terrain.ghats;
  hz =
      ("landslide", 71)
      ∷ ("flood", 66)
      ∷ ("lightning", 32)
      ∷ ("cyclone", 24)
      ∷ ("tsunami", 12)
      ∷ [];
  pri = "landslide";
  age = 447;
  dis = "Landslide Watch";
  reg = Register.provisional;
  scope = "state";
  note =
      "Orange rainfall alert for the hill districts. Antecedent soil moisture near saturation in Wayanad and Idukki.";
  z =
      "Kasaragod" ∷ "Kannur" ∷ "Wayanad" ∷ "Sulthan Bathery" ∷ "Nilambur" ∷ "Thalassery"
      ∷ "Kozhikode" ∷ "Malappuram" ∷ "Perinthalmanna" ∷ "Palakkad" ∷ "Guruvayur" ∷ "Thrissur"
      ∷ "Munnar" ∷ "Idukki" ∷ "Thodupuzha" ∷ "Aluva" ∷ "Ernakulam" ∷ "Kottayam" ∷ "Pathanamthitta"
      ∷ "Punalur" ∷ "Alappuzha" ∷ "Kollam" ∷ "Thiruvananthapuram" ∷ "Neyyattinkara" ∷ "Parassala"
      ∷ [];
}

abbrev pub odisha : Profile
odisha = record {
  n = "Odisha";
  d = "Odisha";
  pop = "4.6 Cr";
  cst = true;
  terr = Terrain.coastal;
  hz =
      ("cyclone", 74) ∷ ("flood", 58) ∷ ("lightning", 66) ∷ ("heatwave", 41) ∷ ("tsunami", 19) ∷ [];
  pri = "cyclone";
  age = 702;
  dis = "Cyclone Watch";
  reg = Register.provisional;
  scope = "state";
  note =
      "Deep depression over the Bay of Bengal tracking west-northwest. IMD advisory in force; 879 cyclone shelters on standby.";
  z =
      "Sundargarh" ∷ "Jharsuguda" ∷ "Sambalpur" ∷ "Keonjhar" ∷ "Mayurbhanj" ∷ "Deogarh" ∷ "Bargarh"
      ∷ "Angul" ∷ "Dhenkanal" ∷ "Balasore" ∷ "Bolangir" ∷ "Boudh" ∷ "Cuttack" ∷ "Jajpur" ∷ "Bhadrak"
      ∷ "Kalahandi" ∷ "Nayagarh" ∷ "Khordha" ∷ "Jagatsinghpur" ∷ "Kendrapara" ∷ "Koraput"
      ∷ "Rayagada" ∷ "Ganjam" ∷ "Puri" ∷ "Gopalpur" ∷ [];
}

abbrev pub west_bengal : Profile
west_bengal = record {
  n = "West Bengal";
  d = "West Bengal";
  pop = "9.9 Cr";
  cst = true;
  terr = Terrain.delta;
  hz =
      ("flood", 69)
      ∷ ("cyclone", 63)
      ∷ ("lightning", 52)
      ∷ ("landslide", 44)
      ∷ ("tsunami", 16)
      ∷ [];
  pri = "flood";
  age = 632;
  dis = "Flood + Cyclone Watch";
  reg = Register.provisional;
  scope = "state";
  note =
      "Sundarbans embankments under watch ahead of the depression. Damodar releases raising levels in the lower basin.";
  z =
      "Darjeeling" ∷ "Kalimpong" ∷ "Jalpaiguri" ∷ "Alipurduar" ∷ "Cooch Behar" ∷ "Uttar Dinajpur"
      ∷ "Dakshin Dinajpur" ∷ "Malda" ∷ "Murshidabad" ∷ "Nadia" ∷ "Birbhum" ∷ "Bardhaman"
      ∷ "Durgapur" ∷ "Hooghly" ∷ "Ranaghat" ∷ "Purulia" ∷ "Bankura" ∷ "Howrah" ∷ "Kolkata"
      ∷ "North 24 Pgs" ∷ "Jhargram" ∷ "W Medinipur" ∷ "E Medinipur" ∷ "Diamond Harbour"
      ∷ "Sundarbans" ∷ [];
}
