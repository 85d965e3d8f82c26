-- ===== src/Geo/Towns/Third.antt =====
-- Townships of apps/api/app/utils/town_centroids.py: new_taipei, hsinchu_city, hsinchu_county, taoyuan, penghu, hualien.
use aidflow.Prelude.{List, [], ◌∷◌}
use aidflow.Geo.Towns.Shape.{Place, at}

abbrev pub new_taipei : List Place
new_taipei =
    at "三峽區" 249272 4 1213758 4
    ∷ at "三芝區" 252578 4 1215028 4
    ∷ at "三重區" 250662 4 1214886 4
    ∷ at "中和區" 249962 4 1215016 4
    ∷ at "五股區" 250834 4 1214398 4
    ∷ at "八里區" 251478 4 1214173 4
    ∷ at "土城區" 249803 4 1214549 4
    ∷ at "坪林區" 24938 3 1217128 4
    ∷ at "平溪區" 250236 4 1217373 4
    ∷ at "新店區" 249573 4 1215371 4
    ∷ at "新莊區" 250367 4 1214459 4
    ∷ at "板橋區" 250117 4 1214624 4
    ∷ at "林口區" 250771 4 1213741 4
    ∷ at "樹林區" 249826 4 1214149 4
    ∷ at "永和區" 250076 4 121518 3
    ∷ at "汐止區" 250666 4 1216576 4
    ∷ at "泰山區" 250564 4 1214283 4
    ∷ at "淡水區" 251747 4 1214514 4
    ∷ at "深坑區" 250025 4 121616 3
    ∷ at "烏來區" 248837 4 1215485 4
    ∷ at "瑞芳區" 251088 4 1218205 4
    ∷ at "石碇區" 249991 4 1216508 4
    ∷ at "石門區" 252894 4 1215659 4
    ∷ at "萬里區" 251782 4 1216841 4
    ∷ at "蘆洲區" 25085 3 1214717 4
    ∷ at "貢寮區" 250348 4 1219232 4
    ∷ at "金山區" 252242 4 1216316 4
    ∷ at "雙溪區" 250326 4 1218503 4
    ∷ at "鶯歌區" 249556 4 1213448 4
    ∷ []

abbrev pub hsinchu_city : List Place
hsinchu_city =
    at "北區" 248142 4 1209593 4 ∷ at "東區" 247954 4 1209825 4 ∷ at "香山區" 247747 4 1209335 4 ∷ []

abbrev pub hsinchu_county : List Place
hsinchu_county =
    at "五峰鄉" 246288 4 121134 3
    ∷ at "北埔鄉" 247008 4 1210556 4
    ∷ at "寶山鄉" 247369 4 1209922 4
    ∷ at "尖石鄉" 24679 3 1212629 4
    ∷ at "峨眉鄉" 246887 4 1210175 4
    ∷ at "新埔鎮" 248345 4 1210763 4
    ∷ at "新豐鄉" 248997 4 1209877 4
    ∷ at "橫山鄉" 24711 3 1211457 4
    ∷ at "湖口鄉" 248829 4 1210445 4
    ∷ at "竹北市" 248363 4 1210131 4
    ∷ at "竹東鎮" 247335 4 1210946 4
    ∷ at "芎林鄉" 247713 4 1210952 4
    ∷ at "關西鎮" 247981 4 1211677 4
    ∷ []

abbrev pub taoyuan : List Place
taoyuan =
    at "中壢區" 249605 4 1212359 4
    ∷ at "八德區" 249547 4 1212967 4
    ∷ at "大園區" 250718 4 1212125 4
    ∷ at "大溪區" 248833 4 1212873 4
    ∷ at "平鎮區" 2494 2 1212093 4
    ∷ at "復興區" 24797 3 1213545 4
    ∷ at "新屋區" 254873 4 1210388 4
    ∷ at "桃園區" 249955 4 121308 3
    ∷ at "楊梅區" 249141 4 1211415 4
    ∷ at "蘆竹區" 250509 4 1212876 4
    ∷ at "觀音區" 250282 4 1211429 4
    ∷ at "龍潭區" 248604 4 1212126 4
    ∷ at "龜山區" 250108 4 1213434 4
    ∷ []

abbrev pub penghu : List Place
penghu =
    at "七美鄉" 232064 4 1194291 4
    ∷ at "望安鄉" 23507 3 1195072 4
    ∷ at "湖西鄉" 235854 4 1196496 4
    ∷ at "白沙鄉" 236372 4 119597 3
    ∷ at "西嶼鄉" 23637 3 1195225 4
    ∷ at "馬公市" 235731 4 119573 3
    ∷ []

abbrev pub hualien : List Place
hualien =
    at "光復鄉" 23647 3 121424 3
    ∷ at "卓溪鄉" 233758 4 1213102 4
    ∷ at "吉安鄉" 239719 4 1215769 4
    ∷ at "壽豐鄉" 238686 4 1215121 4
    ∷ at "富里鄉" 231963 4 1212665 4
    ∷ at "新城鄉" 240399 4 1216119 4
    ∷ at "玉里鎮" 233597 4 1213424 4
    ∷ at "瑞穗鄉" 23499 3 1213832 4
    ∷ at "秀林鄉" 241002 4 1216155 4
    ∷ at "花蓮市" 239924 4 1215994 4
    ∷ at "萬榮鄉" 237073 4 1213822 4
    ∷ at "豐濱鄉" 236012 4 1215218 4
    ∷ at "鳳林鎮" 237475 4 1214505 4
    ∷ []
