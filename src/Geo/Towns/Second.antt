-- ===== src/Geo/Towns/Second.antt =====
-- Townships of apps/api/app/utils/town_centroids.py: chiayi_city, chiayi_county, keelung, yilan, pingtung, changhua.
use aidflow.Prelude.{List, [], ◌∷◌}
use aidflow.Geo.Towns.Shape.{Place, at}

abbrev pub chiayi_city : List Place
chiayi_city = at "東區" 234787 4 1204564 4 ∷ at "西區" 234725 4 1204261 4 ∷ []

abbrev pub chiayi_county : List Place
chiayi_county =
    at "中埔鄉" 234242 4 1205151 4
    ∷ at "六腳鄉" 235017 4 1202925 4
    ∷ at "大埔鄉" 232946 4 1205914 4
    ∷ at "大林鎮" 236024 4 1204616 4
    ∷ at "太保市" 234702 4 1203376 4
    ∷ at "布袋鎮" 233788 4 1201716 4
    ∷ at "新港鄉" 235584 4 120347 3
    ∷ at "朴子市" 234609 4 1202504 4
    ∷ at "東石鄉" 234619 4 1201744 4
    ∷ at "梅山鄉" 23561 3 1206069 4
    ∷ at "民雄鄉" 235403 4 1204372 4
    ∷ at "水上鄉" 234285 4 1204151 4
    ∷ at "溪口鄉" 236041 4 1203942 4
    ∷ at "番路鄉" 234624 4 1205897 4
    ∷ at "竹崎鄉" 235019 4 1205605 4
    ∷ at "義竹鄉" 233359 4 1202449 4
    ∷ at "阿里山鄉" 234688 4 1207305 4
    ∷ at "鹿草鄉" 234047 4 120313 3
    ∷ []

abbrev pub keelung : List Place
keelung =
    at "七堵區" 250949 4 1216996 4
    ∷ at "中山區" 251438 4 1217361 4
    ∷ at "中正區" 251415 4 1217643 4
    ∷ at "仁愛區" 251272 4 1217438 4
    ∷ at "信義區" 251287 4 1217617 4
    ∷ at "安樂區" 25131 3 1217232 4
    ∷ at "暖暖區" 250998 4 121738 3
    ∷ []

abbrev pub yilan : List Place
yilan =
    at "三星鄉" 246697 4 1216551 4
    ∷ at "五結鄉" 246873 4 1218002 4
    ∷ at "冬山鄉" 246435 4 1217734 4
    ∷ at "南澳鄉" 244574 4 1217777 4
    ∷ at "員山鄉" 247376 4 121718 3
    ∷ at "壯圍鄉" 247582 4 1218002 4
    ∷ at "大同鄉" 24605 3 1215545 4
    ∷ at "宜蘭市" 247537 4 1217542 4
    ∷ at "礁溪鄉" 248099 4 1217646 4
    ∷ at "羅東鎮" 246758 4 1217668 4
    ∷ at "蘇澳鎮" 245944 4 1218419 4
    ∷ at "頭城鎮" 248592 4 1218236 4
    ∷ []

abbrev pub pingtung : List Place
pingtung =
    at "三地門鄉" 227709 4 1206406 4
    ∷ at "九如鄉" 227344 4 1204904 4
    ∷ at "佳冬鄉" 22423 3 1205668 4
    ∷ at "來義鄉" 224999 4 1206258 4
    ∷ at "內埔鄉" 226258 4 1205862 4
    ∷ at "南州鄉" 224951 4 1205111 4
    ∷ at "屏東市" 226687 4 1204877 4
    ∷ at "崁頂鄉" 225146 4 1205105 4
    ∷ at "恆春鎮" 220051 4 120747 3
    ∷ at "新園鄉" 22534 3 1204596 4
    ∷ at "新埤鄉" 224799 4 1205881 4
    ∷ at "春日鄉" 223696 4 120628 3
    ∷ at "東港鎮" 224643 4 1204575 4
    ∷ at "枋寮鄉" 223711 4 120593 3
    ∷ at "枋山鄉" 22264 3 1206606 4
    ∷ at "林邊鄉" 224374 4 1205114 4
    ∷ at "泰武鄉" 225914 4 1206333 4
    ∷ at "滿州鄉" 220244 4 1208353 4
    ∷ at "潮州鎮" 225473 4 1205429 4
    ∷ at "牡丹鄉" 22151 3 1208423 4
    ∷ at "獅子鄉" 222117 4 1207026 4
    ∷ at "琉球鄉" 223365 4 1203689 4
    ∷ at "瑪家鄉" 226949 4 1206309 4
    ∷ at "竹田鄉" 225847 4 120544 3
    ∷ at "萬丹鄉" 22595 3 1204849 4
    ∷ at "萬巒鄉" 225727 4 120594 3
    ∷ at "車城鄉" 220739 4 1207156 4
    ∷ at "里港鄉" 227806 4 1204945 4
    ∷ at "長治鄉" 226938 4 1205426 4
    ∷ at "霧台鄉" 227471 4 1207312 4
    ∷ at "高樹鄉" 228374 4 1206121 4
    ∷ at "鹽埔鄉" 227467 4 120564 3
    ∷ at "麟洛鄉" 226493 4 1205272 4
    ∷ []

abbrev pub changhua : List Place
changhua =
    at "二林鎮" 238981 4 1203707 4
    ∷ at "二水鄉" 23809 3 1206185 4
    ∷ at "伸港鄉" 241496 4 1204851 4
    ∷ at "北斗鎮" 238736 4 1205221 4
    ∷ at "和美鎮" 24111 3 1205093 4
    ∷ at "員林市" 239611 4 1205748 4
    ∷ at "埔心鄉" 239523 4 1205433 4
    ∷ at "埔鹽鄉" 239927 4 1204596 4
    ∷ at "埤頭鄉" 238889 4 1204601 4
    ∷ at "大城鄉" 238529 4 1203086 4
    ∷ at "大村鄉" 239908 4 1205509 4
    ∷ at "彰化市" 240717 4 1205504 4
    ∷ at "永靖鄉" 239225 4 120542 3
    ∷ at "溪州鄉" 23841 3 1204974 4
    ∷ at "溪湖鎮" 239592 4 1204785 4
    ∷ at "田中鎮" 238572 4 1205859 4
    ∷ at "田尾鄉" 238961 4 120532 3
    ∷ at "社頭鄉" 238994 4 1205854 4
    ∷ at "福興鄉" 240284 4 1204403 4
    ∷ at "秀水鄉" 240345 4 1205053 4
    ∷ at "竹塘鄉" 238495 4 1204288 4
    ∷ at "線西鄉" 241298 4 1204681 4
    ∷ at "芬園鄉" 24013 3 120624 3
    ∷ at "花壇鄉" 240252 4 1205494 4
    ∷ at "芳苑鄉" 239612 4 120346 3
    ∷ at "鹿港鎮" 240584 4 1204383 4
    ∷ []
