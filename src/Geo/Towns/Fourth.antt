-- ===== src/Geo/Towns/Fourth.antt =====
-- Townships of apps/api/app/utils/town_centroids.py: miaoli, lienchiang, kinmen, yunlin, kaohsiung.
use aidflow.Prelude.{List, [], ◌∷◌}
use aidflow.Geo.Towns.Shape.{Place, at}

abbrev pub miaoli : List Place
miaoli =
    at "三灣鄉" 246557 4 120955 3
    ∷ at "三義鄉" 250424 4 121533 3
    ∷ at "公館鄉" 245105 4 1208264 4
    ∷ at "卓蘭鎮" 243358 4 1208495 4
    ∷ at "南庄鄉" 245977 4 1209992 4
    ∷ at "大湖鄉" 243974 4 1208673 4
    ∷ at "後龍鎮" 246138 4 1207894 4
    ∷ at "泰安鄉" 244211 4 1209325 4
    ∷ at "獅潭鄉" 245396 4 1209206 4
    ∷ at "竹南鎮" 246891 4 1208795 4
    ∷ at "苑裡鎮" 250424 4 121533 3
    ∷ at "苗栗市" 245556 4 1208163 4
    ∷ at "西湖鄉" 245589 4 1207562 4
    ∷ at "通霄鎮" 244853 4 1206873 4
    ∷ at "造橋鄉" 246314 4 1208719 4
    ∷ at "銅鑼鄉" 24473 3 1207913 4
    ∷ at "頭份市" 246864 4 1209044 4
    ∷ at "頭屋鄉" 24577 3 1208534 4
    ∷ []

abbrev pub lienchiang : List Place
lienchiang =
    at "北竿鄉" 262237 4 1199934 4
    ∷ at "南竿鄉" 261551 4 1199533 4
    ∷ at "東引鄉" 263679 4 120488 3
    ∷ at "莒光鄉" 2597 2 1199449 4
    ∷ []

abbrev pub kinmen : List Place
kinmen =
    at "烈嶼鄉" 244287 4 1182406 4
    ∷ at "烏坵鄉" 249844 4 1194616 4
    ∷ at "金城鎮" 244149 4 1183099 4
    ∷ at "金寧鄉" 244509 4 1183319 4
    ∷ at "金沙鎮" 24284 3 118245 3
    ∷ at "金湖鎮" 244415 4 1184168 4
    ∷ []

abbrev pub yunlin : List Place
yunlin =
    at "二崙鄉" 237726 4 1204127 4
    ∷ at "元長鄉" 236457 4 1203148 4
    ∷ at "北港鎮" 235784 4 1202992 4
    ∷ at "口湖鄉" 235753 4 1201839 4
    ∷ at "古坑鄉" 236282 4 1205686 4
    ∷ at "台西鄉" 237015 4 1202053 4
    ∷ at "四湖鄉" 236393 4 1202111 4
    ∷ at "土庫鎮" 236822 4 1203692 4
    ∷ at "大埤鄉" 236472 4 1204284 4
    ∷ at "崙背鄉" 237619 4 1203506 4
    ∷ at "斗六市" 237101 4 120552 3
    ∷ at "斗南鎮" 236778 4 1204751 4
    ∷ at "東勢鄉" 236798 4 1202555 4
    ∷ at "林內鄉" 237566 4 1206129 4
    ∷ at "水林鄉" 235695 4 1202399 4
    ∷ at "莿桐鄉" 237609 4 1205077 4
    ∷ at "虎尾鎮" 237117 4 1204368 4
    ∷ at "褒忠鄉" 237011 4 1203073 4
    ∷ at "西螺鎮" 23791 3 1204574 4
    ∷ at "麥寮鄉" 237738 4 1202656 4
    ∷ []

abbrev pub kaohsiung : List Place
kaohsiung =
    at "三民區" 226464 4 1203209 4
    ∷ at "仁武區" 226948 4 1203465 4
    ∷ at "內門區" 22956 3 1204679 4
    ∷ at "六龜區" 229955 4 120645 3
    ∷ at "前金區" 226276 4 1202939 4
    ∷ at "前鎮區" 226051 4 12032 2
    ∷ at "大寮區" 226044 4 1204025 4
    ∷ at "大樹區" 226878 4 1204233 4
    ∷ at "大社區" 227293 4 1203527 4
    ∷ at "小港區" 225662 4 1203564 4
    ∷ at "岡山區" 227946 4 1202931 4
    ∷ at "左營區" 226824 4 1202957 4
    ∷ at "彌陀區" 227829 4 1202489 4
    ∷ at "新興區" 226275 4 1203062 4
    ∷ at "旗山區" 228847 4 1204784 4
    ∷ at "旗津區" 2259 2 1202848 4
    ∷ at "杉林區" 229826 4 1205502 4
    ∷ at "林園區" 225068 4 1203953 4
    ∷ at "桃源區" 231605 4 1207658 4
    ∷ at "梓官區" 227565 4 1202635 4
    ∷ at "楠梓區" 227242 4 1203018 4
    ∷ at "橋頭區" 227576 4 1203059 4
    ∷ at "永安區" 228211 4 1202253 4
    ∷ at "湖內區" 229008 4 1202254 4
    ∷ at "燕巢區" 227858 4 1203622 4
    ∷ at "田寮區" 228738 4 1203747 4
    ∷ at "甲仙區" 230814 4 1205889 4
    ∷ at "美濃區" 2289 2 1205456 4
    ∷ at "苓雅區" 226205 4 1203199 4
    ∷ at "茂林區" 228986 4 1206743 4
    ∷ at "茄萣區" 229065 4 1201825 4
    ∷ at "路竹區" 228625 4 1202611 4
    ∷ at "那瑪夏區" 232478 4 1207021 4
    ∷ at "阿蓮區" 228832 4 1203261 4
    ∷ at "鳥松區" 226584 4 1203711 4
    ∷ at "鳳山區" 226185 4 1203537 4
    ∷ at "鹽埕區" 226236 4 1202868 4
    ∷ at "鼓山區" 226514 4 12028 2
    ∷ []
