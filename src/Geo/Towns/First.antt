-- ===== src/Geo/Towns/First.antt =====
-- Townships of apps/api/app/utils/town_centroids.py: nantou, taichung, taipei, tainan, taitung.
use aidflow.Prelude.{List, [], ◌∷◌}
use aidflow.Geo.Towns.Shape.{Place, at}

abbrev pub nantou : List Place
nantou =
    at "中寮鄉" 238966 4 1207629 4
    ∷ at "仁愛鄉" 24075 3 1211709 4
    ∷ at "信義鄉" 236401 4 1208862 4
    ∷ at "南投市" 239137 4 1206858 4
    ∷ at "名間鄉" 238533 4 1206676 4
    ∷ at "國姓鄉" 240294 4 1208693 4
    ∷ at "埔里鎮" 239721 4 1209589 4
    ∷ at "水里鄉" 238101 4 1208554 4
    ∷ at "竹山鎮" 237551 4 1206851 4
    ∷ at "草屯鎮" 239809 4 1206869 4
    ∷ at "集集鎮" 238346 4 1207853 4
    ∷ at "魚池鄉" 238886 4 1209219 4
    ∷ at "鹿谷鄉" 237458 4 1207719 4
    ∷ []

abbrev pub taichung : List Place
taichung =
    at "中區" 241439 4 1206795 4
    ∷ at "北區" 241628 4 1206776 4
    ∷ at "北屯區" 241784 4 1206867 4
    ∷ at "南區" 241213 4 1206638 4
    ∷ at "南屯區" 241414 4 120639 3
    ∷ at "后里區" 243081 4 1207156 4
    ∷ at "和平區" 242686 4 1209085 4
    ∷ at "外埔區" 243325 4 1206424 4
    ∷ at "大安區" 24358 3 1205895 4
    ∷ at "大甲區" 243536 4 120629 3
    ∷ at "大肚區" 241546 4 1205453 4
    ∷ at "大里區" 241009 4 1206915 4
    ∷ at "大雅區" 242268 4 1206501 4
    ∷ at "太平區" 241249 4 1207291 4
    ∷ at "新社區" 242275 4 1208109 4
    ∷ at "東勢區" 24251 3 1208331 4
    ∷ at "東區" 241359 4 1206908 4
    ∷ at "梧棲區" 242484 4 1205358 4
    ∷ at "沙鹿區" 242358 4 1205678 4
    ∷ at "清水區" 24272 3 1205769 4
    ∷ at "潭子區" 24213 3 1207039 4
    ∷ at "烏日區" 241048 4 1206397 4
    ∷ at "石岡區" 242733 4 1207803 4
    ∷ at "神岡區" 242574 4 1206683 4
    ∷ at "西區" 241469 4 1206652 4
    ∷ at "西屯區" 241737 4 1206481 4
    ∷ at "豐原區" 242523 4 1207215 4
    ∷ at "霧峰區" 240671 4 1206892 4
    ∷ at "龍井區" 241985 4 1205441 4
    ∷ []

abbrev pub taipei : List Place
taipei =
    at "中山區" 250626 4 1215371 4
    ∷ at "中正區" 250317 4 1215148 4
    ∷ at "信義區" 250364 4 1215723 4
    ∷ at "內湖區" 250784 4 1215887 4
    ∷ at "北投區" 251347 4 1215053 4
    ∷ at "南港區" 250519 4 121602 3
    ∷ at "士林區" 25103 3 1215263 4
    ∷ at "大同區" 250626 4 1215164 4
    ∷ at "大安區" 250294 4 1215388 4
    ∷ at "文山區" 249958 4 1215567 4
    ∷ at "松山區" 25056 3 121557 3
    ∷ at "萬華區" 250291 4 1214978 4
    ∷ []

abbrev pub tainan : List Place
tainan =
    at "七股區" 231381 4 1201308 4
    ∷ at "下營區" 232347 4 1202693 4
    ∷ at "中西區" 229925 4 1201984 4
    ∷ at "仁德區" 229675 4 1202532 4
    ∷ at "佳里區" 231675 4 1201799 4
    ∷ at "六甲區" 232304 4 120347 3
    ∷ at "北區" 230057 4 1202052 4
    ∷ at "北門區" 232707 4 1201238 4
    ∷ at "南化區" 230676 4 1204969 4
    ∷ at "南區" 229697 4 1201886 4
    ∷ at "善化區" 231385 4 120304 3
    ∷ at "大內區" 231222 4 1203848 4
    ∷ at "學甲區" 232308 4 1201818 4
    ∷ at "安南區" 230539 4 1201822 4
    ∷ at "安定區" 231038 4 1202338 4
    ∷ at "安平區" 229953 4 1201682 4
    ∷ at "官田區" 231914 4 1203213 4
    ∷ at "將軍區" 232144 4 1201507 4
    ∷ at "山上區" 231011 4 1203584 4
    ∷ at "左鎮區" 230564 4 1204074 4
    ∷ at "後壁區" 233659 4 1203381 4
    ∷ at "新化區" 230383 4 120311 3
    ∷ at "新市區" 230787 4 1202958 4
    ∷ at "新營區" 233052 4 1203088 4
    ∷ at "東區" 229826 4 1202303 4
    ∷ at "東山區" 232906 4 1204043 4
    ∷ at "柳營區" 232775 4 1203315 4
    ∷ at "楠西區" 231806 4 1204843 4
    ∷ at "歸仁區" 229682 4 1202937 4
    ∷ at "永康區" 230187 4 1202452 4
    ∷ at "玉井區" 23123 3 1204642 4
    ∷ at "白河區" 23351 3 1204378 4
    ∷ at "西港區" 231224 4 1202021 4
    ∷ at "關廟區" 229589 4 1203343 4
    ∷ at "鹽水區" 233174 4 120262 3
    ∷ at "麻豆區" 231847 4 1202585 4
    ∷ at "龍崎區" 229643 4 1203765 4
    ∷ []

abbrev pub taitung : List Place
taitung =
    at "卑南鄉" 22782 3 1210706 4
    ∷ at "台東市" 227641 4 1211192 4
    ∷ at "大武鄉" 223581 4 1209038 4
    ∷ at "太麻里鄉" 226149 4 1209935 4
    ∷ at "延平鄉" 229029 4 1211152 4
    ∷ at "成功鎮" 231044 4 1213784 4
    ∷ at "東河鄉" 229659 4 1212771 4
    ∷ at "池上鄉" 231217 4 121215 3
    ∷ at "海端鄉" 231018 4 1211532 4
    ∷ at "綠島鄉" 226742 4 121471 3
    ∷ at "蘭嶼鄉" 220378 4 1215276 4
    ∷ at "達仁鄉" 223816 4 1208869 4
    ∷ at "金峰鄉" 225953 4 1209615 4
    ∷ at "長濱鄉" 232892 4 1214301 4
    ∷ at "關山鎮" 230427 4 1211635 4
    ∷ at "鹿野鄉" 229336 4 1211362 4
    ∷ []
