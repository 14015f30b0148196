-- ===== src/FastCdc/Tables.antt =====
-- crates/frostbuild-core/src/fastcdc_params.json: the tables that the chunker is compiled with.
use frostbuild.Base.{ℕ, List, [], ◌∷◌}
use frostbuild.FastCdc.{Parameters}

abbrev pub masks : List ℕ
masks =
    0 ∷ 0 ∷ 0 ∷ 0 ∷ 0 ∷ 25182480 ∷ 25178384 ∷ 402870528 ∷ 103079432960 ∷ 1717990404096
    ∷ 97856590643200 ∷ 238594078998528 ∷ 238598373965824 ∷ 238606963900416 ∷ 238607232335872
    ∷ 238658503507968 ∷ 238606963929088 ∷ 238624143798272 ∷ 238624210907136 ∷ 238692930383872
    ∷ 238694004125696 ∷ 238694540996608 ∷ 238831979950080 ∷ 238832248385536 ∷ 238832248647680
    ∷ 241031271903232 ∷ []

abbrev pub gear : List ℕ
gear =
    4277641729185560540 ∷ 8668700008265166982 ∷ 14795037326156133016 ∷ 16919898791148899495
    ∷ 14060018537981895467 ∷ 2116453231346691046 ∷ 9444905892653488529 ∷ 14173432103455913545
    ∷ 12264035339446695065 ∷ 13150453540257758552 ∷ 11182767059160939 ∷ 16424396233956401702
    ∷ 617259563335488183 ∷ 12108455597928447102 ∷ 17340827094918354971 ∷ 2090342047044922388
    ∷ 253967611242357903 ∷ 14819885388164938164 ∷ 17717181714135545942 ∷ 9827692023692132534
    ∷ 12119031808596602762 ∷ 2186565542952504175 ∷ 8804895397010188273 ∷ 12371968642295269355
    ∷ 12775371829715417693 ∷ 13392622863586662927 ∷ 3964282478556504766 ∷ 14919220940991593880
    ∷ 4438411524799323347 ∷ 2009162221626323500 ∷ 1454677680977228249 ∷ 16616287886598495385
    ∷ 5143973336066200229 ∷ 14292210785377151524 ∷ 8509951745129115831 ∷ 5214016363564260865
    ∷ 17749456461862752245 ∷ 14616491069511689193 ∷ 3057611943800334734 ∷ 14336228352406415375
    ∷ 4394822845718270705 ∷ 9923748154118071409 ∷ 12566834052539323049 ∷ 17020163904670238997
    ∷ 4591896320049837137 ∷ 15563630872260190613 ∷ 3579764141541552088 ∷ 2692867358655111890
    ∷ 1218986762644636367 ∷ 5111665167733278724 ∷ 11902385076901128147 ∷ 15756652111300588901
    ∷ 7730319725079035579 ∷ 7136484484592809775 ∷ 14227873958847314390 ∷ 7770256641289582952
    ∷ 7449046721814661706 ∷ 16234644972287016366 ∷ 13239413952194741268 ∷ 16066773027436994838
    ∷ 16686731096455380694 ∷ 582684790890495304 ∷ 9607593895686107275 ∷ 10458289238848018866
    ∷ 12497716887590138626 ∷ 15170843141457325351 ∷ 10256249102455708126 ∷ 10867872320120537152
    ∷ 615229317490019905 ∷ 6777159222251623053 ∷ 8262408294927429015 ∷ 4867100181723616995
    ∷ 16091341172148683671 ∷ 68712670317249527 ∷ 5194034670770217023 ∷ 11362505771706406481
    ∷ 18315934686999834799 ∷ 4924664482777966912 ∷ 497136573177017108 ∷ 13623411762618077900
    ∷ 16065211656293414752 ∷ 11523037894713967909 ∷ 5016413944028357195 ∷ 12604476490028078694
    ∷ 1326921447370294219 ∷ 12768291198948303154 ∷ 7296417452608717091 ∷ 3271797543310760627
    ∷ 7823808039435884214 ∷ 5763235567851985293 ∷ 14878618126654090575 ∷ 17128366917306798435
    ∷ 15893293830942329078 ∷ 3918021849948690564 ∷ 14285515009132436478 ∷ 4383236416018661062
    ∷ 9159944339352999941 ∷ 92397272820969801 ∷ 820952329787442824 ∷ 13606905607974754544
    ∷ 16827638860150403824 ∷ 10963786136829089836 ∷ 13470616727546544227 ∷ 10278077039971212218
    ∷ 15078337820516441261 ∷ 3083771265742241072 ∷ 16592472181687173087 ∷ 11640898428079738873
    ∷ 10967464237585938875 ∷ 2398972777924684319 ∷ 10306419144251883513 ∷ 6242718823163625045
    ∷ 10724575826407673799 ∷ 4665661372636680907 ∷ 10599908297337544907 ∷ 3612622689869872466
    ∷ 2693382331549347759 ∷ 11366175627931982774 ∷ 1141693538921133418 ∷ 16156689919770569690
    ∷ 13959838889067852501 ∷ 12737453321282441943 ∷ 4525073063050920547 ∷ 5850315114588907102
    ∷ 10012265620495968082 ∷ 17714668494644781238 ∷ 7896498034373249030 ∷ 6210219061538206618
    ∷ 13893121033263866694 ∷ 5221963234534965464 ∷ 16461356471761606034 ∷ 6525560244423717050
    ∷ 18204380953374669648 ∷ 6566119158335475824 ∷ 15205471342716683781 ∷ 6071040863020050248
    ∷ 3543530245169264033 ∷ 1221782484218598773 ∷ 10389836591328556147 ∷ 4279390001191541022
    ∷ 2969001041431121414 ∷ 4980757595429633495 ∷ 3555829489845650811 ∷ 236793308185877097
    ∷ 16285913427840522683 ∷ 7110627920630086117 ∷ 10756250727497953752 ∷ 9220918196189675456
    ∷ 41763638105181574 ∷ 9756129120088124578 ∷ 1954217139883786179 ∷ 6404396592902321707
    ∷ 6866510565105026445 ∷ 18263411709274735897 ∷ 11881616459325816745 ∷ 13792694163428701413
    ∷ 9723634706673880403 ∷ 2639739433730762018 ∷ 16655944747755932872 ∷ 13780014985768223586
    ∷ 15633908933025603288 ∷ 7145494227207853431 ∷ 7109609907257481920 ∷ 730750160205510725
    ∷ 1624420984246019915 ∷ 17836981244490841660 ∷ 7796683171699870939 ∷ 5541948772605233586
    ∷ 29886621648726675 ∷ 10906325638176381580 ∷ 1756506354961583195 ∷ 6608740066500885617
    ∷ 1104404484617459878 ∷ 12361354939105623143 ∷ 4662822453769972265 ∷ 10122955325548366175
    ∷ 8700285418686021724 ∷ 12883085447441989682 ∷ 17282005671632146931 ∷ 3162751745021538237
    ∷ 15649129943870909068 ∷ 768584683651425721 ∷ 3114231636544207637 ∷ 10111889484809178744
    ∷ 10806869892897845298 ∷ 16686856597962258548 ∷ 15090434868356202697 ∷ 4942748446206448378
    ∷ 16322728650892174723 ∷ 8618356929686018515 ∷ 17498624811458747678 ∷ 15061008387068560610
    ∷ 21535742981875941 ∷ 3590506306599929062 ∷ 15493922393261354001 ∷ 15800108605724030082
    ∷ 10912540461275697581 ∷ 8346802597410109661 ∷ 16444789023994419149 ∷ 5166323802518935079
    ∷ 11507349338544264346 ∷ 14760278812371784659 ∷ 2059749348339304882 ∷ 14620722872583932955
    ∷ 3808219209380771599 ∷ 8668930044870580527 ∷ 1756752717793850400 ∷ 17426919423902207678
    ∷ 3744598047745990396 ∷ 4361933846576042140 ∷ 10766469301812588197 ∷ 1918539719976488583
    ∷ 6125131910365887374 ∷ 16387568910660127812 ∷ 1424494858549521977 ∷ 6220775370355583617
    ∷ 8624916739066538972 ∷ 8308935559398383285 ∷ 6949474338507360674 ∷ 15311559549050822942
    ∷ 6562769617397653136 ∷ 17827101144564235324 ∷ 2442829332169415369 ∷ 11193334221304655338
    ∷ 17622416812643286684 ∷ 3887506951615458970 ∷ 14732188533150682544 ∷ 4440938339926870210
    ∷ 13247139177240284497 ∷ 5569047332950074473 ∷ 14854645212099736602 ∷ 12236828691198827526
    ∷ 8102960988162894375 ∷ 2530238941862556629 ∷ 8531656153237785881 ∷ 5344227982685426700
    ∷ 17431007918016738141 ∷ 8314528252009328807 ∷ 3463409827831209293 ∷ 5777531360705146946
    ∷ 14034882772635640415 ∷ 8677024291858923007 ∷ 15775561416126280356 ∷ 7022069163632232950
    ∷ 12542020977850455870 ∷ 15105211590930222865 ∷ 548184686374210728 ∷ 10640196622988848827
    ∷ 18095021448896316339 ∷ 16889448424513572304 ∷ 14939396071629011548 ∷ 14835898540795221888
    ∷ 10249702514989548563 ∷ 17227624102541500972 ∷ 16273810940349930971 ∷ 12303037217593689313 ∷ []

-- `PARAMETERS`
abbrev pub parameters : Parameters
parameters = record { masks = masks; gear = gear }
