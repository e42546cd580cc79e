-- ===== src/Wifi/Tables.antt =====
-- The rate tables of os/darwin/daemon/lltd_wifi_rates.c, in units of 100 kbit/s: a row for each
-- modulation (MCS), in it a list for each channel width, in it a rate for each guard interval.
use lltdresponder.Base.{ℕ, List, [], ◌∷◌}

abbrev pub Table : Type 0
Table = List (List (List ℕ))

abbrev pub ht_rates_x10 : Table
ht_rates_x10 =
    ((65 ∷ 72 ∷ []) ∷ (135 ∷ 150 ∷ []) ∷ [])
    ∷ ((130 ∷ 144 ∷ []) ∷ (270 ∷ 300 ∷ []) ∷ [])
    ∷ ((195 ∷ 217 ∷ []) ∷ (405 ∷ 450 ∷ []) ∷ [])
    ∷ ((260 ∷ 289 ∷ []) ∷ (540 ∷ 600 ∷ []) ∷ [])
    ∷ ((390 ∷ 433 ∷ []) ∷ (810 ∷ 900 ∷ []) ∷ [])
    ∷ ((520 ∷ 578 ∷ []) ∷ (1080 ∷ 1200 ∷ []) ∷ [])
    ∷ ((585 ∷ 650 ∷ []) ∷ (1215 ∷ 1350 ∷ []) ∷ [])
    ∷ ((650 ∷ 722 ∷ []) ∷ (1350 ∷ 1500 ∷ []) ∷ [])
    ∷ []

abbrev pub vht_rates_1ss_x10 : Table
vht_rates_1ss_x10 =
    ((65 ∷ 72 ∷ []) ∷ (135 ∷ 150 ∷ []) ∷ (293 ∷ 325 ∷ []) ∷ (585 ∷ 650 ∷ []) ∷ [])
    ∷ ((130 ∷ 144 ∷ []) ∷ (270 ∷ 300 ∷ []) ∷ (585 ∷ 650 ∷ []) ∷ (1170 ∷ 1300 ∷ []) ∷ [])
    ∷ ((195 ∷ 217 ∷ []) ∷ (405 ∷ 450 ∷ []) ∷ (878 ∷ 975 ∷ []) ∷ (1755 ∷ 1950 ∷ []) ∷ [])
    ∷ ((260 ∷ 289 ∷ []) ∷ (540 ∷ 600 ∷ []) ∷ (1170 ∷ 1300 ∷ []) ∷ (2340 ∷ 2600 ∷ []) ∷ [])
    ∷ ((390 ∷ 433 ∷ []) ∷ (810 ∷ 900 ∷ []) ∷ (1755 ∷ 1950 ∷ []) ∷ (3510 ∷ 3900 ∷ []) ∷ [])
    ∷ ((520 ∷ 578 ∷ []) ∷ (1080 ∷ 1200 ∷ []) ∷ (2340 ∷ 2600 ∷ []) ∷ (4680 ∷ 5200 ∷ []) ∷ [])
    ∷ ((585 ∷ 650 ∷ []) ∷ (1215 ∷ 1350 ∷ []) ∷ (2633 ∷ 2925 ∷ []) ∷ (5265 ∷ 5850 ∷ []) ∷ [])
    ∷ ((650 ∷ 722 ∷ []) ∷ (1350 ∷ 1500 ∷ []) ∷ (2925 ∷ 3250 ∷ []) ∷ (5850 ∷ 6500 ∷ []) ∷ [])
    ∷ ((780 ∷ 867 ∷ []) ∷ (1620 ∷ 1800 ∷ []) ∷ (3510 ∷ 3900 ∷ []) ∷ (7020 ∷ 7800 ∷ []) ∷ [])
    ∷ ((0 ∷ 0 ∷ []) ∷ (1800 ∷ 2000 ∷ []) ∷ (3900 ∷ 4333 ∷ []) ∷ (7800 ∷ 8667 ∷ []) ∷ [])
    ∷ []

abbrev pub he_rates_1ss_x10 : Table
he_rates_1ss_x10 =
    ((86 ∷ 81 ∷ 73 ∷ [])
      ∷ (172 ∷ 163 ∷ 146 ∷ [])
      ∷ (360 ∷ 340 ∷ 306 ∷ [])
      ∷ (721 ∷ 681 ∷ 613 ∷ [])
      ∷ [])
    ∷ ((172 ∷ 163 ∷ 146 ∷ [])
        ∷ (344 ∷ 325 ∷ 293 ∷ [])
        ∷ (721 ∷ 681 ∷ 613 ∷ [])
        ∷ (1441 ∷ 1361 ∷ 1225 ∷ [])
        ∷ [])
    ∷ ((258 ∷ 244 ∷ 219 ∷ [])
        ∷ (516 ∷ 488 ∷ 439 ∷ [])
        ∷ (1081 ∷ 1021 ∷ 919 ∷ [])
        ∷ (2162 ∷ 2042 ∷ 1838 ∷ [])
        ∷ [])
    ∷ ((344 ∷ 325 ∷ 293 ∷ [])
        ∷ (688 ∷ 650 ∷ 585 ∷ [])
        ∷ (1441 ∷ 1361 ∷ 1225 ∷ [])
        ∷ (2882 ∷ 2722 ∷ 2450 ∷ [])
        ∷ [])
    ∷ ((516 ∷ 488 ∷ 439 ∷ [])
        ∷ (1032 ∷ 975 ∷ 878 ∷ [])
        ∷ (2162 ∷ 2042 ∷ 1838 ∷ [])
        ∷ (4324 ∷ 4083 ∷ 3675 ∷ [])
        ∷ [])
    ∷ ((688 ∷ 650 ∷ 585 ∷ [])
        ∷ (1376 ∷ 1300 ∷ 1170 ∷ [])
        ∷ (2882 ∷ 2722 ∷ 2450 ∷ [])
        ∷ (5765 ∷ 5444 ∷ 4900 ∷ [])
        ∷ [])
    ∷ ((774 ∷ 731 ∷ 658 ∷ [])
        ∷ (1549 ∷ 1463 ∷ 1316 ∷ [])
        ∷ (3243 ∷ 3063 ∷ 2756 ∷ [])
        ∷ (6485 ∷ 6125 ∷ 5513 ∷ [])
        ∷ [])
    ∷ ((860 ∷ 813 ∷ 731 ∷ [])
        ∷ (1721 ∷ 1625 ∷ 1463 ∷ [])
        ∷ (3603 ∷ 3403 ∷ 3063 ∷ [])
        ∷ (7206 ∷ 6806 ∷ 6125 ∷ [])
        ∷ [])
    ∷ ((1032 ∷ 975 ∷ 878 ∷ [])
        ∷ (2065 ∷ 1950 ∷ 1755 ∷ [])
        ∷ (4324 ∷ 4083 ∷ 3675 ∷ [])
        ∷ (8647 ∷ 8167 ∷ 7350 ∷ [])
        ∷ [])
    ∷ ((1147 ∷ 1083 ∷ 975 ∷ [])
        ∷ (2294 ∷ 2167 ∷ 1950 ∷ [])
        ∷ (4804 ∷ 4537 ∷ 4083 ∷ [])
        ∷ (9608 ∷ 9074 ∷ 8167 ∷ [])
        ∷ [])
    ∷ ((1290 ∷ 1219 ∷ 1097 ∷ [])
        ∷ (2581 ∷ 2438 ∷ 2194 ∷ [])
        ∷ (5404 ∷ 5104 ∷ 4594 ∷ [])
        ∷ (10809 ∷ 10208 ∷ 9188 ∷ [])
        ∷ [])
    ∷ ((1434 ∷ 1354 ∷ 1219 ∷ [])
        ∷ (2868 ∷ 2708 ∷ 2438 ∷ [])
        ∷ (6005 ∷ 5671 ∷ 5104 ∷ [])
        ∷ (12010 ∷ 11342 ∷ 10208 ∷ [])
        ∷ [])
    ∷ []
