-- ===== src/Examples/Wifi.antt =====
-- The rates of Wi-Fi links at concrete links.
use lltdresponder.Base.{◌≤◌, ◌≡◌, refl, some, inl, pos, Option, arith}
use lltdresponder.Wifi.{
  WifiRateParams, wifi_phy_ht, lltd_wifi_calc_rate, lltd_wifi_calc_max_rate, lltd_wifi_infer_params,
}
use lltdresponder.Wifi.Infer.{
  Nearer, Matches, Moderate, lltd_wifi_infer_params-Nearer, lltd_wifi_infer_params-Matches,
}
use lltdresponder.Wifi.MaxRate.{lltd_wifi_calc_max_rate-Bounds}

max_is : lltd_wifi_calc_max_rate (pos wifi_phy_ht) (pos 40) (pos 2) ≡ some 300
unfolding lltd_wifi_calc_max_rate
max_is = refl

rate_is : lltd_wifi_calc_rate (pos wifi_phy_ht) (pos 40) (pos 2) (pos 4) (pos 800) ≡ some 162
unfolding lltd_wifi_calc_rate
rate_is = refl

lltd_wifi_calc_max_rate-Bounds_example : 162 ≤ 300
lltd_wifi_calc_max_rate-Bounds_example =
    lltd_wifi_calc_max_rate-Bounds (pos wifi_phy_ht) (pos 40) (pos 2) (pos 4) (pos 800) 300 162
      max_is (omega arith) rate_is

abbrev found : WifiRateParams
found = record { nss = 2; mcs = 4; gi_ns = 800; rate_mbps = 162 }

found_is : lltd_wifi_infer_params (pos wifi_phy_ht) (pos 40) (pos 160) (pos 5) ≡ some (some found)
unfolding lltd_wifi_infer_params lltd_wifi_calc_rate
found_is = refl

moderate : Moderate (pos 160) (pos 5)
moderate = (refl, refl, refl)

lltd_wifi_infer_params-Nearer_example : Nearer (pos 160) (pos 5) 162 (some found)
lltd_wifi_infer_params-Nearer_example =
    lltd_wifi_infer_params-Nearer (pos wifi_phy_ht) (pos 40) (pos 160) (pos 5) (pos 2) (pos 4)
      (pos 800) 162 (some found) moderate (inl refl) rate_is (omega arith) found_is

lltd_wifi_infer_params-Matches_example :
    (answer : Option WifiRateParams) × (lltd_wifi_infer_params
        (pos wifi_phy_ht)
        (pos 40)
        (pos 160)
        (pos 5)
      ≡ some answer)
    × Matches (pos wifi_phy_ht) (pos 40) (pos 160) (pos 5) answer
lltd_wifi_infer_params-Matches_example =
    lltd_wifi_infer_params-Matches (pos wifi_phy_ht) (pos 40) (pos 160) (pos 5) moderate
