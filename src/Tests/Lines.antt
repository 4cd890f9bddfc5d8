-- ===== src/Tests/Lines.antt =====
-- The lines of the report styles.
use flexfcapf.Prelude.{◌≡◌, refl, true, false, [], ◌∷◌, Ensures}
use flexfcapf.Prelude.Int.{ℤ, pos}
use flexfcapf.Settings.{ThreadMode, TransferInfo}
use flexfcapf.Styles.Default.{server_stats, multi_stats}
use flexfcapf.Styles.Csv.{csv_stats}
use flexfcapf.Styles.Fits.{AllFit, Fits, print_stats-Fits}
use flexfcapf.Styles.Heads.{
  heads, leads, of_transfer, of_server, of_sum, print_all, print_all-heads,
}
use flexfcapf.Tests.Fixed.{fixed, scale, no_info}

-- A UDP server that has seen 100 datagrams, two of them late.
abbrev late : TransferInfo ℤ
late = record (no_info (pos 0)) {
  udp = ThreadMode.server;
  cnt_datagrams = pos 100;
  cnt_outof_order = pos 2;
  ipg_cnt = pos 99;
  ipg_sum = scale (pos 1);
  total_len = 147000;
  end_time = scale (pos 1);
}

print_stats-Fits_example :
    Ensures (λ x. AllFit x.0) (server_stats (λ x. x) false late)
    × Ensures AllFit (multi_stats late)
    × Fits (csv_stats "20260101000000" late)
print_stats-Fits_example = print_stats-Fits late (λ x. x) false "20260101000000"

print_all-heads_example :
    Ensures
      (λ x. (heads x.0 ≡ 1) × (leads x.0 ≡ true))
      (print_all (λ x. x) false (of_server late ∷ of_transfer (no_info (pos 0)) ∷ of_sum late ∷ []))
print_all-heads_example =
    print_all-heads (λ x. x) (of_server late) (of_transfer (no_info (pos 0)) ∷ of_sum late ∷ [])
      refl
