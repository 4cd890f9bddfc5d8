-- ===== src/Styles/Fits.antt =====
-- The arguments of `printf` in iperf2-code/src/ReportDefault.c and iperf2-code/src/ReportCSV.c against the formats of
-- iperf2-code/src/Locale.c.
use Prim.Native.String.{String}
use flexfcapf.Prelude.{
  ℕ, ◌≡◌, refl, Bool, true, false, not, ◌&&◌, List, [], ◌∷◌, ◌++◌, if_intro, Ensures, ◌==◌,
  Ensures->>=,
}
use flexfcapf.Prelude.Int.{pos, eqb_ℤ, ltb_ℤ}
use flexfcapf.Prelude.Double.{Double}
use flexfcapf.Settings.{is_set, is_server, is_client, TransferInfo}
use flexfcapf.Styles.{
  Conversion, text_c, int_c, unsigned_c, max_c, long_c, double_c, Arg, text, amount, int, wide,
  double, Format, conversions, Line,
}
use flexfcapf.Styles.Default.{
  header_line, tcp_line, udp_client_line, udp_server_line, line_if, late_lines, sent_lines,
  print_stats, sum_line, multi_stats, server_stats, is_unrealistic,
}
use flexfcapf.Styles.Csv.{csv_stats}
use flexfcapf.Styles.Texts.{Ensures-amounts_of}

-- An argument has the type that a conversion reads.
abbrev pub fits : {W : Type 0} → Conversion → Arg W → Bool
fits text_c (text t) = true
fits text_c (amount a) = true
fits int_c (int n) = true
fits unsigned_c (int n) = true
fits max_c (wide n) = true
fits long_c (wide n) = true
fits double_c (double x) = true
fits _ _ = false

-- Arguments that are left over are not read.
abbrev pub fits_all : {W : Type 0} → List Conversion → List (Arg W) → Bool
fits_all [] args = true
fits_all (c ∷ cs) [] = false
fits_all (c ∷ cs) (a ∷ args) = fits c a && fits_all cs args

-- The formats that read a count of datagrams, which has 64 bits, as an `int`.
abbrev pub reads_int : Format → Bool
reads_int Format.outoforder = true
reads_int Format.sum_outoforder = true
reads_int Format.datagrams = true
reads_int Format.sum_datagrams = true
reads_int Format.csv_jitter_loss = true
reads_int _ = false

-- The arguments fit the format exactly if it is none of those.
abbrev pub Fits : {W : Type 0} → Line W → Type 0
Fits l = fits_all (conversions l.format) l.args ≡ not (reads_int l.format)

abbrev pub AllFit : {W : Type 0} → List (Line W) → Type 0
AllFit [] = Unit
AllFit (l ∷ ls) = Fits l × AllFit ls

module _ {W : Type 0} where
  AllFit-append : (xs ys : List (Line W)) → AllFit xs → AllFit ys → AllFit (xs ++ ys)
  AllFit-append [] ys a b = b
  AllFit-append (x ∷ xs) ys a b = (a.0, AllFit-append xs ys a.1 b)

  line_if-AllFit : (test : Bool) (l : Line W) → Fits l → AllFit (line_if test l)
  line_if-AllFit true l h = (h, tt)
  line_if-AllFit false l h = tt

module _ {W : Type 0} ⦃d : Double W⦄ where
  module _ (s : TransferInfo W) where
    header_line-Fits : Fits (header_line s)
    unfolding header_line conversions
    header_line-Fits =
        if_intro Fits (not (is_set s.udp))
          (λ q.
            if_intro Fits (not s.enhanced) (λ e. refl)
              (λ e. if_intro Fits (is_server s.tcp_mode) (λ m. refl) (λ m. refl)))
          (λ q.
            if_intro Fits (is_client s.udp) (λ c. if_intro Fits s.enhanced (λ e. refl) (λ e. refl))
              (λ c. if_intro Fits s.enhanced (λ e. refl) (λ e. refl)))

    module _ (a b : W × ℕ × String) where
      tcp_line-Fits : Fits (tcp_line s (amount a, amount b))
      unfolding tcp_line conversions
      tcp_line-Fits =
          if_intro Fits (not s.enhanced) (λ e. refl)
            (λ e. if_intro Fits (is_server s.tcp_mode) (λ m. refl) (λ m. refl))

      udp_client_line-Fits : Fits (udp_client_line s (amount a, amount b))
      unfolding udp_client_line conversions
      udp_client_line-Fits = if_intro Fits s.enhanced (λ e. refl) (λ e. refl)

      udp_server_line-Fits : (sqrt : W → W) → Fits (udp_server_line sqrt s (amount a, amount b))
      unfolding udp_server_line conversions
      udp_server_line-Fits sqrt =
          if_intro Fits (not (eqb_ℤ s.ipg_cnt (pos 0)))
            (λ g.
              if_intro Fits s.enhanced
                (λ e. if_intro Fits (is_unrealistic s) (λ u. refl) (λ u. refl)) (λ e. refl))
            (λ g. if_intro Fits s.enhanced (λ e. refl) (λ e. refl))

      sum_line-Fits : Fits (sum_line s (amount a, amount b))
      unfolding sum_line conversions
      sum_line-Fits =
          if_intro Fits (not s.enhanced)
            (λ e. if_intro Fits (is_server s.udp) (λ u. refl) (λ u. refl))
            (λ e.
              if_intro Fits (is_set s.udp) (λ u. refl)
                (λ u. if_intro Fits (is_client s.tcp_mode) (λ m. refl) (λ m. refl)))

    late_lines-AllFit : AllFit (late_lines s)
    unfolding conversions
    late_lines-AllFit =
        line_if-AllFit (is_set s.udp && (not (is_client s.udp) && ltb_ℤ (pos 0) s.cnt_outof_order))
          _ refl

    sent_lines-AllFit : AllFit (sent_lines s)
    unfolding conversions
    sent_lines-AllFit = line_if-AllFit (s.free == 1 && is_client s.udp) _ refl

    print_stats-AllFit :
        (sqrt : W → W) (printed : Bool) → Ensures (λ x. AllFit x.0) (print_stats sqrt printed s)
    unfolding print_stats
    print_stats-AllFit sqrt printed =
        Ensures-amounts_of (λ (x : List (Line W) × Bool). AllFit x.0) _ _ s.format _
          (λ a b.
            AllFit-append (line_if (not printed) (header_line s)) _
              (line_if-AllFit (not printed) (header_line s) header_line-Fits)
              (
                if_intro Fits (not (is_set s.udp)) (λ q. tcp_line-Fits a b)
                    (λ q.
                      if_intro Fits (is_client s.udp) (λ c. udp_client_line-Fits a b)
                        (λ c. udp_server_line-Fits a b sqrt)),
                AllFit-append (late_lines s) (sent_lines s) late_lines-AllFit sent_lines-AllFit,
              ))

    multi_stats-AllFit : Ensures AllFit (multi_stats s)
    unfolding multi_stats conversions
    multi_stats-AllFit = Ensures-amounts_of AllFit _ _ s.format _ (λ a b. (
      sum_line-Fits a b,
      AllFit-append (line_if (is_server s.udp && ltb_ℤ (pos 0) s.cnt_outof_order) _) _
          (line_if-AllFit (is_server s.udp && ltb_ℤ (pos 0) s.cnt_outof_order) _ refl)
          (line_if-AllFit (s.free == 1 && is_client s.udp) _ refl),
    ))

    csv_stats-Fits : (timestamp : String) → Fits (csv_stats timestamp s)
    unfolding csv_stats conversions
    csv_stats-Fits timestamp = if_intro Fits (is_server s.udp) (λ q. refl) (λ q. refl)

  -- In every line of a transfer report, of a sum and of the comma-separated values, whatever the numbers: each conversion of
  -- the format has an argument of the type that it reads, but for the lines that count the datagrams that came late or
  -- were sent, and for the line of a UDP server in the comma-separated values; in these, if they are printed, a number of
  -- 64 bits is read as an `int`.
  pub print_stats-Fits :
      (s : TransferInfo W) (sqrt : W → W) (printed : Bool) (timestamp : String)
      → Ensures (λ x. AllFit x.0) (server_stats sqrt printed s)
        × Ensures AllFit (multi_stats s)
        × Fits (csv_stats timestamp s)
  unfolding server_stats conversions
  print_stats-Fits s sqrt printed timestamp = (
    Ensures->>= (λ x. AllFit x.0) (λ x. AllFit x.0) (print_stats sqrt printed s) _
        (print_stats-AllFit s sqrt printed) (λ x h. (refl, h)),
    multi_stats-AllFit s,
    csv_stats-Fits s timestamp,
  )
