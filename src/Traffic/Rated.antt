-- ===== src/Traffic/Rated.antt =====
-- `Client::RunRateLimitedTCP` of iperf2-code/src/Client.cpp: the loop of a TCP client whose rate is limited by tokens.
pub mod Bytes
use flexfcapf.Prelude.{
  ℕ, ◌+◌, Bool, true, false, not, ◌&&◌, ◌||◌, Option, none, some, List, [], ◌∷◌, ◌==◌,
  if◌then◌else◌, ◌>>=◌,
}
use flexfcapf.Prelude.Int.{ℤ, pos}
use flexfcapf.Prelude.Double.{Double, of_int, add_w, sub_w, mul_w, div_w, ltb_w}
use flexfcapf.Settings.{Timeval, ReportStruct}
use flexfcapf.Traffic.Client.{Round, bytes_of, is_error, is_failed, left_amount, finish_tcp}

-- A round that begins at a time in seconds.
pub record RatedRound (W : Type 0) : Type 0 where
  pub now : W
  pub round : Round

-- The report after a write of `n` bytes.
abbrev pub report_write : Bool → Round → ReportStruct → ReportStruct
report_write no_interval round r = record r {
  errwrite = is_error round.written;
  packet_time = if no_interval then r.packet_time else round.time;
  packet_len = if no_interval then r.packet_len else bytes_of round.written;
}

module _ {W : Type 0} ⦃d : Double W⦄ where
  -- `// Add tokens per the loop time`, of bytes.
  unfoldable pub add_tokens : W → W → W → W → W
  add_tokens rate before now tokens =
      add_w tokens (mul_w (sub_w now before) (div_w rate (of_int (pos 8))))

  -- The loop and what follows it, as `run_client_tcp`. There is a write only if there are tokens.
  unfoldable pub run_rate_limited_tcp :
      Bool
      → Bool
      → Timeval
      → W
      → W
      → W
      → ℕ
      → ℕ
      → List (RatedRound W)
      → ReportStruct
      → Option (List ReportStruct)
  unfolding add_tokens finish_tcp
  run_rate_limited_tcp no_interval time_mode stop rate before tokens amount total [] r = none
  run_rate_limited_tcp no_interval time_mode stop rate before tokens amount total (x ∷ rest) r =
      let round = x.round in
      let filled = add_tokens rate before x.now tokens in
      let writes = not (ltb_w filled (of_int (pos 0))) in
      let n = if writes then bytes_of round.written else 0 in
      let told = if writes then report_write no_interval round r else r in
      let left = if writes then sub_w filled (of_int (pos n)) else filled in
      let amount' = left_amount time_mode amount n in
      let ends = round.interrupted || not time_mode && (amount' == 0 || not round.can_read) in
      let later =
        run_rate_limited_tcp no_interval time_mode stop rate x.now left amount' (total + n) rest
          told in
      let reports : Option (List ReportStruct) =
        if ends then some (finish_tcp no_interval stop (total + n) told) else later in
      if writes && is_failed round.written
      then some (finish_tcp no_interval stop total (record r { errwrite = true }))
      else if writes && not no_interval
      then (reports >>= λ ps. some (told ∷ ps))
      else reports
