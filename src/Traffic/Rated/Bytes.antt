-- ===== src/Traffic/Rated/Bytes.antt =====
-- The bytes that `Client::RunRateLimitedTCP` of iperf2-code/src/Client.cpp reports.
use flexfcapf.Prelude.{
  ℕ, ◌+◌, ◌≡◌, refl, sym, subst, ◌∙◌, Bool, true, false, not, ◌&&◌, ◌||◌, Option, some, List, [],
  ◌∷◌, ◌==◌, if◌then◌else◌, ◌>>=◌, Returns, Returns-mono, arith,
}
use flexfcapf.Prelude.Int.{pos}
use flexfcapf.Prelude.Double.{Double, of_int, sub_w, ltb_w}
use flexfcapf.Settings.{Timeval, ReportStruct}
use flexfcapf.Traffic.Ids.{true_not_false}
use flexfcapf.Traffic.Reports.{is_last}
use flexfcapf.Traffic.Bytes.{HasBytes, add_zero, counted_one, counted_full}
use flexfcapf.Traffic.Client.{Round, bytes_of, is_failed, left_amount}
use flexfcapf.Traffic.Sent.{failed_bytes, step_whole, step_parts, finish_tcp-counted}
use flexfcapf.Traffic.Rated.{RatedRound, report_write, add_tokens, run_rate_limited_tcp}

-- What a round without a write adds.
step_idle :
    (e : Bool) (t w : ℕ) (fin : List ReportStruct) (later : Option (List ReportStruct))
    → HasBytes t fin
    → (e ≡ false → Returns (HasBytes (t + w)) later)
    → Returns (HasBytes (t + (0 + (if e then 0 else w)))) (if e then some fin else later)
step_idle true t w fin later c h = omega (arith, c)
step_idle false t w fin later c h =
    Returns-mono (HasBytes (t + w)) (HasBytes (t + (0 + w))) later (h refl)
      (λ ps k. omega (arith, k))

-- One round, by whether there is a write and by whether there are interval reports.
step_rated :
    (writes no_interval f e : Bool) (total n w : ℕ) (told : ReportStruct)
    (fin1 fin2 : List ReportStruct) (later : Option (List ReportStruct))
    → (f ≡ true → n ≡ 0)
    → (writes ≡ true → no_interval ≡ false → counted_one told ≡ n)
    → HasBytes (if no_interval then total else 0) fin1
    → HasBytes (if no_interval then total + (if writes then n else 0) else 0) fin2
    → (writes && f || e ≡ false
        → Returns
            (HasBytes ((if no_interval then total + (if writes then n else 0) else 0) + w))
            later)
    → Returns
        (HasBytes (
          (if no_interval then total else 0)
          + ((if writes then n else 0) + (if writes && f || e then 0 else w))))
        (if writes && f
          then some fin1
          else if writes && not no_interval
          then ((if e then some fin2 else later) >>= λ ps. some (told ∷ ps))
          else if e
          then some fin2
          else later)
step_rated true true f e total n w told fin1 fin2 later z o c d h =
    step_whole f e total n w fin1 fin2 later c z d h
step_rated true false f e total n w told fin1 fin2 later z o c d h =
    step_parts f e n w told fin1 fin2 later c z (o refl refl) d h
step_rated false true f e total n w told fin1 fin2 later z o c d h =
    step_idle e total w fin2 later (d ∙ add_zero total)
      (λ q. subst (λ t. Returns (HasBytes (t + w)) later) (add_zero total) (h q))
step_rated false false f e total n w told fin1 fin2 later z o c d h = step_idle e 0 w fin2 later d h

told_keeps :
    (b : Bool) (x y : ReportStruct)
    → (is_last x ≡ false) × (x.emptyreport ≡ false)
    → (is_last y ≡ false) × (y.emptyreport ≡ false)
    → (is_last (if b then x else y) ≡ false) × ((if b then x else y).emptyreport ≡ false)
told_keeps true x y h k = h
told_keeps false x y h k = k

told_counts :
    (writes no_interval : Bool) (round : Round) (r : ReportStruct)
    → is_last r ≡ false
    → r.emptyreport ≡ false
    → writes ≡ true
    → no_interval ≡ false
    → counted_one (if writes then report_write no_interval round r else r) ≡ bytes_of round.written
told_counts true true round r l e go ne = absurd (true_not_false ne)
told_counts true false round r l e go ne = counted_full (report_write false round r) l e
told_counts false no_interval round r l e go ne = absurd (true_not_false (sym go))

-- A round ends the loop.
abbrev pub ends_rated : Bool → Bool → ℕ → Round → Bool
ends_rated time_mode writes amount round =
    writes && is_failed round.written
    || (round.interrupted
        || not time_mode
          && (left_amount time_mode amount (if writes then bytes_of round.written else 0) == 0
              || not round.can_read))

module _ {W : Type 0} ⦃d : Double W⦄ where
  -- Whether there are tokens, and how many are left after the round.
  abbrev pub has_tokens : W → W → W → W → Bool
  has_tokens rate before tokens now =
      not (ltb_w (add_tokens rate before now tokens) (of_int (pos 0)))

  abbrev pub tokens_left : W → W → W → RatedRound W → W
  tokens_left rate before tokens x =
      let filled = add_tokens rate before x.now tokens in
      if has_tokens rate before tokens x.now
      then sub_w filled (
          of_int
            (pos (if has_tokens rate before tokens x.now then bytes_of x.round.written else 0)))
      else filled

  -- The bytes that are written up to the end of the loop.
  abbrev pub written_rated : Bool → W → W → W → ℕ → List (RatedRound W) → ℕ
  written_rated time_mode rate before tokens amount [] = 0
  written_rated time_mode rate before tokens amount (x ∷ rest) =
      let writes = has_tokens rate before tokens x.now in
      let n = if writes then bytes_of x.round.written else 0 in
      n
      + (if ends_rated time_mode writes amount x.round
          then 0
          else written_rated time_mode rate x.now (tokens_left rate before tokens x)
              (left_amount time_mode amount n) rest)

  abbrev pub stops_rated : Bool → W → W → W → ℕ → List (RatedRound W) → Bool
  stops_rated time_mode rate before tokens amount [] = false
  stops_rated time_mode rate before tokens amount (x ∷ rest) =
      let writes = has_tokens rate before tokens x.now in
      let n = if writes then bytes_of x.round.written else 0 in
      ends_rated time_mode writes amount x.round
      || stops_rated time_mode rate x.now (tokens_left rate before tokens x)
          (left_amount time_mode amount n) rest

  -- With a round that ends it the loop comes to its end, and its reports count the bytes that it has written, with interval
  -- reports and without.
  pub run_rate_limited_tcp-counted :
      (no_interval time_mode : Bool) (stop : Timeval) (rate before tokens : W) (amount total : ℕ)
      → (rounds : List (RatedRound W)) (r : ReportStruct) → is_last r ≡ false
      → r.emptyreport ≡ false
      → stops_rated time_mode rate before tokens amount rounds ≡ true
      → Returns
          (HasBytes (
            (if no_interval then total else 0)
            + written_rated time_mode rate before tokens amount rounds))
          (run_rate_limited_tcp no_interval time_mode stop rate before tokens amount total rounds r)
  unfolding run_rate_limited_tcp
  run_rate_limited_tcp-counted no_interval time_mode stop rate before tokens amount total [] r l e
        s =
      absurd (ground arith)
  run_rate_limited_tcp-counted no_interval time_mode stop rate before tokens amount total (x ∷ rest)
        r l e s =
      let writes = has_tokens rate before tokens x.now in
      let n = if writes then bytes_of x.round.written else 0 in
      let told = if writes then report_write no_interval x.round r else r in
      let (l', e') = told_keeps writes (report_write no_interval x.round r) r (l, e) (l, e) in
      step_rated writes no_interval (is_failed x.round.written) _ total (bytes_of x.round.written) _
        told _ _ _ (failed_bytes x.round.written)
        (λ go ne. told_counts writes no_interval x.round r l e go ne)
        (finish_tcp-counted no_interval stop total (record r { errwrite = true }) l e)
        (finish_tcp-counted no_interval stop (total + n) told l' e')
        (λ goes.
          run_rate_limited_tcp-counted no_interval time_mode stop rate x.now
            (tokens_left rate before tokens x) (left_amount time_mode amount n) (total + n) rest
            told l' e' (ground (arith, s, goes)))
