-- ===== src/Reporter/Multi.antt =====
-- `reporter_handle_multiple_reports` of iperf2-code/src/Reporter.c: the reports of the streams that run
-- in parallel are summed in slots, one for each interval that is under way.
pub mod Slots
use flexfcapf.Prelude.{
  ℕ, zero, suc, ◌+◌, ◌%◌, Bool, not, ◌&&◌, Option, none, some, List, [], ◌∷◌, ◌==◌, ltb,
  if◌then◌else◌, ◌>>=◌, get_elem?, set,
}
use flexfcapf.Prelude.Int.{ℤ, pos, negsuc, ◌+ℤ◌}
use flexfcapf.Prelude.Double.{Double, of_int, ltb_w, eqb_w}
use flexfcapf.Settings.{ReportMode, is_server, is_client, Timeval, TransferInfo, ReporterData}
use flexfcapf.Reporter.Packet.{add_len}

-- What is printed: `statistics_reports`, `multiple_reports` and `PrintMSS` with their arguments.
pub data Output (W : Type 0) : Type 0 where
  transfer : ReportMode → TransferInfo W → Output W
  multiple : ReportMode → TransferInfo W → Output W
  mss : ℤ → Output W

-- `struct MultiHeader`; `slots` are the elements of `data` that were allocated.
pub record MultiHeader (W : Type 0) : Type 0 where
  pub group : ℤ
  pub threads : ℕ
  pub start_time : Timeval
  pub report : ReporterData W
  pub slots : List (TransferInfo W)

-- `char` holds a number below 128 as itself, and any other as a negative one.
abbrev pub char_inc : ℕ → ℕ
char_inc n = (n + 1) % 256

abbrev pub char_is : ℕ → ℕ → Bool
char_is c n = ltb c 128 && c == n

-- The element at which a loop over the first so many slots stops: the first that passes, or else the last. No result is the
-- null `current` of a loop over none, or a read behind the slots that there are.
unfoldable pub stop_index :
    {W : Type 0} → (TransferInfo W → Bool) → ℕ → List (TransferInfo W) → Option ℕ
stop_index test zero xs = none
stop_index test (suc n) [] = none
stop_index test (suc zero) (x ∷ xs) = some 0
stop_index test (suc (suc n)) (x ∷ xs) =
    let later = stop_index test (suc n) xs >>= λ i. some (suc i) in if test x then some 0 else later

unfoldable pub add_bins : List ℕ → List ℕ → List ℕ
add_bins (a ∷ as') (b ∷ bs) = (a + b) ∷ add_bins as' bs
add_bins as' _ = as'

module _ {W : Type 0} where
  -- The first report of an interval opens a slot.
  unfoldable pub open_slot : TransferInfo W → TransferInfo W → TransferInfo W
  open_slot current stats = record current {
    cnt_datagrams = stats.cnt_datagrams;
    cnt_error = stats.cnt_error;
    cnt_outof_order = stats.cnt_outof_order;
    total_len = stats.total_len;
    format = stats.format;
    enhanced = stats.enhanced;
    end_time = stats.end_time;
    jitter = stats.jitter;
    start_time = stats.start_time;
    ipg_cnt = stats.ipg_cnt;
    ipg_sum = stats.ipg_sum;
    udp = stats.udp;
    tcp_mode = stats.tcp_mode;
    tcp =
        if is_server stats.tcp_mode
        then record current.tcp {
          read = record current.tcp.read {
            cnt_read = stats.tcp.read.cnt_read;
            bins = stats.tcp.read.bins;
          };
        }
        else (if is_client stats.tcp_mode
            then record current.tcp {
              write = record current.tcp.write {
                write_err = stats.tcp.write.write_err;
                write_cnt = stats.tcp.write.write_cnt;
                tcp_retry = stats.tcp.write.tcp_retry;
              };
            }
            else current.tcp);
    free = 1;
  }

  -- A later report of the interval is added, up to the count in `free`.
  unfoldable pub add_slot : ⦃d : Double W⦄ → TransferInfo W → TransferInfo W → TransferInfo W
  unfolding add_bins
  add_slot ⦃d⦄ current stats = record current {
    cnt_datagrams = current.cnt_datagrams +ℤ stats.cnt_datagrams;
    cnt_error = current.cnt_error +ℤ stats.cnt_error;
    cnt_outof_order = current.cnt_outof_order +ℤ stats.cnt_outof_order;
    total_len = add_len current.total_len stats.total_len;
    ipg_cnt = current.ipg_cnt +ℤ stats.ipg_cnt;
    tcp =
        if is_server stats.tcp_mode
        then record current.tcp {
          read = record current.tcp.read {
            cnt_read = current.tcp.read.cnt_read + stats.tcp.read.cnt_read;
            bins = add_bins current.tcp.read.bins stats.tcp.read.bins;
          };
        }
        else (if is_client stats.tcp_mode
            then record current.tcp {
              write = record current.tcp.write {
                write_err = current.tcp.write.write_err + stats.tcp.write.write_err;
                write_cnt = current.tcp.write.write_cnt + stats.tcp.write.write_cnt;
                tcp_retry = current.tcp.write.tcp_retry +ℤ stats.tcp.write.tcp_retry;
              };
            }
            else current.tcp);
    end_time = if ltb_w current.end_time stats.end_time then stats.end_time else current.end_time;
    jitter = if ltb_w current.jitter stats.jitter then stats.jitter else current.jitter;
    free = char_inc current.free;
  }

abbrev pub force_flag : Bool → ℕ
force_flag force = if force then 1 else 0

module _ {W : Type 0} ⦃d : Double W⦄ where
  -- The last report of an interval prints the sum and frees its slot.
  unfoldable pub close_slot :
      MultiHeader W → ℕ → TransferInfo W → Bool → MultiHeader W × List (Output W)
  close_slot m i current force =
      let total = record current {
        free = force_flag force;
        reserved_delay = m.report.info.reserved_delay;
      } in
      (
        record m {
          report = record m.report { info = total };
          slots =
              set m.slots i
                (record current { free = force_flag force; start_time = of_int (negsuc 0) });
        },
        multiple m.report.mode total ∷ [],
      )

  -- `if ( reporthdr->threads > 1 )`, for a value of the static `num_multi_slots`, which is one for all headers.
  unfoldable pub sum_report :
      ℕ → MultiHeader W → TransferInfo W → Bool → Option (MultiHeader W × List (Output W))
  sum_report num m stats force =
      stop_index (λ x. eqb_w x.start_time stats.start_time) num m.slots >>= λ i.
      get_elem? m.slots i >>= λ current.
      if not (eqb_w current.start_time stats.start_time)
      then (stop_index (λ x. ltb_w x.start_time (of_int (pos 0))) num m.slots >>= λ j.
          get_elem? m.slots j >>= λ fresh.
          some (record m { slots = set m.slots j (open_slot fresh stats) }, []))
      else (let merged = add_slot current stats in
          if char_is merged.free m.threads
          then some (close_slot m i merged force)
          else some (record m { slots = set m.slots i merged }, []))

  -- `reporter_handle_multiple_reports`
  unfoldable pub handle_multiple_reports :
      ℕ
      → Option (MultiHeader W)
      → TransferInfo W
      → Bool
      → Option (Option (MultiHeader W) × List (Output W))
  handle_multiple_reports num none stats force = some (none, [])
  handle_multiple_reports num (some m) stats force =
      if ltb 1 m.threads
      then (do (m', out) ← sum_report num m stats force; some (some m', out))
      else some (some m, [])
