-- ===== src/Traffic/Bytes.antt =====
-- The bytes that `Server::RunTCP` of iperf2-code/src/Server.cpp reports.
use flexfcapf.Prelude.{
  ℕ, ◌+◌, ◌≡◌, refl, ap₂, subst, Bool, true, false, ◌||◌, Option, some, List, [], ◌∷◌,
  if◌then◌else◌, ◌>>=◌, Returns, Returns->>=, arith,
}
use flexfcapf.Settings.{Timeval, ReportStruct}
use flexfcapf.Traffic.{EndTime, is_over, close_report}
use flexfcapf.Traffic.Reports.{is_last, any_end}
use flexfcapf.Traffic.Server.{
  Received, data_of, closed, timed_out, broken, ends_loop, take_tcp, run_tcp,
}

-- The bytes that the reporter counts for a report: none for an empty one and for the last.
abbrev pub counted_one : ReportStruct → ℕ
counted_one p = if is_last p || p.emptyreport then 0 else p.packet_len

abbrev pub counted : List ReportStruct → ℕ
counted [] = 0
counted (p ∷ ps) = counted_one p + counted ps

-- The bytes and the time of an answer.
abbrev pub len_of : Received → ℕ
len_of (data_of len b time) = len
len_of _ = 0

abbrev pub time_of : Received → Timeval
time_of (data_of len b time) = time
time_of (closed time) = time
time_of (timed_out time) = time
time_of (broken time) = time

abbrev pub is_stop : EndTime → Received → Bool
is_stop end a = ends_loop a || is_over end (time_of a)

-- The bytes of the answers that the loop reads.
abbrev pub received : EndTime → List Received → ℕ
received end [] = 0
received end (a ∷ rest) = len_of a + (if is_stop end a then 0 else received end rest)

-- The bytes that are reported again if the time is over at an answer with data: all of them if there are no interval
-- reports, and else those of that answer.
abbrev pub repeated : Bool → EndTime → ℕ → List Received → ℕ
repeated no_interval end total [] = 0
repeated no_interval end total (data_of len b time ∷ rest) =
    if is_over end time
    then (if no_interval then total + len else len)
    else repeated no_interval end (total + len) rest
repeated no_interval end total (closed time ∷ rest) = 0
repeated no_interval end total (broken time ∷ rest) = 0
repeated no_interval end total (timed_out time ∷ rest) =
    if is_over end time then 0 else repeated no_interval end total rest

abbrev pub HasBytes : ℕ → List ReportStruct → Type 0
HasBytes n ps = counted ps ≡ n

split :
    (b : Bool) (n m : ℕ) (x y : Option (List ReportStruct))
    → (b ≡ true → Returns (HasBytes n) x)
    → (b ≡ false → Returns (HasBytes m) y)
    → Returns (HasBytes (if b then n else m)) (if b then x else y)
split true n m x y f g = f refl
split false n m x y f g = g refl

sum_split :
    (b : Bool) (len r a q : ℕ)
    → (if b then len + a else len + (r + q)) ≡ len + (if b then 0 else r) + (if b then a else q)
sum_split true len r a q = omega arith
sum_split false len r a q = omega arith

counted_empty : (p : ReportStruct) → p.emptyreport ≡ true → counted_one p ≡ 0
counted_empty p e = ground arith

pub counted_full :
    (p : ReportStruct) → is_last p ≡ false → p.emptyreport ≡ false → counted_one p ≡ p.packet_len
counted_full p l e = ground arith

-- What an answer's report adds to those that follow.
counts_behind :
    (n m : ℕ) (told : ReportStruct) (o : Option (List ReportStruct))
    → counted_one told ≡ n
    → Returns (HasBytes m) o
    → Returns (HasBytes (n + m)) (o >>= λ reports. some (told ∷ reports))
counts_behind n m told o e h =
    Returns->>= (HasBytes m) (HasBytes (n + m)) o (λ reports. some (told ∷ reports)) h
      (λ ps c. ap₂ (λ a b. a + b) e c)

pub add_zero : (n : ℕ) → n + 0 ≡ n
add_zero n = omega arith

-- The report that is made again.
abbrev again_of : Bool → Timeval → ℕ → ReportStruct → ReportStruct
again_of no_interval stop total told = record told {
  packet_time = stop;
  packet_len = if no_interval then total + told.packet_len else told.packet_len;
}

-- The reports at the end, with data and without.
ends_counted :
    (told again : ReportStruct)
    → is_last told ≡ false
    → is_last again ≡ false
    → (told.emptyreport ≡ false)
    → (again.emptyreport ≡ false)
    → counted (told ∷ again ∷ close_report again ∷ []) ≡ told.packet_len + again.packet_len
unfolding close_report
ends_counted told again l l' e e' =
    let first = counted_full told l e in
    let second = counted_full again l' e' in omega (arith, first, second)

ends_empty :
    (told again : ReportStruct)
    → told.emptyreport ≡ true
    → again.emptyreport ≡ true
    → counted (told ∷ again ∷ close_report again ∷ []) ≡ 0
unfolding close_report
ends_empty told again e e' =
    let first = counted_empty told e in
    let second = counted_empty again e' in omega (arith, first, second)

-- Once the answers have an end or an error the loop of `RunTCP` has come to an end, and the bytes that its reports count
-- are those that it has read and, if it ended by the time at data, those that it reports again.
pub run_tcp-counted :
    (no_interval : Bool) (end : EndTime) (stop : Timeval) (total : ℕ) (answers : List Received)
    (r : ReportStruct)
    → is_last r ≡ false
    → any_end answers ≡ true
    → Returns
        (HasBytes (received end answers + repeated no_interval end total answers))
        (run_tcp no_interval end stop total answers r)
unfolding run_tcp take_tcp close_report
run_tcp-counted no_interval end stop total [] r l e = absurd (ground arith)
run_tcp-counted no_interval end stop total (data_of len b time ∷ rest) r l e =
    let told : ReportStruct = record r {
      emptyreport = false;
      packet_len = len;
      packet_time = time;
    } in
    let sum = if no_interval then total + len else len in
    subst
      (λ n. Returns (HasBytes n) (run_tcp no_interval end stop total (data_of len b time ∷ rest) r))
      (sum_split (is_over end time) len (received end rest) sum
        (repeated no_interval end (total + len) rest))
      (split (is_over end time) _ _ _ _
        (λ over.
          ends_counted told (record told { packet_time = stop; packet_len = sum }) l l refl refl)
        (λ goes.
          counts_behind len _ told _ (counted_full told l refl)
            (run_tcp-counted no_interval end stop (total + len) rest told l e)))
run_tcp-counted no_interval end stop total (closed time ∷ rest) r l e =
    let told : ReportStruct = record r { emptyreport = true; packet_len = 0; packet_time = time } in
    ends_empty told (again_of no_interval stop total told) refl refl
run_tcp-counted no_interval end stop total (broken time ∷ rest) r l e =
    let told : ReportStruct = record r { emptyreport = true; packet_len = 0; packet_time = time } in
    ends_empty told (again_of no_interval stop total told) refl refl
run_tcp-counted no_interval end stop total (timed_out time ∷ rest) r l e =
    let told : ReportStruct = record r { emptyreport = true; packet_len = 0; packet_time = time } in
    subst (λ n. Returns (HasBytes n) (run_tcp no_interval end stop total (timed_out time ∷ rest) r))
      (sum_split (is_over end time) 0 (received end rest) 0 (repeated no_interval end total rest))
      (split (is_over end time) _ _ _ _
        (λ over. ends_empty told (again_of no_interval stop total told) refl refl)
        (λ goes. counts_behind 0 _ told _ (counted_empty told refl) (
          subst
            (λ n.
              Returns (HasBytes (received end rest + repeated no_interval end n rest))
                (run_tcp no_interval end stop (total + 0) rest told))
            (add_zero total) (run_tcp-counted no_interval end stop (total + 0) rest told l e))))
