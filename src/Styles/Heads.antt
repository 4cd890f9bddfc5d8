-- ===== src/Styles/Heads.antt =====
-- The names of the columns in iperf2-code/src/ReportDefault.c, which `header_printed` is for.
use Prim.Native.String.{String}
use flexfcapf.Prelude.{
  ℕ, ◌+◌, ◌≡◌, refl, Bool, true, false, not, ◌&&◌, ◌||◌, Option, some, List, [], ◌∷◌, ◌++◌, ◌>>=◌,
  if_intro, Ensures, ◌==◌, ap₂, ◌∙◌, Ensures->>=, Ensures-mono, ap, if◌then◌else◌, arith,
}
use flexfcapf.Prelude.Int.{pos, eqb_ℤ, ltb_ℤ}
use flexfcapf.Prelude.Double.{Double}
use flexfcapf.Settings.{is_set, is_server, is_client, TransferInfo}
use flexfcapf.Styles.{amount, int, print, server_reporting, Format, Line}
use flexfcapf.Styles.Default.{
  header_line, tcp_line, udp_client_line, udp_server_line, line_if, late_lines, sent_lines,
  print_stats, server_stats, multi_stats, sum_line, Amounts, is_unrealistic,
}
use flexfcapf.Styles.Texts.{Ensures-amounts_of}

abbrev pub is_head : Format → Bool
is_head Format.bw_header = true
is_head Format.jitter_loss_header = true
is_head Format.read_header = true
is_head Format.write_header = true
is_head Format.pps_header = true
is_head Format.jitter_header = true
is_head _ = false

-- How many lines name the columns.
abbrev pub heads : {W : Type 0} → List (Line W) → ℕ
heads [] = 0
heads (l ∷ ls) = (if is_head l.format then 1 else 0) + heads ls

-- The first line does.
abbrev pub begins : {W : Type 0} → List (Line W) → Bool
begins [] = false
begins (l ∷ ls) = is_head l.format

-- The line that says that the server's report follows.
abbrev pub is_announcement : Format → Bool
is_announcement Format.server_reporting = true
is_announcement _ = false

-- The first line names the columns, or the second one behind such a line.
abbrev pub leads : {W : Type 0} → List (Line W) → Bool
leads [] = false
leads (l ∷ []) = is_head l.format
leads (l ∷ m ∷ ls) = is_head l.format || is_announcement l.format && is_head m.format

-- What is printed in the default style.
pub data Call (W : Type 0) : Type 0 where
  of_transfer of_server of_sum : TransferInfo W → Call W

abbrev pub has_columns : {W : Type 0} → Call W → Bool
has_columns (of_sum s) = false
has_columns _ = true

used : (b : Bool) (n : ℕ) → b ≡ true → ◌≡◌ {A = ℕ} (if b then 0 else n) 0
used b n h = ground arith

either : (a b : Bool) → b ≡ true → a || b ≡ true
either a b h = ground arith

named : (a : Bool) → a ≡ true → a || false ≡ true
named a h = ground arith

left : (a b : Bool) → a ≡ true → a || b ≡ true
left a b h = ground arith

right : (a b c : Bool) → b ≡ true → c ≡ true → a || b && c ≡ true
right a b c h k = ground arith

zero_plus : (n : ℕ) → 0 + n ≡ n
zero_plus n = omega arith

either_zero : (b : Bool) → ◌≡◌ {A = ℕ} 0 (if b then 0 else 0)
either_zero b = ground arith

one : (a : Bool) → a ≡ true → ◌≡◌ {A = ℕ} (if a then 1 else 0) 1
one a h = ground arith

module _ {W : Type 0} where
  heads-append : (xs ys : List (Line W)) → heads (xs ++ ys) ≡ heads xs + heads ys
  heads-append [] ys = omega arith
  heads-append (x ∷ xs) ys = omega (arith, heads-append xs ys)

  heads-line_if : (test : Bool) (l : Line W) → is_head l.format ≡ false → heads (line_if test l) ≡ 0
  heads-line_if test l h = ground arith

  no_head :
      (l : Line W) (ls : List (Line W))
      → is_head l.format ≡ false
      → heads ls ≡ 0
      → heads (l ∷ ls) ≡ 0
  no_head l ls h k = ground arith

  begins-leads : (xs : List (Line W)) → begins xs ≡ true → leads xs ≡ true
  begins-leads [] h = h
  begins-leads (x ∷ []) h = h
  begins-leads (x ∷ y ∷ ys) h = left (is_head x.format) _ h

  announces :
      (l : Line W) (xs : List (Line W))
      → is_announcement l.format ≡ true
      → begins xs ≡ true
      → leads (l ∷ xs) ≡ true
  announces l [] a h = absurd (ground arith)
  announces l (x ∷ xs) a h = right (is_head l.format) _ _ a h

  head_first :
      (printed : Bool) (l m : Line W) (ls : List (Line W))
      → is_head l.format ≡ true
      → is_head m.format ≡ false
      → heads ls ≡ 0
      → (heads (line_if (not printed) l ++ (m ∷ ls)) ≡ (if printed then 0 else 1))
        × (begins (line_if (not printed) l ++ (m ∷ ls)) ≡ not printed)
  head_first true l m ls h k z = ground arith
  head_first false l m ls h k z = ground arith

module _ {W : Type 0} ⦃d : Double W⦄ where
  -- A call of `reporter_printstats`, of `reporter_serverstats` or of `reporter_multistats`.
  unfoldable pub print_call : (W → W) → Bool → Call W → Option (List (Line W) × Bool)
  print_call sqrt printed (of_transfer s) = print_stats sqrt printed s
  print_call sqrt printed (of_server s) = server_stats sqrt printed s
  print_call sqrt printed (of_sum s) = multi_stats s >>= λ ls. some (ls, printed)

  -- Several calls, one after the other.
  unfoldable pub print_all : (W → W) → Bool → List (Call W) → Option (List (Line W) × Bool)
  unfolding print_call
  print_all sqrt printed [] = some ([], printed)
  print_all sqrt printed (c ∷ rest) =
      print_call sqrt printed c >>= λ x. print_all sqrt x.1 rest >>= λ y. some (x.0 ++ y.0, y.1)

  abbrev IsHead : Bool → Line W → Type 0
  IsHead b l = is_head l.format ≡ b

  header_line-IsHead : (s : TransferInfo W) → IsHead true (header_line s)
  unfolding header_line
  header_line-IsHead s =
      if_intro (IsHead true) (not (is_set s.udp))
        (λ q.
          if_intro (IsHead true) (not s.enhanced) (λ e. refl)
            (λ e. if_intro (IsHead true) (is_server s.tcp_mode) (λ m. refl) (λ m. refl)))
        (λ q.
          if_intro (IsHead true) (is_client s.udp)
            (λ c. if_intro (IsHead true) s.enhanced (λ e. refl) (λ e. refl))
            (λ c. if_intro (IsHead true) s.enhanced (λ e. refl) (λ e. refl)))

  line-IsHead :
      (s : TransferInfo W) (a b : W × ℕ × String) (sqrt : W → W)
      → IsHead false (
          if not (is_set s.udp)
          then tcp_line s (amount a, amount b)
          else if is_client s.udp
          then udp_client_line s (amount a, amount b)
          else udp_server_line sqrt s (amount a, amount b))
  unfolding tcp_line udp_client_line udp_server_line
  line-IsHead s a b sqrt =
      if_intro (IsHead false) (not (is_set s.udp))
        (λ q.
          if_intro (IsHead false) (not s.enhanced) (λ e. refl)
            (λ e. if_intro (IsHead false) (is_server s.tcp_mode) (λ m. refl) (λ m. refl)))
        (λ q.
          if_intro (IsHead false) (is_client s.udp)
            (λ c. if_intro (IsHead false) s.enhanced (λ e. refl) (λ e. refl))
            (λ c.
              if_intro (IsHead false) (not (eqb_ℤ s.ipg_cnt (pos 0)))
                (λ g.
                  if_intro (IsHead false) s.enhanced
                    (λ e. if_intro (IsHead false) (is_unrealistic s) (λ u. refl) (λ u. refl))
                    (λ e. refl))
                (λ g. if_intro (IsHead false) s.enhanced (λ e. refl) (λ e. refl))))

  tail-heads : (s : TransferInfo W) → heads (late_lines s ++ sent_lines s) ≡ 0
  tail-heads s =
      heads-append (late_lines s) (sent_lines s)
      ∙ ap₂ (λ m n. m + n)
          (heads-line_if
            (is_set s.udp && (not (is_client s.udp) && ltb_ℤ (pos 0) s.cnt_outof_order)) _ refl)
          (heads-line_if (s.free == 1 && is_client s.udp) _ refl)

  print_stats-heads :
      (sqrt : W → W) (printed : Bool) (s : TransferInfo W)
      → Ensures
          (λ x.
            (heads x.0 ≡ (if printed then 0 else 1)) × (begins x.0 ≡ not printed) × (x.1 ≡ true))
          (print_stats sqrt printed s)
  unfolding print_stats
  print_stats-heads sqrt printed s = Ensures-amounts_of _ _ _ s.format _ (λ a b.
      let (h, k) =
        head_first printed (header_line s) _ (late_lines s ++ sent_lines s) (header_line-IsHead s)
          (line-IsHead s a b sqrt) (tail-heads s) in
      (h, k, refl))

  sum_line-IsHead : (s : TransferInfo W) (a : Amounts W) → IsHead false (sum_line s a)
  unfolding sum_line
  sum_line-IsHead s a =
      if_intro (IsHead false) (not s.enhanced)
        (λ e. if_intro (IsHead false) (is_server s.udp) (λ u. refl) (λ u. refl))
        (λ e.
          if_intro (IsHead false) (is_set s.udp) (λ u. refl)
            (λ u. if_intro (IsHead false) (is_client s.tcp_mode) (λ m. refl) (λ m. refl)))

  multi_stats-heads : (s : TransferInfo W) → Ensures (λ ls. heads ls ≡ 0) (multi_stats s)
  unfolding multi_stats
  multi_stats-heads s = Ensures-amounts_of _ _ _ s.format _ (λ a b.
      no_head (sum_line s (amount a, amount b)) _ (sum_line-IsHead s (amount a, amount b)) (
        heads-append (line_if (is_server s.udp && ltb_ℤ (pos 0) s.cnt_outof_order) _)
          (line_if (s.free == 1 && is_client s.udp) _)
        ∙ ap₂ (λ m n. m + n)
            (heads-line_if (is_server s.udp && ltb_ℤ (pos 0) s.cnt_outof_order) _ refl)
            (heads-line_if (s.free == 1 && is_client s.udp) _ refl)))

  -- What a call leaves, from what had been printed.
  record Names (printed : Bool) (c : Call W) (x : List (Line W) × Bool) : Type 0 where
    once : heads x.0 ≡ (if printed then 0 else if has_columns c then 1 else 0)
    first : printed ≡ false → has_columns c ≡ true → leads x.0 ≡ true
    then_printed : x.1 ≡ has_columns c || printed

  print_call-Names :
      (sqrt : W → W) (printed : Bool) (c : Call W)
      → Ensures (Names printed c) (print_call sqrt printed c)
  unfolding print_call server_stats
  print_call-Names sqrt printed (of_transfer s) =
      Ensures-mono _ _ (print_stats sqrt printed s) (print_stats-heads sqrt printed s) (λ x h.
        record { once = h.0; first = λ p n. begins-leads x.0 (h.1 ∙ ap not p); then_printed = h.2 })
  print_call-Names sqrt printed (of_server s) =
      Ensures->>= _ (Names printed (of_server s)) (print_stats sqrt printed s) _
        (print_stats-heads sqrt printed s)
        (λ x h. record {
          once = zero_plus (heads x.0) ∙ h.0 ∙ refl;
          first = λ p n.
              announces (print server_reporting (int s.transfer_id ∷ [])) x.0 refl (h.1 ∙ ap not p);
          then_printed = h.2;
        })
  print_call-Names sqrt printed (of_sum s) =
      Ensures->>= _ (Names printed (of_sum s)) (multi_stats s) _ (multi_stats-heads s) (λ x h.
        record {
          once = h ∙ either_zero printed;
          first = λ p n. absurd (ground arith);
          then_printed = refl;
        })

  no_more :
      (sqrt : W → W) (printed : Bool) (rest : List (Call W))
      → printed ≡ true
      → Ensures (λ y. heads y.0 ≡ 0) (print_all sqrt printed rest)
  unfolding print_all
  no_more sqrt printed [] p = refl
  no_more sqrt printed (c ∷ rest) p =
      Ensures->>= (Names printed c) (λ y. heads y.0 ≡ 0) (print_call sqrt printed c) _
        (print_call-Names sqrt printed c)
        (λ x h.
          Ensures->>= (λ y. heads y.0 ≡ 0) (λ y. heads y.0 ≡ 0) (print_all sqrt x.1 rest) _
            (no_more sqrt x.1 rest (h.then_printed ∙ either (has_columns c) printed p))
            (λ y k. heads-append x.0 y.0 ∙ ap₂ (λ m n. m + n) (h.once ∙ used printed _ p) k))

  leads-append : (xs ys : List (Line W)) → leads xs ≡ true → leads (xs ++ ys) ≡ true
  leads-append [] ys h = absurd (ground arith)
  leads-append (x ∷ []) [] h = h
  leads-append (x ∷ []) (y ∷ ys) h = left (is_head x.format) _ h
  leads-append (x ∷ z ∷ xs) ys h = h

  -- Whatever is reported in the default style by the functions for transfers, for the server's report and for sums, in calls
  -- one after the other of which the first one is not for a sum: exactly one line names the columns, and it is the first one
  -- or stands right behind the line that says that the server's report follows.
  pub print_all-heads :
      (sqrt : W → W) (c : Call W) (rest : List (Call W))
      → has_columns c ≡ true
      → Ensures (λ x. (heads x.0 ≡ 1) × (leads x.0 ≡ true)) (print_all sqrt false (c ∷ rest))
  unfolding print_all
  print_all-heads sqrt c rest n =
      Ensures->>= (Names false c) (λ x. (heads x.0 ≡ 1) × (leads x.0 ≡ true))
        (print_call sqrt false c) _ (print_call-Names sqrt false c)
        (λ x h.
          Ensures->>= (λ y. heads y.0 ≡ 0) (λ y. (heads y.0 ≡ 1) × (leads y.0 ≡ true))
            (print_all sqrt x.1 rest) _
            (no_more sqrt x.1 rest (h.then_printed ∙ named (has_columns c) n))
            (λ y k. (
              heads-append x.0 y.0 ∙ ap₂ (λ m n. m + n) (h.once ∙ one (has_columns c) n) k,
              leads-append x.0 y.0 (h.first refl n),
            )))
