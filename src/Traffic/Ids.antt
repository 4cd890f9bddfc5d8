-- ===== src/Traffic/Ids.antt =====
-- The numbers of datagrams between iperf2-code/src/Client.cpp and iperf2-code/src/Server.cpp.
use flexfcapf.Prelude.{
  ℕ, ◌+◌, ◌*◌, ◌/◌, ◌%◌, ◌^◌, ◌<◌, ◌≡◌, ap, sym, ◌∙◌, Bool, true, false, if◌then◌else◌, if_intro,
  arith,
}
use flexfcapf.Prelude.Int.{pos, to_unsigned, as_signed}
use flexfcapf.Prelude.Bits.{has_bit}
use flexfcapf.Settings.{ReportStruct}
use flexfcapf.Traffic.{Datagram, store_id, read_id, is_fin, unsign}

-- The first number that the client does not give to a datagram.
abbrev pub id_limit : Bool → ℕ
id_limit seqno64 = if seqno64 then 2 ^ 63 else 2 ^ 31

pub true_not_false : true ≡ false → ⊥
true_not_false e = ground arith

low_word : (n : ℕ) → n < 2 ^ 31 → n % 2 ^ 32 ≡ n
low_word n h = ground arith

no_sign : (n : ℕ) → n < 2 ^ 31 → has_bit n 31 ≡ false
no_sign n h = ground arith

both_words : (n : ℕ) → n < 2 ^ 63 → n % 2 ^ 64 / 2 ^ 32 * 2 ^ 32 + n % 2 ^ 32 ≡ n
both_words n h = ground arith

as_signed_small : (n : ℕ) → n < 2 ^ 63 → as_signed 64 n ≡ pos n
as_signed_small n h = ground arith

no_sign64 : (n : ℕ) → n < 2 ^ 63 → has_bit (n % 2 ^ 64) 63 ≡ false
no_sign64 n h = ground arith

pub fin_signed : (n : ℕ) → n < 2 ^ 63 → to_unsigned 64 (as_signed 64 (n + 2 ^ 63)) ≡ n + 2 ^ 63
fin_signed n h = ground arith

sign_of : (n : ℕ) → n < 2 ^ 31 → has_bit (n + 2 ^ 31) 31 ≡ true
sign_of n h = ground arith

sign64_of : (n : ℕ) → n < 2 ^ 63 → has_bit (n + 2 ^ 63) 63 ≡ true
sign64_of n h = ground arith

without_sign : (n : ℕ) → n < 2 ^ 31 → (n + 2 ^ 31) % 2 ^ 31 ≡ n
without_sign n h = ground arith

without_sign64 : (n : ℕ) → n < 2 ^ 63 → (n + 2 ^ 63) % 2 ^ 63 ≡ n
without_sign64 n h = ground arith

-- A number with its sign is taken for the end, and the sign is taken off.
pub unsign-sign :
    (seqno64 : Bool) (n : ℕ) (r : ReportStruct)
    → n < id_limit seqno64
    → to_unsigned 64 r.packet_id ≡ n + id_limit seqno64
    → (is_fin seqno64 r ≡ true) × ((unsign seqno64 r).packet_id ≡ pos n)
unfolding unsign is_fin
unsign-sign true n r h e =
    let fin : is_fin true r ≡ true = ap (λ w. has_bit w 63) e ∙ sign64_of n h in
    (
      fin,
      if_intro (λ (t : ReportStruct). t.packet_id ≡ pos n) (is_fin true r)
          (λ _. ap pos (ap (λ w. w % 2 ^ 63) e ∙ without_sign64 n h))
          (λ no. absurd (true_not_false (sym fin ∙ no))),
    )
unsign-sign false n r h e =
    let fin : is_fin false r ≡ true = ap (λ w. has_bit w 31) e ∙ sign_of n h in
    (
      fin,
      if_intro (λ (t : ReportStruct). t.packet_id ≡ pos n) (is_fin false r)
          (λ _. ap pos (ap (λ w. w % 2 ^ 31) e ∙ without_sign n h))
          (λ no. absurd (true_not_false (sym fin ∙ no))),
    )

-- A number below 2 ^ 31, or below 2 ^ 63 with long numbers, that the client stores is the one that the server reads,
-- and it ends nothing.
pub store_id-read_id :
    (seqno64 : Bool) (n : ℕ) (r old : ReportStruct) (b : Datagram)
    → n < id_limit seqno64
    → ((read_id seqno64 (store_id seqno64 (record r { packet_id = pos n }) b) old).packet_id
        ≡ pos n)
      × (is_fin seqno64 (read_id seqno64 (store_id seqno64 (record r { packet_id = pos n }) b) old)
          ≡ false)
unfolding store_id read_id is_fin
store_id-read_id true n r old b h = (
  ap (as_signed 64) (both_words n h) ∙ as_signed_small n h,
  ap (λ z. has_bit (to_unsigned 64 z) 63) (ap (as_signed 64) (both_words n h) ∙ as_signed_small n h)
      ∙ no_sign64 n h,
)
store_id-read_id false n r old b h = (ap pos (low_word n h), ground arith)
