-- ===== src/Reporter/Mss/Range.antt =====
-- The MTU that is printed leaves room for the headers.
use flexfcapf.Prelude.{◌≡◌, true, not, if_intro, arith}
use flexfcapf.Prelude.Int.{ℤ, pos, ◌+ℤ◌, ltb_ℤ, ◌≤ℤ◌, +ℤ_parts, -ℤ_parts}
use flexfcapf.Reporter.Mss.{Network, MssReport, check_mss_mtu, print_mss}

-- The MTU is from 40 to 80 bytes more than the segment size.
abbrev pub HasRoom : ℤ → MssReport → Type 0
HasRoom mss MssReport.unsupported = mss ≤ℤ pos 0
HasRoom mss (MssReport.supported n network) = (mss +ℤ pos 40 ≤ℤ n) × (n ≤ℤ mss +ℤ pos 80)

check_mss_mtu-HasRoom :
    (mss n : ℤ) (network : Network)
    → check_mss_mtu mss n ≡ true
    → HasRoom mss (MssReport.supported n network)
unfolding check_mss_mtu
check_mss_mtu-HasRoom mss n network h =
    let a = +ℤ_parts mss (pos 40) in
    let b = +ℤ_parts mss (pos 80) in
    let c = -ℤ_parts n (pos 40) in let e = -ℤ_parts n (pos 80) in (ground arith, ground arith)

unknown-HasRoom :
    (mss : ℤ) → HasRoom mss (MssReport.supported (mss +ℤ pos 40) Network.unknown_interface)
unknown-HasRoom mss =
    let a = +ℤ_parts mss (pos 40) in let b = +ℤ_parts mss (pos 80) in (ground arith, ground arith)

-- Whatever the segment size: either it is at most zero and no MTU is printed, or the MTU is from 40 to 80 bytes
-- more.
pub print_mss-HasRoom : (mss : ℤ) → HasRoom mss (print_mss mss)
unfolding print_mss
print_mss-HasRoom mss =
    if_intro (HasRoom mss) (not (ltb_ℤ (pos 0) mss)) (λ h. ground arith)
      (λ _.
        if_intro (HasRoom mss) (check_mss_mtu mss (pos 1500))
          (check_mss_mtu-HasRoom mss _ Network.ethernet)
          (λ _.
            if_intro (HasRoom mss) (check_mss_mtu mss (pos 4352))
              (check_mss_mtu-HasRoom mss _ Network.fddi)
              (λ _.
                if_intro (HasRoom mss) (check_mss_mtu mss (pos 9180))
                  (check_mss_mtu-HasRoom mss _ Network.atm)
                  (λ _.
                    if_intro (HasRoom mss) (check_mss_mtu mss (pos 65280))
                      (check_mss_mtu-HasRoom mss _ Network.hippi)
                      (λ _.
                        if_intro (HasRoom mss) (check_mss_mtu mss (pos 576))
                          (check_mss_mtu-HasRoom mss _ Network.minimum)
                          (λ _. unknown-HasRoom mss))))))
