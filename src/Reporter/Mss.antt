-- ===== src/Reporter/Mss.antt =====
-- `PrintMSS` of iperf2-code/src/Reporter.c: the kind of network that a maximum segment size tells of.
pub mod Range
use flexfcapf.Prelude.{Bool, ◌&&◌, not, if◌then◌else◌}
use flexfcapf.Prelude.Int.{ℤ, pos, ◌+ℤ◌, ◌-ℤ◌, ltb_ℤ}

pub data Network : Type 0 where
  ethernet fddi atm hippi minimum unknown_interface : Network

-- What is printed: that there is no segment size, or the MTU and the network.
pub data MssReport : Type 0 where
  unsupported : MssReport
  supported : ℤ → Network → MssReport

-- `checkMSS_MTU`
unfoldable pub check_mss_mtu : ℤ → ℤ → Bool
check_mss_mtu mss mtu = not (ltb_ℤ (mtu -ℤ pos 40) mss) && not (ltb_ℤ mss (mtu -ℤ pos 80))

-- `PrintMSS`, from the segment size of the socket.
unfoldable pub print_mss : ℤ → MssReport
unfolding check_mss_mtu
print_mss mss =
    if not (ltb_ℤ (pos 0) mss)
    then MssReport.unsupported
    else (if check_mss_mtu mss (pos 1500)
        then MssReport.supported (pos 1500) Network.ethernet
        else (if check_mss_mtu mss (pos 4352)
            then MssReport.supported (pos 4352) Network.fddi
            else (if check_mss_mtu mss (pos 9180)
                then MssReport.supported (pos 9180) Network.atm
                else (if check_mss_mtu mss (pos 65280)
                    then MssReport.supported (pos 65280) Network.hippi
                    else (if check_mss_mtu mss (pos 576)
                        then MssReport.supported (pos 576) Network.minimum
                        else MssReport.supported (mss +ℤ pos 40) Network.unknown_interface)))))
