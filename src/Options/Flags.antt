-- ===== src/Options/Flags.antt =====
-- Which reports the argument of the option -x leaves, in iperf2-code/src/Settings.cpp.
use flexfcapf.Prelude.{
  Option, none, some, if_intro, ℕ, ◌-◌, ◌≡◌, Bool, false, not, ◌&&◌, ◌||◌, [], ◌∷◌, ◌==◌, arith,
}
use flexfcapf.Prelude.Bits.{set_bit}
use flexfcapf.Settings.{
  is_settings_report, is_connection_report, is_data_report, is_server_report, is_multiple_report,
}
use flexfcapf.Numbers.{Text}
use flexfcapf.Options.Texts.{exclude, exclude_one, excluded_flag}

abbrev is_letter : ℕ → ℕ → Bool
is_letter c x = x == c || x == c - 32

-- The text holds the letter, in either case.
abbrev pub mentions : ℕ → Text → Bool
mentions c [] = false
mentions c (x ∷ xs) = is_letter c x || mentions c xs

-- A flag's test is turned off by its own flag among those of the reports.
abbrev Follows : ℕ → (ℕ → Bool) → Type 0
Follows k test =
    (flags : ℕ)
    → (test (set_bit flags 15) ≡ test flags && not (k == 15))
      × (test (set_bit flags 16) ≡ test flags && not (k == 16))
      × (test (set_bit flags 17) ≡ test flags && not (k == 17))
      × (test (set_bit flags 18) ≡ test flags && not (k == 18))
      × (test (set_bit flags 19) ≡ test flags && not (k == 19))

settings-Follows : Follows 15 is_settings_report
settings-Follows flags = (ground arith, ground arith, ground arith, ground arith, ground arith)

connection-Follows : Follows 16 is_connection_report
connection-Follows flags = (ground arith, ground arith, ground arith, ground arith, ground arith)

data-Follows : Follows 17 is_data_report
data-Follows flags = (ground arith, ground arith, ground arith, ground arith, ground arith)

server-Follows : Follows 18 is_server_report
server-Follows flags = (ground arith, ground arith, ground arith, ground arith, ground arith)

multiple-Follows : Follows 19 is_multiple_report
multiple-Follows flags = (ground arith, ground arith, ground arith, ground arith, ground arith)

abbrev is_chosen : ℕ → Option ℕ → Bool
is_chosen k none = false
is_chosen k (some j) = k == j

-- What holds of the flags of the reports and of none holds of the flag of a character.
pub flag_cases :
    (x : ℕ) (P : Option ℕ → Type 0)
    → P none
    → P (some 15)
    → P (some 16)
    → P (some 17)
    → P (some 18)
    → P (some 19)
    → P (excluded_flag x)
unfolding excluded_flag
flag_cases x P n s c d v m =
    if_intro P (is_letter b's' x) (λ e. s)
      (λ e.
        if_intro P (is_letter b'c' x) (λ e. c)
          (λ e.
            if_intro P (is_letter b'd' x) (λ e. d)
              (λ e.
                if_intro P (is_letter b'v' x) (λ e. v)
                  (λ e. if_intro P (is_letter b'm' x) (λ e. m) (λ e. n)))))

-- One character.
one-Follows :
    (k : ℕ) (test : ℕ → Bool)
    → Follows k test
    → (x flags : ℕ)
    → test (exclude_one (excluded_flag x) flags) ≡ test flags && not (is_chosen k (excluded_flag x))
unfolding exclude_one
one-Follows k test h x flags =
    let (h15, h16, h17, h18, h19) = h flags in
    flag_cases x (λ o. test (exclude_one o flags) ≡ test flags && not (is_chosen k o))
      (ground arith) h15 h16 h17 h18 h19

-- The letter that stands for a flag.
abbrev StandsFor : ℕ → ℕ → Type 0
StandsFor c k = (x : ℕ) → is_chosen k (excluded_flag x) ≡ is_letter c x

settings-StandsFor : StandsFor b's' 15
unfolding excluded_flag
settings-StandsFor x = ground arith

connection-StandsFor : StandsFor b'c' 16
unfolding excluded_flag
connection-StandsFor x = ground arith

data-StandsFor : StandsFor b'd' 17
unfolding excluded_flag
data-StandsFor x = ground arith

server-StandsFor : StandsFor b'v' 18
unfolding excluded_flag
server-StandsFor x = ground arith

multiple-StandsFor : StandsFor b'm' 19
unfolding excluded_flag
multiple-StandsFor x = ground arith

exclude-Follows :
    (c k : ℕ) (test : ℕ → Bool)
    → StandsFor c k
    → Follows k test
    → (arg : Text) (flags : ℕ) → test (exclude arg flags) ≡ test flags && not (mentions c arg)
unfolding exclude
exclude-Follows c k test r h [] flags = ground arith
exclude-Follows c k test r h (x ∷ xs) flags =
    let here = one-Follows k test h x flags in
    let there = exclude-Follows c k test r h xs (exclude_one (excluded_flag x) flags) in
    ground (arith, here, there, r x)

-- The argument of -x turns off exactly the reports whose letters it holds in either case: s, c, d, v and m for the
-- reports of the settings, of the connection, of the data, of the server and of the sums.
pub exclude-reports :
    (arg : Text) (flags : ℕ)
    → (is_settings_report (exclude arg flags) ≡ is_settings_report flags && not (mentions b's' arg))
      × (is_connection_report (exclude arg flags)
          ≡ is_connection_report flags && not (mentions b'c' arg))
      × (is_data_report (exclude arg flags) ≡ is_data_report flags && not (mentions b'd' arg))
      × (is_server_report (exclude arg flags) ≡ is_server_report flags && not (mentions b'v' arg))
      × (is_multiple_report (exclude arg flags)
          ≡ is_multiple_report flags && not (mentions b'm' arg))
exclude-reports arg flags = (
  exclude-Follows b's' 15 is_settings_report settings-StandsFor settings-Follows arg flags,
  exclude-Follows b'c' 16 is_connection_report connection-StandsFor connection-Follows arg flags,
  exclude-Follows b'd' 17 is_data_report data-StandsFor data-Follows arg flags,
  exclude-Follows b'v' 18 is_server_report server-StandsFor server-Follows arg flags,
  exclude-Follows b'm' 19 is_multiple_report multiple-StandsFor multiple-Follows arg flags,
)
