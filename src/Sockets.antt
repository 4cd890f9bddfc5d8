-- ===== src/Sockets.antt =====
-- iperf2-code/src/sockets.c and iperf2-code/src/tcp_window_size.c. What a system call answers is part of the input:
-- the loops take the answers in their order.
pub mod Whole
use flexfcapf.Prelude.{
  ℕ, zero, suc, ◌+◌, ◌-◌, Bool, true, false, not, Option, none, some, List, [], ◌∷◌, ◌++◌, ◌==◌,
  if◌then◌else◌, ltb, length, take, drop,
}
use flexfcapf.Prelude.Int.{ℤ, pos, negsuc, ltb_ℤ, eqb_ℤ}
use flexfcapf.Prelude.Bits.{set_bit, clear_bit}

-- The values of `errno` that the loops tell apart.
pub data Errno : Type 0 where
  eintr eagain other : Errno

abbrev pub is_eintr : Errno → Bool
is_eintr Errno.eintr = true
is_eintr _ = false

abbrev pub is_eagain : Errno → Bool
is_eagain Errno.eagain = true
is_eagain _ = false

-- The answer of `read` or `recv`: the bytes, none at the end, or -1.
pub data Read : Type 0 where
  got : List ℕ → Read
  failed : Errno → Read

-- The answer of `write`: a positive count, or zero or -1 with what `errno` then holds.
pub data Write : Type 0 where
  wrote : ℕ → Write
  stopped : Errno → Write

-- Where a loop ends: it waits for the next answer, or it returns. `buffer` is what has been transferred.
pub data Outcome : Type 0 where
  waiting : (buffer : List ℕ) → Outcome
  returned : (n : ℕ) → (buffer : List ℕ) → Outcome
  error : (buffer : List ℕ) → Outcome

-- The loop of `readn`; `nleft` bytes of `len` are left.
unfoldable pub readn_loop : List Read → ℕ → ℕ → List ℕ → Outcome
readn_loop answers len zero buffer = Outcome.returned len buffer
readn_loop [] len (suc k) buffer = Outcome.waiting buffer
readn_loop (Read.failed e ∷ answers) len (suc k) buffer =
    let again = readn_loop answers len (suc k) buffer in
    if is_eintr e then again else Outcome.error buffer
readn_loop (Read.got [] ∷ answers) len (suc k) buffer = Outcome.returned (len - suc k) buffer
readn_loop (Read.got (b ∷ bs) ∷ answers) len (suc k) buffer =
    readn_loop answers len (suc k - length (b ∷ bs)) (buffer ++ (b ∷ bs))

-- `readn`
unfoldable pub readn : List Read → ℕ → Outcome
unfolding readn_loop
readn answers len = readn_loop answers len len []

-- The loop of `recvn`
unfoldable pub recvn_loop : List Read → ℕ → ℕ → List ℕ → Outcome
recvn_loop answers len zero buffer = Outcome.returned len buffer
recvn_loop [] len (suc k) buffer = Outcome.waiting buffer
recvn_loop (Read.failed e ∷ answers) len (suc k) buffer =
    if is_eagain e then Outcome.returned (len - suc k) buffer else Outcome.error buffer
recvn_loop (Read.got [] ∷ answers) len (suc k) buffer = Outcome.returned (len - suc k) buffer
recvn_loop (Read.got (b ∷ bs) ∷ answers) len (suc k) buffer =
    recvn_loop answers len (suc k - length (b ∷ bs)) (buffer ++ (b ∷ bs))

-- `recvn`
unfoldable pub recvn : List Read → ℕ → Outcome
unfolding recvn_loop
recvn answers len = recvn_loop answers len len []

-- The loop of `writen`: `rest` are the bytes from `ptr` on.
unfoldable pub writen_loop : List Write → ℕ → List ℕ → List ℕ → Outcome
writen_loop answers len [] buffer = Outcome.returned len buffer
writen_loop [] len (b ∷ rest) buffer = Outcome.waiting buffer
writen_loop (Write.stopped e ∷ answers) len (b ∷ rest) buffer =
    let again = writen_loop answers len (b ∷ rest) buffer in
    if is_eintr e then again else Outcome.error buffer
writen_loop (Write.wrote n ∷ answers) len (b ∷ rest) buffer =
    writen_loop answers len (drop n (b ∷ rest)) (buffer ++ take n (b ∷ rest))

-- `writen`
unfoldable pub writen : List Write → List ℕ → Outcome
unfolding writen_loop
writen answers buf = writen_loop answers (length buf) buf []

-- `setsock_blocking`: `get` is the answer of `fcntl( F_GETFL )` and `set_flags` that of `F_SETFL`. The result is what
-- was asked to be set, if anything, and the value returned. `nonblock` is the place of O_NONBLOCK.
unfoldable pub setsock_blocking : ℕ → ℤ → ℤ → (ℕ → ℤ) → Bool → Option ℕ × Bool
setsock_blocking nonblock fd (negsuc n) set_flags blocking = (none, false)
setsock_blocking nonblock (negsuc m) (pos flags) set_flags blocking = (none, false)
setsock_blocking nonblock (pos m) (pos flags) set_flags blocking =
    let flags' = if blocking then clear_bit flags nonblock else set_bit flags nonblock in
    (some flags', eqb_ℤ (set_flags flags') (pos 0))

-- What a call printed on `stderr`.
pub data Warning : Type 0 where
  mss_fail mss_notset getsockopt_fail : Warning

-- `setsock_tcp_mss`: the call of `setsockopt`, whether it succeeded, and the answer of `getsockopt` with the value
-- after it.
unfoldable pub setsock_tcp_mss : Bool → Bool → ℤ → ℤ → Option ℤ × List Warning
setsock_tcp_mss set_ok get_ok new_mss mss =
    if ltb_ℤ (pos 0) mss
    then (
      some mss,
      (if set_ok
          then (if get_ok then [] else Warning.getsockopt_fail ∷ [])
            ++ (if eqb_ℤ new_mss mss then [] else Warning.mss_notset ∷ [])
          else Warning.mss_fail ∷ []),
    )
    else (none, [])

-- `getsock_tcp_mss`: `answer` is what `getsockopt` stored, if it stored anything.
unfoldable pub getsock_tcp_mss : Bool → Option ℤ → ℤ × List Warning
getsock_tcp_mss ok answer =
    (elim answer [ none ↦ pos 0 | some v ↦ v ], (if ok then [] else Warning.getsockopt_fail ∷ []))

-- The buffers of a socket.
pub data Buffer : Type 0 where
  sndbuf rcvbuf : Buffer

abbrev pub buffer_of : Bool → Buffer
buffer_of true = Buffer.sndbuf
buffer_of false = Buffer.rcvbuf

-- `setsock_tcp_windowsize`: the call of `setsockopt`, if any, and the result, from that of the call.
unfoldable pub setsock_tcp_windowsize : (Buffer → ℤ → ℤ) → ℤ → Bool → Option (Buffer × ℤ) × ℤ
setsock_tcp_windowsize setsockopt win send =
    if ltb_ℤ (pos 0) win
    then (
      some (buffer_of send, win),
      (if ltb_ℤ (setsockopt (buffer_of send) win) (pos 0)
          then setsockopt (buffer_of send) win
          else pos 0),
    )
    else (none, pos 0)

-- `getsock_tcp_windowsize`: `getsockopt` gives its result and the value stored.
unfoldable pub getsock_tcp_windowsize : (Buffer → ℤ × ℤ) → Bool → ℤ
getsock_tcp_windowsize getsockopt send =
    let (rc, win) = getsockopt (buffer_of send) in if ltb_ℤ rc (pos 0) then rc else win
