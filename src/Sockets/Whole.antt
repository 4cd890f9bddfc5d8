-- ===== src/Sockets/Whole.antt =====
-- What the loops transfer: a prefix of the data, and all of it unless the other side ends it.
use flexfcapf.Prelude.{
  ℕ, zero, suc, ◌+◌, ◌-◌, ◌≤◌, ◌<◌, ◌≡◌, refl, sym, ap, ◌∙◌, true, List, [], ◌∷◌, ◌++◌, if_intro,
  length, length-append, take, drop, take-append-drop, length-drop, arith,
}
use mathlib.Core.List.{append_assoc, append-nil}
use flexfcapf.Sockets.{
  Read, Write, Outcome, is_eintr, is_eagain, readn_loop, readn, recvn_loop, recvn, writen_loop,
  writen,
}

-- No answer is larger than what was asked for.
abbrev pub Fits : List Read → ℕ → Type 0
Fits [] n = Unit
Fits (Read.got bs ∷ answers) n = (length bs ≤ n) × Fits answers (n - length bs)
Fits (Read.failed e ∷ answers) n = Fits answers n

-- The number returned is that of the bytes in the buffer.
abbrev pub CountsBuffer : Outcome → Type 0
CountsBuffer (Outcome.returned n buffer) = n ≡ length buffer
CountsBuffer _ = Unit

readn_loop-count :
    (answers : List Read) (len k : ℕ) (buffer : List ℕ)
    → Fits answers k
    → length buffer + k ≡ len
    → CountsBuffer (readn_loop answers len k buffer)
unfolding readn_loop
readn_loop-count answers len zero buffer f e = omega (arith, e)
readn_loop-count [] len (suc k) buffer f e = tt
readn_loop-count (Read.failed x ∷ answers) len (suc k) buffer f e =
    if_intro CountsBuffer (is_eintr x) (λ _. readn_loop-count answers len (suc k) buffer f e)
      (λ _. tt)
readn_loop-count (Read.got [] ∷ answers) len (suc k) buffer f e = omega (arith, e)
readn_loop-count (Read.got (b ∷ bs) ∷ answers) len (suc k) buffer f e =
    readn_loop-count answers len (suc k - length (b ∷ bs)) (buffer ++ (b ∷ bs)) f.1
      (omega (arith, e, f.0, length-append buffer (b ∷ bs)))

recvn_loop-count :
    (answers : List Read) (len k : ℕ) (buffer : List ℕ)
    → Fits answers k
    → length buffer + k ≡ len
    → CountsBuffer (recvn_loop answers len k buffer)
unfolding recvn_loop
recvn_loop-count answers len zero buffer f e = omega (arith, e)
recvn_loop-count [] len (suc k) buffer f e = tt
recvn_loop-count (Read.failed x ∷ answers) len (suc k) buffer f e =
    if_intro CountsBuffer (is_eagain x) (λ _. omega (arith, e)) (λ _. tt)
recvn_loop-count (Read.got [] ∷ answers) len (suc k) buffer f e = omega (arith, e)
recvn_loop-count (Read.got (b ∷ bs) ∷ answers) len (suc k) buffer f e =
    recvn_loop-count answers len (suc k - length (b ∷ bs)) (buffer ++ (b ∷ bs)) f.1
      (omega (arith, e, f.0, length-append buffer (b ∷ bs)))

-- If no answer is larger than what was asked for, the number that `readn` or `recvn` returns is that of the
-- bytes it has stored.
pub read-count :
    (answers : List Read) (len : ℕ)
    → Fits answers len
    → CountsBuffer (readn answers len) × CountsBuffer (recvn answers len)
unfolding readn recvn
read-count answers len f = (
  readn_loop-count answers len len [] f (omega arith),
  recvn_loop-count answers len len [] f (omega arith),
)

-- Every write passes some bytes on, and the others were only interrupted.
abbrev pub Goes : List Write → Type 0
Goes [] = Unit
Goes (Write.wrote n ∷ answers) = (0 < n) × Goes answers
Goes (Write.stopped x ∷ answers) = (is_eintr x ≡ true) × Goes answers

-- The number of writes that pass bytes on.
abbrev pub writes : List Write → ℕ
writes [] = 0
writes (Write.wrote n ∷ answers) = writes answers + 1
writes (Write.stopped x ∷ answers) = writes answers

-- All of the data has been passed on, in its order.
abbrev pub IsWhole : List ℕ → Outcome → Type 0
IsWhole buf (Outcome.returned n buffer) = (n ≡ length buf) × (buffer ≡ buf)
IsWhole buf _ = ⊥

-- The same, if the loop has come to its end.
abbrev pub IsWholeOrOpen : List ℕ → Outcome → Type 0
IsWholeOrOpen buf (Outcome.returned n buffer) = (n ≡ length buf) × (buffer ≡ buf)
IsWholeOrOpen buf _ = Unit

next_rest :
    (n b : ℕ) (rest buffer : List ℕ) {buf : List ℕ}
    → buffer ++ (b ∷ rest) ≡ buf
    → (buffer ++ take n (b ∷ rest)) ++ drop n (b ∷ rest) ≡ buf
next_rest n b rest buffer e =
    append_assoc buffer (take n (b ∷ rest)) (drop n (b ∷ rest))
    ∙ ap (λ x. buffer ++ x) (take-append-drop n (b ∷ rest))
    ∙ e

writen_loop-whole :
    (answers : List Write) (buf rest buffer : List ℕ)
    → buffer ++ rest ≡ buf
    → IsWholeOrOpen buf (writen_loop answers (length buf) rest buffer)
unfolding writen_loop
writen_loop-whole answers buf [] buffer e = (refl, sym (append-nil buffer) ∙ e)
writen_loop-whole [] buf (b ∷ rest) buffer e = tt
writen_loop-whole (Write.stopped x ∷ answers) buf (b ∷ rest) buffer e =
    if_intro (IsWholeOrOpen buf) (is_eintr x)
      (λ _. writen_loop-whole answers buf (b ∷ rest) buffer e) (λ _. tt)
writen_loop-whole (Write.wrote n ∷ answers) buf (b ∷ rest) buffer e =
    writen_loop-whole answers buf (drop n (b ∷ rest)) (buffer ++ take n (b ∷ rest))
      (next_rest n b rest buffer e)

-- `writen` returns only when it has passed on all of the data in its order, and then returns its length.
pub writen-whole : (answers : List Write) (buf : List ℕ) → IsWholeOrOpen buf (writen answers buf)
unfolding writen
writen-whole answers buf = writen_loop-whole answers buf buf [] refl

writen_loop-ends :
    (answers : List Write) (buf rest buffer : List ℕ)
    → buffer ++ rest ≡ buf
    → Goes answers
    → length rest ≤ writes answers
    → IsWhole buf (writen_loop answers (length buf) rest buffer)
unfolding writen_loop
writen_loop-ends answers buf [] buffer e g h = (refl, sym (append-nil buffer) ∙ e)
writen_loop-ends [] buf (b ∷ rest) buffer e g h = absurd (omega (arith, h))
writen_loop-ends (Write.stopped x ∷ answers) buf (b ∷ rest) buffer e g h =
    if_intro (IsWhole buf) (is_eintr x)
      (λ _. writen_loop-ends answers buf (b ∷ rest) buffer e g.1 h) (λ f. cc)
writen_loop-ends (Write.wrote n ∷ answers) buf (b ∷ rest) buffer e g h =
    writen_loop-ends answers buf (drop n (b ∷ rest)) (buffer ++ take n (b ∷ rest))
      (next_rest n b rest buffer e) g.1 (omega (arith, length-drop n (b ∷ rest), g.0, h))

-- If every write passes something on or was interrupted, and there are as many of the first kind as
-- there are bytes, `writen` returns, with all of the data passed on in its order.
pub writen-ends :
    (answers : List Write) (buf : List ℕ)
    → Goes answers
    → length buf ≤ writes answers
    → IsWhole buf (writen answers buf)
unfolding writen
writen-ends answers buf g h = writen_loop-ends answers buf buf [] refl g h
