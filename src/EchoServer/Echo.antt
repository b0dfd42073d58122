-- ===== src/EchoServer/Echo.antt =====
-- cpp_learning_projects/30dayMakeCppServer/day12/src/Connection.cpp, src/Buffer.cpp and client.cpp:
-- the bytes of one connection. What `::read` and `::write` answer is a list; `blocked` is a call
-- that has no answer yet, and `wild` a write from before the array that holds the message. The bytes
-- of an array that `::read` did not fill, and what is printed, are left out. The copy that `send` makes
-- runs over the end of its array: how far is counted, and what it overwrites is left out.
pub mod Reading
pub mod Sending
pub mod RoundTrip
mod Tests
use learn_note.Prelude.{
  ℕ, zero, ◌+◌, ◌-◌, ◌==◌, Bool, true, false, Option, none, some, List, [], ◌∷◌, ◌++◌,
  if◌then◌else◌, ltb, leb, length, take, drop,
}
use learn_note.Muduo.Buffer.{Syscall, done, failed}

-- EINTR and EAGAIN (which is EWOULDBLOCK) on Linux.
abbrev pub interrupted : ℕ
interrupted = 4

abbrev pub again : ℕ
again = 11

unfoldable pub before_nul : List ℕ → List ℕ
before_nul [] = []
before_nul (b ∷ bs) = let rest = before_nul bs in if b == 0 then [] else b ∷ rest

-- `Buffer::append`; a `Buffer` is its string.
unfoldable pub append : List ℕ → List ℕ → List ℕ
unfolding before_nul
append buf bytes = buf ++ before_nul bytes

-- What ends the reading of one event.
pub data Ending : Type 0 where
  drained closed reset : Ending

-- The loop of `echo`: the buffer that it leaves, or none where `::read` still waits.
unfoldable pub read_all : List ℕ → List (Syscall (List ℕ)) → Option (List ℕ × Ending)
unfolding append
read_all buf [] = none
read_all buf (done [] ∷ reads) = some (buf, closed)
read_all buf (done (b ∷ bs) ∷ reads) = read_all (append buf (b ∷ bs)) reads
read_all buf (failed e ∷ reads) =
    let rest = read_all buf reads in
    if e == interrupted
    then rest
    else (if e == again then some (buf, drained) else some (buf, reset))

-- The loop of `send`, with the bytes that the kernel took.
pub data Sent : Type 0 where
  finished blocked wild : List ℕ → Sent

-- `data_left` bytes of the message are left; an error but EAGAIN is taken off them as the -1 that it
-- is.
unfoldable pub send_left : List ℕ → ℕ → List (Syscall ℕ) → List ℕ → Sent
send_left message left [] sent =
    if left == 0
    then finished sent
    else (if ltb (length message) left then wild sent else blocked sent)
send_left message left (done n ∷ writes) sent =
    let from = length message - left in
    let rest = send_left message (left - n) writes (sent ++ take n (drop from message)) in
    if left == 0 then finished sent else (if ltb (length message) left then wild sent else rest)
send_left message left (failed e ∷ writes) sent =
    let rest = send_left message (left + 1) writes sent in
    if left == 0
    then finished sent
    else (if ltb (length message) left
        then wild sent
        else (if e == again then finished sent else rest))

unfoldable pub send : List ℕ → List (Syscall ℕ) → Sent
unfolding send_left
send buffer writes = send_left buffer (length buffer) writes []

-- What an event came to: the buffer after it, the bytes sent, and how many bytes were written behind
-- the array that holds the message.
pub data Echoed : Type 0 where
  waiting : Echoed
  stuck : List ℕ → Echoed
  broken : List ℕ → Echoed
  handled : (buffer sent : List ℕ) (behind : ℕ) → Echoed

-- `strcpy` copies the message up to its first NUL, with a NUL, into an array as long as the buffer.
unfoldable pub overrun : List ℕ → ℕ
unfolding before_nul
overrun buffer = length (before_nul buffer) + 1 - length buffer

-- `readBuffer->clear()` once `send` is back.
unfoldable pub cleared : (behind : ℕ) → Sent → Echoed
cleared behind (finished sent) = handled [] sent behind
cleared behind (blocked sent) = stuck sent
cleared behind (wild sent) = broken sent

unfoldable pub after_reading : Option (List ℕ × Ending) → List (Syscall ℕ) → Echoed
unfolding send cleared overrun
after_reading none writes = waiting
after_reading (some (buffer, drained)) writes = cleared (overrun buffer) (send buffer writes)
after_reading (some (buffer, closed)) writes = handled buffer [] 0
after_reading (some (buffer, reset)) writes = handled buffer [] 0

unfoldable pub echo : List ℕ → List (Syscall (List ℕ)) → List (Syscall ℕ) → Echoed
unfolding read_all after_reading
echo buffer reads writes = after_reading (read_all buffer reads) writes

-- What came before, and what the events behind it came to.
unfoldable pub behind_it : (sent : List ℕ) (behind : ℕ) → Echoed → Echoed
behind_it sent behind waiting = waiting
behind_it sent behind (stuck more) = stuck (sent ++ more)
behind_it sent behind (broken more) = broken (sent ++ more)
behind_it sent behind (handled buffer more far) = handled buffer (sent ++ more) (behind + far)

unfoldable pub then_echo : Echoed → (List ℕ → Echoed) → Echoed
unfolding behind_it
then_echo waiting rest = waiting
then_echo (stuck sent) rest = stuck sent
then_echo (broken sent) rest = broken sent
then_echo (handled buffer sent behind) rest = behind_it sent behind (rest buffer)

-- The callback of the channel, for one event after the other.
unfoldable pub serve : List ℕ → List (List (Syscall (List ℕ)) × List (Syscall ℕ)) → Echoed
unfolding echo then_echo
serve buffer [] = handled buffer [] 0
serve buffer ((reads, writes) ∷ events) =
    then_echo (echo buffer reads writes) (λ left. serve left events)

-- What the client makes of the answer to a line of `size` bytes.
pub data Answer : Type 0 where
  unanswered disconnected : Answer
  printed : List ℕ → Answer

unfoldable pub await : (size already_read : ℕ) → List ℕ → List (Syscall (List ℕ)) → Answer
unfolding append
await size already_read buf [] = unanswered
await size already_read buf (done [] ∷ reads) = disconnected
await size already_read buf (done (b ∷ bs) ∷ reads) =
    let read = already_read + length (b ∷ bs) in
    let rest = await size read (append buf (b ∷ bs)) reads in
    if leb size read then printed (append buf (b ∷ bs)) else rest
await size already_read buf (failed e ∷ reads) =
    let rest = await size already_read buf reads in
    if leb size already_read then printed buf else rest
