-- ===== src/Muduo/Poller/Polling.antt =====
-- What one `poll` hands to the loop.
use learn_note.Prelude.{
  ℕ, ◌≤◌, ◌<◌, ◌==◌, ◌≡◌, refl, ap, ◌∙◌, List, [], ◌∷◌, map, arith, length, if◌then◌else◌,
}
use learn_note.Muduo.Buffer.{Syscall, done, failed}
use learn_note.Muduo.Channel.{Channel, Flags}
use learn_note.Muduo.Poller.{Poller, put, fill_active, poll}

abbrev pub delivered : Syscall (List (ℕ × Flags)) → List (ℕ × Flags)
delivered (done es) = es
delivered (failed e) = []

-- The last event of a channel in the array, or what it had before.
abbrev pub last_event : ℕ → Flags → List (ℕ × Flags) → Flags
last_event q old [] = old
last_event q old ((p, revents) ∷ es) = last_event q (if p == q then revents else old) es

fill_active-active :
    (ch : ℕ → Channel) (es : List (ℕ × Flags)) → (fill_active ch es).1 ≡ map (λ e. e.0) es
unfolding fill_active
fill_active-active ch [] = refl
fill_active-active ch ((p, revents) ∷ es) =
    ap (◌∷◌ p) (fill_active-active (put ch p (record (ch p) { revents = revents })) es)

fill_active-revents :
    (ch : ℕ → Channel) (es : List (ℕ × Flags)) (q : ℕ)
    → ((fill_active ch es).0 q).revents ≡ last_event q (ch q).revents es
unfolding fill_active
fill_active-revents ch [] q = refl
fill_active-revents ch ((p, revents) ∷ es) q =
    fill_active-revents (put ch p (record (ch p) { revents = revents })) es q
    ∙ ap (λ f. last_event q f es) here
  where
    here :
        (put ch p (record (ch p) { revents = revents }) q).revents
        ≡ (if p == q then revents else (ch q).revents)
    here = ground arith

-- The active channels are those that the kernel named, in its order, each with the last events named
-- for it, and the array has room to spare at the next call: it doubles where it was full.
pub poll_lem :
    (s : Poller) (r : Syscall (List (ℕ × Flags)))
    → 0 < s.capacity
    → length (delivered r) ≤ s.capacity
    → let (t, active) = poll s r in
      (active ≡ map (λ e. e.0) (delivered r))
      × ((q : ℕ) → (t.channel q).revents ≡ last_event q (s.channel q).revents (delivered r))
      × (length (delivered r) < t.capacity)
      × (s.capacity ≤ t.capacity)
unfolding poll
poll_lem s (failed e) h k = (refl, λ q. refl, h, omega arith)
poll_lem s (done []) h k = (refl, λ q. refl, h, omega arith)
poll_lem s (done (e ∷ es)) h k = (
  fill_active-active s.channel (e ∷ es),
  fill_active-revents s.channel (e ∷ es),
  ground arith,
  ground arith,
)
