-- ===== src/Net/Udp/Auto.antt =====
-- `udp_auto_bind` finds the first free ephemeral port.
use acharya_os.Base.{
  ℕ, zero, suc, ◌+◌, ◌-◌, ◌≤◌, ◌<◌, ◌≡◌, ◌≢◌, arith, Option, some, none, false, Option-cases,
  Bool-cases, inl, inr, ◌==◌, if◌then◌else◌, u16,
}
use acharya_os.Net.Udp.{Udp, bound, auto_loop, auto_bind, find_socket_index, alloc_socket_slot}
use acharya_os.Net.Udp.Ports.{IsValid, bind-new, bind-taken}

-- What a success leaves.
abbrev pub auto_bound : ℕ → ℕ → ℕ → Udp → Option ℕ × Udp
auto_bound slot port cb udp = (
  some slot,
  record (bound slot port cb udp) { next_ephemeral = if port == 65535 then 49152 else port + 1 },
)

module _ (slot cb : ℕ) (udp : Udp) (v : IsValid udp)
    (room : alloc_socket_slot udp ≡ some slot) where
  auto_loop-first :
      (k left p : ℕ)
      → 0 < p
      → k < left
      → p + left ≤ 65536
      → find_socket_index (p + k) udp ≡ none
      → ((e : ℕ) → e < k → find_socket_index (p + e) udp ≢ none)
      → auto_loop left p cb udp ≡ auto_bound slot (p + k) cb udp
  unfolding auto_loop
  auto_loop-first k zero p pos lt top free taken = absurd (omega arith)
  auto_loop-first zero (suc left) p pos lt top free taken =
      let nz : (p == 0) ≡ false = ground arith in
      let here : p + 0 ≡ p = omega arith in
      let new = bind-new p cb udp v slot room (omega arith) (rw here at free) in
      elim (Bool-cases (p == 65535)) [
        | inl last ↦ rw (here, nz, new, last)
        | inr more ↦ let next : u16 (p + 1) ≡ p + 1 = ground arith in rw (here, nz, new, more, next)
      ]
  auto_loop-first (suc k) (suc left) p pos lt top free taken =
      let nz : (p == 0) ≡ false = ground arith in
      let more : (p == 65535) ≡ false = ground arith in
      let shift : (e : ℕ) → p + 1 + e ≡ p + suc e = λ e. omega arith in
      let rest =
        auto_loop-first k left (p + 1) (omega arith) (omega arith) (omega arith) (rw (shift k) free)
          (λ e l. rw (shift e) (taken (suc e) (omega arith))) in
      let here : p + 0 ≡ p = omega arith in
      elim (Option-cases (find_socket_index p udp)) [
        | inl e ↦ absurd (taken 0 (omega arith) (rw here e))
        | inr (i, e) ↦ rw (nz, bind-taken p cb udp v i e, more, ← shift k) rest
      ]

-- With a slot free, `udp_auto_bind` takes the first port from the next ephemeral one on that no
-- socket has, up to 65535, fills the first free slot with it, and goes on behind it the next time,
-- at 49152 after 65535.
pub auto_bind_lem :
    (slot cb k : ℕ) (udp : Udp)
    → IsValid udp
    → alloc_socket_slot udp ≡ some slot
    → udp.next_ephemeral + k ≤ 65535
    → find_socket_index (udp.next_ephemeral + k) udp ≡ none
    → ((e : ℕ) → e < k → find_socket_index (udp.next_ephemeral + e) udp ≢ none)
    → auto_bind cb udp ≡ auto_bound slot (udp.next_ephemeral + k) cb udp
unfolding auto_bind
auto_bind_lem slot cb k udp v room top free taken =
    auto_loop-first slot cb udp v room k (65536 - udp.next_ephemeral) udp.next_ephemeral
      (omega (arith, v.ephemeral)) (omega arith) (omega (arith, v.ephemeral)) free taken
