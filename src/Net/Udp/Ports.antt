-- ===== src/Net/Udp/Ports.antt =====
-- No two UDP sockets share a port.
use native.Mathlib.Decide.{ℕ_discrete, dec_lt}
use acharya_os.Base.{
  ℕ, zero, suc, ◌+◌, ◌-◌, ◌≤◌, ◌<◌, ◌≡◌, ◌≢◌, ◌⊎◌, refl, ap, sym, ◌∙◌, arith, List, [], ◌∷◌, true,
  false, not, ◌==◌, Option, some, none, Option-cases, Bool-cases, inl, inr, leb, length, get_or,
  modify, length-modify, get_or-modify_self, get_or-modify_ne, find_index-some, find_index-none,
  get_or-replicate, u16,
}
use acharya_os.Net.Udp.{
  Udp, Socket, boot, blank, is_used, has_port, socket_at, init, bind, bound, auto_loop, auto_bind,
  unbind, find_socket_index, alloc_socket_slot,
}

pub record IsValid (udp : Udp) : Type 0 where
  pub slots : length udp.sockets ≡ 8
  pub on : udp.ready ≢ 0
  pub ephemeral : (49152 ≤ udp.next_ephemeral) × (udp.next_ephemeral ≤ 65535)
  pub port : (i : ℕ) → is_used (socket_at udp i) ≡ true → (socket_at udp i).local_port ≢ 0
  pub distinct :
      (i j : ℕ)
      → is_used (socket_at udp i) ≡ true
      → is_used (socket_at udp j) ≡ true
      → i ≢ j
      → (socket_at udp i).local_port ≢ (socket_at udp j).local_port

-- The port is in use.
abbrev pub Taken : ℕ → Udp → Type 0
Taken p udp = (i : ℕ) × (is_used (socket_at udp i) ≡ true) × ((socket_at udp i).local_port ≡ p)

free_port :
    (p : ℕ) (udp : Udp) (j : ℕ)
    → find_socket_index p udp ≡ none
    → is_used (socket_at udp j) ≡ true
    → (socket_at udp j).local_port ≢ p
free_port p udp j e used = elim (dec_lt j (length udp.sockets)) [
  | yes lt ↦ let no = find_index-none (has_port p) blank udp.sockets j e lt in ground arith
  | no out ↦ let off = beyond udp.sockets j (omega arith) in cc
]
  where
    beyond : (xs : List Socket) (k : ℕ) → length xs ≤ k → is_used (get_or xs k blank) ≡ false
    beyond [] k h = refl
    beyond (x ∷ xs) zero h = absurd (omega arith)
    beyond (x ∷ xs) (suc k) h = beyond xs k (omega arith)

module _ (slot p cb : ℕ) (udp : Udp) (v : IsValid udp) (lt : slot < length udp.sockets) where
  abbrev new_socket : Socket
  new_socket = record { used = 1; local_port = p; callback = cb }

  pub bound_self : socket_at (bound slot p cb udp) slot ≡ new_socket
  bound_self = get_or-modify_self slot (λ s. new_socket) udp.sockets blank lt

  pub bound_other : (j : ℕ) → slot ≢ j → socket_at (bound slot p cb udp) j ≡ socket_at udp j
  bound_other j ne = get_or-modify_ne slot j (λ s. new_socket) udp.sockets blank ne

  bound-IsValid : p ≢ 0 → find_socket_index p udp ≡ none → IsValid (bound slot p cb udp)
  bound-IsValid nz free = record {
    slots = length-modify slot (λ s. new_socket) udp.sockets ∙ v.slots;
    on = v.on;
    ephemeral = v.ephemeral;
    port = λ i u. elim (ℕ_discrete slot i) [
      | yes e ↦ rw (← e, bound_self) nz
      | no ne ↦ rw (bound_other i ne) (v.port i (rw (bound_other i ne) at u))
    ];
    distinct = λ i j u w ne. elim (ℕ_discrete slot i) [
      | yes e ↦
          let other : slot ≢ j = λ c. ne (sym e ∙ c) in
          rw (← e, bound_self, bound_other j other)
            (λ c. free_port p udp j free (rw (bound_other j other) at w) (sym c))
      | no ni ↦ elim (ℕ_discrete slot j) [
        | yes e ↦
            rw (← e, bound_self, bound_other i ni)
              (free_port p udp i free (rw (bound_other i ni) at u))
        | no nj ↦
            rw (bound_other i ni, bound_other j nj)
              (v.distinct i j (rw (bound_other i ni) at u) (rw (bound_other j nj) at w) ne)
      ]
    ];
  }

module _ (p cb : ℕ) (udp : Udp) (v : IsValid udp) where
  ready : (udp.ready == 0) ≡ false
  ready = ground (arith, v.on)

  -- Binding fails, or it fills a free slot with a new port.
  bind_cases :
      (bind p cb udp ≡ (none, udp))
      ⊎ ((slot : ℕ) × (alloc_socket_slot udp ≡ some slot)
          × (p ≢ 0)
          × (find_socket_index p udp ≡ none)
          × (bind p cb udp ≡ (some slot, bound slot p cb udp)))
  unfolding bind
  bind_cases = elim (Bool-cases (p == 0)) [
    | inl z ↦ inl (rw (ready, z))
    | inr nz ↦ elim (Option-cases (find_socket_index p udp)) [
      | inr (i, e) ↦ inl (rw (ready, nz, e))
      | inl e ↦ elim (Option-cases (alloc_socket_slot udp)) [
        | inl f ↦ inl (rw (ready, nz, e, f))
        | inr (slot, f) ↦ inr (slot, f, ground arith, e, rw (ready, nz, e, f))
      ]
    ]
  ]

  pub bind-new :
      (slot : ℕ)
      → alloc_socket_slot udp ≡ some slot
      → p ≢ 0
      → find_socket_index p udp ≡ none
      → bind p cb udp ≡ (some slot, bound slot p cb udp)
  unfolding bind
  bind-new slot f nz e = let z : (p == 0) ≡ false = ground arith in rw (ready, z, e, f)

  pub bind-taken : (i : ℕ) → find_socket_index p udp ≡ some i → bind p cb udp ≡ (none, udp)
  unfolding bind
  bind-taken i e = elim (Bool-cases (p == 0)) [ inl z ↦ rw (ready, z) | inr nz ↦ rw (ready, nz, e) ]

  pub bind-IsValid : IsValid (bind p cb udp).1
  bind-IsValid = elim bind_cases [
    | inl e ↦ rw e v
    | inr (slot, f, nz, free, e) ↦ rw e (
        bound-IsValid slot p cb udp v
          (find_index-some (λ s. not (is_used s)) blank udp.sockets slot f).0 nz free)
  ]

  moved-IsValid :
      (next : ℕ)
      → 49152 ≤ next
      → next ≤ 65535
      → IsValid (record (bind p cb udp).1 { next_ephemeral = next })
  moved-IsValid next lo hi =
      let b = bind-IsValid in
      record {
        slots = b.slots;
        on = b.on;
        ephemeral = (lo, hi);
        port = b.port;
        distinct = b.distinct;
      }

auto_loop-IsValid :
    (left p cb : ℕ) (udp : Udp)
    → 49152 ≤ p
    → p + left ≤ 65536
    → IsValid udp
    → IsValid (auto_loop left p cb udp).1
unfolding auto_loop
auto_loop-IsValid zero p cb udp lo hi v = v
auto_loop-IsValid (suc left) p cb udp lo hi v =
    let nz : (p == 0) ≡ false = ground arith in
    elim (Option-cases (bind p cb udp).0) [
      | inr (id, e) ↦ elim (Bool-cases (p == 65535)) [
        | inl last ↦ rw (nz, e, last) (moved-IsValid p cb udp v 49152 (omega arith) (omega arith))
        | inr more ↦
            rw (nz, e, more) (moved-IsValid p cb udp v (u16 (p + 1)) (ground arith) (omega arith))
      ]
      | inl e ↦ elim (Bool-cases (p == 65535)) [
        | inl last ↦ rw (nz, e, last) v
        | inr more ↦
            rw (nz, e, more) (auto_loop-IsValid left (p + 1) cb udp (omega arith) (omega arith) v)
      ]
    ]

module _ (id : ℕ) (udp : Udp) (v : IsValid udp) (lt : id < length udp.sockets) where
  abbrev cleared : Udp
  cleared = record udp { sockets = modify id (λ s. blank) udp.sockets }

  cleared-other : (j : ℕ) → id ≢ j → socket_at cleared j ≡ socket_at udp j
  cleared-other j ne = get_or-modify_ne id j (λ s. blank) udp.sockets blank ne

  -- A socket still in use is another one.
  in_use : (j : ℕ) → is_used (socket_at cleared j) ≡ true → id ≢ j
  in_use j u e =
      let gone : socket_at cleared id ≡ blank =
        get_or-modify_self id (λ s. blank) udp.sockets blank lt in
      let off : is_used (socket_at cleared j) ≡ false = rw (← e, gone) in cc

  cleared-IsValid : IsValid cleared
  cleared-IsValid = record {
    slots = length-modify id (λ s. blank) udp.sockets ∙ v.slots;
    on = v.on;
    ephemeral = v.ephemeral;
    port = λ i u. let e = cleared-other i (in_use i u) in rw e (v.port i (rw e at u));
    distinct = λ i j u w ne.
        let e = cleared-other i (in_use i u) in
        let f = cleared-other j (in_use j w) in
        rw (e, f) (v.distinct i j (rw e at u) (rw f at w) ne);
  }

unbind-IsValid : (id : Option ℕ) (udp : Udp) → IsValid udp → IsValid (unbind id udp)
unfolding unbind
unbind-IsValid none udp v = v
unbind-IsValid (some id) udp v = elim (Bool-cases (leb 8 id)) [
  | inl out ↦ rw out v
  | inr inside ↦ elim (Bool-cases (is_used (socket_at udp id))) [
    | inr off ↦ rw (inside, off) v
    | inl on ↦ rw (inside, on) (cleared-IsValid id udp v (ground (arith, v.slots)))
  ]
]

init-IsValid : IsValid (init boot)
unfolding init
init-IsValid = record {
  slots = refl;
  on = omega arith;
  ephemeral = (omega arith, omega arith);
  port = λ i u.
      let off : is_used (socket_at (init boot) i) ≡ false =
        ap is_used (get_or-replicate 8 i blank) in
      cc;
  distinct = λ i j u w ne.
      let off : is_used (socket_at (init boot) i) ≡ false =
        ap is_used (get_or-replicate 8 i blank) in
      cc;
}

-- What changes the sockets after `udp_init`.
pub data Call : Type 0 where
  bind_port : ℕ → ℕ → Call
  bind_any : ℕ → Call
  unbind_id : Option ℕ → Call

abbrev pub perform : Call → Udp → Udp
perform (bind_port port cb) udp = (bind port cb udp).1
perform (bind_any cb) udp = (auto_bind cb udp).1
perform (unbind_id id) udp = unbind id udp

abbrev pub perform_all : List Call → Udp → Udp
perform_all [] udp = udp
perform_all (c ∷ cs) udp = perform_all cs (perform c udp)

perform-IsValid : (c : Call) (udp : Udp) → IsValid udp → IsValid (perform c udp)
unfolding auto_bind
perform-IsValid (bind_port port cb) udp v = bind-IsValid port cb udp v
perform-IsValid (bind_any cb) udp v =
    auto_loop-IsValid (65536 - udp.next_ephemeral) udp.next_ephemeral cb udp
      (omega (arith, v.ephemeral)) (omega (arith, v.ephemeral)) v
perform-IsValid (unbind_id id) udp v = unbind-IsValid id udp v

perform_all-IsValid : (cs : List Call) (udp : Udp) → IsValid udp → IsValid (perform_all cs udp)
perform_all-IsValid [] udp v = v
perform_all-IsValid (c ∷ cs) udp v =
    perform_all-IsValid cs (perform c udp) (perform-IsValid c udp v)

-- After `udp_init`, whatever is bound and unbound in any order: the sockets in use have ports other
-- than 0, no two of them the same, and the next ephemeral port is one of 49152 to 65535.
pub ports-IsValid : (calls : List Call) → IsValid (perform_all calls (init boot))
ports-IsValid calls = perform_all-IsValid calls (init boot) init-IsValid
