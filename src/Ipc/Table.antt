-- ===== src/Ipc/Table.antt =====
-- The table of channels of `src/kern/arch/x86_64/ipc.rs`: its invariant, the abstract table that it
-- stands for, and what a change of one channel does to both.
use mathlib.Core.Path.{fun_ext}
use avaria.Prelude.{ℕ, ◌≤◌, ◌<◌, ◌≡◌, refl, sym, ap, ◌∙◌, arith, Bool}
use avaria.Prelude.{true, false, ◌==◌, ltb, leb, if◌then◌else◌, Bool-cases, inl, inr}
use avaria.Prelude.{length, length-set, get_or-set_self, get_or-set_ne}
use avaria.Prelude.{==→≡, ==→≢, lt→leb, ltb→lt, ltb→le, none}
use avaria.Prelude.{update, update_self}
use avaria.Ipc.{Message, Channel, Ipc, channel, put_channel, new_channel}
use avaria.Ipc.{send, recv, push, pop}
use avaria.Ipc.Rings.{queue, push_refines, pop_refines}
use avaria.Ipc.Rings
use avaria.Ipc.Service.{Service}

-- 32 channels with valid rings; the ids handed out are the first ones, and no other is active.
pub record IsValid (s : Ipc) : Type 0 where
  pub slots : length s.channels ≡ 32
  pub counted : s.next_channel ≤ 32
  pub rings : (i : ℕ) → Rings.IsValid (channel s i).ring
  pub fresh : (i : ℕ) → s.next_channel ≤ i → (channel s i).active ≡ false

-- The abstract table that a state stands for.
abbrev pub service : Ipc → Service
service s = record {
  next_id = s.next_channel;
  active = λ i. (channel s i).active;
  queue = λ i. queue (channel s i).ring;
}

pub channel-put :
    (s : Ipc) (i j : ℕ) (ch : Channel)
    → length s.channels ≡ 32
    → i < 32
    → channel (put_channel s i ch) j ≡ (if i == j then ch else channel s j)
channel-put s i j ch size h = elim (Bool-cases (i == j)) [
  | inl e ↦ rw (e, sym (==→≡ i j e)) (get_or-set_self s.channels i ch new_channel (omega arith))
  | inr e ↦ rw e (get_or-set_ne s.channels ch new_channel (==→≢ i j e))
]

pub active-if :
    (b : Bool) (x y : Channel) → (if b then x else y).active ≡ (if b then x.active else y.active)
active-if true x y = refl
active-if false x y = refl

pub queue-if :
    (b : Bool) (x y : Channel)
    → queue (if b then x else y).ring ≡ (if b then queue x.ring else queue y.ring)
queue-if true x y = refl
queue-if false x y = refl

module _ {s : Ipc} (v : IsValid s) (i : ℕ) (h : i < 32) (ch : Channel) where
  -- One channel changes, and the abstract table changes there.
  pub active-put :
      (λ j. (channel (put_channel s i ch) j).active) ≡ update (service s).active i ch.active
  active-put = fun_ext λ j.
      ap (λ (c : Channel). c.active) (channel-put s i j ch v.slots h)
      ∙ active-if (i == j) ch (channel s j)

  pub queue-put :
      (λ j. queue (channel (put_channel s i ch) j).ring)
      ≡ update (service s).queue i (queue ch.ring)
  queue-put = fun_ext λ j.
      ap (λ (c : Channel). queue c.ring) (channel-put s i j ch v.slots h)
      ∙ queue-if (i == j) ch (channel s j)

  pub rings-put :
      Rings.IsValid ch.ring → (j : ℕ) → Rings.IsValid (channel (put_channel s i ch) j).ring
  rings-put ok_ring j =
      rw (channel-put s i j ch v.slots h)
        (elim (Bool-cases (i == j)) [ inl e ↦ rw e ok_ring | inr e ↦ rw e (v.rings j) ])

  pub put-IsValid :
      Rings.IsValid ch.ring
      → (s.next_channel ≤ i → ch.active ≡ false)
      → IsValid (put_channel s i ch)
  put-IsValid ok_ring inactive = record {
    slots = length-set s.channels i ch ∙ v.slots;
    counted = v.counted;
    rings = rings-put ok_ring;
    fresh = λ j le. rw (channel-put s i j ch v.slots h) (elim (Bool-cases (i == j)) [
      | inl e ↦ rw e (inactive (rw (==→≡ i j e) le))
      | inr e ↦ rw e (v.fresh j le)
    ]);
  }

  -- The same channel with another ring.
  pub service-put_ring :
      ch.active ≡ (channel s i).active
      → service (put_channel s i ch)
        ≡ record (service s) { queue = update (service s).queue i (queue ch.ring) }
  service-put_ring same = λ k. record {
    next_id = s.next_channel;
    active =
        (active-put ∙ (ap (update (service s).active i) same ∙ update_self (service s).active i)) k;
    queue = queue-put k;
  }

module _ {s : Ipc} (v : IsValid s) where
  pub active-lt : (i : ℕ) → (channel s i).active ≡ true → (i < s.next_channel) × (i < 32)
  active-lt i on = elim (Bool-cases (ltb i s.next_channel)) [
    | inl e ↦ let lt = ltb→lt _ _ e in (lt, omega (arith, v.counted))
    | inr e ↦ let off = v.fresh i (ltb→le _ _ e) in cc
  ]

  pub send_active :
      (i : ℕ) (m : Message)
      → (channel s i).active ≡ true
      → send s i m ≡ (
        put_channel s i (record (channel s i) { ring = (push (channel s i).ring m).0 }),
        (push (channel s i).ring m).1,
      )
  unfolding send
  send_active i m on = rw (lt→leb 32 i (active-lt i on).1, on) refl

  pub recv_active :
      (i : ℕ)
      → (channel s i).active ≡ true
      → recv s i ≡ (
        put_channel s i (record (channel s i) { ring = (pop (channel s i).ring).0 }),
        (pop (channel s i).ring).1,
      )
  unfolding recv
  recv_active i on = rw (lt→leb 32 i (active-lt i on).1, on) refl

pub send_inactive :
    (s : Ipc) (i : ℕ) (m : Message) → (channel s i).active ≡ false → send s i m ≡ (s, false)
unfolding send
send_inactive s i m off = elim (Bool-cases (leb 32 i)) [
  | inl e ↦ rw e refl
  | inr e ↦ rw (e, off) refl
]

pub recv_inactive : (s : Ipc) (i : ℕ) → (channel s i).active ≡ false → recv s i ≡ (s, none)
unfolding recv
recv_inactive s i off = elim (Bool-cases (leb 32 i)) [
  | inl e ↦ rw e refl
  | inr e ↦ rw (e, off) refl
]
